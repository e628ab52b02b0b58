-- ===== src/Websocket/Encoder/Conserve.antt =====
-- Each state function of the encoder moves bytes from what is pending to the buffer, whatever room
-- the buffer has.
use aws_c_http.Prelude.{
  ℕ, ◌≤◌, ◌≡◌, refl, sym, ap, ◌∙◌, inl, inr, Bool-cases, le_or_lt, List, ◌++◌, length-zero, arith,
}
use aws_c_http.Websocket.Frame.{unmask}
use aws_c_http.Websocket.Mask.{unmask-nil}
use aws_c_http.Websocket.Encoder.Types.{
  ByteBuf, len, State, Encoder, PayloadFn, Outcome, next, init, opcode_byte, masking_key_check,
  masking_key, payload_check, payload, done,
}
use aws_c_http.Websocket.Encoder.Steps.{state_init, state_masking_key_check, state_payload_check}
use aws_c_http.Websocket.Encoder.Pending.{pending, Source, InProgress, IsValid}

module _ {U : Type 0} {stream : PayloadFn U} (source : Source stream) where
  abbrev pub pending_of : Encoder U → List ℕ
  pending_of e = pending e.state e.frame e.state_bytes_processed (source.remaining e.user_data)

  -- A step that keeps the frame, the capacity, and all bytes, written or pending.
  pub record Conserves (s : State) (e : Encoder U) (out : ByteBuf) (o : Outcome U) : Type 0 where
    pub e' : Encoder U
    pub out' : ByteBuf
    pub returns : o ≡ next e' out'
    pub valid : IsValid source.remaining e'
    pub same_frame : e'.frame ≡ e.frame
    pub same_capacity : out'.capacity ≡ out.capacity
    pub within : len out' ≤ out'.capacity
    pub bytes :
        out'.contents ++ pending_of e'
        ≡ out.contents ++ pending s e.frame e.state_bytes_processed (source.remaining e.user_data)

  abbrev pub Step : State → (Encoder U → ByteBuf → Outcome U) → Type 0
  Step s f =
      (e : Encoder U) (out : ByteBuf)
      → e.state ≡ s
      → IsValid source.remaining e
      → InProgress s e.frame e.state_bytes_processed (source.remaining e.user_data)
      → len out ≤ out.capacity
      → Conserves s e out (f e out)

  -- A step that changes nothing.
  pub stays :
      (s : State) (e : Encoder U) (out : ByteBuf) (o : Outcome U)
      → e.state ≡ s
      → IsValid source.remaining e
      → len out ≤ out.capacity
      → o ≡ next e out
      → Conserves s e out o
  stays s e out o p v w r = record {
    e' = e;
    out' = out;
    returns = r;
    valid = v;
    same_frame = refl;
    same_capacity = refl;
    within = w;
    bytes =
        ap
          (λ t.
            out.contents
            ++ pending t e.frame e.state_bytes_processed (source.remaining e.user_data))
          p;
  }

  pub init-Step : Step init state_init
  unfolding state_init
  init-Step e out s v p w = record {
    e' = record e { state = opcode_byte };
    out' = out;
    returns = ground arith;
    valid = record { in_progress = v.in_progress; key = v.key; fits = v.fits; progress = p };
    same_frame = refl;
    same_capacity = refl;
    within = w;
    bytes = refl;
  }

  pub masking_key_check-Step : Step masking_key_check state_masking_key_check
  unfolding state_masking_key_check
  masking_key_check-Step e out s v p w = elim (Bool-cases e.frame.masked) [
    | inl masked ↦ record {
      e' = record e { state_bytes_processed = 0; state = masking_key };
      out' = out;
      returns = ground arith;
      valid = record {
        in_progress = v.in_progress;
        key = v.key;
        fits = v.fits;
        progress = (p, omega arith, masked);
      };
      same_frame = refl;
      same_capacity = refl;
      within = w;
      bytes = ground arith;
    }
    | inr unmasked ↦ record {
      e' = record e { state = payload_check };
      out' = out;
      returns = ground arith;
      valid = record { in_progress = v.in_progress; key = v.key; fits = v.fits; progress = p };
      same_frame = refl;
      same_capacity = refl;
      within = w;
      bytes = ground arith;
    }
  ]

  pub payload_check-Step : Step payload_check state_payload_check
  unfolding state_payload_check
  payload_check-Step e out s v p w = elim (le_or_lt e.frame.payload_length 0) [
    | inl empty ↦ record {
      e' = record e { state = done };
      out' = out;
      returns = ground arith;
      valid = record { in_progress = v.in_progress; key = v.key; fits = v.fits; progress = tt };
      same_frame = refl;
      same_capacity = refl;
      within = w;
      bytes = ap (◌++◌ out.contents) (
          sym (
            ap (unmask e.frame 0) (length-zero (source.remaining e.user_data) (omega arith))
            ∙ unmask-nil e.frame 0));
    }
    | inr more ↦ record {
      e' = record e { state_bytes_processed = 0; state = payload };
      out' = out;
      returns = ground arith;
      valid = record {
        in_progress = v.in_progress;
        key = v.key;
        fits = v.fits;
        progress = (omega arith, more);
      };
      same_frame = refl;
      same_capacity = refl;
      within = w;
      bytes = refl;
    }
  ]

  pub returned :
      (s : State) (e : Encoder U) (out : ByteBuf) (o : Outcome U) (c : Conserves s e out o)
      → Conserves s e out (next c.e' c.out')
  returned s e out o c = record {
    e' = c.e';
    out' = c.out';
    returns = refl;
    valid = c.valid;
    same_frame = c.same_frame;
    same_capacity = c.same_capacity;
    within = c.within;
    bytes = c.bytes;
  }

  pub chained :
      (s : State) (e : Encoder U) (out : ByteBuf) (o o' : Outcome U) (c : Conserves s e out o)
      → Conserves c.e'.state c.e' c.out' o'
      → Conserves s e out o'
  chained s e out o o' c c' = record {
    e' = c'.e';
    out' = c'.out';
    returns = c'.returns;
    valid = c'.valid;
    same_frame = c'.same_frame ∙ c.same_frame;
    same_capacity = c'.same_capacity ∙ c.same_capacity;
    within = c'.within;
    bytes = c'.bytes ∙ c.bytes;
  }
