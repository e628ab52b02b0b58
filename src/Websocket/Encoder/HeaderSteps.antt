-- ===== src/Websocket/Encoder/HeaderSteps.antt =====
-- The state functions of the encoder that write parts of the frame's header.
use aws_c_http.Prelude.{
  ℕ, ◌+◌, ◌-◌, ◌≤◌, ◌<◌, ◌≡◌, refl, sym, ap, ◌∙◌, inl, inr, true, false, Bool-cases, le_or_lt, List,
  [], ◌∷◌, ◌++◌, ltb, length, drop, take, drop-drop, arith, length-append, length-take, length-drop,
  take-append-drop,
}
use mathlib.Core.List.{append_assoc}
use mathlib.Core.Path.{subst}
use aws_c_http.Prelude.Words.{add_u64}
use aws_c_http.Websocket.Frame.{Frame, unmask, min_2byte}
use aws_c_http.Websocket.Encoder.Types.{
  ByteBuf, len, Write, IsWrite, State, Encoder, PayloadFn, next, opcode_byte, length_byte,
  extended_length, masking_key_check, masking_key, payload_check,
}
use aws_c_http.Websocket.Encoder.Steps.{
  pack_opcode_byte, pack_length_byte, network_bytes, state_opcode_byte, state_length_byte,
  write_rest, state_extended_length, state_masking_key,
}
use aws_c_http.Websocket.Encoder.Pending.{extension, key_bytes, pending, Source, InProgress}
use aws_c_http.Websocket.Encoder.Conserve.{Step, stays}

-- Writing `n` more bytes of `part`, of which `k` are written.
partly_written :
    (written part after : List ℕ) (k n k' : ℕ)
    → k' ≡ k + n
    → (written ++ take n (drop k part)) ++ (drop k' part ++ after)
      ≡ written ++ (drop k part ++ after)
partly_written written part after k n k' e =
    append_assoc written (take n (drop k part)) (drop k' part ++ after)
    ∙ ap (◌++◌ written) (
        sym (append_assoc (take n (drop k part)) (drop k' part) after)
        ∙ ap (λ z. z ++ after)
            (ap (λ j. take n (drop k part) ++ drop j part) e
              ∙ ap (◌++◌ (take n (drop k part))) (sym (drop-drop k n part))
              ∙ take-append-drop n (drop k part)))

extension_small : (f : Frame) → ltb f.payload_length min_2byte ≡ true → extension f ≡ []
extension_small f small = rw small

extension_large :
    (f : Frame) → ltb f.payload_length min_2byte ≡ false → extension f ≡ network_bytes f
extension_large f large = rw large

length-network_bytes_pos : (f : Frame) → 0 < length (network_bytes f)
unfolding network_bytes
length-network_bytes_pos f = ground arith

length-network_bytes_le : (f : Frame) → length (network_bytes f) ≤ 8
unfolding network_bytes
length-network_bytes_le f = ground arith

-- What `write_rest` does, by whether the buffer has room.
module _ {U : Type 0} (write : Write) (writes : IsWrite write) where
  pub write_rest_fits :
      (after : State) (e : Encoder U) (left : List ℕ) (out : ByteBuf)
      → len out + length left ≤ out.capacity
      → write_rest write after e left out
        ≡ next
            (record e {
              state_bytes_processed = add_u64 e.state_bytes_processed (length left);
              state = after;
            })
            (record out { contents = out.contents ++ left })
  unfolding write_rest
  write_rest_fits after e left out room = let q = writes.write_fits out left room in ground arith

  write_rest_full :
      (after : State) (e : Encoder U) (left : List ℕ) (out : ByteBuf)
      → len out ≤ out.capacity
      → out.capacity < len out + length left
      → let space = out.capacity - len out in
        write_rest write after e left out
        ≡ next
            (record e { state_bytes_processed = add_u64 e.state_bytes_processed space })
            (record out { contents = out.contents ++ take space left })
  unfolding write_rest
  write_rest_full after e left out w full =
      let space : ℕ = out.capacity - len out in
      let short : length (take space left) ≡ space = rw length-take (omega arith) in
      let q = writes.write_fits out (take space left) (omega arith) in ground arith

module _ {U : Type 0} (write : Write) (writes : IsWrite write) {stream : PayloadFn U}
    (source : Source stream) where
  pub opcode_byte-Step : Step source opcode_byte (state_opcode_byte write)
  unfolding state_opcode_byte
  opcode_byte-Step e out s v p w =
      let b : ℕ = pack_opcode_byte e.frame in
      elim (le_or_lt (len out + 1) out.capacity) [
        | inl room ↦ record {
          e' = record e { state = length_byte };
          out' = record out { contents = out.contents ++ (b ∷ []) };
          returns = rw (writes.write_fits out (b ∷ []) room);
          valid = record { in_progress = v.in_progress; key = v.key; fits = v.fits; progress = p };
          same_frame = refl;
          same_capacity = refl;
          within = omega (arith, length-append out.contents (b ∷ []));
          bytes = append_assoc out.contents (b ∷ []) _;
        }
        | inr full ↦
            stays source opcode_byte e out _ s v w (rw (writes.write_full out (b ∷ []) full))
      ]

  pub length_byte-Step : Step source length_byte (state_length_byte write)
  unfolding state_length_byte
  length_byte-Step e out s v p w =
      let b : ℕ = pack_length_byte e.frame in
      let tail : List ℕ = key_bytes e.frame ++ unmask e.frame 0 (source.remaining e.user_data) in
      elim (le_or_lt (len out + 1) out.capacity) [
        | inr full ↦
            stays source length_byte e out _ s v w (rw (writes.write_full out (b ∷ []) full))
        | inl room ↦ elim (Bool-cases (ltb e.frame.payload_length min_2byte)) [
          | inl small ↦ record {
            e' = record e { state = masking_key_check };
            out' = record out { contents = out.contents ++ (b ∷ []) };
            returns = rw (writes.write_fits out (b ∷ []) room, small);
            valid = record {
              in_progress = v.in_progress;
              key = v.key;
              fits = v.fits;
              progress = p;
            };
            same_frame = refl;
            same_capacity = refl;
            within = omega (arith, length-append out.contents (b ∷ []));
            bytes =
                append_assoc out.contents (b ∷ []) ([] ++ tail)
                ∙ ap (λ x. out.contents ++ (b ∷ (x ++ tail))) (sym (extension_small e.frame small));
          }
          | inr large ↦ record {
            e' = record e { state_bytes_processed = 0; state = extended_length };
            out' = record out { contents = out.contents ++ (b ∷ []) };
            returns = rw (writes.write_fits out (b ∷ []) room, large);
            valid = record {
              in_progress = v.in_progress;
              key = v.key;
              fits = v.fits;
              progress = (p, length-network_bytes_pos e.frame, ground arith);
            };
            same_frame = refl;
            same_capacity = refl;
            within = omega (arith, length-append out.contents (b ∷ []));
            bytes =
                append_assoc out.contents (b ∷ []) (network_bytes e.frame ++ tail)
                ∙ ap (λ x. out.contents ++ (b ∷ (x ++ tail))) (sym (extension_large e.frame large));
          }
        ]
      ]

  pub extended_length-Step : Step source extended_length (state_extended_length write)
  unfolding state_extended_length
  extended_length-Step e out s v p w =
      let k : ℕ = e.state_bytes_processed in
      let left : List ℕ = drop k (network_bytes e.frame) in
      let size : length left ≡ length (network_bytes e.frame) - k =
        length-drop k (network_bytes e.frame) in
      let bound = length-network_bytes_le e.frame in
      elim (le_or_lt (len out + length left) out.capacity) [
        | inl room ↦ record {
          e' = record e {
            state_bytes_processed = add_u64 k (length left);
            state = masking_key_check;
          };
          out' = record out { contents = out.contents ++ left };
          returns = write_rest_fits write writes masking_key_check e left out room;
          valid = record {
            in_progress = v.in_progress;
            key = v.key;
            fits = v.fits;
            progress = p.0;
          };
          same_frame = refl;
          same_capacity = refl;
          within = omega (arith, length-append out.contents left);
          bytes = append_assoc out.contents left _;
        }
        | inr full ↦
            let space : ℕ = out.capacity - len out in
            let on : add_u64 k space ≡ k + space = omega arith in
            record {
              e' = record e { state_bytes_processed = add_u64 k space };
              out' = record out { contents = out.contents ++ take space left };
              returns = write_rest_full write writes masking_key_check e left out w full;
              valid = record {
                in_progress = v.in_progress;
                key = v.key;
                fits = v.fits;
                progress =
                    subst
                      (λ t. InProgress t e.frame (add_u64 k space) (source.remaining e.user_data))
                      (sym s) (p.0, omega arith, p.2);
              };
              same_frame = refl;
              same_capacity = refl;
              within =
                  omega
                    (arith, length-append out.contents (take space left), length-take space left);
              bytes =
                  ap
                    (λ t.
                      (out.contents ++ take space left)
                      ++ pending t e.frame (add_u64 k space) (source.remaining e.user_data))
                    s
                  ∙ partly_written out.contents (network_bytes e.frame) _ k space (add_u64 k space)
                      on;
            }
      ]

  pub masking_key-Step : Step source masking_key (state_masking_key write)
  unfolding state_masking_key
  masking_key-Step e out s v p w =
      let k : ℕ = e.state_bytes_processed in
      let left : List ℕ = drop k e.frame.masking_key in
      let size : length left ≡ length e.frame.masking_key - k = length-drop k e.frame.masking_key in
      elim (le_or_lt (len out + length left) out.capacity) [
        | inl room ↦ record {
          e' = record e { state_bytes_processed = add_u64 k (length left); state = payload_check };
          out' = record out { contents = out.contents ++ left };
          returns = write_rest_fits write writes payload_check e left out room;
          valid = record {
            in_progress = v.in_progress;
            key = v.key;
            fits = v.fits;
            progress = p.0;
          };
          same_frame = refl;
          same_capacity = refl;
          within = omega (arith, length-append out.contents left);
          bytes = append_assoc out.contents left _;
        }
        | inr full ↦
            let space : ℕ = out.capacity - len out in
            let on : add_u64 k space ≡ k + space = omega (arith, v.key) in
            record {
              e' = record e { state_bytes_processed = add_u64 k space };
              out' = record out { contents = out.contents ++ take space left };
              returns = write_rest_full write writes payload_check e left out w full;
              valid = record {
                in_progress = v.in_progress;
                key = v.key;
                fits = v.fits;
                progress =
                    subst
                      (λ t. InProgress t e.frame (add_u64 k space) (source.remaining e.user_data))
                      (sym s) (p.0, omega (arith, v.key), p.2);
              };
              same_frame = refl;
              same_capacity = refl;
              within =
                  omega
                    (arith, length-append out.contents (take space left), length-take space left);
              bytes =
                  ap
                    (λ t.
                      (out.contents ++ take space left)
                      ++ pending t e.frame (add_u64 k space) (source.remaining e.user_data))
                    s
                  ∙ partly_written out.contents e.frame.masking_key _ k space (add_u64 k space) on;
            }
      ]
