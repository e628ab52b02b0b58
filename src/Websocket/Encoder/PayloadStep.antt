-- ===== src/Websocket/Encoder/PayloadStep.antt =====
-- The state function of the encoder that writes the payload.
use aws_c_http.Prelude.{
  ℕ, ◌+◌, ◌-◌, ◌≤◌, ◌<◌, ◌≡◌, refl, sym, ap, ◌∙◌, inl, inr, false, le_or_lt, List, [], ◌++◌, length,
  length-zero, arith, length-append, take-length_append, drop-length_append,
}
use mathlib.Core.List.{append_assoc}
use mathlib.Core.Path.{subst}
use aws_c_http.Prelude.Words.{u64_max}
use aws_c_http.Websocket.Frame.{unmask}
use aws_c_http.Websocket.Mask.{unmask-append, length-unmask, unmask-nil}
use aws_c_http.Websocket.Encoder.Types.{ByteBuf, len, Encoder, PayloadFn, payload, done}
use aws_c_http.Websocket.Encoder.Steps.{state_payload, account_payload}
use aws_c_http.Websocket.Encoder.Pending.{pending, Source, InProgress}
use aws_c_http.Websocket.Encoder.Conserve.{Step, stays}

module _ {U : Type 0} (stream : PayloadFn U) where
  pub payload_streamed :
      (e : Encoder U) (out : ByteBuf) (piece : List ℕ) (u : U)
      → stream out e.user_data ≡ (record out { contents = out.contents ++ piece }, u, false)
      → len out < out.capacity
      → e.state_bytes_processed + length piece ≤ u64_max
      → state_payload stream e out
        ≡ account_payload
            (record e { user_data = u })
            (length piece)
            (record out { contents = out.contents ++ unmask e.frame e.state_bytes_processed piece })
  unfolding state_payload
  payload_streamed e out piece u q room small =
      let grown : length (out.contents ++ piece) - len out ≡ length piece =
        omega (arith, length-append out.contents piece) in
      rw (q, take-length_append out.contents piece, drop-length_append out.contents piece, grown)
        (ground (arith, length-append out.contents piece))

module _ {U : Type 0} {stream : PayloadFn U} (source : Source stream) where
  pub payload-Step : Step source payload (state_payload stream)
  payload-Step e out s v p w =
      let k : ℕ = e.state_bytes_processed in
      let u : U = e.user_data in
      let piece : List ℕ = source.piece out u in
      let rest : List ℕ = source.remaining (source.left out u) in
      let parts : length (source.remaining u) ≡ length piece + length rest =
        ap length (source.splits out u) ∙ length-append piece rest in
      let room_left = source.within out u w in
      let masked : List ℕ = unmask e.frame k piece in
      let fits : length (out.contents ++ masked) ≤ out.capacity =
        omega (arith, length-append out.contents masked, length-unmask e.frame k piece) in
      let written : unmask e.frame k (source.remaining u)
          ≡ masked ++ unmask e.frame (k + length piece) rest =
        ap (unmask e.frame k) (source.splits out u) ∙ unmask-append e.frame k piece rest in
      elim (le_or_lt out.capacity (len out)) [
        | inl full ↦ stays source payload e out _ s v w (unfold state_payload in ground arith)
        | inr room ↦
            let q =
              payload_streamed stream e out piece (source.left out u) (source.streams out u) room
                (omega arith) in
            elim (le_or_lt e.frame.payload_length (k + length piece)) [
              | inl last ↦
                  let none_left : rest ≡ [] = length-zero rest (omega arith) in
                  record {
                    e' = record e {
                      user_data = source.left out u;
                      state_bytes_processed = k + length piece;
                      state = done;
                    };
                    out' = record out { contents = out.contents ++ masked };
                    returns = q ∙ unfold account_payload in ground arith;
                    valid = record {
                      in_progress = v.in_progress;
                      key = v.key;
                      fits = v.fits;
                      progress = tt;
                    };
                    same_frame = refl;
                    same_capacity = refl;
                    within = fits;
                    bytes =
                        append_assoc out.contents masked []
                        ∙ ap (λ z. out.contents ++ z)
                            (ap (◌++◌ masked) (
                                sym (
                                  ap (unmask e.frame (k + length piece)) none_left
                                  ∙ unmask-nil e.frame _))
                              ∙ sym written);
                  }
              | inr more ↦ record {
                e' = record e {
                  user_data = source.left out u;
                  state_bytes_processed = k + length piece;
                };
                out' = record out { contents = out.contents ++ masked };
                returns = q ∙ unfold account_payload in ground arith;
                valid = record {
                  in_progress = v.in_progress;
                  key = v.key;
                  fits = v.fits;
                  progress =
                      subst (λ t. InProgress t e.frame (k + length piece) rest) (sym s)
                        (omega arith, more);
                };
                same_frame = refl;
                same_capacity = refl;
                within = fits;
                bytes =
                    ap (λ t. (out.contents ++ masked) ++ pending t e.frame (k + length piece) rest)
                      s
                    ∙ append_assoc out.contents masked (unmask e.frame (k + length piece) rest)
                    ∙ ap (◌++◌ out.contents) (sym written);
              }
            ]
      ]
