-- ===== src/Http1/Decoder/Outcomes.antt =====
-- What holds of the decoder that a state function of source/h1_decoder.c leaves.
use aws_c_http.Prelude.{◌≡◌, refl, inl, inr, Bool-cases, Bool, true, false, if◌then◌else◌, arith}
use mathlib.Core.Path.{subst}
use aws_c_http.Http1.Decoder.Types.{Decoder, Error, Outcome, next, fail, and_then, call}

next_inj : {U : Type 0} {d d' : Decoder U} → next d ≡ next d' → d ≡ d'
next_inj e = cc

module _ {U : Type 0} where
  -- A predicate of the decoder that a state function leaves, where it succeeds.
  pub record Leaves (P : Decoder U → Type 0) (o : Outcome U) : Type 0 where
    pub left : (d : Decoder U) → o ≡ next d → P d

  pub next-Leaves : {P : Decoder U → Type 0} (d : Decoder U) → P d → Leaves P (next d)
  next-Leaves {P} d p = record { left = λ d' e. subst P (next_inj e) p }

  pub fail-Leaves : {P : Decoder U → Type 0} (e : Error) (d : Decoder U) → Leaves P (fail e d)
  fail-Leaves e d = record { left = λ d' s. absurd (ground (arith, s)) }

  pub and_then-Leaves :
      {P Q : Decoder U → Type 0} {o : Outcome U} {f : Decoder U → Outcome U}
      → Leaves P o
      → ((d : Decoder U) → P d → Leaves Q (f d))
      → Leaves Q (and_then o f)
  and_then-Leaves {o = next d} p g = g d (p.left d refl)
  and_then-Leaves {o = fail e d} p g = fail-Leaves e d

  -- A callback changes nothing but the user data.
  pub call-Leaves :
      {P : Decoder U → Type 0} (f : U → U × Bool) (d : Decoder U)
      → ((u : U) → P (record d { user_data = u }))
      → Leaves P (call f d)
  unfolding call
  call-Leaves f d p = elim (Bool-cases (f d.user_data).1) [
    | inl e ↦ rw e (fail-Leaves _ _)
    | inr e ↦ rw e (next-Leaves _ (p (f d.user_data).0))
  ]

  pub if-Leaves :
      (P : Decoder U → Type 0) (b : Bool) (o o' : Outcome U)
      → (b ≡ true → Leaves P o)
      → (b ≡ false → Leaves P o')
      → Leaves P (if b then o else o')
  if-Leaves P true o o' p q = p refl
  if-Leaves P false o o' p q = q refl
