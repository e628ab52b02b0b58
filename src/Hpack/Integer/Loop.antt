-- ===== src/Hpack/Integer/Loop.antt =====
-- The loop of `aws_hpack_encode_integer` and the rounds of `aws_hpack_decode_integer` that read it.
use aws_c_http.Prelude.{
  ℕ, zero, suc, ◌+◌, ◌*◌, ◌/◌, ◌%◌, ◌^◌, ◌≤◌, ◌<◌, ◌≡◌, ◌⊎◌, refl, sym, ap, ◌∙◌, inl, inr, true,
  false, Bool-cases, none, some, List, [], ◌∷◌, ◌++◌, ◌==◌, bit_and, arith,
}
use mathlib.Core.Path.{subst}
use mathlib.Core.List.{append-nil, append_assoc}
use native.Mathlib.Omega.{pow_step}
use aws_c_http.Prelude.Words.{add_u64, u64_mod}
use aws_c_http.Hpack.Integer.Codec.{
  Append, IsAppend, Encoded, encoded, append_failed, this_octet, encode_octets, integer_value,
  ProgressInteger, complete, decode_integer,
}
use aws_c_http.Hpack.Integer.Octets.{octet_value, octet_continues, split_seven}

abbrev pub value_at : ℕ → ProgressInteger
value_at s = record { state = integer_value; bit_count = s }

-- What a round of the decoder adds.
octet_added :
    (n s acc : ℕ)
    → acc + n % 128 * 2 ^ s < 2 ^ 64
    → add_u64 acc (bit_and (this_octet n) 127 * 2 ^ s % u64_mod) ≡ acc + n % 128 * 2 ^ s
octet_added n s acc h = rw (octet_value n) (omega arith)

-- The octet that ends an integer.
last_octet :
    (p n s acc : ℕ) (rest : List ℕ)
    → n / 128 ≡ 0
    → acc + n * 2 ^ s < 2 ^ 64
    → decode_integer p (value_at s) acc (this_octet n ∷ rest) ≡ complete (acc + n * 2 ^ s) rest
unfolding decode_integer
last_octet p n s acc rest z h =
    let low : n % 128 ≡ n = omega arith in
    let low' : n % 128 * 2 ^ s ≡ n * 2 ^ s = ap (λ m. m * 2 ^ s) low in
    let added = octet_added n s acc (omega arith) in
    rw added (ground (arith, octet_continues n, low'))

-- An octet that does not.
more_octet :
    (p n s acc : ℕ) (rest : List ℕ)
    → 0 < n / 128
    → s + 7 ≤ 57
    → acc + n * 2 ^ s < 2 ^ 64
    → decode_integer p (value_at s) acc (this_octet n ∷ rest)
      ≡ decode_integer p (value_at (s + 7)) (acc + n % 128 * 2 ^ s) rest
unfolding decode_integer
more_octet p n s acc rest z b h =
    let added = octet_added n s acc (omega (arith, split_seven n (2 ^ s))) in
    let count : (s + 7) % 256 ≡ s + 7 = omega arith in
    rw added (rw count (ground (arith, octet_continues n)))

seven_more : (s : ℕ) → 2 ^ (s + 7) ≡ 2 ^ s * 128
seven_more s =
    let e : 2 ^ (s + 7) ≡ 2 ^ (suc (suc (suc (suc (suc (suc (suc s))))))) =
      ap (◌^◌ 2) (omega arith) in
    omega (
      arith,
      e,
      pow_step 2 s,
      pow_step 2 (suc s),
      pow_step 2 (suc (suc s)),
      pow_step 2 (suc (suc (suc s))),
      pow_step 2 (suc (suc (suc (suc s)))),
      pow_step 2 (suc (suc (suc (suc (suc s))))),
      pow_step 2 (suc (suc (suc (suc (suc (suc s)))))),
    )

one_octet_less : (n i : ℕ) → n < 128 ^ suc (suc i) → n / 128 < 128 ^ suc i
one_octet_less n i h = omega (arith, pow_step 128 (suc i))

zero_or_suc : (i : ℕ) → (i ≡ 0) ⊎ ((i' : ℕ) × (i ≡ suc i'))
zero_or_suc zero = inl refl
zero_or_suc (suc i) = inr (i, refl)

one_octet : (n i : ℕ) → n < 128 ^ suc i → i ≡ 0 → (n / 128 == 0) ≡ true
one_octet n i h e = let b : n < 128 ^ 1 = subst (λ k. n < 128 ^ suc k) e h in ground arith

-- What follows an octet is encoded behind it.
module _ (append : Append) (is_append : IsAppend append) where
  -- The loop fails, where memory runs out, or ends with octets that the decoder reads as the number.
  unfoldable pub Reads : ℕ → ℕ → ℕ → ℕ → List ℕ → List ℕ → Encoded → Type 0
  Reads p n s acc out rest e =
      ((code : List ℕ) × (e ≡ append_failed (out ++ code)))
      ⊎ ((code : List ℕ) × (e ≡ encoded (out ++ code))
          × (decode_integer p (value_at s) acc (code ++ rest) ≡ complete (acc + n * 2 ^ s) rest))

  full_stops :
      (fuel n : ℕ) (out : List ℕ)
      → append out (this_octet n) ≡ none
      → encode_octets append (suc fuel) n out ≡ append_failed out
  unfolding encode_octets
  full_stops fuel n out e = rw (encode_octets, e)

  last_stops :
      (fuel n : ℕ) (out out' : List ℕ)
      → append out (this_octet n) ≡ some out'
      → (n / 128 == 0) ≡ true
      → encode_octets append (suc fuel) n out ≡ encoded out'
  unfolding encode_octets
  last_stops fuel n out out' e z = rw (encode_octets, e, z)

  more_goes_on :
      (fuel n : ℕ) (out out' : List ℕ)
      → append out (this_octet n) ≡ some out'
      → (n / 128 == 0) ≡ false
      → encode_octets append (suc fuel) n out ≡ encode_octets append fuel (n / 128) out'
  unfolding encode_octets
  more_goes_on fuel n out out' e z = rw (encode_octets, e, z)

  -- The rest of the octets, behind the one written.
  Reads-behind :
      (p n s acc : ℕ) (out rest : List ℕ) (fuel : ℕ)
      → append out (this_octet n) ≡ some (out ++ (this_octet n ∷ []))
      → (n / 128 == 0) ≡ false
      → s + 14 ≤ 63
      → acc + n * 2 ^ s < 2 ^ 64
      → Reads p
          (n / 128)
          (s + 7)
          (acc + n % 128 * 2 ^ s)
          (out ++ (this_octet n ∷ []))
          rest
          (encode_octets append fuel (n / 128) (out ++ (this_octet n ∷ [])))
      → Reads p n s acc out rest (encode_octets append (suc fuel) n out)
  unfolding Reads
  Reads-behind p n s acc out rest fuel e z hs h (inl (code, ih)) = inl (
    this_octet n ∷ code,
    more_goes_on fuel n out _ e z
        ∙ ih
        ∙ ap append_failed (append_assoc out (this_octet n ∷ []) code),
  )
  Reads-behind p n s acc out rest fuel e z hs h (inr (code, ih, read)) =
      let value : acc + n % 128 * 2 ^ s + n / 128 * 2 ^ (s + 7) ≡ acc + n * 2 ^ s =
        omega (arith, split_seven n (2 ^ s), ap (◌*◌ (n / 128)) (seven_more s)) in
      inr (
        this_octet n ∷ code,
        more_goes_on fuel n out _ e z ∙ ih ∙ ap encoded (append_assoc out (this_octet n ∷ []) code),
        more_octet p n s acc (code ++ rest) (ground arith) (omega arith) h
            ∙ read
            ∙ ap (λ m. complete m rest) value,
      )

  pub octets_read :
      (i fuel p n s acc : ℕ) (out rest : List ℕ)
      → n < 128 ^ suc i
      → s + 7 * suc i ≤ 63
      → suc i ≤ fuel
      → acc + n * 2 ^ s < 2 ^ 64
      → Reads p n s acc out rest (encode_octets append fuel n out)
  unfolding Reads
  octets_read i zero p n s acc out rest hn hs hf h = absurd (omega arith)
  octets_read i (suc fuel) p n s acc out rest hn hs hf h = elim (is_append out (this_octet n)) [
    | inl e ↦ inl ([], full_stops fuel n out e ∙ ap append_failed (sym (append-nil out)))
    | inr e ↦ elim (Bool-cases (n / 128 == 0)) [
      | inl z ↦ inr (
        this_octet n ∷ [],
        last_stops fuel n out _ e z,
        last_octet p n s acc rest (ground arith) h,
      )
      | inr z ↦ elim (zero_or_suc i) [
        | inl e0 ↦ absurd (ground (arith, one_octet n i hn e0))
        | inr (i', e') ↦
            let hn' : n < 128 ^ suc (suc i') = subst (λ k. n < 128 ^ suc k) e' hn in
            let value : acc + n % 128 * 2 ^ s + n / 128 * 2 ^ (s + 7) ≡ acc + n * 2 ^ s =
              omega (arith, split_seven n (2 ^ s), ap (◌*◌ (n / 128)) (seven_more s)) in
            Reads-behind p n s acc out rest fuel e z (omega arith) h (
              octets_read i' fuel p (n / 128) (s + 7) (acc + n % 128 * 2 ^ s)
                (out ++ (this_octet n ∷ [])) rest (one_octet_less n i' hn') (omega arith)
                (omega arith) (omega arith))
      ]
    ]
  ]
