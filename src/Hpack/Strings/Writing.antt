-- ===== src/Hpack/Strings/Writing.antt =====
-- What `aws_hpack_encode_string` of source/hpack_encoder.c writes.
use aws_c_http.Prelude.{
  ℕ, same, ◌/◌, ◌^◌, ◌<◌, ◌≡◌, ◌⊎◌, refl, sym, ap, ◌∙◌, inl, inr, Bool, true, false, not,
  Bool-cases, List, [], ◌++◌, ltb, ◌==◌, if◌then◌else◌, length, take, length-zero, bit_and, bit_or,
  arith,
}
use aws_c_http.Prelude.Bits.{passes_below, passes_below_at}
use mathlib.Core.List.{append-nil}
use aws_c_http.Hpack.Integer.Codec.{Encoded, encoded, append_failed}
use aws_c_http.Hpack.Strings.Codec.{
  HuffmanMode, Coder, use_huffman, encode_data, encode_failed, encode_behind_length,
}
use aws_c_http.Hpack.Strings.Reading.{IsCoder, StandsFor}

-- The first bit of a length says whether the value has Huffman codes.
abbrev pub starting_bits : Bool → ℕ
starting_bits coded = if coded then 0x80 else 0

flag_test : Bool → ℕ → Bool
flag_test coded x = same (not (bit_or (starting_bits coded) x / 128 == 0)) coded

flag_table : (coded : Bool) → passes_below 128 (flag_test coded) ≡ true
unfolding passes_below flag_test
flag_table true = refl
flag_table false = refl

same-true : (a b : Bool) → same a b ≡ true → a ≡ b
same-true true b e = sym e
same-true false true e = absurd (ground (arith, e))
same-true false false e = refl

pub first_flag :
    (coded : Bool) (x : ℕ) → x < 128 → not (bit_or (starting_bits coded) x / 128 == 0) ≡ coded
unfolding flag_test
first_flag coded x h =
    same-true _ coded (passes_below_at 128 (flag_test coded) x (flag_table coded) h)

pub starting :
    (coded : Bool) → (starting_bits coded < 256) × (bit_and (starting_bits coded) 127 ≡ 0)
starting true = (omega arith, refl)
starting false = (omega arith, refl)

module _ {H D : Type 0} (k : Coder H D) where
  -- The value of a string was written: a failure leaves the output as it was.
  abbrev ValueWritten : Bool → H → List ℕ → List ℕ → List ℕ → ℕ → H × Encoded → Type 0
  ValueWritten coded h s output out n r =
      (h' : H) × ((r ≡ (h', append_failed (take (length output) out)))
        ⊎ ((bytes : List ℕ) × (r ≡ (h', encoded (out ++ bytes)))
            × (length bytes ≡ n)
            × (0 < length bytes → StandsFor k coded bytes s)))

  plain_written :
      (h : H) (s output out : List ℕ)
      → IsCoder k h s
      → ValueWritten false h s output out (length s) (encode_data k false h s (length s) output out)
  unfolding encode_data
  plain_written h s output out c =
      (h, inr (s, rw (encode_data, c.appends out s) refl, refl, λ b. refl))

  coded_written :
      (h : H) (s output out : List ℕ) (n : ℕ)
      → IsCoder k h s
      → n ≡ k.encoded_length h s
      → ValueWritten true h s output out n (encode_data k true h s n output out)
  unfolding encode_data encode_failed
  coded_written h s output out n c e = elim (Bool-cases (not (k.reserve out n))) [
    | inl full ↦ (k.reset_encoder h, inl (rw full refl))
    | inr room ↦ elim (c.encodes out) [
      | inl failed ↦ (k.reset_encoder (k.encode h s out).0, inl (rw room (rw failed refl)))
      | inr (bytes, written, long, read) ↦
          ((k.encode h s out).0, inr (bytes, rw room (rw written refl), long ∙ sym e, λ b. read))
    ]
  ]

  -- `str_length`
  abbrev pub value_size : HuffmanMode → H → List ℕ → ℕ
  value_size mode h s = if use_huffman k mode h s then k.encoded_length h s else length s

  -- With nothing to write, nothing is written.
  nothing_written :
      (coded : Bool) (h : H) (s output out : List ℕ) (n : ℕ)
      → ltb 0 n ≡ false
      → ValueWritten coded h s output out n
          (encode_behind_length k coded h s n output (encoded out))
  unfolding encode_behind_length
  nothing_written coded h s output out n e = (
    h,
    inr (
      [],
      rw e (ap (λ z. (h, encoded z)) (sym (append-nil out))),
      ground arith,
      λ b. absurd (omega arith),
    ),
  )

  value_written :
      (coded : Bool) (h : H) (s output out : List ℕ) (n : ℕ)
      → ltb 0 n ≡ true
      → ValueWritten coded h s output out n (encode_data k coded h s n output out)
      → ValueWritten coded h s output out n
          (encode_behind_length k coded h s n output (encoded out))
  unfolding encode_behind_length
  value_written coded h s output out n e w = rw e w

  data_written :
      (coded : Bool) (h : H) (s output out : List ℕ)
      → IsCoder k h s
      → ValueWritten coded h s output out
          (if coded then k.encoded_length h s else length s)
          (encode_data k coded h s (if coded then k.encoded_length h s else length s) output out)
  data_written true h s output out c = coded_written h s output out (k.encoded_length h s) c refl
  data_written false h s output out c = plain_written h s output out c

  pub string_written :
      (coded : Bool) (h : H) (s output out : List ℕ)
      → IsCoder k h s
      → ValueWritten coded h s output out (if coded then k.encoded_length h s else length s) (
          encode_behind_length k coded h s
            (if coded then k.encoded_length h s else length s)
            output
            (encoded out))
  string_written coded h s output out c =
      let n : ℕ = if coded then k.encoded_length h s else length s in
      elim (Bool-cases (ltb 0 n)) [
        | inl e ↦ value_written coded h s output out n e (data_written coded h s output out c)
        | inr e ↦ nothing_written coded h s output out n e
      ]

  pub none_only :
      (coded : Bool) (h : H) (s : List ℕ)
      → IsCoder k h s
      → (if coded then k.encoded_length h s else length s) ≡ 0
      → s ≡ []
  none_only true h s c e = c.empty_only e
  none_only false h s c e = length-zero s e

  pub small :
      (coded : Bool) (h : H) (s : List ℕ)
      → IsCoder k h s
      → length s < 2 ^ 63
      → (if coded then k.encoded_length h s else length s) < 2 ^ 63
  small true h s c b = c.bounded
  small false h s c b = b
