-- ===== src/Hpack/Strings/Reading.antt =====
-- How `aws_hpack_decode_string` of source/hpack_decoder.c reads a string that is all there.
use aws_c_http.Prelude.{
  ℕ, same, suc, ◌-◌, ◌/◌, ◌^◌, ◌<◌, ◌≡◌, ◌⊎◌, refl, sym, ap, ◌∙◌, Bool, true, false, not, none,
  some, List, [], ◌∷◌, ◌++◌, ◌==◌, length, take, drop, min, take-length_append, drop-length_append,
  length-append, arith,
}
use mathlib.Core.Path.{ap₂}
use mathlib.Core.List.{append-nil}
use aws_c_http.Hpack.Integer.Codec.{zero_progress, complete, decode_integer}
use aws_c_http.Hpack.Strings.Codec.{
  Coder, zero_string, string_length, string_value, StringDecoder, string_complete, handle_complete,
  take_value, decode_value, length_decoded, decode_length, decode_string,
}

module _ {H D : Type 0} (k : Coder H D) where
  -- The documented behaviour of the coder for a string, with the encoder in the state `h`: an encoder
  -- writes as many bytes behind the output as it has promised, or fails, and only an empty string
  -- takes none; a decoder that has been reset reads them back. Memory does not run out on an append.
  pub record IsCoder (h : H) (s : List ℕ) : Type 0 where
    pub appends : (out bytes : List ℕ) → k.append_bytes out bytes ≡ some (out ++ bytes)
    pub encodes :
        (out : List ℕ)
        → ((k.encode h s out).1 ≡ none)
          ⊎ ((bytes : List ℕ) × ((k.encode h s out).1 ≡ some (out ++ bytes))
              × (length bytes ≡ k.encoded_length h s)
              × ((d : D) (scratch : List ℕ)
                  → (k.decode (k.reset_decoder d) bytes scratch).1 ≡ some ([], scratch ++ s)))
    pub empty_only : k.encoded_length h s ≡ 0 → s ≡ []
    pub bounded : k.encoded_length h s < 2 ^ 63

  -- A decoder in front of a string, and one in front of the last `n` bytes of its value.
  abbrev pub fresh : D → StringDecoder D
  fresh huffman = record {
    huffman_decoder = huffman;
    progress_integer = zero_progress;
    progress_string = zero_string;
  }

  abbrev at_value : Bool → ℕ → D → StringDecoder D
  at_value coded n huffman = record {
    huffman_decoder = huffman;
    progress_integer = zero_progress;
    progress_string = record { state = string_value; use_huffman = coded; length = n };
  }

  -- The data `bytes` stand for the string `s`, with Huffman codes or without.
  abbrev pub StandsFor : Bool → List ℕ → List ℕ → Type 0
  StandsFor true bytes s =
      (d : D) (scratch : List ℕ)
      → (k.decode (k.reset_decoder d) bytes scratch).1 ≡ some ([], scratch ++ s)
  StandsFor false bytes s = bytes ≡ s

  taken :
      (coded : Bool) (bytes s : List ℕ) (d : D) (scratch rest : List ℕ)
      → ((out more : List ℕ) → k.append_bytes out more ≡ some (out ++ more))
      → StandsFor coded bytes s
      → (d' : D) × (take_value k (at_value coded 0 (k.reset_decoder d)) bytes scratch rest
          ≡ string_complete (fresh d') (scratch ++ s) rest)
  unfolding take_value
  taken true bytes s d scratch rest appends stands =
      ((k.decode (k.reset_decoder d) bytes scratch).0, rw (stands d scratch) refl)
  taken false bytes s d scratch rest appends same = (
    k.reset_decoder d,
    rw (appends scratch bytes)
        (ap (λ z. string_complete (fresh (k.reset_decoder d)) (scratch ++ z) rest) same),
  )

  -- The value behind the length.
  value_decoded :
      (coded : Bool) (b : ℕ) (bytes s : List ℕ) (d : D) (scratch rest : List ℕ)
      → ((out more : List ℕ) → k.append_bytes out more ≡ some (out ++ more))
      → StandsFor coded (b ∷ bytes) s
      → (d' : D) × (decode_value k
            (at_value coded (length (b ∷ bytes)) (k.reset_decoder d))
            ((b ∷ bytes) ++ rest)
            scratch
          ≡ string_complete (fresh d') (scratch ++ s) rest)
  unfolding decode_value
  value_decoded coded b bytes s d scratch rest appends stands =
      let input : List ℕ = (b ∷ bytes) ++ rest in
      let n : ℕ = length (b ∷ bytes) in
      let at : ℕ → StringDecoder D = λ left. at_value coded left (k.reset_decoder d) in
      let all : min n (length input) ≡ n = omega (arith, length-append bytes rest) in
      let (d', e) = taken coded (b ∷ bytes) s d scratch rest appends stands in
      (
        d',
        ap (λ m. take_value k (at (n - m)) (take m input) scratch (drop m input)) all
            ∙ ap (λ left. take_value k (at left) (take n input) scratch (drop n input))
                (omega arith)
            ∙ ap₂ (λ chunk left. take_value k (at 0) chunk scratch left)
                (take-length_append (b ∷ bytes) rest) (drop-length_append (b ∷ bytes) rest)
            ∙ e,
      )

  abbrev at_length : Bool → D → StringDecoder D
  at_length coded huffman = record {
    huffman_decoder = huffman;
    progress_integer = zero_progress;
    progress_string = record { state = string_length; use_huffman = coded; length = 0 };
  }

  -- The first byte and the length.
  length_read :
      (coded : Bool) (n first : ℕ) (tail behind : List ℕ) (d : D) (scratch : List ℕ)
      → not (first / 128 == 0) ≡ coded
      → decode_integer 7 zero_progress 0 ((first ∷ tail) ++ behind) ≡ complete n behind
      → decode_string k (fresh d) ((first ∷ tail) ++ behind) scratch
        ≡ length_decoded k (at_length coded (k.reset_decoder d)) (complete n behind) scratch
  unfolding decode_string decode_length
  length_read coded n first tail behind d scratch flag read =
      ap (λ c. decode_length k (at_length c (k.reset_decoder d)) ((first ∷ tail) ++ behind) scratch)
        flag
      ∙ ap (λ r. length_decoded k (at_length coded (k.reset_decoder d)) r scratch) read

  length_positive :
      (coded : Bool) (n : ℕ) (rest : List ℕ) (d : D) (scratch : List ℕ)
      → length_decoded k (at_length coded d) (complete (suc n) rest) scratch
        ≡ decode_value k (at_value coded (suc n) d) rest scratch
  unfolding length_decoded
  length_positive coded n rest d scratch =
      let some_left : (suc n == 0) ≡ false = ground arith in rw some_left refl

  -- A string is read back: its length, and then its value.
  pub string_read :
      (coded : Bool) (first : ℕ) (tail bytes s : List ℕ) (d : D) (scratch rest : List ℕ)
      → ((out more : List ℕ) → k.append_bytes out more ≡ some (out ++ more))
      → (length bytes ≡ 0 → s ≡ [])
      → (0 < length bytes → StandsFor coded bytes s)
      → not (first / 128 == 0) ≡ coded
      → decode_integer 7 zero_progress 0 ((first ∷ tail) ++ (bytes ++ rest))
        ≡ complete (length bytes) (bytes ++ rest)
      → (d' : D) × (decode_string k (fresh d) ((first ∷ tail) ++ (bytes ++ rest)) scratch
          ≡ string_complete (fresh d') (scratch ++ s) rest)
  unfolding length_decoded handle_complete
  string_read coded first tail [] s d scratch rest appends none_only stands flag read =
      let empty : scratch ≡ scratch ++ s =
        sym (ap (◌++◌ scratch) (none_only refl) ∙ append-nil scratch) in
      (
        k.reset_decoder d,
        length_read coded 0 first tail rest d scratch flag read
            ∙ ap (λ z. string_complete (fresh (k.reset_decoder d)) z rest) empty,
      )
  string_read coded first tail (b ∷ bytes) s d scratch rest appends none_only stands flag read =
      let (d', e) = value_decoded coded b bytes s d scratch rest appends (stands (omega arith)) in
      (
        d',
        length_read coded (length (b ∷ bytes)) first tail ((b ∷ bytes) ++ rest) d scratch flag read
            ∙ length_positive coded (length bytes) ((b ∷ bytes) ++ rest) (k.reset_decoder d) scratch
            ∙ e,
      )
