-- ===== src/Http1/Encoder/ChunkLines.antt =====
-- The line that `aws_h1_chunk_new` of source/h1_encoder.c writes in front of a chunk, and how
-- `s_linestate_chunk_size` of source/h1_decoder.c reads it.
use aws_c_http.Prelude.{
  ℕ, zero, suc, ◌+◌, ◌*◌, ◌-◌, ◌/◌, ◌%◌, ◌^◌, ◌≤◌, ◌<◌, ◌≡◌, ◌⊎◌, refl, sym, ap, ◌∙◌, inl, inr,
  le_or_lt, List, [], ◌∷◌, ◌++◌, All, ltb, if◌then◌else◌, length, length-append, arith,
}
use mathlib.Core.Path.{subst}
use mathlib.Core.List.{append_assoc, append-nil}
use native.Mathlib.Omega.{pow_step}
use aws_c_http.Prelude.Words.{u64_max, add_u64}
use aws_c_http.ByteBuf.{Write, IsWrite}
use aws_c_http.Http1.Encoder.States.{crlf}
use aws_c_http.Http1.Encoder.Head.{put}
use aws_c_http.Http1.Encoder.HeadBytes.{join, filling, put-filling, put_all-filling}
use aws_c_http.Http1.Encoder.Chunks.{
  ChunkExtension, ChunkOptions, upper_hex_digit, upper_hex, extensions_size, write_chunk_size,
  write_chunk_extension, write_chunk_extensions, populate_chunk_line,
}

-- The digits '0' to '9', 'A' to 'F' and 'a' to 'f'.
abbrev pub hex_digit_value : ℕ → ℕ
hex_digit_value b = if ltb b b'A' then b - b'0' else (if ltb b b'a' then b - 55 else b - 87)

abbrev pub IsHexDigit : ℕ → Type 0
IsHexDigit b = ((48 ≤ b) × (b < 58)) ⊎ ((65 ≤ b) × (b < 71)) ⊎ ((97 ≤ b) × (b < 103))

abbrev pub hex_value : ℕ → List ℕ → ℕ
hex_value acc [] = acc
hex_value acc (b ∷ bs) = hex_value (acc * 16 + hex_digit_value b) bs

hex_value-append :
    (acc : ℕ) (xs ys : List ℕ) → hex_value acc (xs ++ ys) ≡ hex_value (hex_value acc xs) ys
hex_value-append acc [] ys = refl
hex_value-append acc (x ∷ xs) ys = hex_value-append (acc * 16 + hex_digit_value x) xs ys

one_digit : (acc d : ℕ) → d < 16 → hex_value acc (upper_hex_digit d ∷ []) ≡ acc * 16 + d
one_digit acc d small = ground (arith, small)

digit-IsHexDigit : (d : ℕ) → d < 16 → IsHexDigit (upper_hex_digit d)
digit-IsHexDigit d small = ground (arith, small)

pub All-append {κ} : (P : ℕ → Type κ) (xs ys : List ℕ) → All P xs → All P ys → All P (xs ++ ys)
All-append P [] ys h k = k
All-append P (x ∷ xs) ys h k = (h.0, All-append P xs ys h.1 k)

pub hex_short : (fuel n : ℕ) → n < 16 → upper_hex fuel n ≡ upper_hex_digit n ∷ []
unfolding upper_hex
hex_short zero n small = refl
hex_short (suc fuel) n small = ground (arith, small)

hex_long :
    (fuel n : ℕ)
    → 16 ≤ n
    → upper_hex (suc fuel) n ≡ upper_hex fuel (n / 16) ++ (upper_hex_digit (n % 16) ∷ [])
unfolding upper_hex
hex_long fuel n more = ground (arith, more)

abbrev pub IsHex : ℕ → ℕ → List ℕ → Type 0
IsHex fuel n xs = (hex_value 0 xs ≡ n) × All IsHexDigit xs × (length xs ≤ suc fuel)

-- The digits written are digits, no more than there are rounds, and their value is the number.
pub upper_hex-IsHex : (fuel n : ℕ) → n < 16 ^ suc fuel → IsHex fuel n (upper_hex fuel n)
upper_hex-IsHex zero n small =
    let below : n < 16 = omega arith in
    subst (IsHex 0 n) (sym (hex_short 0 n below))
      (one_digit 0 n below ∙ omega arith, (digit-IsHexDigit n below, tt), omega arith)
upper_hex-IsHex (suc fuel) n small = elim (le_or_lt 16 n) [
  | inr below ↦
      subst (IsHex (suc fuel) n) (sym (hex_short (suc fuel) n below))
        (one_digit 0 n below ∙ omega arith, (digit-IsHexDigit n below, tt), omega arith)
  | inl more ↦
      let power : 16 ^ suc (suc fuel) ≡ 16 * 16 ^ suc fuel = pow_step 16 (suc fuel) in
      let (value, digits, short) = upper_hex-IsHex fuel (n / 16) (omega (arith, power, small)) in
      let last : n % 16 < 16 = omega arith in
      subst (IsHex (suc fuel) n) (sym (hex_long fuel n more)) (
        hex_value-append 0 (upper_hex fuel (n / 16)) (upper_hex_digit (n % 16) ∷ [])
            ∙ one_digit (hex_value 0 (upper_hex fuel (n / 16))) (n % 16) last
            ∙ omega (arith, value),
        All-append IsHexDigit (upper_hex fuel (n / 16)) (upper_hex_digit (n % 16) ∷ []) digits
            (digit-IsHexDigit (n % 16) last, tt),
        omega
            (arith, length-append (upper_hex fuel (n / 16)) (upper_hex_digit (n % 16) ∷ []), short),
      )
]

-- ";{key}={value}" for each extension
abbrev pub extension_bytes : List ChunkExtension → List ℕ
extension_bytes [] = []
extension_bytes (x ∷ xs) = (b';' ∷ (x.key ++ (b'=' ∷ x.value))) ++ extension_bytes xs

-- What the computation of the size counts for the extensions.
abbrev pub extension_count : List ChunkExtension → ℕ
extension_count [] = 0
extension_count (x ∷ xs) = 8 + length x.key + length x.value + extension_count xs

pub extensions_size_lem :
    (xs : List ChunkExtension) (size : ℕ)
    → size + extension_count xs ≤ u64_max
    → extensions_size xs size ≡ size + extension_count xs
unfolding extensions_size
extensions_size_lem [] size fits = omega arith
extensions_size_lem (x ∷ xs) size fits =
    let step : add_u64 (add_u64 (add_u64 (add_u64 size 4) (length x.key)) 4) (length x.value)
        ≡ size + 8 + length x.key + length x.value =
      omega (arith, fits) in
    ap (extensions_size xs) step
    ∙ extensions_size_lem xs (size + 8 + length x.key + length x.value) (omega (arith, fits))
    ∙ omega arith

extension_bytes_short :
    (xs : List ChunkExtension) → length (extension_bytes xs) ≤ extension_count xs
extension_bytes_short [] = omega arith
extension_bytes_short (x ∷ xs) = omega (
  arith,
  extension_bytes_short xs,
  length-append (b';' ∷ (x.key ++ (b'=' ∷ x.value))) (extension_bytes xs),
  length-append x.key (b'=' ∷ x.value),
)

-- A chunk's line without its end.
abbrev pub line_of : ℕ → List ChunkExtension → List ℕ
line_of n xs = upper_hex 15 n ++ extension_bytes xs

module _ (write : Write) (whole : IsWrite write) where
  extensions_written :
      (xs : List ChunkExtension) (bytes : List ℕ) (capacity : ℕ)
      → length bytes + length (extension_bytes xs) ≤ capacity
      → write_chunk_extensions write (filling bytes capacity) xs
        ≡ filling (bytes ++ extension_bytes xs) capacity
  unfolding write_chunk_extensions write_chunk_extension
  extensions_written [] bytes capacity fits = ap (λ z. filling z capacity) (sym (append-nil bytes))
  extensions_written (x ∷ xs) bytes capacity fits =
      let one : List ℕ = b';' ∷ (x.key ++ (b'=' ∷ x.value)) in
      let pieces : List (List ℕ) = (b';' ∷ []) ∷ x.key ∷ (b'=' ∷ []) ∷ x.value ∷ [] in
      let joined : join pieces ≡ one =
        ap (λ z. b';' ∷ (x.key ++ (b'=' ∷ z))) (append-nil x.value) in
      let size = length-append one (extension_bytes xs) in
      ap (λ b. write_chunk_extensions write b xs)
        (put_all-filling write whole bytes pieces capacity
            (omega (arith, ap length joined, size, fits))
          ∙ ap (λ z. filling (bytes ++ z) capacity) joined)
      ∙ extensions_written xs (bytes ++ one) capacity
          (omega (arith, size, length-append bytes one, fits))
      ∙ ap (λ z. filling z capacity) (append_assoc bytes one (extension_bytes xs))

  pub line_populated :
      {S : Type 0} (options : ChunkOptions S) (capacity : ℕ)
      → length (upper_hex 15 options.chunk_data_size) ≤ 16
      → 19 + extension_count options.extensions ≤ capacity
      → populate_chunk_line write (filling [] capacity) options
        ≡ filling (line_of options.chunk_data_size options.extensions ++ crlf) capacity
  unfolding populate_chunk_line write_chunk_size
  line_populated options capacity short fits =
      let hex : List ℕ = upper_hex 15 options.chunk_data_size in
      let count = extension_bytes_short options.extensions in
      ap (λ b. put write (write_chunk_extensions write b options.extensions) crlf)
        (put-filling write whole [] hex capacity (omega (arith, short, fits)))
      ∙ ap (λ b. put write b crlf)
          (extensions_written options.extensions hex capacity (omega (arith, short, fits, count)))
      ∙ put-filling write whole (hex ++ extension_bytes options.extensions) crlf capacity (
          omega (arith, short, fits, count, length-append hex (extension_bytes options.extensions)))
