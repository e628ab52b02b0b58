-- ===== src/Http1/Encoder/Samples.antt =====
-- Functions for what the encoder calls, and streams that are lists.
use aws_c_http.Prelude.{
  ℕ, zero, suc, ◌+◌, ◌-◌, ◌*◌, ◌≤◌, ◌≡◌, ◌≢◌, refl, sym, ap, inl, inr, true, false, some, List, [],
  ◌∷◌, ◌++◌, All, leb, ◌==◌, if◌then◌else◌, min, length, length-take, take, drop, take-append-drop,
  arith,
}
use aws_c_http.ByteBuf.{len, Write, IsWrite, WriteToCapacity, IsWriteToCapacity}
use aws_c_http.Http1.Samples.{lower, same_bytes, same_bytes-length}
use aws_c_http.Http1.Decoder.Types.{Common}
use aws_c_http.Http1.Encoder.Types.{Streams}
use aws_c_http.Http1.Encoder.Wire.{Source, IsEager}
use aws_c_http.Http1.Encoder.Head.{Allocate}
use aws_c_http.Http1.Encoder.Framing.{KeepsLength}
use aws_c_http.Http1.Encoder.ChunkLines.{hex_value}
use aws_c_http.Http1.Encoder.ChunkRoundTrip.{StartsWith, ReadsChunkSize}

abbrev pub write_bytes : Write
write_bytes b xs =
    if leb (len b + length xs) b.capacity
    then (record b { contents = b.contents ++ xs }, true)
    else (b, false)

pub write_bytes-IsWrite : IsWrite write_bytes
write_bytes-IsWrite = record {
  write_fits = λ b xs h. ground arith;
  write_full = λ b xs h. ground arith;
}

abbrev pub write_some : WriteToCapacity
write_some b xs = (
  record b { contents = b.contents ++ take (min (b.capacity - len b) (length xs)) xs },
  min (b.capacity - len b) (length xs),
)

pub write_some-IsWriteToCapacity : IsWriteToCapacity write_some
write_some-IsWriteToCapacity b xs = refl

-- A stream is the list of the bytes that it holds.
abbrev pub lists : Streams (List ℕ)
lists = record {
  read = λ s out. (
    record out { contents = out.contents ++ take (out.capacity - len out) s },
    drop (out.capacity - len out) s,
    false,
  );
  get_status = λ s. some (length s == 0);
}

pub not_at_end : (s : List ℕ) → s ≢ [] → some (length s == 0) ≡ some false
not_at_end [] h = absurd (h refl)
not_at_end (x ∷ xs) h = ground arith

pub take_all : (n : ℕ) (xs : List ℕ) → length xs ≤ n → take n xs ≡ xs
take_all zero [] h = refl
take_all zero (x ∷ xs) h = absurd (omega arith)
take_all (suc n) [] h = refl
take_all (suc n) (x ∷ xs) h = ap (◌∷◌ x) (take_all n xs (omega arith))

unfoldable pub lists_source : Source lists
lists_source = record {
  remaining = λ s. s;
  piece = λ s out. take (out.capacity - len out) s;
  left = λ s out. drop (out.capacity - len out) s;
  reads = λ s out. refl;
  splits = λ s out. sym (take-append-drop (out.capacity - len out) s);
  within = λ s out w. omega (arith, length-take (out.capacity - len out) s);
  goes_on = not_at_end;
}

pub lists_source-IsEager : IsEager lists_source
unfolding lists_source
lists_source-IsEager s out room = take_all (out.capacity - len out) s (omega arith)

-- The bytes in front of the first one to split on.
unfoldable pub until : ℕ → List ℕ → ℕ
until b [] = 0
until b (x ∷ xs) = let rest = until b xs in if x == b then 0 else suc rest

unfoldable pub decimal : ℕ → List ℕ → ℕ
decimal acc [] = acc
decimal acc (b ∷ bs) = decimal (acc * 10 + (b - b'0')) bs

abbrev pub common : Common
common = record {
  splits = λ input b. record { offset = 0; size = until b input } ∷ [];
  parse_u64 = λ xs. (decimal 0 xs, false);
  parse_u64_hex = λ xs. (hex_value 0 xs, false);
  eq = same_bytes (λ c. c);
  eq_ignore_case = same_bytes lower;
}

pub until_end : (b : ℕ) (ys : List ℕ) → StartsWith b ys → until b ys ≡ 0
unfolding until
until_end b ys (inl q) = ap (until b) q
until_end b ys (inr (zs, q)) = rw q (ground arith)

pub until-length :
    (b : ℕ) (xs ys : List ℕ)
    → All (λ x. x ≢ b) xs
    → StartsWith b ys
    → until b (xs ++ ys) ≡ length xs
unfolding until
until-length b [] ys h s = until_end b ys s
until-length b (x ∷ xs) ys h s = ground (arith, h.0, until-length b xs ys h.1 s)

pub common-ReadsChunkSize : ReadsChunkSize common
common-ReadsChunkSize = record {
  first_split = λ xs ys h s.
      ([], ap (λ n. record { offset = 0; size = n } ∷ []) (until-length b';' xs ys h s));
  parses_hex = λ xs more digits small. refl;
}

pub common-KeepsLength : KeepsLength common
common-KeepsLength a b q = same_bytes-length lower a b q

abbrev pub allocate_all : Allocate
allocate_all n = true
