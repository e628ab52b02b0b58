-- ===== src/Hpack/Strings/Runs.antt =====
-- A string encoded and decoded, with a coder whose codes are the bytes, each one higher.
use aws_c_http.Prelude.{
  ℕ, suc, ◌-◌, ◌≡◌, ◌⊎◌, refl, inr, some, List, [], ◌∷◌, ◌++◌, length, map, length-zero, true,
  arith,
}
use aws_c_http.Hpack.Integer.Codec.{Append, IsAppend, encoded, append_failed}
use aws_c_http.Hpack.Strings.Codec.{
  Coder, huffman_always, encode_string, decode_string, string_complete,
}
use aws_c_http.Hpack.Strings.Reading.{IsCoder, fresh}
use aws_c_http.Hpack.Strings.RoundTrip.{string_round_trip}

abbrev lower_all : List ℕ → List ℕ
lower_all = map (λ b. b - 1)

abbrev shifted : Coder (Unit {0}) (Unit {0})
shifted = record {
  encoded_length = λ h s. length s;
  encode = λ h s out. (h, some (out ++ map suc s));
  reset_encoder = λ h. h;
  decode = λ d bytes out. (d, some ([], out ++ lower_all bytes));
  reset_decoder = λ d. d;
  append_bytes = λ out bytes. some (out ++ bytes);
  reserve = λ out n. true;
}

lower-suc : (s : List ℕ) → lower_all (map suc s) ≡ s
lower-suc [] = refl
lower-suc (b ∷ s) = ground (arith, lower-suc s)

abbrev hello : List ℕ
hello = b'h' ∷ b'i' ∷ []

shifted-IsCoder : IsCoder shifted tt hello
shifted-IsCoder = record {
  appends = λ out bytes. refl;
  encodes = λ out. inr (map suc hello, refl, refl, λ d scratch. refl);
  empty_only = λ e. length-zero hello e;
  bounded = omega arith;
}

abbrev append_byte : Append
append_byte out b = some (out ++ (b ∷ []))

append_byte-IsAppend : IsAppend append_byte
append_byte-IsAppend out b = inr refl

string_round_trip_example :
    (h' : Unit {0}) × ((encode_string shifted append_byte huffman_always tt hello (7 ∷ [])
        ≡ (h', append_failed (7 ∷ [])))
      ⊎ ((code : List ℕ) × (d' : Unit {0}) × (encode_string shifted append_byte huffman_always tt
              hello
              (7 ∷ [])
            ≡ (h', encoded ((7 ∷ []) ++ code)))
          × (decode_string shifted (fresh shifted tt) (code ++ (9 ∷ [])) (1 ∷ [])
              ≡ string_complete (fresh shifted d') ((1 ∷ []) ++ hello) (9 ∷ []))))
string_round_trip_example =
    string_round_trip shifted append_byte huffman_always tt hello (7 ∷ []) tt (1 ∷ []) (9 ∷ [])
      append_byte-IsAppend shifted-IsCoder (omega arith)
