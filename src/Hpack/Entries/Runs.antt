-- ===== src/Hpack/Entries/Runs.antt =====
-- An entry decoded, and a header field encoded and decoded, with a coder that copies bytes and lookup
-- tables that hold nothing.
use aws_c_http.Prelude.{
  ℕ, ◌^◌, ◌<◌, ◌≡◌, refl, inr, none, some, List, [], ◌∷◌, ◌++◌, length, length-zero, true, false,
  arith,
}
use aws_c_http.Hpack.Integer.Codec.{Append, IsAppend}
use aws_c_http.Hpack.Table.Ring.{no_forward_cache, Header, Lookups}
use aws_c_http.Hpack.Static.{Finds, find_index}
use aws_c_http.Hpack.Strings.Reading.{IsCoder}
use aws_c_http.Hpack.Entries.Encode.{encoder_init, encode_header_field, is_use_cache}
use aws_c_http.Hpack.Entries.SizeUpdates.{Among, IsLowest, last_of, update_all, update_all_smallest}
use aws_c_http.Hpack.Entries.RoundTrip.{ReadBack, field_round_trip}
use aws_c_http.Hpack.Strings.Codec.{Coder}
use aws_c_http.Hpack.Entries.Decode.{Round, decoder_init, decode}
use aws_c_http.Hpack.Entries.Termination.{decode_total}

abbrev copying : Coder (Unit {0}) (Unit {0})
copying = record {
  encoded_length = λ h s. length s;
  encode = λ h s out. (h, some (out ++ s));
  reset_encoder = λ h. h;
  decode = λ d bytes out. (d, some ([], out ++ bytes));
  reset_decoder = λ d. d;
  append_bytes = λ out bytes. some (out ++ bytes);
  reserve = λ out n. true;
}

abbrev empty_lookups : Lookups (Unit {0})
empty_lookups = record {
  clear = λ t. t;
  put = λ t h i. (t, false);
  put_name = λ t h i. (t, false);
  remove = λ t h. (t, false);
  remove_name = λ t h i. (t, false);
}

-- A literal that is never indexed, with the name of entry 2 and a value of one byte.
abbrev never_indexed : List ℕ
never_indexed = 0x12 ∷ 1 ∷ b'x' ∷ []

decode_total_example :
    (r : Round (Unit {0}) (Unit {0})) × (decode copying empty_lookups
        (decoder_init tt tt)
        never_indexed
      ≡ some r)
decode_total_example = decode_total copying empty_lookups (decoder_init tt tt) never_indexed

abbrev append_byte : Append
append_byte out b = some (out ++ (b ∷ []))

append_byte-IsAppend : IsAppend append_byte
append_byte-IsAppend out b = inr refl

abbrev finds_nothing : Finds (Unit {0})
finds_nothing = record {
  find_static = λ header. none;
  find_static_name = λ name. none;
  find = λ t header. none;
  find_name = λ t name. none;
}

abbrev secret : Header
secret = record {
  name = b'i' ∷ b'd' ∷ [];
  value = b's' ∷ b'e' ∷ b'c' ∷ [];
  compression = no_forward_cache;
}

copying-IsCoder : (h : Unit {0}) (s : List ℕ) → length s < 2 ^ 63 → IsCoder copying h s
copying-IsCoder h s small = record {
  appends = λ out bytes. refl;
  encodes = λ out. inr (s, refl, refl, λ d scratch. refl);
  empty_only = λ e. length-zero s e;
  bounded = small;
}

secret_unknown : (find_index finds_nothing (encoder_init tt tt).context secret true).0 ≡ 0
unfolding find_index
secret_unknown = refl

field_round_trip_example :
    ReadBack copying append_byte empty_lookups finds_nothing secret
      (7 ∷ [])
      (decoder_init tt tt)
      tt
      (9 ∷ [])
      (encode_header_field copying append_byte empty_lookups finds_nothing
        (encoder_init tt tt)
        secret
        (7 ∷ []))
unfolding is_use_cache
field_round_trip_example =
    field_round_trip copying append_byte empty_lookups finds_nothing (encoder_init tt tt) secret
      (7 ∷ []) (decoder_init tt tt) tt (9 ∷ []) append_byte-IsAppend
      (λ h. copying-IsCoder h secret.name (omega arith))
      (λ h. copying-IsCoder h secret.value (omega arith)) (omega arith) (omega arith) refl
      secret_unknown

update_all_smallest_example :
    ((update_all {H = Unit {0}} {T = Unit {0}}
        (encoder_init tt tt)
        (4096 ∷ 0 ∷ 100 ∷ [])).dynamic_table_size_update.pending
      ≡ true)
    × ((update_all {H = Unit {0}} {T = Unit {0}} (encoder_init tt tt) (4096 ∷ 0 ∷ 100 ∷ [])
          ).dynamic_table_size_update.latest_value
        ≡ last_of 4096 (0 ∷ 100 ∷ []))
    × IsLowest
        (update_all {H = Unit {0}} {T = Unit {0}} (encoder_init tt tt) (4096 ∷ 0 ∷ 100 ∷ [])
          ).dynamic_table_size_update.smallest_value
        (4096 ∷ 0 ∷ 100 ∷ [])
    × Among
        (update_all {H = Unit {0}} {T = Unit {0}} (encoder_init tt tt) (4096 ∷ 0 ∷ 100 ∷ [])
          ).dynamic_table_size_update.smallest_value
        (4096 ∷ 0 ∷ 100 ∷ [])
unfolding encoder_init
update_all_smallest_example =
    update_all_smallest (encoder_init tt tt) 4096 (0 ∷ 100 ∷ []) refl (omega arith)
