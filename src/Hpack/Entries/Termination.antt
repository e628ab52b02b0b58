-- ===== src/Hpack/Entries/Termination.antt =====
-- The loop of `aws_hpack_decode` in source/hpack_decoder.c ends.
use aws_c_http.Prelude.{
  ℕ, zero, suc, ◌+◌, ◌≤◌, ◌<◌, ◌≡◌, ◌⊎◌, refl, inl, inr, Bool-cases, ltb, Option, none, some, List,
  [], ◌∷◌, ◌==◌, arith,
}
use aws_c_http.Hpack.Integer.Codec.{Decoded, ongoing, complete, overflow, decode_integer}
use aws_c_http.Hpack.Table.Ring.{
  Lookups, Header, Compression, use_cache, no_cache, no_forward_cache, get_header,
}
use aws_c_http.Hpack.Table.Operations.{insert_header, resize_dynamic_table}
use aws_c_http.Hpack.Static.{entry_header}
use aws_c_http.Hpack.Strings.Codec.{
  Coder, StringDecoded, string_ongoing, string_complete, string_failed,
}
use aws_c_http.Hpack.Entries.Decode.{
  EntryState, entry_init, indexed, literal_begin, literal_name_string, literal_value_string,
  dynamic_table_resize, ProgressEntry, Decoder, Round, goes_on, finished, failed, first_byte_entry,
  with_integer, with_string, index_found, index_read, name_read, name_found, store_name,
  name_index_read, deliver_literal, value_read, size_read, round, run_rounds, decode, set_entry,
  handle_complete,
}

-- How many rounds an entry has had in a state at most.
abbrev rank : EntryState → ℕ
rank entry_init = 0
rank indexed = 1
rank literal_begin = 1
rank dynamic_table_resize = 1
rank literal_name_string = 2
rank literal_value_string = 3

module _ {D T : Type 0} where
  -- A round that goes on has taken all the bytes, or its state has a higher rank.
  abbrev Advances : ℕ → Round D T → Type 0
  Advances r (goes_on d rest) = (rest ≡ []) ⊎ (r < rank d.progress_entry.state)
  Advances r (finished result d rest) = Unit {0}
  Advances r (failed d) = Unit {0}

  with_integer-Advances :
      (r : ℕ) (d : Decoder D T) (store : ℕ → ProgressEntry) (n : Decoded)
      (then_ : Decoder D T → ℕ → List ℕ → Round D T)
      → ((d' : Decoder D T) (m : ℕ) (rest : List ℕ) → Advances r (then_ d' m rest))
      → Advances r (with_integer d store n then_)
  unfolding with_integer
  with_integer-Advances r d store (overflow p n rest) then_ more = tt
  with_integer-Advances r d store (ongoing p n) then_ more = inl refl
  with_integer-Advances r d store (complete n rest) then_ more = more _ n rest

  with_string-Advances :
      (r : ℕ) (d : Decoder D T) (s : StringDecoded D) (then_ : Decoder D T → List ℕ → Round D T)
      → ((d' : Decoder D T) (rest : List ℕ) → Advances r (then_ d' rest))
      → Advances r (with_string d s then_)
  unfolding with_string
  with_string-Advances r d (string_failed s) then_ more = tt
  with_string-Advances r d (string_ongoing s out) then_ more = inl refl
  with_string-Advances r d (string_complete s out rest) then_ more = more _ rest

  index_found-Advances :
      (d : Decoder D T) (rest : List ℕ) (o : Option Header) → Advances 1 (index_found d rest o)
  unfolding index_found handle_complete
  index_found-Advances d rest none = tt
  index_found-Advances d rest (some header) = tt

  store_name-Advances :
      (d : Decoder D T) (n : ℕ) (rest : List ℕ) (o : Option (List ℕ))
      → Advances 1 (store_name d n rest o)
  unfolding store_name set_entry
  store_name-Advances d n rest none = tt
  store_name-Advances d n rest (some scratch) = inr (omega arith)

  name_read-Advances : (d : Decoder D T) (rest : List ℕ) → Advances 2 (name_read d rest)
  unfolding name_read set_entry
  name_read-Advances d rest = inr (omega arith)

module _ {H D T : Type 0} (k : Coder H D) where
  name_found-Advances :
      (d : Decoder D T) (rest : List ℕ) (o : Option Header) → Advances 1 (name_found k d rest o)
  unfolding name_found
  name_found-Advances d rest none = tt
  name_found-Advances d rest (some header) = store_name-Advances d _ rest _

  name_index_read-Advances :
      (d : Decoder D T) (index : ℕ) (rest : List ℕ) → Advances 1 (name_index_read k d index rest)
  unfolding name_index_read set_entry
  name_index_read-Advances d index rest = elim (Bool-cases (index == 0)) [
    | inl e ↦ rw e (inr (omega arith))
    | inr e ↦ rw e (name_found-Advances d rest (entry_header (get_header d.context index)))
  ]

module _ {D T : Type 0} (l : Lookups T) where
  deliver_literal-Advances :
      (d : Decoder D T) (header : Header) (c : Compression) (rest : List ℕ)
      → Advances 3 (deliver_literal l d header c rest)
  unfolding deliver_literal handle_complete
  deliver_literal-Advances d header use_cache rest =
      elim (Bool-cases (insert_header l d.context header).1) [ inl e ↦ rw e tt | inr e ↦ rw e tt ]
  deliver_literal-Advances d header no_cache rest = tt
  deliver_literal-Advances d header no_forward_cache rest = tt

  size_read-Advances :
      (d : Decoder D T) (size : ℕ) (rest : List ℕ) → Advances 1 (size_read l d size rest)
  unfolding size_read handle_complete
  size_read-Advances d size rest =
      elim (Bool-cases (ltb d.dynamic_table_protocol_max_size_setting size)) [
        | inl e ↦ rw e tt
        | inr e ↦ rw e (elim (Bool-cases (resize_dynamic_table l d.context size).1) [
          | inl e' ↦ rw e' tt
          | inr e' ↦ rw e' tt
        ])
      ]

first_byte_rank : (b : ℕ) → rank (first_byte_entry b).state ≡ 1
unfolding first_byte_entry
first_byte_rank b = ground arith

module _ {H D T : Type 0} (k : Coder H D) (l : Lookups T) where
  round-Advances :
      (state : EntryState) (d : Decoder D T) (b : ℕ) (bs : List ℕ)
      → Advances (rank state) (round k l state d b bs)
  unfolding round set_entry index_read value_read
  round-Advances entry_init d b bs = let high = first_byte_rank b in inr (omega arith)
  round-Advances indexed d b bs =
      with_integer-Advances 1 d (λ n. record (d.progress_entry) { index = n })
        (decode_integer 7 d.strings.progress_integer d.progress_entry.index (b ∷ bs)) index_read
        (λ d' m rest. index_found-Advances d' rest (entry_header (get_header d'.context m)))
  round-Advances literal_begin d b bs =
      with_integer-Advances 1 d (λ n. record (d.progress_entry) { name_index = n })
        (decode_integer d.progress_entry.prefix_size d.strings.progress_integer
          d.progress_entry.name_index (b ∷ bs))
        (name_index_read k) (name_index_read-Advances k)
  round-Advances dynamic_table_resize d b bs =
      with_integer-Advances 1 d (λ n. record (d.progress_entry) { size = n })
        (decode_integer 5 d.strings.progress_integer d.progress_entry.size (b ∷ bs)) (size_read l)
        (size_read-Advances l)
  round-Advances literal_name_string d b bs =
      with_string-Advances 2 d _ name_read name_read-Advances
  round-Advances literal_value_string d b bs =
      with_string-Advances 3 d _ (value_read l)
        (λ d' rest. deliver_literal-Advances l d' _ d'.progress_entry.compression rest)

  -- A round, and the rounds behind it.
  rounds_end :
      (r fuel : ℕ) (x : Round D T)
      → Advances r x
      → ((d : Decoder D T) (rest : List ℕ)
          → (rest ≡ []) ⊎ (r < rank d.progress_entry.state)
          → (z : Round D T) × (run_rounds k l fuel d rest ≡ some z))
      → (z : Round D T) × (elim x [
        | goes_on d rest ↦ run_rounds k l fuel d rest
        | finished result d rest ↦ some (finished result d rest)
        | failed d ↦ some (failed d)
      ]
          ≡ some z)
  rounds_end r fuel (goes_on d rest) a more = more d rest a
  rounds_end r fuel (finished result d rest) a more = (finished result d rest, refl)
  rounds_end r fuel (failed d) a more = (failed d, refl)

  rank_bound : (s : EntryState) → rank s < 4
  rank_bound entry_init = omega arith
  rank_bound indexed = omega arith
  rank_bound literal_begin = omega arith
  rank_bound literal_name_string = omega arith
  rank_bound literal_value_string = omega arith
  rank_bound dynamic_table_resize = omega arith

  still_enough :
      (fuel r r' : ℕ) {b : ℕ} {bs rest : List ℕ}
      → ((b ∷ bs) ≡ []) ⊎ (4 ≤ suc fuel + r)
      → (rest ≡ []) ⊎ (r < r')
      → (rest ≡ []) ⊎ (4 ≤ fuel + r')
  still_enough fuel r r' enough (inl e) = inl e
  still_enough fuel r r' (inl e) (inr up) = absurd (ground (arith, e))
  still_enough fuel r r' (inr h) (inr up) = inr (omega arith)

  run_rounds_total :
      (fuel : ℕ) (d : Decoder D T) (bytes : List ℕ)
      → (bytes ≡ []) ⊎ (4 ≤ fuel + rank d.progress_entry.state)
      → (z : Round D T) × (run_rounds k l fuel d bytes ≡ some z)
  unfolding run_rounds
  run_rounds_total fuel d [] enough = (goes_on d [], refl)
  run_rounds_total zero d (b ∷ bs) enough = elim enough [
    | inl e ↦ absurd (ground (arith, e))
    | inr h ↦ absurd (let b = rank_bound d.progress_entry.state in omega arith)
  ]
  run_rounds_total (suc fuel) d (b ∷ bs) enough =
      rounds_end (rank d.progress_entry.state) fuel _ (round-Advances d.progress_entry.state d b bs)
        (λ d' rest a. run_rounds_total fuel d' rest (still_enough fuel _ _ enough a))

  -- `aws_hpack_decode` returns, from any state of an entry and on any bytes: its loop ends within four
  -- rounds.
  pub decode_total :
      (d : Decoder D T) (to_decode : List ℕ) → (r : Round D T) × (decode k l d to_decode ≡ some r)
  unfolding decode
  decode_total d to_decode = run_rounds_total 4 d to_decode (inr (omega arith))
