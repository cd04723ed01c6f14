-- ===== src/Adapter/Tests.antt =====
-- adapter/: a reply with two counters, of which one is too large, and what the error says.
use rediscoro.Prelude.{
  codes, ℕ, ◌≡◌, refl, Bool, true, false, ◌&&◌, List, [], ◌∷◌, inl, inr, none, some, pos, ◌==◌, ◌⊎◌,
  ◌↔◌,
}
use rediscoro.Errors.{AdapterErrc}
use rediscoro.Resp3.Kind.{Kind}
use rediscoro.Resp3.Message.{
  Message, message, get_kind, Value, no_attrs, Messages, no_messages, more_messages, Entries,
  no_entries, entry,
}
use rediscoro.Request.{to_chars, to_digits}
use rediscoro.Adapter.Error.{
  Error, path_index, path_key, prepend_path, make_value_out_of_range, make_duplicate_key,
  make_type_mismatch, format_message, to_string,
}
use rediscoro.Adapter.Scalar.{w8, w16, text, unsigned, signed, adapt_scalar, adapt_unsigned}
use rediscoro.Adapter.Containers.{
  elements, entries, element_loop, adapt_sequence, adapt_map, contains, emplace, put_entry,
  entry_loop,
}
use rediscoro.Adapter.Dispatch.{Target, scalar, sequence, map, adapt}
use rediscoro.Adapter.Bounds.{adapt_scalar-bounds, FitsSigned, FitsUnsigned}
use rediscoro.Adapter.Sequences.{adapt_sequence_lem, sequence_elements, Yields}
use rediscoro.Adapter.Maps.{adapt_map_lem, EntriesYield, Fresh}
use rediscoro.Adapter.Refusals.{adapt-Refusal}
use rediscoro.Adapter.Paths.{Refusal}
use rediscoro.Adapter.Caching.{prepend, print, acts, to_string-acts}

abbrev eq_text : List ℕ → List ℕ → Bool
eq_text [] [] = true
eq_text (a ∷ cs) (b ∷ bs) = (a == b) && eq_text cs bs
eq_text _ _ = false

abbrev num : ℕ → Message
num n = message (Value.integer (pos n)) no_attrs

abbrev str : List ℕ → Message
str t = message (Value.bulk_string t) no_attrs

abbrev two_numbers : Messages
two_numbers = more_messages (num 7) (more_messages (num 300) no_messages)

abbrev counters : Message
counters =
    message
      (Value.map
        (entry (str (codes "hits")) (message (Value.array two_numbers) no_attrs) no_entries))
      no_attrs

abbrev asked : Target
asked = map text eq_text (sequence (scalar (unsigned w8)))

abbrev too_large : Error
too_large = record {
  kind = AdapterErrc.value_out_of_range;
  actual_type = Kind.integer;
  expected_types = Kind.integer ∷ [];
  path = path_key (codes "hits") ∷ path_index 1 ∷ [];
  expected_size = none;
  got_size = none;
  cached_message = none;
}

counters_refused : adapt asked counters ≡ inr too_large
unfolding adapt elements entries adapt_map put_entry entry_loop contains adapt_sequence element_loop
    adapt_scalar adapt_unsigned prepend_path make_value_out_of_range
counters_refused = refl

counters_text : format_message too_large ≡ codes "$[\"hits\"][1]: value out of range for integer"
unfolding format_message to_chars to_digits
counters_text = refl

adapt-Refusal_example : Refusal asked counters too_large
adapt-Refusal_example = adapt-Refusal asked counters too_large counters_refused

adapt_scalar-bounds_example :
    let s = adapt_scalar (signed w8) (num 200) in
    let u = adapt_scalar (unsigned w8) (num 200) in
    ((FitsSigned w8 (pos 200) × (s ≡ inl (pos 200)))
      ⊎ (¬ FitsSigned w8 (pos 200) × (s ≡ inr (make_value_out_of_range Kind.integer))))
    × (((n : ℕ) × (pos 200 ≡ pos n) × FitsUnsigned w8 (pos 200) × (u ≡ inl n))
        ⊎ (¬ FitsUnsigned w8 (pos 200) × (u ≡ inr (make_value_out_of_range Kind.integer))))
adapt_scalar-bounds_example = adapt_scalar-bounds w8 (pos 200) no_attrs refl

adapt_sequence_lem_example :
    let m = message (Value.array two_numbers) no_attrs in
    (adapt_sequence (adapt_scalar (signed w16)) m ≡ inl (pos 7 ∷ pos 300 ∷ [])) ↔ (
      (ms : List Message) × (sequence_elements m ≡ some ms)
      × Yields (adapt_scalar (signed w16)) ms (pos 7 ∷ pos 300 ∷ []))
adapt_sequence_lem_example =
    adapt_sequence_lem (adapt_scalar (signed w16)) (message (Value.array two_numbers) no_attrs)
      (pos 7 ∷ pos 300 ∷ [])

abbrev twice : Entries
twice = entry (str (codes "a")) (num 1) (entry (str (codes "a")) (num 2) no_entries)

twice_refused :
    adapt (map text eq_text (scalar (unsigned w8))) (message (Value.map twice) no_attrs)
    ≡ inr (prepend_path (path_key (codes "a")) make_duplicate_key)
unfolding adapt elements entries adapt_map put_entry entry_loop contains emplace adapt_scalar
    adapt_unsigned prepend_path make_duplicate_key
twice_refused = refl

abbrev two_entries : List (List ℕ × ℕ)
two_entries = (codes "a", 1) ∷ (codes "a", 2) ∷ []

adapt_map_lem_example :
    (adapt_map eq_text some
        (adapt_scalar text)
        (adapt_scalar (unsigned w8))
        (message (Value.map twice) no_attrs)
      ≡ inl two_entries)
    ↔ (EntriesYield eq_text some
          (adapt_scalar text)
          (adapt_scalar (unsigned w8))
          (entries twice)
          two_entries
        × Fresh eq_text [] two_entries)
adapt_map_lem_example =
    adapt_map_lem eq_text some (adapt_scalar text) (adapt_scalar (unsigned w8)) twice no_attrs
      two_entries

to_string-acts_example :
    (to_string (acts (print ∷ prepend (path_index 1) ∷ []) make_duplicate_key)).0
    ≡ format_message (acts (print ∷ prepend (path_index 1) ∷ []) make_duplicate_key)
unfolding make_duplicate_key
to_string-acts_example =
    to_string-acts (print ∷ prepend (path_index 1) ∷ []) make_duplicate_key refl

-- A null array is no empty sequence.
null_array :
    adapt_sequence (adapt_scalar text) (message (Value.null Kind.array) no_attrs)
    ≡ inr (make_type_mismatch Kind.null (Kind.array ∷ Kind.set ∷ Kind.push ∷ []))
unfolding adapt_sequence get_kind
null_array = refl
