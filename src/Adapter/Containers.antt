-- ===== src/Adapter/Containers.antt =====
-- adapter/detail/adapt_sequence.hpp, adapt_array.hpp, adapt_map.hpp and adapt_optional.hpp. What `adapt<V>` is for
-- the element type is an argument.
use rediscoro.Prelude.{
  codes, ℕ, ◌+◌, Bool, true, false, not, ◌||◌, Option, none, some, List, [], ◌∷◌, ◌++◌, length,
  ◌==◌, if◌then◌else◌, ◌⊎◌, inl, inr,
}
use rediscoro.Adapter.Error.{
  Error, path_index, path_key, path_field, prepend_path, make_type_mismatch, make_duplicate_key,
  make_size_mismatch,
}
use rediscoro.Resp3.Kind.{Kind}
use rediscoro.Resp3.Message.{
  Message, message, array, set, push, map, null, Messages, no_messages, more_messages, Entries,
  no_entries, entry, get_kind,
}

unfoldable pub elements : Messages → List Message
elements no_messages = []
elements (more_messages m ms) = m ∷ elements ms

unfoldable pub entries : Entries → List (Message × Message)
entries no_entries = []
entries (entry k v es) = (k, v) ∷ entries es

abbrev pub optional_value {ℓ} : {V : Type ℓ} → V ⊎ Error → Option V ⊎ Error
optional_value (inl v) = inl (some v)
optional_value (inr e) = inr e

module _ {ℓ} {V : Type ℓ} (adapt : Message → V ⊎ Error) where
  -- A null, typed or not, is the empty value.
  unfoldable pub adapt_optional : Message → Option V ⊎ Error
  adapt_optional (message (null k) at) = inl none
  adapt_optional m = optional_value (adapt m)

  -- The loop over the elements: `i` of them are in `out`.
  unfoldable pub element_loop : ℕ → List V → List Message → List V ⊎ Error
  element_loop i out [] = inl out
  element_loop i out (m ∷ ms) = elim (adapt m) [
    | inl v ↦ element_loop (i + 1) (out ++ (v ∷ [])) ms
    | inr e ↦ inr (prepend_path (path_index i) e)
  ]

  unfoldable pub adapt_sequence : Message → List V ⊎ Error
  unfolding element_loop
  adapt_sequence (message (array ms) at) = element_loop 0 [] (elements ms)
  adapt_sequence (message (set ms) at) = element_loop 0 [] (elements ms)
  adapt_sequence (message (push ms) at) = element_loop 0 [] (elements ms)
  adapt_sequence m = inr (make_type_mismatch (get_kind m) (Kind.array ∷ Kind.set ∷ Kind.push ∷ []))

  -- The loop writes the slots of the array one after the other, each once, so its list of them grows as a vector does.
  unfoldable pub adapt_std_array : ℕ → Message → List V ⊎ Error
  unfolding element_loop
  adapt_std_array n (message (array ms) at) =
      if not (length (elements ms) == n)
      then inr (make_size_mismatch Kind.array n (length (elements ms)))
      else element_loop 0 [] (elements ms)
  adapt_std_array n m = inr (make_type_mismatch (get_kind m) (Kind.array ∷ []))

-- The paths of the errors of an entry. `key_text` gives the text of a key that is a `std::string`.
abbrev pub key_error : ℕ → Error → Error
key_error i e = prepend_path (path_index i) (prepend_path (path_field (codes "key")) e)

module _ {ℓ} {K : Type ℓ} (key_text : K → Option (List ℕ)) where
  abbrev pub duplicate_key_error : ℕ → K → Error
  duplicate_key_error i k = elim (key_text k) [
    | some t ↦ prepend_path (path_key t) make_duplicate_key
    | none ↦ key_error i make_duplicate_key
  ]

  abbrev pub value_error : ℕ → K → Error → Error
  value_error i k e = elim (key_text k) [
    | some t ↦ prepend_path (path_key t) e
    | none ↦ prepend_path (path_index i) (prepend_path (path_field (codes "value")) e)
  ]

-- A map is the list of its entries in the order in which they were put in. `same` is the container's test for equal
-- keys.
module _ {ℓ κ} {K : Type ℓ} {V : Type κ} (same : K → K → Bool) where
  unfoldable pub contains : K → List (K × V) → Bool
  contains k [] = false
  contains k ((k', v) ∷ out) = same k' k || contains k out

  unfoldable pub emplace : List (K × V) → K → V → List (K × V) × Bool
  unfolding contains
  emplace out k v = if contains k out then (out, false) else (out ++ ((k, v) ∷ []), true)

module _ {ℓ κ} {K : Type ℓ} {V : Type κ} (same : K → K → Bool) (key_text : K → Option (List ℕ))
    (adapt_key : Message → K ⊎ Error) (adapt_value : Message → V ⊎ Error) where
  -- One entry: the map with it, or the error.
  unfoldable pub put_entry : ℕ → List (K × V) → Message × Message → List (K × V) ⊎ Error
  unfolding contains emplace
  put_entry i out (km, vm) = elim (adapt_key km) [
    | inr e ↦ inr (key_error i e)
    | inl k ↦
        if contains same k out
        then inr (duplicate_key_error key_text i k)
        else (elim (adapt_value vm) [
          | inr e ↦ inr (value_error key_text i k e)
          | inl v ↦
              let (out', inserted) = emplace same out k v in
              if inserted then inl out' else inr (duplicate_key_error key_text i k)
        ])
  ]

  unfoldable pub entry_loop : ℕ → List (K × V) → List (Message × Message) → List (K × V) ⊎ Error
  entry_loop i out [] = inl out
  entry_loop i out (e ∷ es) = elim (put_entry i out e) [
    | inl out' ↦ entry_loop (i + 1) out' es
    | inr er ↦ inr er
  ]

  unfoldable pub adapt_map : Message → List (K × V) ⊎ Error
  unfolding entry_loop
  adapt_map (message (map es) at) = entry_loop 0 [] (entries es)
  adapt_map m = inr (make_type_mismatch (get_kind m) (Kind.map ∷ []))
