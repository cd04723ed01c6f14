-- ===== src/Adapter/Dispatch.antt =====
-- adapter/adapt.hpp: the adapter that a type has, and the reply slot made with it (detail/response_builder.hpp).
use rediscoro.Prelude.{ℕ, Bool, Option, none, some, List, ◌⊎◌, inl, inr}
use rediscoro.Errors.{ErrorInfo, adapter}
use rediscoro.Resp3.Message.{Message}
use rediscoro.Adapter.Error.{Error, to_string}
use rediscoro.Adapter.Scalar.{
  Scalar, ScalarValue, text, truth, unsigned, signed, floating, adapt_scalar,
}
use rediscoro.Adapter.Containers.{adapt_optional, adapt_sequence, adapt_std_array, adapt_map}

-- The types that can be asked for. A map has its own test for equal keys.
pub data Target : Type 0 where
  ignore : Target
  scalar : Scalar → Target
  optional sequence : Target → Target
  std_array : ℕ → Target → Target
  map : (s : Scalar) → (ScalarValue s → ScalarValue s → Bool) → Target → Target

abbrev pub Adapted : Target → Type 0
Adapted ignore = Unit
Adapted (scalar s) = ScalarValue s
Adapted (optional t) = Option (Adapted t)
Adapted (sequence t) = List (Adapted t)
Adapted (std_array n t) = List (Adapted t)
Adapted (map s same t) = List (ScalarValue s × Adapted t)

-- The text of a key that is a `std::string`.
abbrev pub key_text : (s : Scalar) → ScalarValue s → Option (List ℕ)
key_text text k = some k
key_text truth k = none
key_text (unsigned w) k = none
key_text (signed w) k = none
key_text (floating cast) k = none

unfoldable pub adapt : (t : Target) → Message → Adapted t ⊎ Error
adapt ignore m = inl tt
adapt (scalar s) m = adapt_scalar s m
adapt (optional t) m = adapt_optional (adapt t) m
adapt (sequence t) m = adapt_sequence (adapt t) m
adapt (std_array n t) m = adapt_std_array (adapt t) n m
adapt (map s same t) m = adapt_map same (key_text s) (adapt_scalar s) (adapt t) m

-- The error that a reply slot is given.
abbrev pub error_of {ℓ} : {A : Type ℓ} → A ⊎ Error → A ⊎ ErrorInfo
error_of (inl a) = inl a
error_of (inr e) = inr (record { code = adapter e.kind; detail = (to_string e).0 })

unfoldable pub adapt_reply : (t : Target) → Message → Adapted t ⊎ ErrorInfo
adapt_reply t m = error_of (adapt t m)
