-- ===== src/Adapter/Scalar.antt =====
-- adapter/detail/adapt_scalar.hpp: texts, integers of every width, truth values and floating point numbers.
use rediscoro.Prelude.{
  ℕ, ◌-◌, ◌%◌, ◌^◌, Bool, ◌&&◌, ◌||◌, List, [], ◌∷◌, ◌⊎◌, inl, inr, ℤ, pos, negsuc, ltb_ℤ, ltb,
  if◌then◌else◌,
}
use rediscoro.Resp3.Kind.{Kind}
use rediscoro.Resp3.Message.{
  Message, message, simple_string, bulk_string, verbatim_string, integer, boolean, null,
  double_number, get_kind,
}
use rediscoro.Adapter.Error.{
  Error, make_type_mismatch, make_unexpected_null, make_value_out_of_range,
}

-- The sizes of the integral types.
pub data Width : Type 0 where
  w8 w16 w32 w64 : Width

abbrev pub bits : Width → ℕ
bits w8 = 8
bits w16 = 16
bits w32 = 32
bits w64 = 64

-- The type asked for. `floating` has the conversion from `double` to the type, on bit patterns.
pub data Scalar : Type 0 where
  text truth : Scalar
  unsigned signed : Width → Scalar
  floating : (ℕ → ℕ) → Scalar

abbrev pub ScalarValue : Scalar → Type 0
ScalarValue text = List ℕ
ScalarValue truth = Bool
ScalarValue (unsigned w) = ℕ
ScalarValue (signed w) = ℤ
ScalarValue (floating cast) = ℕ

abbrev pub string_kinds : List Kind
string_kinds = Kind.simple_string ∷ Kind.bulk_string ∷ Kind.verbatim_string ∷ []

-- The limits of a signed type.
abbrev pub min_signed : Width → ℤ
min_signed w = negsuc (2 ^ (bits w - 1) - 1)

abbrev pub max_signed : Width → ℤ
max_signed w = pos (2 ^ (bits w - 1) - 1)

-- `static_cast` from `std::int64_t` and to a narrower signed type: the value modulo the type's size.
abbrev pub to_uint64 : ℤ → ℕ
to_uint64 (pos n) = n % 2 ^ 64
to_uint64 (negsuc n) = 2 ^ 64 - 1 - n % 2 ^ 64

abbrev pub as_signed : Width → ℕ → ℤ
as_signed w n = if ltb n (2 ^ (bits w - 1)) then pos n else negsuc (2 ^ bits w - 1 - n)

unfoldable pub cast_signed : Width → ℤ → ℤ
cast_signed w v = as_signed w (to_uint64 v % 2 ^ bits w)

unfoldable pub adapt_unsigned : Width → ℤ → ℕ ⊎ Error
adapt_unsigned w v =
    if ltb_ℤ v (pos 0)
    then inr (make_value_out_of_range Kind.integer)
    else let uv = to_uint64 v in
      if ltb (bits w) 64 && ltb (2 ^ bits w - 1) uv
      then inr (make_value_out_of_range Kind.integer)
      else inl (uv % 2 ^ bits w)

unfoldable pub adapt_signed : Width → ℤ → ℤ ⊎ Error
unfolding cast_signed
adapt_signed w v =
    if ltb (bits w) 64 && (ltb_ℤ v (min_signed w) || ltb_ℤ (max_signed w) v)
    then inr (make_value_out_of_range Kind.integer)
    else inl (cast_signed w v)

unfoldable pub adapt_scalar : (s : Scalar) → Message → ScalarValue s ⊎ Error
adapt_scalar text (message (null k) at) = inr (make_unexpected_null string_kinds)
adapt_scalar text (message (simple_string t) at) = inl t
adapt_scalar text (message (bulk_string t) at) = inl t
adapt_scalar text (message (verbatim_string e t) at) = inl t
adapt_scalar text m = inr (make_type_mismatch (get_kind m) string_kinds)
adapt_scalar (unsigned w) (message (null k) at) = inr (make_unexpected_null (Kind.integer ∷ []))
adapt_scalar (unsigned w) (message (integer v) at) = adapt_unsigned w v
adapt_scalar (unsigned w) m = inr (make_type_mismatch (get_kind m) (Kind.integer ∷ []))
adapt_scalar (signed w) (message (null k) at) = inr (make_unexpected_null (Kind.integer ∷ []))
adapt_scalar (signed w) (message (integer v) at) = adapt_signed w v
adapt_scalar (signed w) m = inr (make_type_mismatch (get_kind m) (Kind.integer ∷ []))
adapt_scalar truth (message (null k) at) = inr (make_unexpected_null (Kind.boolean ∷ []))
adapt_scalar truth (message (boolean b) at) = inl b
adapt_scalar truth m = inr (make_type_mismatch (get_kind m) (Kind.boolean ∷ []))
adapt_scalar (floating cast) (message (null k) at) =
    inr (make_unexpected_null (Kind.double_number ∷ []))
adapt_scalar (floating cast) (message (double_number d) at) = inl (cast d)
adapt_scalar (floating cast) m = inr (make_type_mismatch (get_kind m) (Kind.double_number ∷ []))
