-- ===== src/Adapter/Error.antt =====
-- adapter/error.hpp: why a reply does not fit the type asked for, with the path to the place.
use rediscoro.Prelude.{codes, ℕ, Option, none, some, List, [], ◌∷◌, ◌++◌}
use rediscoro.Errors.{AdapterErrc}
use rediscoro.Resp3.Kind.{Kind}
use rediscoro.Request.{to_chars}

pub data PathElement : Type 0 where
  path_index : ℕ → PathElement
  path_key path_field : List ℕ → PathElement

pub record Error : Type 0 where
  pub kind : AdapterErrc
  pub actual_type : Kind
  pub expected_types : List Kind
  pub path : List PathElement
  pub expected_size : Option ℕ
  pub got_size : Option ℕ
  pub cached_message : Option (List ℕ)

unfoldable pub prepend_path : PathElement → Error → Error
prepend_path el e = record e { path = el ∷ e.path; cached_message = none }

unfoldable pub make_type_mismatch : Kind → List Kind → Error
make_type_mismatch actual expected = record {
  kind = AdapterErrc.type_mismatch;
  actual_type = actual;
  expected_types = expected;
  path = [];
  expected_size = none;
  got_size = none;
  cached_message = none;
}

unfoldable pub make_unexpected_null : List Kind → Error
make_unexpected_null expected = record {
  kind = AdapterErrc.unexpected_null;
  actual_type = Kind.null;
  expected_types = expected;
  path = [];
  expected_size = none;
  got_size = none;
  cached_message = none;
}

unfoldable pub make_value_out_of_range : Kind → Error
make_value_out_of_range k = record {
  kind = AdapterErrc.value_out_of_range;
  actual_type = k;
  expected_types = k ∷ [];
  path = [];
  expected_size = none;
  got_size = none;
  cached_message = none;
}

unfoldable pub make_duplicate_key : Error
make_duplicate_key = record {
  kind = AdapterErrc.duplicate_key;
  actual_type = Kind.map;
  expected_types = Kind.map ∷ [];
  path = [];
  expected_size = none;
  got_size = none;
  cached_message = none;
}

unfoldable pub make_size_mismatch : Kind → ℕ → ℕ → Error
make_size_mismatch actual expected got = record {
  kind = AdapterErrc.size_mismatch;
  actual_type = actual;
  expected_types = [];
  path = [];
  expected_size = some expected;
  got_size = some got;
  cached_message = none;
}

pub kind_name : Kind → List ℕ
kind_name Kind.simple_string = codes "simple_string"
kind_name Kind.simple_error = codes "simple_error"
kind_name Kind.integer = codes "integer"
kind_name Kind.double_number = codes "double"
kind_name Kind.boolean = codes "boolean"
kind_name Kind.big_number = codes "big_number"
kind_name Kind.null = codes "null"
kind_name Kind.bulk_string = codes "bulk_string"
kind_name Kind.bulk_error = codes "bulk_error"
kind_name Kind.verbatim_string = codes "verbatim_string"
kind_name Kind.array = codes "array"
kind_name Kind.map = codes "map"
kind_name Kind.set = codes "set"
kind_name Kind.attribute = codes "attribute"
kind_name Kind.push = codes "push"

-- `path_to_string` behind the leading `$`.
unfoldable pub path_to_string : List PathElement → List ℕ
path_to_string [] = []
path_to_string (path_index i ∷ p) = codes "[" ++ to_chars i ++ codes "]" ++ path_to_string p
path_to_string (path_key k ∷ p) = codes "[\"" ++ k ++ codes "\"]" ++ path_to_string p
path_to_string (path_field f ∷ p) = codes "." ++ f ++ path_to_string p

-- The loop over the kinds behind the first one.
pub more_types : List Kind → List ℕ
unfolding kind_name
more_types [] = []
more_types (k ∷ ks) = codes ", " ++ kind_name k ++ more_types ks

pub any_of : Kind → List Kind → List ℕ
unfolding kind_name more_types
any_of k ks = codes "any of: " ++ kind_name k ++ more_types ks

pub type_mismatch_text : List Kind → Kind → List ℕ
unfolding kind_name any_of
type_mismatch_text [] actual = codes ": expected <?>, got " ++ kind_name actual
type_mismatch_text (k ∷ []) actual =
    codes ": expected " ++ kind_name k ++ codes ", got " ++ kind_name actual
type_mismatch_text (k ∷ k' ∷ ks) actual =
    codes ": expected (" ++ any_of k (k' ∷ ks) ++ codes "), got " ++ kind_name actual

pub unexpected_null_text : List Kind → List ℕ
unfolding kind_name any_of
unexpected_null_text [] = codes ": unexpected null"
unexpected_null_text (k ∷ []) = codes ": unexpected null (expected " ++ kind_name k ++ codes ")"
unexpected_null_text (k ∷ k' ∷ ks) =
    codes ": unexpected null (expected " ++ any_of k (k' ∷ ks) ++ codes ")"

pub out_of_range_text : List Kind → List ℕ
unfolding kind_name
out_of_range_text (k ∷ []) = codes ": value out of range for " ++ kind_name k
out_of_range_text _ = codes ": value out of range"

pub size_mismatch_text : Option ℕ → Option ℕ → List ℕ
size_mismatch_text (some m) (some n) =
    codes ": size mismatch (expected " ++ to_chars m ++ codes ", got " ++ to_chars n ++ codes ")"
size_mismatch_text _ _ = codes ": size mismatch"

unfoldable pub kind_text : AdapterErrc → Error → List ℕ
unfolding type_mismatch_text unexpected_null_text out_of_range_text size_mismatch_text
kind_text AdapterErrc.type_mismatch e = type_mismatch_text e.expected_types e.actual_type
kind_text AdapterErrc.unexpected_null e = unexpected_null_text e.expected_types
kind_text AdapterErrc.value_out_of_range e = out_of_range_text e.expected_types
kind_text AdapterErrc.duplicate_key e = codes ": duplicate key"
kind_text AdapterErrc.size_mismatch e = size_mismatch_text e.expected_size e.got_size

unfoldable pub format_message : Error → List ℕ
unfolding path_to_string kind_text
format_message e = codes "$" ++ path_to_string e.path ++ kind_text e.kind e

-- The text, and the error with the text kept.
unfoldable pub to_string : Error → List ℕ × Error
unfolding format_message
to_string e = elim e.cached_message [
  | some text ↦ (text, e)
  | none ↦ let text = format_message e in (text, record e { cached_message = some text })
]
