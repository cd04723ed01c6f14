-- ===== src/Resp3/Message.antt =====
-- resp3/value.hpp and resp3/message.hpp: a complete RESP3 value with its attributes.
pub mod Queries
use rediscoro.Prelude.{ℕ, Bool, true, false, Option, none, some, List, ℤ}
use rediscoro.Resp3.Kind.{Kind}

-- Texts are bytes: a view that the message was built from is read at that time. `null k` has the source kind `k`.
mutual
  pub data Message : Type 0 where
    message : Value → Attrs → Message

  pub data Value : Type 0 where
    simple_string simple_error big_number bulk_string bulk_error : List ℕ → Value
    integer : ℤ → Value
    double_number : ℕ → Value
    boolean : Bool → Value
    null : Kind → Value
    verbatim_string : List ℕ → List ℕ → Value
    array set push : Messages → Value
    map : Entries → Value

  pub data Attrs : Type 0 where
    no_attrs : Attrs
    attribute : Entries → Attrs

  pub data Messages : Type 0 where
    no_messages : Messages
    more_messages : Message → Messages → Messages

  pub data Entries : Type 0 where
    no_entries : Entries
    entry : Message → Message → Entries → Entries

abbrev pub value_of : Message → Value
value_of (message v at) = v

unfoldable pub get_kind : Message → Kind
get_kind (message (simple_string s) at) = Kind.simple_string
get_kind (message (simple_error s) at) = Kind.simple_error
get_kind (message (big_number s) at) = Kind.big_number
get_kind (message (bulk_string s) at) = Kind.bulk_string
get_kind (message (bulk_error s) at) = Kind.bulk_error
get_kind (message (integer n) at) = Kind.integer
get_kind (message (double_number n) at) = Kind.double_number
get_kind (message (boolean b) at) = Kind.boolean
get_kind (message (null k) at) = Kind.null
get_kind (message (verbatim_string e s) at) = Kind.verbatim_string
get_kind (message (array ms) at) = Kind.array
get_kind (message (set ms) at) = Kind.set
get_kind (message (push ms) at) = Kind.push
get_kind (message (map es) at) = Kind.map

-- The text of `simple_error` and `bulk_error`.
abbrev pub error_text : Message → Option (List ℕ)
error_text (message (simple_error s) at) = some s
error_text (message (bulk_error s) at) = some s
error_text _ = none

unfoldable pub is_null : Message → Bool
is_null (message (null k) at) = true
is_null _ = false

pub is_typed_null : Message → Bool
is_typed_null (message (null Kind.null) at) = false
is_typed_null (message (null k) at) = true
is_typed_null _ = false

pub typed_null_source : Message → Option Kind
typed_null_source (message (null Kind.null) at) = none
typed_null_source (message (null k) at) = some k
typed_null_source _ = none

pub is_aggregate : Message → Bool
is_aggregate (message (array ms) at) = true
is_aggregate (message (map es) at) = true
is_aggregate (message (set ms) at) = true
is_aggregate (message (push ms) at) = true
is_aggregate _ = false

pub is_simple : Message → Bool
is_simple (message (simple_string s) at) = true
is_simple (message (simple_error s) at) = true
is_simple (message (integer n) at) = true
is_simple (message (double_number n) at) = true
is_simple (message (boolean b) at) = true
is_simple (message (big_number s) at) = true
is_simple (message (null k) at) = true
is_simple _ = false

pub is_bulk : Message → Bool
is_bulk (message (bulk_string s) at) = true
is_bulk (message (bulk_error s) at) = true
is_bulk (message (verbatim_string e s) at) = true
is_bulk _ = false

pub is_error : Message → Bool
is_error (message (simple_error s) at) = true
is_error (message (bulk_error s) at) = true
is_error _ = false

pub is_string : Message → Bool
is_string (message (simple_string s) at) = true
is_string (message (bulk_string s) at) = true
is_string (message (verbatim_string e s) at) = true
is_string _ = false
