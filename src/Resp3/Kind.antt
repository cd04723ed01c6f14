-- ===== src/Resp3/Kind.antt =====
-- resp3/kind.hpp: the kinds of RESP3 values and their prefix bytes.
use rediscoro.Prelude.{ℕ, ◌≡◌, ◌↔◌, Option, none, some, arith, ◌==◌, if◌then◌else◌}

pub data Kind : Type 0 where
  simple_string simple_error integer double_number boolean big_number null : Kind
  bulk_string bulk_error verbatim_string : Kind
  array map set attribute push : Kind

unfoldable pub kind_to_prefix : Kind → ℕ
kind_to_prefix Kind.simple_string = b'+'
kind_to_prefix Kind.simple_error = b'-'
kind_to_prefix Kind.integer = b':'
kind_to_prefix Kind.double_number = b','
kind_to_prefix Kind.boolean = b'#'
kind_to_prefix Kind.big_number = b'('
kind_to_prefix Kind.null = b'_'
kind_to_prefix Kind.bulk_string = b'$'
kind_to_prefix Kind.bulk_error = b'!'
kind_to_prefix Kind.verbatim_string = b'='
kind_to_prefix Kind.array = b'*'
kind_to_prefix Kind.map = b'%'
kind_to_prefix Kind.set = b'~'
kind_to_prefix Kind.attribute = b'|'
kind_to_prefix Kind.push = b'>'

unfoldable pub prefix_to_kind : ℕ → Option Kind
prefix_to_kind b =
    if b == b'+'
    then some Kind.simple_string
    else if b == b'-'
    then some Kind.simple_error
    else if b == b':'
    then some Kind.integer
    else if b == b','
    then some Kind.double_number
    else if b == b'#'
    then some Kind.boolean
    else if b == b'('
    then some Kind.big_number
    else if b == b'_'
    then some Kind.null
    else if b == b'$'
    then some Kind.bulk_string
    else if b == b'!'
    then some Kind.bulk_error
    else if b == b'='
    then some Kind.verbatim_string
    else if b == b'*'
    then some Kind.array
    else if b == b'%'
    then some Kind.map
    else if b == b'~'
    then some Kind.set
    else if b == b'|'
    then some Kind.attribute
    else if b == b'>'
    then some Kind.push
    else none

-- A byte is read as a kind exactly if it is the prefix of that kind.
prefix-kind_iff : (b : ℕ) (k : Kind) → (prefix_to_kind b ≡ some k) ↔ (b ≡ kind_to_prefix k)
unfolding prefix_to_kind kind_to_prefix
prefix-kind_iff b k = (λ h. ground arith, back k)
  where
    back : (k : Kind) → b ≡ kind_to_prefix k → prefix_to_kind b ≡ some k
    back Kind.simple_string h = rw h
    back _ h = rw h
