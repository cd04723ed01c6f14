-- ===== src/Resp3/Parser/Value.antt =====
-- resp3/impl/parser.ipp, `parse_value`: one value, or the header of a container, from the unread bytes.
pub mod Lines
pub mod Nodes
pub mod Forms
pub mod Containers
pub mod Total
use rediscoro.Prelude.{
  ℕ, zero, suc, ◌+◌, ◌-◌, ◌*◌, ◌%◌, ◌^◌, Bool, true, false, ◌||◌, ◌&&◌, not, Option, none, some,
  List, [], ◌∷◌, ◌++◌, ltb, leb, ◌==◌, if◌then◌else◌, get_elem?, get_or, take, drop, length, ◌>>=◌,
  ℤ, pos, negsuc, ltb_ℤ,
}
use rediscoro.Errors.{ProtocolErrc}
use rediscoro.Resp3.Kind.{Kind, prefix_to_kind}
use rediscoro.Resp3.Buffer.{View, contents, size_max}
use rediscoro.Resp3.Buffer
use rediscoro.Resp3.Raw.{RawNode, blank_node}
use rediscoro.Resp3.Scan.{
  find_crlf, parse_i64, parse_double, is_valid_verbatim_payload, exceeds_i64_limit, cr, lf,
  same_text,
}
use rediscoro.Resp3.Parser.{
  Limits, Parser, Parsed, fails, more, done, Step, continue_parsing, produced, add_node,
  start_container, start_attribute, Frame, FrameKind,
}

-- The line behind the type byte, as its length; its text begins at the second byte.
unfoldable pub line_after_type : Limits → List ℕ → Parsed ℕ
unfolding find_crlf
line_after_type lims input = elim (find_crlf (drop 1 input)) [
  | none ↦
      if ltb lims.max_resp_line_bytes (length (drop 1 input))
      then fails ProtocolErrc.invalid_length
      else more
  | some i ↦ if ltb lims.max_resp_line_bytes i then fails ProtocolErrc.invalid_length else done i
]

-- A length and the number of bytes of its header.
pub record LengthHeader : Type 0 where
  pub length : ℤ
  pub header_bytes : ℕ

unfoldable pub parse_length_after_type : Limits → List ℕ → Parsed LengthHeader
unfolding line_after_type parse_i64
parse_length_after_type lims input = elim (line_after_type lims input) [
  | fails e ↦ fails e
  | more ↦ more
  | done i ↦ elim (parse_i64 (take i (drop 1 input))) [
    | none ↦ fails ProtocolErrc.invalid_length
    | some n ↦ done (record { length = n; header_bytes = 1 + i + 2 })
  ]
]

abbrev pub Turn : Type 0
Turn = Option (Parser × Parsed Step)

-- A view of the unread bytes, from the `offset`-th on.
abbrev pub text_at : Parser → ℕ → ℕ → View
text_at p offset len = record { block = p.buf.block; offset = p.buf.read_pos + offset; len = len }

-- The bytes of a completed value are consumed, and its node enters the tree.
unfoldable pub produce : Parser → ℕ → RawNode → Turn
unfolding add_node
produce p n node = do
  b ← Buffer.consume p.buf n
  (q, idx) ← add_node (record p { buf = b }) node
  some (q, done (produced idx))

unfoldable pub parse_attribute : Parser → List ℕ → Turn
unfolding parse_length_after_type start_attribute
parse_attribute p input = elim (parse_length_after_type p.limits input) [
  | fails e ↦ some (p, fails e)
  | more ↦ some (p, more)
  | done h ↦ (do
    b ← Buffer.consume p.buf h.header_bytes
    some (start_attribute (record p { buf = b }) h.length))
]

unfoldable pub parse_container : Parser → Kind → List ℕ → Turn
unfolding parse_length_after_type start_container
parse_container p k input = elim (parse_length_after_type p.limits input) [
  | fails e ↦ some (p, fails e)
  | more ↦ some (p, more)
  | done h ↦ (do
    b ← Buffer.consume p.buf h.header_bytes
    start_container (record p { buf = b }) k h.length)
]

unfoldable pub parse_null : Parser → List ℕ → Turn
unfolding produce
parse_null p input =
    if ltb (length input) 3
    then some (p, more)
    else if not (get_or input 1 0 == cr && get_or input 2 0 == lf)
    then some (p, fails ProtocolErrc.invalid_null)
    else produce p 3 (blank_node Kind.null)

unfoldable pub parse_boolean : Parser → List ℕ → Turn
unfolding produce
parse_boolean p input =
    if ltb (length input) 4
    then some (p, more)
    else if not (get_or input 2 0 == cr && get_or input 3 0 == lf)
    then some (p, fails ProtocolErrc.invalid_boolean)
    else if get_or input 1 0 == b't'
    then produce p 4 (record (blank_node Kind.boolean) { boolean = true })
    else if get_or input 1 0 == b'f'
    then produce p 4 (record (blank_node Kind.boolean) { boolean = false })
    else some (p, fails ProtocolErrc.invalid_boolean)

abbrev pub is_verbatim : Kind → Bool
is_verbatim Kind.verbatim_string = true
is_verbatim _ = false

-- The payload of `len` bytes behind a header, and its trailer.
unfoldable pub parse_payload : Parser → Kind → List ℕ → ℕ → ℕ → Turn
unfolding produce is_valid_verbatim_payload
parse_payload p k input header len =
    let need = (header + len + 2) % 2 ^ 64 in
    if ltb size_max need
    then some (p, fails ProtocolErrc.invalid_length)
    else if ltb (length input) need
    then some (p, more)
    else if not (same_text (take 2 (drop (header + len) input)) (cr ∷ lf ∷ []))
    then some (p, fails ProtocolErrc.invalid_bulk_trailer)
    else if is_verbatim k && not (is_valid_verbatim_payload (take len (drop header input)))
    then some (p, fails ProtocolErrc.invalid_verbatim)
    else produce p need (record (blank_node k) { text = text_at p header len; i64 = pos len })

unfoldable pub parse_bulk : Parser → Kind → List ℕ → Turn
unfolding parse_length_after_type exceeds_i64_limit parse_payload
parse_bulk p k input = elim (parse_length_after_type p.limits input) [
  | fails e ↦ some (p, fails e)
  | more ↦ some (p, more)
  | done h ↦
      if ltb_ℤ h.length (negsuc 0) || exceeds_i64_limit h.length p.limits.max_resp_bulk_bytes
      then some (p, fails ProtocolErrc.invalid_length)
      else elim h.length [
        | negsuc n ↦ produce p h.header_bytes (record (blank_node k) { i64 = negsuc 0 })
        | pos len ↦ parse_payload p k input h.header_bytes len
      ]
]

-- The line of `i` bytes behind the type byte, for each kind that is one line. `from_chars_f64` is
-- `std::from_chars` into a `double`.
unfoldable pub line_value : (List ℕ → Option (ℕ × List ℕ)) → Parser → Kind → List ℕ → ℕ → Turn
unfolding produce parse_i64 parse_double
line_value from_chars_f64 p Kind.simple_string input i =
    produce p (1 + i + 2) (record (blank_node Kind.simple_string) { text = text_at p 1 i })
line_value from_chars_f64 p Kind.simple_error input i =
    produce p (1 + i + 2) (record (blank_node Kind.simple_error) { text = text_at p 1 i })
line_value from_chars_f64 p Kind.big_number input i =
    produce p (1 + i + 2) (record (blank_node Kind.big_number) { text = text_at p 1 i })
line_value from_chars_f64 p Kind.integer input i = elim (parse_i64 (take i (drop 1 input))) [
  | none ↦ some (p, fails ProtocolErrc.invalid_integer)
  | some v ↦
      produce p (1 + i + 2) (record (blank_node Kind.integer) { text = text_at p 1 i; i64 = v })
]
line_value from_chars_f64 p Kind.double_number input i =
    elim (parse_double from_chars_f64 (take i (drop 1 input))) [
      | none ↦ some (p, fails ProtocolErrc.invalid_double)
      | some v ↦
          produce p (1 + i + 2)
            (record (blank_node Kind.double_number) { text = text_at p 1 i; f64 = v })
    ]
line_value from_chars_f64 p _ input i = some (p, fails ProtocolErrc.invalid_type_byte)

unfoldable pub parse_line : (List ℕ → Option (ℕ × List ℕ)) → Parser → Kind → List ℕ → Turn
unfolding line_after_type line_value
parse_line from_chars_f64 p k input = elim (line_after_type p.limits input) [
  | fails e ↦ some (p, fails e)
  | more ↦ some (p, more)
  | done i ↦ line_value from_chars_f64 p k input i
]

-- Each kind has its own form.
unfoldable pub parse_kind : (List ℕ → Option (ℕ × List ℕ)) → Parser → Kind → List ℕ → Turn
unfolding parse_attribute parse_container parse_null parse_boolean parse_bulk parse_line
parse_kind from_chars_f64 p Kind.attribute input = parse_attribute p input
parse_kind from_chars_f64 p Kind.array input = parse_container p Kind.array input
parse_kind from_chars_f64 p Kind.map input = parse_container p Kind.map input
parse_kind from_chars_f64 p Kind.set input = parse_container p Kind.set input
parse_kind from_chars_f64 p Kind.push input = parse_container p Kind.push input
parse_kind from_chars_f64 p Kind.null input = parse_null p input
parse_kind from_chars_f64 p Kind.boolean input = parse_boolean p input
parse_kind from_chars_f64 p Kind.bulk_string input = parse_bulk p Kind.bulk_string input
parse_kind from_chars_f64 p Kind.bulk_error input = parse_bulk p Kind.bulk_error input
parse_kind from_chars_f64 p Kind.verbatim_string input = parse_bulk p Kind.verbatim_string input
parse_kind from_chars_f64 p k input = parse_line from_chars_f64 p k input

abbrev pub is_value : FrameKind → Bool
is_value FrameKind.value = true
is_value _ = false

-- Called with a value frame on top of the stack.
abbrev pub on_value_frame : List Frame → Turn → Turn
on_value_frame [] turn = none
on_value_frame (f ∷ rest) turn = if is_value f.state then turn else none

unfoldable pub parse_input : (List ℕ → Option (ℕ × List ℕ)) → Parser → List ℕ → Turn
unfolding prefix_to_kind parse_kind
parse_input from_chars_f64 p [] = some (p, more)
parse_input from_chars_f64 p (c ∷ cs) = elim (prefix_to_kind c) [
  | none ↦ some (p, fails ProtocolErrc.invalid_type_byte)
  | some k ↦ parse_kind from_chars_f64 p k (c ∷ cs)
]

unfoldable pub parse_value : (List ℕ → Option (ℕ × List ℕ)) → Parser → Turn
unfolding parse_input
parse_value from_chars_f64 p =
    on_value_frame p.stack (parse_input from_chars_f64 p (contents p.buf))
