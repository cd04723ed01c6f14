-- ===== src/Resp3/Parser/Value/Total.antt =====
-- resp3/impl/parser.ipp, `parse_value`: in an orderly state no assertion fails, the parser's own state is
-- never found broken, and what is consumed is progress.
use rediscoro.Prelude.{
  ℕ, ◌+◌, ◌≤◌, ◌<◌, ◌≡◌, refl, inl, inr, Bool, true, false, Option, some, List, [], ◌∷◌, arith,
  Bool-cases, Option-cases, ltb, ◌==◌, length, take, drop, ℤ, pos, negsuc,
}
use rediscoro.Errors.{ProtocolErrc}
use rediscoro.Resp3.Kind.{Kind, prefix_to_kind}
use rediscoro.Resp3.Buffer.{readable, contents}
use rediscoro.Resp3.Buffer.Laws.{consume_eq, length-slice}
use rediscoro.Resp3.Scan.{parse_i64, parse_double, is_representable_length}
use rediscoro.Resp3.Parser.{
  Frame, Parser, Parsed, fails, more, done, continue_parsing, u32, start_attribute, attribute_frame,
}
use rediscoro.Resp3.Parser.Invariant.{IsStack}
use rediscoro.Resp3.Parser.Value.{
  Turn, LengthHeader, parse_attribute, line_value, parse_line, parse_kind, parse_input, parse_value,
  parse_length_after_type, line_after_type, on_value_frame,
}
use rediscoro.Resp3.Parser.Value.Lines.{LineOk, line_after_type_ok, HeaderOk, header_ok}
use rediscoro.Resp3.Parser.Value.Nodes.{IsReady, Consumed, TurnOk, produce_total, consumed_IsValid}
use rediscoro.Resp3.Parser.Value.Forms.{failing, waiting, null_total, boolean_total}
use rediscoro.Resp3.Parser.Value.Containers.{after_bytes, bulk_total, container_total}

on_value_frame_eq :
    (n : ℕ) (fs : List Frame) (turn : Turn) → IsStack n true fs → on_value_frame fs turn ≡ turn
on_value_frame_eq n [] turn s = cc
on_value_frame_eq n (f ∷ rest) turn s = rw s.0

module _ (p : Parser) (v : IsReady p) where
  -- Consuming a header makes progress even where no node is made.
  header-Consumed :
      (n : ℕ) (fs : List Frame) (want : Bool)
      → 0 < n
      → n ≤ readable p.buf
      → IsStack (length p.tree.nodes) want fs
      → Consumed p (record (after_bytes p v n) { stack = fs }) want
  header-Consumed n fs want pos_n h s = record {
    buffer = consumed_IsValid p (after_bytes p v n) n v h refl;
    few = omega (arith, v.few);
    frames = s;
    less = omega (arith, v.buffer);
    same_end = refl;
  }

  start_attribute_total :
      (n : ℕ) (len : ℤ)
      → 0 < n
      → n ≤ readable p.buf
      → TurnOk p (some (start_attribute (after_bytes p v n) len))
  unfolding start_attribute
  start_attribute_total n (negsuc m) pos_n h =
      failing p (after_bytes p v n) ProtocolErrc.invalid_length tt
  start_attribute_total n (pos m) pos_n h =
      elim (Bool-cases (ltb p.limits.max_resp_container_len m)) [
        | inl large ↦ rw large (failing p (after_bytes p v n) ProtocolErrc.invalid_length tt)
        | inr small ↦ rw small (elim (Bool-cases (m == 0)) [
          | inl none_ ↦ rw none_ (record {
            next = after_bytes p v n;
            result = done continue_parsing;
            gives = refl;
            after = inl (header-Consumed n p.stack true pos_n h v.frames);
          })
          | inr some_ ↦
              rw some_ (elim (Bool-cases (is_representable_length Kind.attribute (pos m))) [
                | inl fits ↦ rw fits (record {
                  next = record (after_bytes p v n) { stack = attribute_frame (u32 m) ∷ p.stack };
                  result = done continue_parsing;
                  gives = refl;
                  after = inr (
                    header-Consumed n (attribute_frame (u32 m) ∷ p.stack) false pos_n h
                        (refl, v.frames),
                    λ none_. cc,
                  );
                })
                | inr large ↦
                    rw large (failing p (after_bytes p v n) ProtocolErrc.invalid_length tt)
              ])
        ])
      ]

  attribute_total :
      (input : List ℕ) → length input ≡ readable p.buf → TurnOk p (parse_attribute p input)
  unfolding parse_attribute
  attribute_total input l =
      go (parse_length_after_type p.limits input) refl (header_ok p.limits input)
    where
      go :
          (r : Parsed LengthHeader)
          → parse_length_after_type p.limits input ≡ r
          → HeaderOk input r
          → TurnOk p (parse_attribute p input)
      go (fails e) q h = rw (q, parse_attribute) (failing p p e h)
      go more q h = rw (q, parse_attribute) (waiting p)
      go (done h) q ok =
          rw (q, parse_attribute)
            (rw (consume_eq p.buf h.header_bytes (omega arith))
              (start_attribute_total h.header_bytes h.length ok.1 (omega arith)))

  module _ (from_chars_f64 : List ℕ → Option (ℕ × List ℕ)) where
    line_value_total :
        (k : Kind) (input : List ℕ) (i : ℕ)
        → i + 3 ≤ readable p.buf
        → TurnOk p (line_value from_chars_f64 p k input i)
    unfolding line_value
    line_value_total Kind.simple_string input i h =
        produce_total p (1 + i + 2) _ v (omega arith) (omega arith)
    line_value_total Kind.simple_error input i h =
        produce_total p (1 + i + 2) _ v (omega arith) (omega arith)
    line_value_total Kind.big_number input i h =
        produce_total p (1 + i + 2) _ v (omega arith) (omega arith)
    line_value_total Kind.integer input i h =
        elim (Option-cases (parse_i64 (take i (drop 1 input)))) [
          | inl bad ↦ rw (bad, line_value) (failing p p ProtocolErrc.invalid_integer tt)
          | inr (n, good) ↦
              rw (good, line_value) (produce_total p (1 + i + 2) _ v (omega arith) (omega arith))
        ]
    line_value_total Kind.double_number input i h =
        elim (Option-cases (parse_double from_chars_f64 (take i (drop 1 input)))) [
          | inl bad ↦ rw (bad, line_value) (failing p p ProtocolErrc.invalid_double tt)
          | inr (n, good) ↦
              rw (good, line_value) (produce_total p (1 + i + 2) _ v (omega arith) (omega arith))
        ]
    line_value_total _ input i h = failing p p ProtocolErrc.invalid_type_byte tt

    line_total :
        (k : Kind) (input : List ℕ)
        → length input ≡ readable p.buf
        → TurnOk p (parse_line from_chars_f64 p k input)
    unfolding parse_line
    line_total k input l =
        go (line_after_type p.limits input) refl (line_after_type_ok p.limits input)
      where
        go :
            (r : Parsed ℕ)
            → line_after_type p.limits input ≡ r
            → LineOk input r
            → TurnOk p (parse_line from_chars_f64 p k input)
        go (fails e) q h = rw (q, parse_line) (failing p p e h)
        go more q h = rw (q, parse_line) (waiting p)
        go (done i) q h = rw (q, parse_line) (line_value_total k input i (omega arith))

    kind_total :
        (k : Kind) (input : List ℕ)
        → length input ≡ readable p.buf
        → TurnOk p (parse_kind from_chars_f64 p k input)
    unfolding parse_kind
    kind_total Kind.attribute input l = attribute_total input l
    kind_total Kind.array input l = container_total p v Kind.array input refl l
    kind_total Kind.map input l = container_total p v Kind.map input refl l
    kind_total Kind.set input l = container_total p v Kind.set input refl l
    kind_total Kind.push input l = container_total p v Kind.push input refl l
    kind_total Kind.null input l = null_total p input v l
    kind_total Kind.boolean input l = boolean_total p input v l
    kind_total Kind.bulk_string input l = bulk_total p v Kind.bulk_string input l
    kind_total Kind.bulk_error input l = bulk_total p v Kind.bulk_error input l
    kind_total Kind.verbatim_string input l = bulk_total p v Kind.verbatim_string input l
    kind_total k input l = line_total k input l

    input_total :
        (input : List ℕ)
        → length input ≡ readable p.buf
        → TurnOk p (parse_input from_chars_f64 p input)
    unfolding parse_input
    input_total [] l = waiting p
    input_total (c ∷ cs) l = elim (Option-cases (prefix_to_kind c)) [
      | inl bad ↦ rw (bad, parse_input) (failing p p ProtocolErrc.invalid_type_byte tt)
      | inr (k, good) ↦ rw (good, parse_input) (kind_total k (c ∷ cs) l)
    ]

    -- With a value frame on top of an orderly stack and fewer than 2 ^ 32 bytes received, parse_value
    -- fails no assertion on any input: it reports a format error, or leaves the state unchanged and asks
    -- for more input, or consumes at least one byte and leaves an orderly state in which the node that it
    -- produced exists.
    pub parse_value_total : TurnOk p (parse_value from_chars_f64 p)
    unfolding parse_value
    parse_value_total = rw (on_value_frame_eq (length p.tree.nodes) p.stack _ v.frames) (
        input_total (contents p.buf)
          (length-slice p.buf.cells p.buf.read_pos (readable p.buf) (omega (arith, v.buffer))))
