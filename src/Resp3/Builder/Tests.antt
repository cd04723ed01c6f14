-- ===== src/Resp3/Builder/Tests.antt =====
-- resp3/builder.hpp: what is built of two arrays that the parser has read.
use rediscoro.Prelude.{ℕ, ◌≡◌, refl, Option, none, some, List, [], ◌∷◌, length, pos, ◌>>=◌}
use rediscoro.Resp3.Buffer
use rediscoro.Resp3.Buffer.{Buffer}
use rediscoro.Resp3.Kind.{Kind}
use rediscoro.Resp3.Raw.{RawTree, blank_node}
use rediscoro.Resp3.Builder.{child}
use rediscoro.Resp3.Builder.Reads.{Reads, node, no_child, next_child, no_attr, build_message-Reads}
use rediscoro.Resp3.Scan.{read_digits, from_chars_i64}
use rediscoro.Resp3.Parser.{Parser, Limits, Parsed, done, new_parser}
use rediscoro.Resp3.Parser.Run.{parse_one}
use rediscoro.Resp3.Message.{
  Message, message, integer, array, no_attrs, attribute, entry, no_entries, no_messages,
  more_messages,
}
use rediscoro.Resp3.Builder.{
  build_message, initialize, visit, finalize, give_to_parent, push_child, push_attr,
}

abbrev lims : Limits
lims = record { max_resp_bulk_bytes = 512; max_resp_container_len = 1000; max_resp_line_bytes = 64 }

abbrev no_f64 : List ℕ → Option (ℕ × List ℕ)
no_f64 xs = none

abbrev built_of : Parser × Parsed ℕ → Option Message
built_of (p, done root) = build_message 20 p.buf p.tree root
built_of (p, _) = none

abbrev read_message : List ℕ → Option Message
read_message bytes =
    parse_one no_f64 (record (new_parser lims 1) {
      buf = record { cells = bytes; block = 0; read_pos = 0; write_pos = length bytes };
    })
    >>= built_of

abbrev number : ℕ → Message
number n = message (integer (pos n)) no_attrs

-- *2 *1 :1 :2 is read as it is written.
nested_first :
    read_message (
      b'*' ∷ b'2' ∷ 13 ∷ 10 ∷ b'*' ∷ b'1' ∷ 13 ∷ 10 ∷ b':' ∷ b'1' ∷ 13 ∷ 10 ∷ b':' ∷ b'2' ∷ 13 ∷ 10
      ∷ [])
    ≡ some (
        message
          (array (
            more_messages
              (message (array (more_messages (number 1) no_messages)) no_attrs)
              (more_messages (number 2) no_messages)))
          no_attrs)
unfolding parse_one new_parser Buffer.consume read_digits from_chars_i64 build_message initialize
    visit finalize give_to_parent push_child push_attr
nested_first = refl

-- *2 :1 *1 :2 loses the inner array.
nested_second :
    read_message (
      b'*' ∷ b'2' ∷ 13 ∷ 10 ∷ b':' ∷ b'1' ∷ 13 ∷ 10 ∷ b'*' ∷ b'1' ∷ 13 ∷ 10 ∷ b':' ∷ b'2' ∷ 13 ∷ 10
      ∷ [])
    ≡ some
        (message (array (more_messages (number 1) (more_messages (number 2) no_messages))) no_attrs)
unfolding parse_one new_parser Buffer.consume read_digits from_chars_i64 build_message initialize
    visit finalize give_to_parent push_child push_attr
nested_second = refl

-- |1 :1 :2 :5 is the number 5 with one attribute.
one_pair :
    read_message (
      b'|' ∷ b'1' ∷ 13 ∷ 10 ∷ b':' ∷ b'1' ∷ 13 ∷ 10 ∷ b':' ∷ b'2' ∷ 13 ∷ 10 ∷ b':' ∷ b'5' ∷ 13 ∷ 10
      ∷ [])
    ≡ some (message (integer (pos 5)) (attribute (entry (number 1) (number 2) no_entries)))
unfolding parse_one new_parser Buffer.consume read_digits from_chars_i64 build_message initialize
    visit finalize give_to_parent push_child push_attr
one_pair = refl

-- |2 :1 :2 :3 :4 :5 gives the first pair to the key of the second one.
two_pairs :
    read_message (
      b'|' ∷ b'2' ∷ 13 ∷ 10 ∷ b':' ∷ b'1' ∷ 13 ∷ 10 ∷ b':' ∷ b'2' ∷ 13 ∷ 10 ∷ b':' ∷ b'3' ∷ 13 ∷ 10
      ∷ b':' ∷ b'4' ∷ 13 ∷ 10 ∷ b':' ∷ b'5' ∷ 13 ∷ 10 ∷ [])
    ≡ some (
        message (integer (pos 5)) (
          attribute (
            entry
              (message (integer (pos 3)) (attribute (entry (number 1) (number 2) no_entries)))
              (number 4)
              no_entries)))
unfolding parse_one new_parser Buffer.consume read_digits from_chars_i64 build_message initialize
    visit finalize give_to_parent push_child push_attr
two_pairs = refl

-- The array of the number 7.
abbrev tree : RawTree
tree = record {
  nodes =
      record (blank_node Kind.array) { i64 = pos 1; child_count = 1 }
      ∷ record (blank_node Kind.integer) { i64 = pos 7 }
      ∷ [];
  links = 1 ∷ [];
}

abbrev bytes : Buffer
bytes = record { cells = 0 ∷ []; block = 0; read_pos = 0; write_pos = 0 }

seven-Reads : Reads bytes tree (some (child, 0)) 1 (number 7)
unfolding initialize finalize
seven-Reads =
    node (some (child, 0)) 1 _ _ _ _ (number 7) refl refl (no_child _ _ refl) (no_attr _ _ refl)
      refl

array-Reads :
    Reads bytes tree none 0 (message (array (more_messages (number 7) no_messages)) no_attrs)
unfolding initialize finalize push_child
array-Reads =
    node none 0 _ _ _ _ (message (array (more_messages (number 7) no_messages)) no_attrs) refl refl
      (next_child _ _ _ _ 1 (number 7) refl refl seven-Reads refl (no_child _ _ refl))
      (no_attr _ _ refl) refl

build_message-Reads_example :
    (fuel : ℕ) × (build_message fuel bytes tree 0
      ≡ some (message (array (more_messages (number 7) no_messages)) no_attrs))
build_message-Reads_example =
    build_message-Reads bytes tree 0
      (message (array (more_messages (number 7) no_messages)) no_attrs) array-Reads
