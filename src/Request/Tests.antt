-- ===== src/Request/Tests.antt =====
-- request.hpp: the command GET with one key.
use rediscoro.Prelude.{get_elem?, ℕ, ◌+◌, ◌≡◌, refl, some, List, [], ◌∷◌, ◌++◌, length, arith, pos}
use rediscoro.Resp3.Kind.{Kind, kind_to_prefix}
use rediscoro.Resp3.Raw.{RawNode}
use rediscoro.Resp3.Scan.{parse_i64}
use rediscoro.Resp3.Parser.{Limits, Parser, value_frame, new_parser, done, produced}
use rediscoro.Resp3.Parser.Value.{parse_length_after_type, parse_bulk}
use rediscoro.Request.{new_request, header, to_chars, to_digits, append_args, push}
use rediscoro.Request.Digits.{parse_i64-to_chars}
use rediscoro.Request.Headers.{header_read, bulk}
use rediscoro.Request.Reading.{bulk_read}
use rediscoro.Resp3.Buffer.{contents, read_view}
use rediscoro.Resp3.Parser.Value.Nodes.{IsReady}
use rediscoro.Request.Wire.{Command, push-Command}

abbrev key : List ℕ
key = b'k' ∷ b'1' ∷ []

abbrev get_key : List (List ℕ)
get_key = (b'G' ∷ b'E' ∷ b'T' ∷ []) ∷ key ∷ []

get_key_wire :
    (push new_request get_key).wire
    ≡ b'*' ∷ b'2' ∷ 13 ∷ 10 ∷ b'$' ∷ b'3' ∷ 13 ∷ 10 ∷ b'G' ∷ b'E' ∷ b'T' ∷ 13 ∷ 10 ∷ b'$' ∷ b'2'
      ∷ 13 ∷ 10 ∷ b'k' ∷ b'1' ∷ 13 ∷ 10 ∷ []
unfolding kind_to_prefix push append_args header to_chars to_digits
get_key_wire = refl

abbrev lims : Limits
lims = record { max_resp_bulk_bytes = 512; max_resp_container_len = 1000; max_resp_line_bytes = 64 }

parse_i64-to_chars_example : parse_i64 (to_chars 1024) ≡ some (pos 1024)
parse_i64-to_chars_example = parse_i64-to_chars 1024 (omega arith)

header_read_example :
    parse_length_after_type lims (header Kind.array 12 ++ key)
    ≡ done (record { length = pos 12; header_bytes = length (header Kind.array 12) })
header_read_example = header_read lims Kind.array 12 key (omega arith) (omega arith)

-- A parser that has received the argument and one byte more, with a value to come.
abbrev receiving : Parser
receiving = record (new_parser lims 64) {
  buf = record {
    cells = bulk key ++ (b'$' ∷ []);
    block = 0;
    read_pos = 0;
    write_pos = length (bulk key ++ (b'$' ∷ []));
  };
  stack = value_frame ∷ [];
}

receiving-IsReady : IsReady receiving
unfolding new_parser header to_chars to_digits
receiving-IsReady = record {
  buffer = record { order = omega arith; inside = omega arith; nonempty = omega arith };
  few = omega arith;
  frames = (refl, refl);
  indices = omega arith;
}

bulk_read_example :
    (q : Parser) × (node : RawNode) × (parse_bulk receiving Kind.bulk_string
        (contents receiving.buf)
      ≡ some (q, done (produced 0)))
    × (contents q.buf ≡ b'$' ∷ [])
    × (get_elem? q.tree.nodes 0 ≡ some node)
    × (node.kind ≡ Kind.bulk_string)
    × (read_view q.buf node.text ≡ some key)
unfolding new_parser header to_chars to_digits
bulk_read_example =
    bulk_read receiving key (b'$' ∷ []) receiving-IsReady refl (omega arith) (omega arith)

push-Command_example :
    (bytes : List ℕ) × ((push (push new_request (key ∷ [])) get_key).wire
      ≡ (push new_request (key ∷ [])).wire ++ bytes)
    × ((push (push new_request (key ∷ [])) get_key).command_count
        ≡ (push new_request (key ∷ [])).command_count + 1)
    × Command lims get_key (bytes ++ key) key
push-Command_example =
    push-Command lims (push new_request (key ∷ [])) get_key key (omega arith)
      (omega arith, (omega arith, tt)) (omega arith)
