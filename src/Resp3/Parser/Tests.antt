-- ===== src/Resp3/Parser/Tests.antt =====
-- Runs of the parser.
use rediscoro.Prelude.{ℕ, ◌≡◌, refl, inr, arith, Option, none, some, List, [], ◌∷◌, length}
use rediscoro.Resp3.Buffer.{Buffer}
use rediscoro.Resp3.Buffer
use rediscoro.Resp3.Kind.{Kind}
use rediscoro.Resp3.Scan.{read_digits, from_chars_i64}
use rediscoro.Resp3.Raw.{RawTree, blank_node}
use rediscoro.Resp3.Parser.{
  Frame, FrameKind, value_frame, no_pending, Parser, Limits, new_parser, Parsed,
}
use rediscoro.Resp3.Parser.Run.{parse_one, feed, reclaim, reset}
use rediscoro.Resp3.Parser.Run.Between.{feed_lem, reclaim_lem, feed-reset}
use rediscoro.Resp3.Buffer.{Buffer, contents}
use rediscoro.Prelude.{◌++◌, true, false}
use rediscoro.Resp3.Parser.Run.Turns.{AfterParse}
use rediscoro.Resp3.Parser.Run.Total.{parse_one_total}
use rediscoro.Resp3.Parser.Invariant.{IsWf}
use rediscoro.Resp3.Parser.Attach.{attach_to_parent}
use rediscoro.Resp3.Parser.Attach.Total.{AttachedOk, attach_to_parent_total}
use rediscoro.Resp3.Parser.Value.{parse_value}
use rediscoro.Resp3.Parser.Value.Nodes.{IsReady, TurnOk}
use rediscoro.Resp3.Parser.Value.Total.{parse_value_total}

abbrev lims : Limits
lims = record { max_resp_bulk_bytes = 512; max_resp_container_len = 1000; max_resp_line_bytes = 64 }

abbrev no_f64 : List ℕ → Option (ℕ × List ℕ)
no_f64 xs = none

abbrev with_input : List ℕ → Parser
with_input bytes = record (new_parser lims 1) {
  buf = record { cells = bytes; block = 0; read_pos = 0; write_pos = length bytes };
}

-- *2 :1 *1 :2
abbrev nested : List ℕ
nested =
    b'*' ∷ b'2' ∷ 13 ∷ 10 ∷ b':' ∷ b'1' ∷ 13 ∷ 10 ∷ b'*' ∷ b'1' ∷ 13 ∷ 10 ∷ b':' ∷ b'2' ∷ 13 ∷ 10
    ∷ []

abbrev links_of : Option (Parser × Parsed ℕ) → List ℕ
links_of none = []
links_of (some (p, r)) = p.tree.links

nested_links : links_of (parse_one no_f64 (with_input nested)) ≡ 1 ∷ 3 ∷ 2 ∷ []
unfolding parse_one new_parser Buffer.consume read_digits from_chars_i64
nested_links = refl

nested-IsWf : IsWf (with_input nested)
unfolding new_parser
nested-IsWf = record {
  buffer = record { order = omega arith; inside = omega arith; nonempty = omega arith };
  few = omega arith;
  frames = inr refl;
}

parse_one_total_example :
    (q : Parser) × (r : Parsed ℕ) × (parse_one no_f64 (with_input nested) ≡ some (q, r))
    × AfterParse (with_input nested).buf.write_pos q r
unfolding new_parser
parse_one_total_example =
    parse_one_total no_f64 (with_input nested) nested-IsWf (omega arith) refl refl

abbrev started : Parser
started = record (with_input nested) { stack = value_frame ∷ [] }

started-IsReady : IsReady started
unfolding new_parser
started-IsReady = record {
  buffer = record { order = omega arith; inside = omega arith; nonempty = omega arith };
  few = omega arith;
  frames = (refl, refl);
  indices = omega arith;
}

parse_value_total_example : TurnOk started (parse_value no_f64 started)
parse_value_total_example = parse_value_total started started-IsReady no_f64

-- An array of two with one element, over two nodes.
abbrev two_nodes : RawTree
two_nodes = record { nodes = blank_node Kind.array ∷ blank_node Kind.integer ∷ []; links = [] }

abbrev array_frame : Frame
array_frame = record value_frame {
  state = FrameKind.array;
  container_type = Kind.array;
  expected = 1;
}

attach_to_parent_total_example :
    AttachedOk 2 (attach_to_parent (array_frame ∷ []) two_nodes no_pending 1)
attach_to_parent_total_example =
    attach_to_parent_total 2 (array_frame ∷ []) two_nodes no_pending 1 refl
      ((refl, omega arith), refl) (omega arith)

feed_lem_example :
    (q : Parser) × (feed (with_input nested) 4 (58 ∷ 51 ∷ []) ≡ some q)
    × IsWf q
    × (contents q.buf ≡ contents (with_input nested).buf ++ (58 ∷ 51 ∷ []))
feed_lem_example =
    feed_lem (with_input nested) 4 (58 ∷ 51 ∷ []) nested-IsWf (omega arith) (omega arith)

reclaim_lem_example :
    IsWf (reclaim (with_input nested))
    × (contents (reclaim (with_input nested)).buf ≡ contents (with_input nested).buf)
    × ((reclaim (with_input nested)).tree_ready ≡ false)
    × ((reclaim (with_input nested)).failed ≡ (with_input nested).failed)
reclaim_lem_example = reclaim_lem (with_input nested) nested-IsWf

-- A parser that failed with attributes pending.
abbrev broken : Parser
broken = record (with_input nested) {
  failed = true;
  tree_ready = true;
  stack = value_frame ∷ [];
  pending = record { first = 0; count = 2 };
}

feed-reset_example :
    (b : Buffer) × (feed (reset broken) 4 (58 ∷ 51 ∷ [])
      ≡ some (record (new_parser lims 8) { buf = b }))
    × IsWf (record (new_parser lims 8) { buf = b })
    × (contents b ≡ 58 ∷ 51 ∷ [])
unfolding new_parser
feed-reset_example = feed-reset broken 4 8 (58 ∷ 51 ∷ []) (omega arith) (omega arith) (omega arith)
