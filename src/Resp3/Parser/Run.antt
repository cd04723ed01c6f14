-- ===== src/Resp3/Parser/Run.antt =====
-- resp3/impl/parser.ipp, `parse_one`, `reclaim` and `reset`.
pub mod Turns
pub mod Total
pub mod Between
use rediscoro.Prelude.{
  ℕ, zero, suc, ◌+◌, ◌*◌, Bool, true, false, Option, none, some, List, [], ◌∷◌, if◌then◌else◌,
  ◌>>=◌, length,
}
use rediscoro.Errors.{ProtocolErrc}
use rediscoro.Resp3.Buffer
use rediscoro.Resp3.Buffer.{readable}
use rediscoro.Resp3.Raw.{reset_tree}
use rediscoro.Resp3.Parser.{
  Parser, Frame, FrameKind, value_frame, no_pending, Parsed, fails, more, done, Step,
  continue_parsing, produced,
}
use rediscoro.Resp3.Parser.Attach.{Work, attach_to_parent}
use rediscoro.Resp3.Parser.Value.{parse_value}

-- One turn of the loop of `parse_one`: go on with a state, or return.
pub data Progress : Type 0 where
  continue_with : Parser → Progress
  return_with : Parser → Parsed ℕ → Progress

abbrev pub fail_with : Parser → ProtocolErrc → Option Progress
fail_with p e = some (return_with (record p { failed = true }) (fails e))

abbrev pub with_work : Parser → Work → Parser
with_work p w = record p { stack = w.frames; tree = w.tree; pending = w.pending }

-- What `attach_to_parent` gives decides the turn.
abbrev pub attached_progress : Parser → Work × Parsed Step → Option Progress
attached_progress p (w, fails e) = fail_with (with_work p w) e
attached_progress p (w, more) = none
attached_progress p (w, done continue_parsing) = some (continue_with (with_work p w))
attached_progress p (w, done (produced root)) =
    some (return_with (record (with_work p w) { tree_ready = true }) (done root))

-- A node is complete: its value frame is popped, and the node goes to the frame below.
unfoldable pub complete_node : Parser → ℕ → Option Progress
unfolding attach_to_parent
complete_node p child = elim p.stack [
  | [] ↦ none
  | f ∷ rest ↦ attach_to_parent rest p.tree p.pending child >>= attached_progress p
]

-- What `parse_value` gives decides the turn.
unfoldable pub value_turn : Parser × Parsed Step → Option Progress
unfolding complete_node
value_turn (p, fails e) = fail_with p e
value_turn (p, more) = some (return_with p more)
value_turn (p, done continue_parsing) = some (continue_with p)
value_turn (p, done (produced child)) = complete_node p child

-- The loop goes on, or ends with what is returned.
abbrev pub after_turn :
    (Parser → Option (Parser × Parsed ℕ)) → Progress → Option (Parser × Parsed ℕ)
after_turn loop (continue_with q) = loop q
after_turn loop (return_with q r) = some (q, r)

abbrev pub root_frames : List Frame → List Frame
root_frames [] = value_frame ∷ []
root_frames (f ∷ rest) = f ∷ rest

abbrev pub with_root_frame : Parser → Parser
with_root_frame p = record p { stack = root_frames p.stack }

module _ (from_chars_f64 : List ℕ → Option (ℕ × List ℕ)) where
  unfoldable pub frame_turn : Parser → List Frame → Option Progress
  unfolding parse_value value_turn
  frame_turn p [] = fail_with p ProtocolErrc.invalid_state
  frame_turn p (f ∷ rest) = elim f.state [
    | FrameKind.value ↦ (do r ← parse_value from_chars_f64 p; value_turn r)
    | _ ↦ some (continue_with (record p { stack = value_frame ∷ p.stack }))
  ]

  -- `while (true)`, on fuel.
  unfoldable pub parse_loop : ℕ → Parser → Option (Parser × Parsed ℕ)
  unfolding frame_turn
  parse_loop zero p = none
  parse_loop (suc fuel) p = do t ← frame_turn p p.stack; after_turn (λ q. parse_loop fuel q) t

  -- A turn consumes input or puts a value frame on top, so twice the unread bytes is fuel enough.
  unfoldable pub parse_one : Parser → Option (Parser × Parsed ℕ)
  unfolding parse_loop
  parse_one p =
      if p.tree_ready
      then some (p, fails ProtocolErrc.tree_not_consumed)
      else if p.failed
      then some (p, fails ProtocolErrc.parser_failed)
      else parse_loop (2 * readable p.buf + 2) (with_root_frame p)

unfoldable pub reclaim : Parser → Parser
reclaim p = record p {
  tree = reset_tree;
  stack = [];
  pending = no_pending;
  tree_ready = false;
  buf = Buffer.compact p.buf;
}

unfoldable pub reset : Parser → Parser
reset p = record p {
  buf = Buffer.reset p.buf;
  tree = reset_tree;
  stack = [];
  failed = false;
  tree_ready = false;
  pending = no_pending;
}

-- `prepare`, a read into the span, and `commit`.
unfoldable pub feed : Parser → ℕ → List ℕ → Option Parser
feed p n bytes = do
  b ← Buffer.prepare p.buf n
  b' ← Buffer.commit (Buffer.fill b bytes) (length bytes)
  some (record p { buf = b' })
