-- ===== src/Resp3/Parser/Run/Total.antt =====
-- resp3/impl/parser.ipp, `parse_one`: the loop ends within its fuel.
use rediscoro.Prelude.{
  ℕ, zero, suc, ◌+◌, ◌*◌, ◌^◌, ◌<◌, ◌≡◌, ◌≢◌, refl, sym, subst, inl, inr, ◌⊎◌, true, false, Option,
  some, List, [], ◌∷◌, arith, length, ◌>>=◌,
}
use rediscoro.Resp3.Buffer.{readable}
use rediscoro.Resp3.Parser.{Parser, Frame, FrameKind, value_frame, Parsed}
use rediscoro.Resp3.Parser.Invariant.{IsStack, IsWf, measure, needs_frame, needs_frame-le, Fits}
use rediscoro.Resp3.Parser.Value.{parse_value}
use rediscoro.Resp3.Parser.Value.Nodes.{IsReady}
use rediscoro.Resp3.Parser.Value.Total.{parse_value_total}
use rediscoro.Resp3.Parser.Run.{
  Progress, continue_with, return_with, value_turn, frame_turn, parse_loop, after_turn, root_frames,
  parse_one, with_root_frame,
}
use rediscoro.Resp3.Parser.Run.Turns.{AfterParse, AfterTurn, LoopOk, value_turn_total}

rooted : (p : Parser) → IsWf p → IsWf (with_root_frame p)
rooted p v = record { buffer = v.buffer; few = v.few; frames = go p.stack v.frames }
  where
    go :
        (fs : List Frame)
        → IsStack (length p.tree.nodes) true fs ⊎ IsStack (length p.tree.nodes) false fs
        → IsStack (length p.tree.nodes) true (root_frames fs)
          ⊎ IsStack (length p.tree.nodes) false (root_frames fs)
    go [] s = inl (refl, refl)
    go (f ∷ rest) s = s

root_frames-nonempty : (fs : List Frame) → root_frames fs ≢ []
root_frames-nonempty [] e = cc
root_frames-nonempty (f ∷ rest) e = cc

rooted_stack : (p : Parser) → (with_root_frame p).stack ≢ []
rooted_stack p = root_frames-nonempty p.stack

rooted_measure : (p : Parser) → measure (with_root_frame p) < 2 * readable p.buf + 2
rooted_measure p = let few = needs_frame-le (root_frames p.stack) in omega arith

module _ (from_chars_f64 : List ℕ → Option (ℕ × List ℕ)) where
  value_frame_total :
      (p : Parser) → IsReady p → LoopOk p (parse_value from_chars_f64 p >>= value_turn)
  value_frame_total p v =
      let ok = parse_value_total p v from_chars_f64 in
      rw ok.gives (value_turn_total p ok.next ok.result v ok.after)

  -- A container's frame is driven by a value frame put above it.
  push_total :
      (p : Parser)
      → IsWf p
      → IsStack (length p.tree.nodes) false p.stack
      → needs_frame p.stack ≡ 1
      → AfterTurn p (continue_with (record p { stack = value_frame ∷ p.stack }))
  push_total p v s one = (
    record { buffer = v.buffer; few = v.few; frames = inl (refl, s) },
    λ none_. cc,
    omega (arith, one),
    refl,
  )

  frame_pushed :
      (p : Parser) (n : ℕ) (f : Frame) (rest : List Frame) (k : FrameKind)
      → f.state ≡ k
      → Fits n f k
      → (needs_frame (f ∷ rest) ≡ 1)
        × (frame_turn from_chars_f64 p (f ∷ rest)
            ≡ some (continue_with (record p { stack = value_frame ∷ p.stack })))
  unfolding frame_turn
  frame_pushed p n f rest FrameKind.value e fits = absurd fits
  frame_pushed p n f rest _ e fits = (rw e, rw (e, frame_turn))

  -- A turn of the loop, whatever frame is on top.
  frame_turn_total :
      (p : Parser)
      → IsWf p
      → p.buf.write_pos < 2 ^ 32
      → p.stack ≢ []
      → LoopOk p (frame_turn from_chars_f64 p p.stack)
  unfolding frame_turn
  frame_turn_total p v small ne = go p.stack refl v.frames
    where
      n : ℕ
      n = length p.tree.nodes

      ready : IsStack n true p.stack → IsReady p
      ready s = record { buffer = v.buffer; few = v.few; frames = s; indices = small }

      go :
          (fs : List Frame)
          → p.stack ≡ fs
          → IsStack (length p.tree.nodes) true fs ⊎ IsStack (length p.tree.nodes) false fs
          → LoopOk p (frame_turn from_chars_f64 p fs)
      go [] e s = absurd (ne e)
      go (f ∷ rest) e (inl s) =
          rw (s.0, frame_turn) (value_frame_total p (ready (subst (IsStack n true) (sym e) s)))
      go (f ∷ rest) e (inr s) =
          let (one, moves) = frame_pushed p n f rest f.state refl s.0 in
          record {
            progress = continue_with (record p { stack = value_frame ∷ p.stack });
            gives = moves;
            after =
                push_total p v (subst (IsStack n false) (sym e) s)
                  (subst (λ fs. needs_frame fs ≡ 1) (sym e) one);
          }

  loop_total :
      (fuel : ℕ) (p : Parser)
      → IsWf p
      → p.buf.write_pos < 2 ^ 32
      → p.stack ≢ []
      → measure p < fuel
      → (q : Parser) × (r : Parsed ℕ) × (parse_loop from_chars_f64 fuel p ≡ some (q, r))
        × AfterParse p.buf.write_pos q r
  unfolding parse_loop
  loop_total zero p v small ne m = absurd (omega arith)
  loop_total (suc fuel) p v small ne m =
      let ok = frame_turn_total p v small ne in
      rw ok.gives (go ok.progress ok.after (loop_total fuel))
    where
      go :
          (t : Progress)
          → AfterTurn p t
          → ((p : Parser)
              → IsWf p
              → p.buf.write_pos < 2 ^ 32
              → p.stack ≢ []
              → measure p < fuel
              → (q : Parser) × (r : Parsed ℕ) × (parse_loop from_chars_f64 fuel p ≡ some (q, r))
                × AfterParse p.buf.write_pos q r)
          → (q : Parser) × (r : Parsed ℕ) × (after_turn (parse_loop from_chars_f64 fuel) t
              ≡ some (q, r))
            × AfterParse p.buf.write_pos q r
      go (return_with q r) a ih = (q, r, refl, a)
      go (continue_with q) a ih =
          subst
            (λ end.
              (q' : Parser) × (r : Parsed ℕ) × (parse_loop from_chars_f64 fuel q ≡ some (q', r))
              × AfterParse end q' r)
            a.3 (ih q a.0 (omega arith) a.1 (omega arith))

  one-loop :
      (p : Parser)
      → p.failed ≡ false
      → p.tree_ready ≡ false
      → parse_one from_chars_f64 p
        ≡ parse_loop from_chars_f64 (2 * readable p.buf + 2) (with_root_frame p)
  unfolding parse_one
  one-loop p going fresh = simp (fresh, going) refl

  -- In every orderly state of the parser between calls (valid buffer, at most as many nodes as bytes
  -- consumed, stack in order, fewer than 2 ^ 32 bytes received, neither failed nor holding an unconsumed
  -- tree), and for every from_chars, parse_one ends within its fuel with no failed assertion: it reports a
  -- format error and marks the parser failed, or it waits for more input in an orderly state, or it gives
  -- a root that is a node of the tree with an empty stack, the tree marked ready and the end of the
  -- received bytes where it was.
  pub parse_one_total :
      (p : Parser)
      → IsWf p
      → p.buf.write_pos < 2 ^ 32
      → p.failed ≡ false
      → p.tree_ready ≡ false
      → (q : Parser) × (r : Parsed ℕ) × (parse_one from_chars_f64 p ≡ some (q, r))
        × AfterParse p.buf.write_pos q r
  parse_one_total p v small going fresh = rw (one-loop p going fresh) (
      loop_total (2 * readable p.buf + 2) (with_root_frame p) (rooted p v) small (rooted_stack p)
        (rooted_measure p))
