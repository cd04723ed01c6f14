-- ===== src/Resp3/Parser/Run/Turns.antt =====
-- resp3/impl/parser.ipp, `parse_one`: one turn of the loop keeps the parser in order.
use rediscoro.Prelude.{
  ℕ, ◌<◌, ◌≡◌, ◌≢◌, refl, sym, subst, inl, inr, true, false, Option, some, List, [], ◌∷◌, arith,
  length, ◌>>=◌,
}
use rediscoro.Resp3.Parser.{
  Parser, Frame, Parsed, fails, more, done, Step, continue_parsing, produced,
}
use rediscoro.Resp3.Parser.Attach.{Work, Attached, attach_to_parent}
use rediscoro.Resp3.Parser.Attach.Total.{AttachedOk, AfterAttach, attach_to_parent_total}
use rediscoro.Resp3.Parser.Invariant.{IsStack, IsWf, measure, needs_frame-value, needs_frame-le}
use rediscoro.Resp3.Parser.Value.Lines.{Reported}
use rediscoro.Resp3.Parser.Value.Nodes.{IsReady, Consumed, AfterValue}
use rediscoro.Resp3.Parser.Run.{
  Progress, continue_with, return_with, complete_node, attached_progress, value_turn, with_work,
}

-- What `parse_one` leaves, where `end` bytes were received: after an error the parser has failed; after a root the tree
-- is ready.
abbrev pub AfterParse : ℕ → Parser → Parsed ℕ → Type 0
AfterParse end q (fails e) = Reported e × (q.failed ≡ true)
AfterParse end q more = IsWf q
AfterParse end q (done root) =
    IsWf q
    × (root < length q.tree.nodes)
    × (q.stack ≡ [])
    × (q.tree_ready ≡ true)
    × (q.buf.write_pos ≡ end)

abbrev pub AfterTurn : Parser → Progress → Type 0
AfterTurn p (continue_with q) =
    IsWf q × (q.stack ≢ []) × (measure q < measure p) × (q.buf.write_pos ≡ p.buf.write_pos)
AfterTurn p (return_with q r) = AfterParse p.buf.write_pos q r

pub record LoopOk (p : Parser) (t : Option Progress) : Type 0 where
  pub progress : Progress
  pub gives : t ≡ some progress
  pub after : AfterTurn p progress

pub value-ne-nil : (n : ℕ) (fs : List Frame) → IsStack n true fs → fs ≢ []
value-ne-nil n [] s e = cc
value-ne-nil n (f ∷ rest) s e = cc

attached_turn :
    (p q : Parser) (r : Attached)
    → Consumed p q true
    → AttachedOk (length q.tree.nodes) r
    → LoopOk p (r >>= attached_progress q)
attached_turn p q r c ok = rw ok.gives (go ok.work ok.result ok.same ok.after)
  where
    go :
        (w : Work) (step : Parsed Step)
        → length w.tree.nodes ≡ length q.tree.nodes
        → AfterAttach (length q.tree.nodes) w step
        → LoopOk p (attached_progress q (w, step))
    go w (fails e) l a = absurd a
    go w more l a = absurd a
    go w (done continue_parsing) l a = record {
      progress = continue_with (with_work q w);
      gives = refl;
      after = (
        record {
          buffer = c.buffer;
          few = omega (arith, c.few);
          frames = inl (subst (λ n. IsStack n true w.frames) (sym l) a);
        },
        value-ne-nil (length q.tree.nodes) w.frames a,
        omega (arith, c.less, needs_frame-value (length q.tree.nodes) w.frames a),
        c.same_end,
      );
    }
    go w (done (produced root)) l a = record {
      progress = return_with (record (with_work q w) { tree_ready = true }) (done root);
      gives = refl;
      after = (
        record {
          buffer = c.buffer;
          few = omega (arith, c.few);
          frames = inr (subst (λ fs. IsStack (length w.tree.nodes) false fs) (sym a.0) refl);
        },
        omega arith,
        a.0,
        refl,
        c.same_end,
      );
    }

complete_total :
    (p q : Parser) (child : ℕ)
    → Consumed p q true
    → child < length q.tree.nodes
    → LoopOk p (complete_node q child)
unfolding complete_node
complete_total p q child c h = go q.stack refl c.frames
  where
    go :
        (fs : List Frame)
        → q.stack ≡ fs
        → IsStack (length q.tree.nodes) true fs
        → LoopOk p (complete_node q child)
    go [] e s = cc
    go (f ∷ rest) e s =
        rw (e, complete_node)
          (attached_turn p q (attach_to_parent rest q.tree q.pending child) c
            (attach_to_parent_total (length q.tree.nodes) rest q.tree q.pending child refl s.1 h))

pub value_turn_total :
    (p : Parser) (q : Parser) (r : Parsed Step)
    → IsReady p
    → AfterValue p q r
    → LoopOk p (value_turn (q, r))
unfolding value_turn
value_turn_total p q (fails e) v a = record {
  progress = return_with (record q { failed = true }) (fails e);
  gives = refl;
  after = (a, refl);
}
value_turn_total p q more v a = record {
  progress = return_with q more;
  gives = refl;
  after = subst IsWf (sym a) (record { buffer = v.buffer; few = v.few; frames = inl v.frames });
}
value_turn_total p q (done continue_parsing) v (inl c) = record {
  progress = continue_with q;
  gives = refl;
  after = (
    record { buffer = c.buffer; few = c.few; frames = inl c.frames },
    value-ne-nil (length q.tree.nodes) q.stack c.frames,
    omega (arith, c.less, needs_frame-le q.stack),
    c.same_end,
  );
}
value_turn_total p q (done continue_parsing) v (inr (c, ne)) = record {
  progress = continue_with q;
  gives = refl;
  after = (
    record { buffer = c.buffer; few = c.few; frames = inr c.frames },
    ne,
    omega (arith, c.less, needs_frame-le q.stack),
    c.same_end,
  );
}
value_turn_total p q (done (produced i)) v a = complete_total p q i a.0 a.1
