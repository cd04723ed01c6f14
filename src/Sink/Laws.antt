-- ===== src/Sink/Laws.antt =====
-- detail/pending_response.hpp and detail/response_sink.hpp: what a sink does with each reply, up to the last.
use rediscoro.Prelude.{
  ℕ, zero, suc, ◌+◌, ◌-◌, ◌<◌, ◌≡◌, refl, ap, ◌∙◌, true, false, Option, none, some, List, [], ◌∷◌,
  ◌++◌, arith, length, length-append, replicate, lt→ltb, ==_iff, ◌==◌, append_assoc, ◌>>=◌, ◌&&◌,
  not,
}
use rediscoro.Errors.{ErrorInfo}
use rediscoro.Sink.{
  Slot, value, unexpected, Trace, TraceSummary, no_summary, Pending, done, accept, take_results,
  is_complete, summarize, emit_trace_finish, finish_if_done, put_slot, deliver_error, fail_loop,
  fail_all,
}

module _ {ℓ} {T : Type ℓ} where
  -- A sink that waits for more replies.
  pub record IsOpen (p : Pending T) : Type ℓ where
    pub pending : p.result ≡ none
    pub room : length p.builder.results < p.builder.expected
    pub silent : p.notified ≡ 0

  -- A sink that has all its replies, `ss`, and has told the waiting coroutine once.
  pub record IsFull (p : Pending T) (t : Trace) (ss : List (Slot T)) : Type ℓ where
    pub filled : p.result ≡ some ss
    pub told : p.notified ≡ 1
    pub traced : p.trace ≡ emit_trace_finish t (summarize no_summary ss)

  pub open_incomplete : (p : Pending T) → IsOpen p → is_complete p ≡ false
  open_incomplete p o = rw o.pending refl

  abbrev pub after_slot : Pending T → Slot T → Pending T
  after_slot p s = record p {
    builder = record (p.builder) { results = p.builder.results ++ (s ∷ []) };
  }

  abbrev pub completed : Pending T → List (Slot T) → Pending T
  completed p ss = record {
    builder = record (p.builder) { results = [] };
    result = some ss;
    notified = p.notified + 1;
    trace = emit_trace_finish p.trace (summarize no_summary ss);
  }

  put_slot_eq :
      (p : Pending T) (s : Slot T) → IsOpen p → put_slot p s ≡ finish_if_done (after_slot p s)
  unfolding put_slot accept
  put_slot_eq p s o = rw (open_incomplete p o, lt→ltb _ _ o.room) refl

  -- A reply that is not the last one is kept, and the sink stays open.
  pub put_slot-next :
      (p : Pending T) (s : Slot T)
      → IsOpen p
      → suc (length p.builder.results) < p.builder.expected
      → (put_slot p s ≡ some (after_slot p s)) × IsOpen (after_slot p s)
  unfolding finish_if_done done
  put_slot-next p s o more = (
    put_slot_eq p s o ∙ rw short refl,
    record {
      pending = o.pending;
      room = omega (arith, length-append p.builder.results (s ∷ []));
      silent = o.silent;
    },
  )
    where
      longer : length (p.builder.results ++ (s ∷ [])) < p.builder.expected
      longer = omega (arith, more, length-append p.builder.results (s ∷ []))

      short : (length (p.builder.results ++ (s ∷ [])) == p.builder.expected) ≡ false
      short = ground (arith, longer)

  -- The last reply completes the sink, with the replies in the order they came.
  pub put_slot-last :
      (p : Pending T) (s : Slot T)
      → IsOpen p
      → suc (length p.builder.results) ≡ p.builder.expected
      → put_slot p s ≡ some (completed p (p.builder.results ++ (s ∷ [])))
  unfolding finish_if_done done take_results
  put_slot-last p s o last = put_slot_eq p s o ∙ rw (filled) refl
    where
      filled : (length (p.builder.results ++ (s ∷ [])) == p.builder.expected) ≡ true
      filled = (==_iff _ _).1 (length-append p.builder.results (s ∷ []) ∙ omega (arith, last))

  -- `fail_all` returns: it leaves the replies that came as they are, and every other slot holds the error.
  pub fail_loop_lem :
      (fuel : ℕ) (p : Pending T) (e : ErrorInfo)
      → IsOpen p
      → length p.builder.results + fuel ≡ p.builder.expected
      → fail_loop fuel p e ≡ some (completed p (p.builder.results ++ replicate fuel (unexpected e)))
  unfolding fail_loop deliver_error
  fail_loop_lem zero p e o h = absurd (omega (arith, o.room))
  fail_loop_lem (suc zero) p e o h =
      rw (open_incomplete p o, put_slot-last p (unexpected e) o (omega (arith, h))) refl
  fail_loop_lem (suc (suc n)) p e o h =
      let (eq, o') = put_slot-next p (unexpected e) o (omega (arith, h)) in
      rw
        (
          open_incomplete p o,
          eq,
          fail_loop_lem (suc n) (after_slot p (unexpected e)) e o'
              (omega (arith, h, length-append p.builder.results (unexpected e ∷ []))),
        )
        (ap (λ ss. some (completed p ss))
          (append_assoc p.builder.results (unexpected e ∷ []) (replicate (suc n) (unexpected e))))

  -- On an open sink fail_all ends, fails no assertion, and completes the sink with the replies that it has
  -- and the error in every other slot.
  pub fail_all_lem :
      (p : Pending T) (e : ErrorInfo)
      → IsOpen p
      → fail_all p e
        ≡ some (
            completed p (
              p.builder.results
              ++ replicate (p.builder.expected - length p.builder.results) (unexpected e)))
  unfolding fail_all
  fail_all_lem p e o =
      fail_loop_lem (p.builder.expected - length p.builder.results) p e o (omega (arith, o.room))

  -- The replies `ss`, delivered one after another.
  pub put_slots : Pending T → List (Slot T) → Option (Pending T)
  put_slots p [] = some p
  put_slots p (s ∷ ss) = do q ← put_slot p s; put_slots q ss

  -- An open sink that is given as many replies as it has open slots completes with its earlier slots and
  -- these replies in order, is notified once more, and fails no assertion.
  pub put_slots_lem :
      (ss : List (Slot T)) (p : Pending T)
      → IsOpen p
      → length p.builder.results + length ss ≡ p.builder.expected
      → put_slots p ss ≡ some (completed p (p.builder.results ++ ss))
  unfolding put_slots
  put_slots_lem [] p o h = absurd (omega (arith, o.room))
  put_slots_lem (s ∷ []) p o h = rw (put_slot-last p s o (omega (arith, h))) refl
  put_slots_lem (s ∷ t ∷ ss) p o h =
      let (eq, o') = put_slot-next p s o (omega (arith, h)) in
      rw
        (
          eq,
          put_slots_lem (t ∷ ss) (after_slot p s) o'
              (omega (arith, h, length-append p.builder.results (s ∷ []))),
        )
        (ap (λ ss. some (completed p ss)) (append_assoc p.builder.results (s ∷ []) (t ∷ ss)))

  summarize_count :
      (ss : List (Slot T)) (t : TraceSummary)
      → (summarize t ss).ok_count + (summarize t ss).error_count
        ≡ t.ok_count + t.error_count + length ss
  unfolding summarize
  summarize_count [] t = omega arith
  summarize_count (value x ∷ ss) t =
      omega (arith, summarize_count ss (record t { ok_count = t.ok_count + 1 }))
  summarize_count (unexpected e ∷ ss) t = summarize_count ss _ ∙ omega arith

  -- Where tracing is enabled, on_finish is set and the trace is not finished, an open sink that is given
  -- as many replies as it has open slots reports to on_finish once, and the counts of values and of errors
  -- add up to the number of replies expected.
  pub put_slots-traced :
      (ss : List (Slot T)) (p : Pending T)
      → IsOpen p
      → length p.builder.results + length ss ≡ p.builder.expected
      → (p.trace.trace_enabled && p.trace.has_on_finish && not p.trace.trace_finished) ≡ true
      → (q : Pending T) × (t : TraceSummary) × (put_slots p ss ≡ some q)
        × (q.trace.finishes ≡ p.trace.finishes ++ (t ∷ []))
        × (t.ok_count + t.error_count ≡ p.builder.expected)
  unfolding emit_trace_finish
  put_slots-traced ss p o h on = (
    completed p (p.builder.results ++ ss),
    summarize no_summary (p.builder.results ++ ss),
    put_slots_lem ss p o h,
    simp on refl,
    summarize_count (p.builder.results ++ ss) no_summary
        ∙ omega (arith, h, length-append p.builder.results ss),
  )
