-- ===== src/Pipeline/Reachable.antt =====
-- impl/pipeline.ipp: the states that a pipeline and its sinks can come to, one call after another.
use rediscoro.Prelude.{
  ℕ, ◌<◌, ◌≤◌, ◌≡◌, ◌≢◌, refl, sym, ap, subst, ◌∙◌, ◌⊎◌, true, some, List, [], ◌∷◌, ◌++◌, length,
}
use rediscoro.Errors.{ErrorInfo}
use rediscoro.Resp3.Message.{Message}
use rediscoro.Sink.{
  Trace, unexpected, Pending, slot_from_message, deliver, deliver_error, new_pending, fail_all,
}
use rediscoro.Pipeline.{
  AwaitingItem, Pipeline, new_pipeline, enqueue, next_write_buffer, on_write_done, on_message,
  on_error, clear_all,
}
use rediscoro.Pipeline.Invariant.{
  IsWf, new_pipeline-IsWf, reply_order, enqueue_lem, on_write_done_lem,
}
use rediscoro.Pipeline.Delivery.{Opens}
use rediscoro.Pipeline.Line.{
  some_eq, Inv, emptied, cleared, Opens-append, Opens-join_if, new_pending-IsOpen, reply_total,
  reply_Inv,
}

module _ {ℓ} {T : Type ℓ} (adapt : Message → T ⊎ ErrorInfo) where
  -- One call of the connection: a request of one or more commands with a sink of its own, which the pipeline takes; such
  -- a request that is refused, whose sink is filled with an error; a write of what was offered, or of part of it; a
  -- reply or a parse error for the front; the loss of the connection.
  pub data Step : Pipeline × List (Pending T) → Pipeline × List (Pending T) → Type ℓ where
    pushes :
        (p p' : Pipeline) (sinks : List (Pending T)) (wire : List ℕ) (n deadline : ℕ) (t : Trace)
        → 0 < n
        → enqueue p wire (length sinks) deadline ≡ (p', true)
        → Step (p, sinks) (p', sinks ++ (new_pending n t ∷ []))
    refuses :
        (p : Pipeline) (sinks : List (Pending T)) (n : ℕ) (t : Trace) (e : ErrorInfo)
        (s : Pending T)
        → fail_all (new_pending n t) e ≡ some s
        → Step (p, sinks) (p, sinks ++ (s ∷ []))
    writes :
        (p p' : Pipeline) (sinks : List (Pending T)) (buffer : List ℕ) (n : ℕ)
        → next_write_buffer p ≡ some buffer
        → n ≤ length buffer
        → on_write_done p n ≡ some p'
        → Step (p, sinks) (p', sinks)
    answers :
        (p : Pipeline) (sinks : List (Pending T)) (m : Message) (r : Pipeline × List (Pending T))
        → on_message adapt p sinks m ≡ some r
        → Step (p, sinks) r
    errs :
        (p : Pipeline) (sinks : List (Pending T)) (e : ErrorInfo) (r : Pipeline × List (Pending T))
        → on_error p sinks e ≡ some r
        → Step (p, sinks) r
    clears :
        (p : Pipeline) (sinks : List (Pending T)) (e : ErrorInfo) (r : Pipeline × List (Pending T))
        → clear_all p sinks e ≡ some r
        → Step (p, sinks) r

  pub data Reachable : Pipeline × List (Pending T) → Type ℓ where
    fresh : (requests bytes : ℕ) → Reachable (new_pipeline requests bytes, [])
    step : (a b : Pipeline × List (Pending T)) → Reachable a → Step a b → Reachable b

  step_Inv : (a b : Pipeline × List (Pending T)) → Inv a → Step a b → Inv b
  unfolding on_message deliver on_error deliver_error clear_all
  step_Inv a b (v, o) (pushes p p' sinks wire n deadline t some_reply e) =
      let (q, took, e', v', accepts, order) = enqueue_lem p wire (length sinks) deadline v in
      let gives = sym e' ∙ e in
      (
        subst IsWf (ap (λ x. x.0) gives) v',
        subst (Opens (sinks ++ (new_pending n t ∷ [])))
            (sym order ∙ ap (λ x. reply_order x.0) gives)
            (Opens-join_if sinks (new_pending n t) (reply_order p) took o
              (new_pending-IsOpen n t some_reply)),
      )
  step_Inv a b (v, o) (refuses p sinks n t e s h) =
      (v, Opens-append sinks (s ∷ []) (reply_order p) o)
  step_Inv a b (v, o) (writes p p' sinks buffer n offered h e) =
      let (q, e', v', bytes, order) = on_write_done_lem p buffer n v offered h in
      let same = some_eq (sym e' ∙ e) in
      (subst IsWf same v', subst (Opens sinks) (sym order ∙ ap reply_order same) o)
  step_Inv a b inv (answers p sinks m r e) = reply_Inv p sinks (slot_from_message adapt m) r inv e
  step_Inv a b inv (errs p sinks err r e) = reply_Inv p sinks (unexpected err) r inv e
  step_Inv a b inv (clears p sinks err r e) = subst Inv (cleared p sinks err r e) (emptied p, tt)

  -- In every state that the pipeline and its sinks can come to from an empty pipeline, by requests of one
  -- or more commands with sinks of their own, taken or refused, writes of what was offered, replies,
  -- errors and losses of the connection, the byte count and the limits hold, every sink that waits is
  -- open, and none stands in the line twice.
  pub Reachable-invariant :
      (a : Pipeline × List (Pending T)) → Reachable a → IsWf a.0 × Opens a.1 (reply_order a.0)
  Reachable-invariant a (fresh requests bytes) = (new_pipeline-IsWf requests bytes, tt)
  Reachable-invariant b (step a b' h s) = step_Inv a b (Reachable-invariant a h) s

  -- In every state that the pipeline and its sinks can come to from an empty pipeline, by requests of one
  -- or more commands with sinks of their own, taken or refused, writes of what was offered, replies,
  -- errors and losses of the connection, if a request waits for a reply, on_message of any message fails
  -- no assertion and leads to such a state again; a sink is never given a reply after its last one.
  pub Reachable-on_message :
      (a : Pipeline × List (Pending T)) (m : Message)
      → Reachable a
      → a.0.awaiting_read ≢ []
      → (b : Pipeline × List (Pending T)) × (on_message adapt a.0 a.1 m ≡ some b) × Reachable b
  unfolding on_message deliver
  Reachable-on_message a m h waiting = go a.0.awaiting_read refl
    where
      go :
          (ws : List AwaitingItem)
          → a.0.awaiting_read ≡ ws
          → (b : Pipeline × List (Pending T)) × (on_message adapt a.0 a.1 m ≡ some b) × Reachable b
      go [] front = absurd (waiting front)
      go (i ∷ rest) front =
          let (b, e, inv) =
            reply_total a.0 a.1 (slot_from_message adapt m) i rest (Reachable-invariant a h)
              front in
          (b, e, step a b h (answers a.0 a.1 m b e))
