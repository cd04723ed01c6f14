-- ===== src/Connection/Running.antt =====
-- impl/connection/io.ipp and actor_loops.ipp: what the loops do keeps the rules of the states.
use rediscoro.Prelude.{
  ℕ, ◌≡◌, refl, sym, ap, ◌∙◌, subst, ◌⊎◌, inl, inr, true, false, not, ◌&&◌, Option, none, some, [],
  >>=-eq-some, same_some, true≢false, Bool-cases, if_true, if_false,
}
use rediscoro.Errors.{ErrorInfo, error_info, client, protocol, ClientErrc, ProtocolErrc}
use rediscoro.Resp3.Message.{Message}
use rediscoro.Pipeline.{
  Pipeline, has_pending_read, on_write_done, on_message, on_error, has_expired,
}
use rediscoro.Intake.{ConnectionState, init, open_, failed, closing, closed}
use rediscoro.Connection.State.{Connection, handle_error}
use rediscoro.Connection.Runtime.{
  IoError, is_aborted, shutting_down, io_failed, write_done, read_failed, parse_failed,
  message_read, Control, waits, control_in, control_turn, wait_open,
}
use rediscoro.Connection.Effects.{IsIdle, view, handle_error_lem}
use rediscoro.Connection.Queue.{on_write_done-front}
use rediscoro.Connection.Moves.{View, Move, stays, loses, shuts, Settled}

-- The rules of the state hold afterwards, and the state moved along the diagram.
module _ {ℓ} {T : Type ℓ} where
  abbrev pub Kept : View → Connection T → Type 0
  Kept v c = Settled (view c) c.intake.pipe × Move v (view c)

  pub Kept-view :
      (v v' : View) (c : Connection T)
      → view c ≡ v'
      → Settled v' c.intake.pipe
      → Move v v'
      → Kept v c
  Kept-view v v' c seen s m = subst (λ x. Settled x c.intake.pipe × Move v x) (sym seen) (s, m)

-- Only an open connection has something in its queues.
pub busy_open : (v : View) (p : Pipeline) → Settled v p → ¬ IsIdle p → v.0 ≡ open_
busy_open (open_, g, b) p s busy = refl
busy_open (init, g, b) p s busy = absurd (busy s.0)
busy_open (failed, g, b) p s busy = absurd (busy s)
busy_open (closing, g, b) p s busy = absurd (busy s.0)
busy_open (closed, g, b) p s busy = absurd (busy s.0)
busy_open (_, g, b) p s busy = absurd s

reads_nothing : (p : Pipeline) → p.awaiting_read ≡ [] → has_pending_read p ≡ false
reads_nothing p h = rw h refl

module _ {ℓ} {T : Type ℓ} where
  open_Settled :
      (c : Connection T) (p : Pipeline)
      → c.intake.state ≡ open_
      → Settled (c.intake.state, c.generation, c.stop_requested) p
  open_Settled c p o = subst (λ s. Settled (s, c.generation, c.stop_requested) p) (sym o) tt

  pub handle_error-Kept :
      (e : ErrorInfo) (c c' : Connection T)
      → Settled (view c) c.intake.pipe
      → handle_error e c ≡ some c'
      → Kept (view c) c'
  handle_error-Kept e c c' s h = elim (handle_error_lem e c c' h) [
    | inl (o, seen, idle) ↦
        Kept-view (view c) (failed, c.generation, c.stop_requested) c' seen idle
          (subst
            (λ x. Move (x, c.generation, c.stop_requested) (failed, c.generation, c.stop_requested))
            (sym o) loses)
    | inr (not_open, same) ↦ subst (λ d. Kept (view c) d) same (s, stays)
  ]

  io_failed-Kept :
      (io : IoError) (e : ClientErrc) (c c' : Connection T)
      → Settled (view c) c.intake.pipe
      → io_failed io e c ≡ some c'
      → Kept (view c) c'
  unfolding io_failed
  io_failed-Kept io e c c' s h = elim (Bool-cases (is_aborted io && shutting_down c.intake.state)) [
    | inl quiet ↦ subst (λ d. Kept (view c) d) (same_some (sym (if_true _ _ quiet) ∙ h)) (s, stays)
    | inr loud ↦ handle_error-Kept (error_info (client e)) c c' s (sym (if_false _ _ loud) ∙ h)
  ]

  pub write_done-Kept :
      (r : IoError ⊎ ℕ) (c c' : Connection T)
      → Settled (view c) c.intake.pipe
      → write_done r c ≡ some c'
      → Kept (view c) c'
  unfolding write_done
  write_done-Kept (inl io) c c' s h = io_failed-Kept io ClientErrc.write_error c c' s h
  write_done-Kept (inr n) c c' s h =
      let (p, writes, gives) = >>=-eq-some (on_write_done c.intake.pipe n) _ h in
      let (i, rest, front, q) = on_write_done-front c.intake.pipe p n writes in
      let busy : ¬ IsIdle c.intake.pipe = λ idle. cc in
      let o = busy_open (view c) c.intake.pipe s busy in
      elim (Bool-cases (has_pending_read p)) [
        | inl more ↦
            subst (λ d. Kept (view c) d) (sym (if_true _ _ more) ∙ same_some gives)
              (open_Settled c p o, stays)
        | inr done ↦
            subst (λ d. Kept (view c) d) (sym (if_false _ _ done) ∙ same_some gives)
              (open_Settled c p o, stays)
      ]

  pub read_failed-Kept :
      (r : Option IoError) (c c' : Connection T)
      → Settled (view c) c.intake.pipe
      → read_failed r c ≡ some c'
      → Kept (view c) c'
  unfolding read_failed
  read_failed-Kept (some io) c c' s h = io_failed-Kept io ClientErrc.connection_lost c c' s h
  read_failed-Kept none c c' s h =
      handle_error-Kept (error_info (client ClientErrc.connection_reset)) c c' s h

  waiting_open :
      (c : Connection T)
      → Settled (view c) c.intake.pipe
      → has_pending_read c.intake.pipe ≡ true
      → c.intake.state ≡ open_
  waiting_open c s waits' =
      busy_open (view c) c.intake.pipe s
        (λ idle. true≢false (sym waits' ∙ reads_nothing c.intake.pipe idle.1))

  pub parse_failed-Kept :
      (e : ProtocolErrc) (c c' : Connection T)
      → Settled (view c) c.intake.pipe
      → parse_failed e c ≡ some c'
      → Kept (view c) c'
  unfolding parse_failed
  parse_failed-Kept e c c' s h = elim (Bool-cases (has_pending_read c.intake.pipe)) [
    | inr nothing ↦
        handle_error-Kept (error_info (protocol e)) c c' s (sym (if_false _ _ nothing) ∙ h)
    | inl waits' ↦
        let (r, told, rest) =
          >>=-eq-some (on_error c.intake.pipe c.intake.sinks (error_info (protocol e))) _
            (sym (if_true _ _ waits') ∙ h) in
        handle_error-Kept (error_info (protocol e)) _ c'
          (open_Settled c r.0 (waiting_open c s waits')) rest
  ]

  pub message_read-Kept :
      (adapt : Message → T ⊎ ErrorInfo) (m : Message) (c c' : Connection T)
      → Settled (view c) c.intake.pipe
      → message_read adapt m c ≡ some c'
      → Kept (view c) c'
  unfolding message_read
  message_read-Kept adapt m c c' s h = elim (Bool-cases (has_pending_read c.intake.pipe)) [
    | inr nothing ↦
        handle_error-Kept (error_info (client ClientErrc.unsolicited_message)) c c' s
          (sym (if_true _ _ (ap not nothing)) ∙ h)
    | inl waits' ↦
        let (r, told, gives) =
          >>=-eq-some (on_message adapt c.intake.pipe c.intake.sinks m) _
            (sym (if_false _ _ (ap not waits')) ∙ h) in
        subst (λ d. Kept (view c) d) (same_some gives)
          (open_Settled c r.0 (waiting_open c s waits'), stays)
  ]

  wait_open-Kept :
      (now : ℕ) (c c' : Connection T) (next : Control)
      → Settled (view c) c.intake.pipe
      → wait_open now c ≡ some (c', next)
      → Kept (view c) c'
  wait_open-Kept now c c' next s h = elim (Bool-cases (has_expired c.intake.pipe now)) [
    | inl late ↦
        let (d, lost, gives) =
          >>=-eq-some (handle_error (error_info (client ClientErrc.request_timeout)) c) _
            (sym (if_true _ _ late) ∙ h) in
        subst (λ x. Kept (view c) x) (ap (λ x. x.0) (same_some gives))
          (handle_error-Kept _ c d s lost)
    | inr early ↦
        subst (λ x. Kept (view c) x) (ap (λ x. x.0) (same_some (sym (if_false _ _ early) ∙ h)))
          (s, stays)
  ]

  timed :
      (o : Option ℕ) (now : ℕ) (c c' : Connection T) (next : Control)
      → Settled (view c) c.intake.pipe
      → (elim o as (λ _. Option (Connection T × Control)) [
        | none ↦ some (c, waits)
        | some d ↦ wait_open now c
      ])
        ≡ some (c', next)
      → Kept (view c) c'
  timed none now c c' next s h =
      subst (λ x. Kept (view c) x) (ap (λ x. x.0) (same_some h)) (s, stays)
  timed (some d) now c c' next s h = wait_open-Kept now c c' next s h

  -- The state is given by itself, so that its clauses apply.
  control_in-Kept :
      (st : ConnectionState) (now : ℕ) (c c' : Connection T) (next : Control)
      → c.intake.state ≡ st
      → Settled (view c) c.intake.pipe
      → control_in st now c ≡ some (c', next)
      → Kept (view c) c'
  unfolding control_in
  control_in-Kept failed now c c' next q s h = elim (Bool-cases c.reconnection_enabled) [
    | inl on ↦
        subst (λ x. Kept (view c) x)
          (ap (λ x. x.0) (same_some (sym (if_false _ _ (ap not on)) ∙ h))) (s, stays)
    | inr off ↦
        let idle = subst (λ x. Settled (x, c.generation, c.stop_requested) c.intake.pipe) q s in
        subst (λ x. Kept (view c) x)
          (ap (λ x. x.0) (same_some (sym (if_true _ _ (ap not off)) ∙ h)))
          ((idle, refl), shuts (λ bad. absurd cc))
  ]
  control_in-Kept open_ now c c' next q s h = timed c.intake.request_timeout now c c' next s h
  control_in-Kept _ now c c' next q s h =
      subst (λ x. Kept (view c) x) (ap (λ x. x.0) (same_some h)) (s, stays)

  pub control_turn-Kept :
      (now : ℕ) (c c' : Connection T) (next : Control)
      → Settled (view c) c.intake.pipe
      → control_turn now c ≡ some (c', next)
      → Kept (view c) c'
  unfolding control_turn
  control_turn-Kept now c c' next s h = elim (Bool-cases c.stop_requested) [
    | inl stops ↦
        subst (λ x. Kept (view c) x) (ap (λ x. x.0) (same_some (sym (if_true _ _ stops) ∙ h)))
          (s, stays)
    | inr runs ↦ control_in-Kept c.intake.state now c c' next refl s (sym (if_false _ _ runs) ∙ h)
  ]
