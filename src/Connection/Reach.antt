-- ===== src/Connection/Reach.antt =====
-- impl/connection/: in every state that a connection can come to, the rules of the states hold, and every step moves
-- along the diagram.
use rediscoro.Prelude.{
  ℕ, ◌+◌, ◌≡◌, ◌≢◌, refl, sym, ap, ◌∙◌, subst, ◌⊎◌, inl, inr, true, false, not, Option, none, some,
  List, length, get_elem?, >>=-eq-some, same_some, same_inl, inl≢inr, true≢false, Bool-cases,
  if_true, if_false, if◌then◌else◌, lt_of_get_elem?, arith,
}
use rediscoro.Errors.{ErrorInfo}
use rediscoro.Resp3.Message.{Message}
use rediscoro.Sink.{Pending}
use rediscoro.Pipeline.{on_write_done, on_message, has_pending_read}
use rediscoro.Pipeline.Line.{get_elem?-append}
use rediscoro.Intake.{open_, closing, closed, Intake, enqueue_impl}
use rediscoro.Intake.Effects.{enqueue_impl-Keeps}
use rediscoro.Connection.State.{Connection, close, transition_to_closed}
use rediscoro.Connection.Attempt.{
  Attempt, resolving, dialing, handshaking, handshake_written, handshake_reply,
}
use rediscoro.Connection.Owners.{actor_completed, is_closed}
use rediscoro.Connection.Life.{
  Owner, by_connect, by_reconnect, owned_by_reconnect, Live, live, with_sink, Step, accepts, writes,
  read_fails, parse_fails, reads, controls, starts_connect, starts_reconnect, resolves, dials,
  handshake_writes, handshake_reads, handshake_ends, closes, actor_ends, completes, IsFresh,
  Reachable, fresh, step,
}
use rediscoro.Connection.Effects.{IsIdle, view, close_lem, transition_to_closed_lem}
use rediscoro.Connection.Queue.{nothing, Holds-written, Holds-replied, Holds-elsewhere}
use rediscoro.Connection.Moves.{
  View, Move, stays, shuts, ends, Settled, Attempting, Sound, Attempting-closing,
}
use rediscoro.Connection.Running.{
  Kept, write_done-Kept, read_failed-Kept, parse_failed-Kept, message_read-Kept, control_turn-Kept,
}
use rediscoro.Connection.Trying.{Lands}
use rediscoro.Connection.Begins.{
  starts_connect-Lands, starts_reconnect-Lands, resolves-Lands, dials-Lands, handshake_ends-Lands,
}

-- While an attempt is in flight the connection is not open.
not_open : (o : Owner) (v : View) → Attempting o v → v.0 ≢ open_
not_open o (open_, g, b) a bad = closed_door o a
  where
    closed_door : (o : Owner) → Attempting o (open_, g, b) → ⊥
    closed_door by_connect a = a
    closed_door by_reconnect a = a
not_open o (_, g, b) a bad = absurd cc

module _ {ℓ} {T : Type ℓ} where
  Sound-queue :
      (at : Option (Owner × Attempt)) (c : Connection T) (i : Intake T)
      → Sound at c
      → i.state ≡ c.intake.state
      → (c.intake.state ≡ open_) ⊎ (i.pipe ≡ c.intake.pipe)
      → ((j : ℕ) (s : Pending T)
          → get_elem? c.intake.sinks j ≡ some s
          → get_elem? i.sinks j ≡ some s)
      → Sound at (record c { intake = i })
  Sound-queue none c i s st (inl o) keeps =
      (subst (λ x. Settled (x, c.generation, c.stop_requested) i.pipe) (sym (st ∙ o)) tt, tt)
  Sound-queue none c i s st (inr same) keeps = (
    subst (λ x. Settled (i.state, c.generation, c.stop_requested) x) (sym same)
        (subst (λ x. Settled (x, c.generation, c.stop_requested) c.intake.pipe) (sym st) s.0),
    tt,
  )
  Sound-queue (some (o, resolving)) c i s st (inl up) keeps = absurd (not_open o (view c) s.0 up)
  Sound-queue (some (o, dialing)) c i s st (inl up) keeps = absurd (not_open o (view c) s.0 up)
  Sound-queue (some (o, handshaking place)) c i s st (inl up) keeps =
      absurd (not_open o (view c) s.0 up)
  Sound-queue (some (o, resolving)) c i s st (inr same) keeps = (
    subst (λ x. Attempting o (x, c.generation, c.stop_requested)) (sym st) s.0,
    subst IsIdle (sym same) s.1,
    tt,
  )
  Sound-queue (some (o, dialing)) c i s st (inr same) keeps = (
    subst (λ x. Attempting o (x, c.generation, c.stop_requested)) (sym st) s.0,
    subst IsIdle (sym same) s.1,
    tt,
  )
  Sound-queue (some (o, handshaking place)) c i s st (inr same) keeps = (
    subst (λ x. Attempting o (x, c.generation, c.stop_requested)) (sym st) s.0,
    Holds-elsewhere place c.intake.pipe i.pipe c.intake.sinks i.sinks same (keeps place) s.1,
  )

  accepts-Lands :
      (c : Connection T) (i : Intake T) (at : Option (Owner × Attempt)) (wire : List ℕ) (n now : ℕ)
      → Sound at c
      → enqueue_impl (with_sink n c.intake) wire n (length c.intake.sinks) now ≡ some i
      → Lands (view c) (live (record c { intake = i }) at)
  accepts-Lands c i at wire n now s h =
      let (k, p) =
        enqueue_impl-Keeps (with_sink n c.intake) i wire n (length c.intake.sinks) now h in
      let there : (j : ℕ) (x : Pending T)
          → get_elem? c.intake.sinks j ≡ some x
          → get_elem? i.sinks j ≡ some x =
        λ j x e.
          k.elsewhere j (λ bad. omega (arith, lt_of_get_elem? c.intake.sinks j x e))
          ∙ get_elem?-append c.intake.sinks _ j x e in
      (
        Sound-queue at c i s k.same_state p there,
        subst (λ x. Move (view c) (x, c.generation, c.stop_requested)) (sym k.same_state) stays,
      )

  -- `close` at any time.
  close-Sound :
      (at : Option (Owner × Attempt)) (c c' : Connection T)
      → Sound at c
      → view c' ≡ (closing, c.generation, true)
      → IsIdle c'.intake.pipe
      → Sound at c'
  close-Sound none c c' s seen idle =
      (subst (λ v. Settled v c'.intake.pipe) (sym seen) (idle, refl), tt)
  close-Sound (some (o, resolving)) c c' s seen idle =
      (subst (Attempting o) (sym seen) (Attempting-closing o (view c) s.0), idle, tt)
  close-Sound (some (o, dialing)) c c' s seen idle =
      (subst (Attempting o) (sym seen) (Attempting-closing o (view c) s.0), idle, tt)
  close-Sound (some (o, handshaking place)) c c' s seen idle =
      (subst (Attempting o) (sym seen) (Attempting-closing o (view c) s.0), nothing idle)

  closes-Lands :
      (at : Option (Owner × Attempt)) (c c' : Connection T)
      → Sound at c
      → close c ≡ some c'
      → Lands (view c) (live c' at)
  closes-Lands at c c' s h = elim (close_lem c c' h) [
    | inl (not_yet, seen, idle) ↦
        (close-Sound at c c' s seen idle, subst (Move (view c)) (sym seen) (shuts not_yet))
    | inr (done, same) ↦ subst (λ d. Lands (view c) (live d at)) same (s, stays)
  ]

  -- The end of the actor, which a reconnection is a part of.
  end-Sound :
      (at : Option (Owner × Attempt)) (c c' : Connection T)
      → Sound at c
      → owned_by_reconnect at ≡ false
      → view c' ≡ (closed, c.generation, true)
      → IsIdle c'.intake.pipe
      → Sound at c'
  end-Sound none c c' s own seen idle =
      (subst (λ v. Settled v c'.intake.pipe) (sym seen) (idle, refl), tt)
  end-Sound (some (by_connect, resolving)) c c' s own seen idle =
      (subst (Attempting by_connect) (sym seen) refl, idle, tt)
  end-Sound (some (by_connect, dialing)) c c' s own seen idle =
      (subst (Attempting by_connect) (sym seen) refl, idle, tt)
  end-Sound (some (by_connect, handshaking place)) c c' s own seen idle =
      (subst (Attempting by_connect) (sym seen) refl, nothing idle)
  end-Sound (some (by_reconnect, a)) c c' s own seen idle = absurd (true≢false own)

  ends-Lands :
      (at : Option (Owner × Attempt)) (c c' : Connection T)
      → Sound at c
      → c.stop_requested ≡ true
      → owned_by_reconnect at ≡ false
      → transition_to_closed c ≡ some c'
      → Lands (view c) (live c' at)
  ends-Lands at c c' s stops own h =
      let (seen, idle) = transition_to_closed_lem c c' h in
      let now = seen ∙ ap (λ b. (closed, c.generation, b)) stops in
      (
        end-Sound at c c' s own now idle,
        subst (λ v. Move v (view c')) (ap (λ b. (c.intake.state, c.generation, b)) (sym stops))
            (subst (Move (c.intake.state, c.generation, true)) (sym now) ends),
      )

  -- A closed connection stays as it is when its actor is done.
  completes-Lands :
      (at : Option (Owner × Attempt)) (c c' : Connection T)
      → Sound at c
      → c.intake.state ≡ closed
      → actor_completed none c ≡ some c'
      → Lands (view c) (live c' at)
  unfolding actor_completed
  completes-Lands at c c' s done h =
      let stopped = record c { actor_running = false } in
      let shut : is_closed c.intake.state ≡ true = ap is_closed done in
      let (d, kept, gives) =
        >>=-eq-some
          (if is_closed c.intake.state then some stopped else transition_to_closed stopped) _ h in
      let same = same_some (sym (if_true _ _ shut) ∙ kept) in
      subst (λ x. Lands (view c) (live x at)) (same_some gives)
        (subst (λ x. Lands (view c) (live (record x { actor_done = x.actor_done + 1 }) at)) same
          (Sound-same at s, stays))
    where
      Sound-same :
          (at : Option (Owner × Attempt))
          → Sound at c
          → Sound at (record c { actor_running = false; actor_done = c.actor_done + 1 })
      Sound-same none s = s
      Sound-same (some (o, resolving)) s = s
      Sound-same (some (o, dialing)) s = s
      Sound-same (some (o, handshaking place)) s = s

module _ {ℓ} {T : Type ℓ} (adapt : Message → T ⊎ ErrorInfo) where
  settled_Lands : (c c' : Connection T) → Kept (view c) c' → Lands {T = T} (view c) (live c' none)
  settled_Lands c c' k = ((k.0, tt), k.1)

  written_Lands :
      (c c' : Connection T) (o : Owner) (place n : ℕ)
      → Sound (some (o, handshaking place)) c
      → handshake_written n c ≡ some c'
      → Lands (view c) (live c' (some (o, handshaking place)))
  unfolding handshake_written
  written_Lands c c' o place n s h =
      let (p, writes', gives) = >>=-eq-some (on_write_done c.intake.pipe n) _ h in
      subst (λ x. Lands (view c) (live x (some (o, handshaking place)))) (same_some gives)
        ((s.0, Holds-written place c.intake.pipe p c.intake.sinks n s.1 writes'), stays)

  replied_Lands :
      (c c' : Connection T) (o : Owner) (place : ℕ) (m : Message)
      → Sound (some (o, handshaking place)) c
      → handshake_reply adapt m c ≡ some (inl c')
      → Lands (view c) (live c' (some (o, handshaking place)))
  unfolding handshake_reply
  replied_Lands c c' o place m s h = elim (Bool-cases (has_pending_read c.intake.pipe)) [
    | inr nothing' ↦ absurd (inl≢inr (sym (same_some (sym (if_true _ _ (ap not nothing')) ∙ h))))
    | inl waits' ↦
        let (r, told, gives) =
          >>=-eq-some (on_message adapt c.intake.pipe c.intake.sinks m) _
            (sym (if_false _ _ (ap not waits')) ∙ h) in
        subst (λ x. Lands (view c) (live x (some (o, handshaking place))))
          (same_inl (same_some gives))
          ((s.0, Holds-replied adapt place c.intake.pipe c.intake.sinks m r s.1 told), stays)
  ]

  -- Every step keeps the rules of the states and moves along the diagram.
  pub step-Lands : (a b : Live T) → Sound a.attempt a.conn → Step adapt a b → Lands (view a.conn) b
  step-Lands a b s (accepts c i at wire n now h) = accepts-Lands c i at wire n now s h
  step-Lands a b s (writes c c' r h) = settled_Lands c c' (write_done-Kept r c c' s.0 h)
  step-Lands a b s (read_fails c c' r h) = settled_Lands c c' (read_failed-Kept r c c' s.0 h)
  step-Lands a b s (parse_fails c c' e h) = settled_Lands c c' (parse_failed-Kept e c c' s.0 h)
  step-Lands a b s (reads c c' m h) = settled_Lands c c' (message_read-Kept adapt m c c' s.0 h)
  step-Lands a b s (controls c c' now next h) =
      settled_Lands c c' (control_turn-Kept now c c' next s.0 h)
  step-Lands a b s (starts_connect c c' d nf idle h settles) =
      starts_connect-Lands c c' d nf s.0 h settles
  step-Lands a b s (starts_reconnect c c' d f h settles) =
      starts_reconnect-Lands c c' d f s.0 h settles
  step-Lands a b s (resolves c o r d h) = resolves-Lands c o r d s h
  step-Lands a b s (dials c c' o req ds p d h settles) = dials-Lands c c' o req ds p d s h settles
  step-Lands a b s (handshake_writes c c' o place n h) = written_Lands c c' o place n s h
  step-Lands a b s (handshake_reads c c' o place m h) = replied_Lands c c' o place m s h
  step-Lands a b s (handshake_ends c c' o place r p d h settles) =
      handshake_ends-Lands c c' o place r p d s h settles
  step-Lands a b s (closes c c' at h) = closes-Lands at c c' s h
  step-Lands a b s (actor_ends c c' at stops own h) = ends-Lands at c c' s stops own h
  step-Lands a b s (completes c c' at done h) = completes-Lands at c c' s done h

  -- In every state that a connection can come to by the steps of its coroutines in any order, leaving out
  -- a read or a write of the runtime loops that ends well during an attempt, connect in FAILED or
  -- RECONNECTING or while an earlier attempt is in flight, connect between CLOSED and the completion of
  -- the actor, and an actor that throws, the pipeline is empty unless the connection is OPEN or in an
  -- attempt whose handshake is all that the pipeline holds; CLOSING and CLOSED have a stop request; and
  -- CONNECTING and RECONNECTING are states of an attempt in flight.
  pub Reachable-Sound : (a : Live T) → Reachable adapt a → Sound a.attempt a.conn
  Reachable-Sound a (fresh c f) = (started c f, tt)
    where
      started : (c : Connection T) → IsFresh c → Settled (view c) c.intake.pipe
      started c f =
          subst (λ v. Settled v c.intake.pipe)
            (ap (λ x. (x, c.generation, c.stop_requested)) (sym f.at_init))
            (subst IsIdle (sym f.no_requests.2) (refl, refl), f.not_stopped)
  Reachable-Sound b (step a b' h s) = (step-Lands a b (Reachable-Sound a h) s).0

  pub Reachable-Move :
      (a b : Live T) → Reachable adapt a → Step adapt a b → Move (view a.conn) (view b.conn)
  Reachable-Move a b h s = (step-Lands a b (Reachable-Sound a h) s).1
