-- ===== src/Connection/Trying.antt =====
-- impl/connection/connect.ipp, core.ipp and reconnect.ipp: an attempt and its end keep the rules of the states.
use rediscoro.Prelude.{
  ◌≡◌, refl, sym, ap, ◌∙◌, subst, inl, inr, true, none, some, >>=-eq-some, same_some, none≢some,
  Bool-cases, if_true, if_false, if◌then◌else◌, ◌>>=◌,
}
use rediscoro.Errors.{ErrorInfo}
use rediscoro.Intake.{connecting, closing, closed}
use rediscoro.Connection.State.{
  Connection, close, emit_connection_event, disconnected, connect_stage,
}
use rediscoro.Connection.Attempt.{gives_up, is_connected}
use rediscoro.Connection.Owners.{
  connect_failed, connect_succeeded, reconnect_failed, reconnect_succeeded, is_open,
}
use rediscoro.Connection.Life.{Owner, by_connect, by_reconnect, Live, live, settle}
use rediscoro.Connection.Effects.{IsIdle, view, close_lem}
use rediscoro.Connection.Moves.{View, Move, stays, shuts, Attempting, Sound, failed-Move}
use rediscoro.Connection.Running.{Kept-view, Kept}

module _ {ℓ} {T : Type ℓ} where
  -- Where an attempt leaves the connection, seen from the view `v`.
  abbrev pub Lands : View → Live T → Type ℓ
  Lands v b = Sound b.attempt b.conn × Move v (view b.conn)

  landed : (v : View) (c : Connection T) → Kept v c → Lands v (live c none)
  landed v c k = ((k.0, tt), k.1)

  closed_by :
      (v : View) (c c' : Connection T)
      → Attempting by_connect v
      → view c ≡ v
      → IsIdle c.intake.pipe
      → close c ≡ some c'
      → Kept v c'
  closed_by (connecting, g, b) c c' a seen idle h = elim (close_lem c c' h) [
    | inl (live', to, quiet) ↦
        Kept-view (connecting, g, b) (closing, g, true) c'
          (to ∙ ap (λ x. (closing, x.1, true)) seen) (quiet, refl) (shuts (λ bad. absurd cc))
    | inr (st, same) ↦ absurd cc
  ]
  closed_by (closing, g, b) c c' a seen idle h = elim (close_lem c c' h) [
    | inl (live', to, quiet) ↦
        Kept-view (closing, g, b) (closing, g, true) c' (to ∙ ap (λ x. (closing, x.1, true)) seen)
          (quiet, refl) (shuts (λ bad. absurd cc))
    | inr (st, same) ↦ absurd cc
  ]
  closed_by (closed, g, b) c c' a seen idle h = elim (close_lem c c' h) [
    | inl (live', to, quiet) ↦ absurd (live' (ap (λ x. x.0) seen))
    | inr (st, same) ↦
        Kept-view (closed, g, b) (closed, g, b) c' (ap view (sym same) ∙ seen)
          (subst (λ d. IsIdle d.intake.pipe) same idle, a) stays
  ]
  closed_by (_, g, b) c c' a seen idle h = absurd a

  -- An attempt that failed, with nothing in the queues.
  pub settle-gives_up :
      (o : Owner) (c : Connection T) (e : ErrorInfo) (b : Live T)
      → Attempting o (view c)
      → IsIdle c.intake.pipe
      → settle o c (gives_up e) ≡ some b
      → Lands (view c) b
  unfolding settle connect_failed reconnect_failed
  settle-gives_up by_connect c e b a idle h =
      let (d, fails, gives) = >>=-eq-some (connect_failed e c) _ h in
      subst (λ x. Lands (view c) x) (same_some gives)
        (landed (view c) d (
          closed_by (view c)
            (emit_connection_event disconnected connect_stage connecting closing (some e) c) d a
            refl idle fails))
  settle-gives_up by_reconnect c e b a idle h =
      subst (λ x. Lands (view c) x) (same_some h) ((idle, tt), failed-Move (view c) a)

  connected_lem :
      (c c' : Connection T) (b : Live T)
      → (if is_open c.intake.state then some c' else none) >>= (λ d. some (live d none)) ≡ some b
      → live c' none ≡ b
  connected_lem c c' b h = elim (Bool-cases (is_open c.intake.state)) [
    | inl up ↦ same_some (ap (λ x. x >>= (λ d. some (live d none))) (sym (if_true _ _ up)) ∙ h)
    | inr down ↦
        absurd (none≢some (ap (λ x. x >>= (λ d. some (live d none))) (sym (if_false _ _ down)) ∙ h))
  ]

  pub settle-is_connected :
      (o : Owner) (c : Connection T) (b : Live T)
      → settle o c is_connected ≡ some b
      → (view b.conn ≡ view c) × (b.attempt ≡ none)
  unfolding settle connect_succeeded reconnect_succeeded
  settle-is_connected by_connect c b h =
      subst (λ x. (view x.conn ≡ view c) × (x.attempt ≡ none)) (connected_lem c _ b h) (refl, refl)
  settle-is_connected by_reconnect c b h =
      subst (λ x. (view x.conn ≡ view c) × (x.attempt ≡ none)) (connected_lem c _ b h) (refl, refl)
