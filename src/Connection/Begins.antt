-- ===== src/Connection/Begins.antt =====
-- impl/connection/: the steps of an attempt to connect keep the rules of the states.
use rediscoro.Prelude.{
  ℕ, ◌+◌, ◌%◌, ◌^◌, ◌≡◌, ◌≢◌, refl, sym, ap, ◌∙◌, subst, ◌⊎◌, inl, inr, false, ◌||◌, Option, none,
  some, List, same_some, none≢some, true≢false, Bool-cases, if_true, if_false, ◌==◌,
}
use rediscoro.Errors.{ErrorInfo, ClientErrc}
use rediscoro.Intake.{
  ConnectionState, init, connecting, open_, failed, reconnecting, closing, closed,
}
use rediscoro.Connection.State.{Connection, set_state}
use rediscoro.Connection.Attempt.{
  Attempt, resolving, dialing, handshaking, Progress, gives_up, goes_on, fails_with, begin_attempt,
  on_resolved, on_dialed, on_handshake, handshake_outcome, Dialed, HandshakeError,
}
use rediscoro.Request.{Request}
use rediscoro.Connection.Runtime.{IoError}
use rediscoro.Connection.Owners.{
  starts, refused, start_connecting, connect_in, connect, reconnect_attempt, is_closing,
}
use rediscoro.Connection.Life.{Owner, by_connect, by_reconnect, attempt_state, Live, live, settle}
use rediscoro.Connection.Effects.{IsIdle, view}
use rediscoro.Connection.Moves.{
  View, Move, stays, dials_up, starts_over, opens, retries, Settled, Attempting, Sound,
  Attempting-state,
}
use rediscoro.Connection.Trying.{Lands, settle-gives_up, settle-is_connected}
use rediscoro.Connection.Verdict.{on_handshake_lem}
use rediscoro.Connection.Dialing.{on_dialed_lem}

module _ {ℓ} {T : Type ℓ} where
  settle-goes_on :
      (o : Owner) (c : Connection T) (a : Attempt) (b : Live T)
      → settle o c (goes_on a) ≡ some b
      → live c (some (o, a)) ≡ b
  unfolding settle
  settle-goes_on by_connect c a b h = same_some h
  settle-goes_on by_reconnect c a b h = same_some h

  -- An attempt begins in the state `s` of its owner.
  begins :
      (o : Owner) (c : Connection T) (b : Live T) (v : View)
      → view c ≡ (attempt_state o, v.1, false)
      → IsIdle c.intake.pipe
      → Move v (attempt_state o, v.1, false)
      → settle o c (begin_attempt c) ≡ some b
      → Lands v b
  unfolding begin_attempt
  begins o c b v seen idle m h =
      let runs : c.stop_requested ≡ false = ap (λ x. x.2) seen in
      subst (λ x. Lands v x)
        (settle-goes_on o c resolving b (
          ap (settle o c)
            (sym (if_false (fails_with ClientErrc.operation_aborted) (goes_on resolving) runs))
          ∙ h))
        ((subst (Attempting o) (sym seen) (its_state o v.1), idle, tt), subst (Move v) (sym seen) m)
    where
      its_state : (o : Owner) (g : ℕ) → Attempting o (attempt_state o, g, false)
      its_state by_connect g = tt
      its_state by_reconnect g = tt

  start_connecting_lem :
      (c c' : Connection T)
      → start_connecting c ≡ (c', starts)
      → (c.stop_requested ≡ false)
        × (view c' ≡ (connecting, c.generation, false))
        × (c'.intake.pipe ≡ c.intake.pipe)
  start_connecting_lem c c' h = elim (Bool-cases c.stop_requested) [
    | inl stops ↦ absurd (refused≢starts (ap (λ x. x.1) (sym (if_true _ _ stops) ∙ h)))
    | inr runs ↦
        let same = ap (λ x. x.0) (sym (if_false _ _ runs) ∙ h) in
        (
          runs,
          ap view (sym same) ∙ ap (λ b. (connecting, c.generation, b)) runs,
          ap (λ x. x.intake.pipe) (sym same),
        )
  ]
    where
      refused≢starts : {e : ClientErrc} → refused e ≡ starts → ⊥
      refused≢starts h = cc

  -- The state is given by itself.
  connect_in-Lands :
      (st : ConnectionState) (c c' : Connection T) (b : Live T)
      → st ≢ failed
      → Settled (st, c.generation, c.stop_requested) c.intake.pipe
      → connect_in st c ≡ (c', starts)
      → settle by_connect c' (begin_attempt c') ≡ some b
      → Lands (st, c.generation, c.stop_requested) b
  unfolding connect_in
  connect_in-Lands init c c' b nf s h settles =
      let (runs, seen, kept) = start_connecting_lem c c' h in
      begins by_connect c' b (init, c.generation, c.stop_requested) seen
        (subst IsIdle (sym kept) s.0)
        (subst (λ x. Move (init, c.generation, x) (connecting, c.generation, false)) (sym runs)
          dials_up)
        settles
  connect_in-Lands closed c c' b nf s h settles =
      let reset = record (set_state init c) { reconnect_count = 0; stop_requested = false } in
      let (runs, seen, kept) = start_connecting_lem reset c' h in
      begins by_connect c' b (closed, c.generation, c.stop_requested) seen
        (subst IsIdle (sym kept) s.0)
        (subst (λ x. Move (closed, c.generation, x) (connecting, c.generation, false)) (sym s.1)
          starts_over)
        settles
  connect_in-Lands closing c c' b nf s h settles =
      let (runs, seen, kept) = start_connecting_lem c c' h in absurd (true≢false (sym s.1 ∙ runs))
  connect_in-Lands failed c c' b nf s h settles = absurd (nf refl)
  connect_in-Lands open_ c c' b nf s h settles = absurd cc
  connect_in-Lands connecting c c' b nf s h settles = absurd s
  connect_in-Lands reconnecting c c' b nf s h settles = absurd s

  pub starts_connect-Lands :
      (c c' : Connection T) (b : Live T)
      → c.intake.state ≢ failed
      → Settled (view c) c.intake.pipe
      → connect c ≡ (c', starts)
      → settle by_connect c' (begin_attempt c') ≡ some b
      → Lands (view c) b
  starts_connect-Lands c c' b nf s h settles = connect_in-Lands c.intake.state c c' b nf s h settles

  pub starts_reconnect-Lands :
      (c c' : Connection T) (b : Live T)
      → c.intake.state ≡ failed
      → Settled (view c) c.intake.pipe
      → reconnect_attempt c ≡ some c'
      → settle by_reconnect c' (begin_attempt c') ≡ some b
      → Lands (view c) b
  unfolding reconnect_attempt
  starts_reconnect-Lands c c' b f s h settles = elim (Bool-cases c.stop_requested) [
    | inl stops ↦
        absurd (none≢some (sym (if_true _ _ (ap (λ x. x || is_closing c.intake.state) stops)) ∙ h))
    | inr runs ↦
        let calm : (c.stop_requested || is_closing c.intake.state) ≡ false =
          ap (λ x. x || is_closing c.intake.state) runs ∙ ap is_closing f in
        let same = same_some (sym (if_false _ _ calm) ∙ h) in
        let was : view c ≡ (failed, c.generation, false) =
          ap (λ x. (x, c.generation, c.stop_requested)) f
          ∙ ap (λ x. (failed, c.generation, x)) runs in
        begins by_reconnect c' b (view c)
          (ap view (sym same) ∙ ap (λ x. (reconnecting, c.generation, x)) runs)
          (subst (λ x. IsIdle x.intake.pipe) same
            (subst (λ x. Settled (x, c.generation, c.stop_requested) c.intake.pipe) f s))
          (subst (λ v. Move v (reconnecting, c.generation, false)) (sym was) retries) settles
  ]

  resolved_cases :
      (r : IoError ⊎ ℕ) (c : Connection T)
      → ((e : ErrorInfo) × (on_resolved r c ≡ gives_up e)) ⊎ (on_resolved r c ≡ goes_on dialing)
  unfolding on_resolved
  resolved_cases (inl e) c = inl (_, refl)
  resolved_cases (inr n) c = elim (Bool-cases (n == 0)) [
    | inl none' ↦ inl (_, if_true _ _ none')
    | inr some' ↦ elim (Bool-cases c.stop_requested) [
      | inl stops ↦ inl (_, if_false _ _ some' ∙ if_true _ _ stops)
      | inr runs ↦ inr (if_false _ _ some' ∙ if_false _ _ runs)
    ]
  ]

  pub resolves-Lands :
      (c : Connection T) (o : Owner) (r : IoError ⊎ ℕ) (b : Live T)
      → Sound (some (o, resolving)) c
      → settle o c (on_resolved r c) ≡ some b
      → Lands (view c) b
  resolves-Lands c o r b s h = elim (resolved_cases r c) [
    | inl (e, gave) ↦ settle-gives_up o c e b s.0 s.1 (ap (settle o c) (sym gave) ∙ h)
    | inr on ↦
        subst (λ x. Lands (view c) x) (settle-goes_on o c dialing b (ap (settle o c) (sym on) ∙ h))
          (s, stays)
  ]

  gave_up :
      (o : Owner) (c c' : Connection T) (e : ErrorInfo) (p : Progress) (b : Live T)
      → Attempting o (view c)
      → p ≡ gives_up e
      → view c' ≡ view c
      → IsIdle c'.intake.pipe
      → settle o c' p ≡ some b
      → Lands (view c) b
  gave_up o c c' e p b a gave seen idle h =
      subst (λ v. Lands v b) seen
        (settle-gives_up o c' e b (subst (Attempting o) (sym seen) a) idle
          (ap (settle o c') (sym gave) ∙ h))

  pub dials-Lands :
      (c c' : Connection T) (o : Owner) (req : Request) (ds : List Dialed) (p : Progress)
      (b : Live T)
      → Sound (some (o, dialing)) c
      → on_dialed req ds c ≡ some (c', p)
      → settle o c' p ≡ some b
      → Lands (view c) b
  dials-Lands c c' o req ds p b s h settles =
      let (seen, what) = on_dialed_lem req ds c c' p s.1 h in
      elim what [
        | inl (e, gave, idle) ↦ gave_up o c c' e p b s.0 gave seen idle settles
        | inr (place, on, held) ↦
            subst (λ x. Lands (view c) x)
              (settle-goes_on o c' (handshaking place) b (ap (settle o c') (sym on) ∙ settles))
              ((subst (Attempting o) (sym seen) s.0, held), subst (Move (view c)) (sym seen) stays)
      ]

  outcome_runs :
      (r : Option HandshakeError) (c : Connection T)
      → handshake_outcome r c ≡ none
      → c.stop_requested ≡ false
  outcome_runs (some h) c fine = absurd (none≢some (sym fine))
  outcome_runs none c fine = elim (Bool-cases c.stop_requested) [
    | inl stopped ↦ absurd (none≢some (sym fine ∙ if_true _ _ stopped))
    | inr runs ↦ runs
  ]

  -- The connection opens only if no stop was requested.
  pub handshake_ends-Lands :
      (c c' : Connection T) (o : Owner) (place : ℕ) (r : Option HandshakeError) (p : Progress)
      (b : Live T)
      → Sound (some (o, handshaking place)) c
      → on_handshake place (handshake_outcome r c) c ≡ some (c', p)
      → settle o c' p ≡ some b
      → Lands (view c) b
  handshake_ends-Lands c c' o place r p b s h settles =
      elim (on_handshake_lem place (handshake_outcome r c) c c' p s.1 h) [
        | inl (e, gave, seen, idle) ↦ gave_up o c c' e p b s.0 gave seen idle settles
        | inr (fine, st, rs, found, full, good, (up, seen)) ↦
            let runs = outcome_runs r c fine in
            let (same, over) = settle-is_connected o c' b (ap (settle o c') (sym up) ∙ settles) in
            let to : view b.conn ≡ (open_, (c.generation + 1) % 2 ^ 64, false) =
              same ∙ seen ∙ ap (λ x. (open_, (c.generation + 1) % 2 ^ 64, x)) runs in
            let was : view c ≡ (attempt_state o, c.generation, false) =
              ap (λ x. (c.intake.state, c.generation, x)) runs
              ∙ ap (λ x. (x, c.generation, false))
                  (Attempting-state o c.intake.state c.generation
                    (subst (λ x. Attempting o (c.intake.state, c.generation, x)) runs s.0)) in
            (
              subst (λ at. Sound at b.conn) (sym over)
                  (subst (λ v. Settled v b.conn.intake.pipe) (sym to) tt, tt),
              subst (λ v. Move v (view b.conn)) (sym was) (subst (Move _) (sym to) (opens o)),
            )
      ]
