-- ===== src/Connection/Dialing.antt =====
-- impl/connection/connect.ipp: the request of the handshake is pushed into an empty pipeline.
use rediscoro.Prelude.{
  ℕ, ◌≡◌, refl, sym, ap, ◌∙◌, subst, ◌⊎◌, inl, inr, Bool, true, false, Option, none, some, List, [],
  ◌∷◌, ◌++◌, length, get_elem?, >>=-eq-some, same_some, none≢some, Bool-cases, if_true, if_false,
  if◌then◌else◌, ◌==◌,
}
use rediscoro.Errors.{ErrorInfo, ClientErrc}
use rediscoro.Sink.{Pending, is_complete, expected_replies, new_pending, no_trace}
use rediscoro.Request.{Request}
use rediscoro.Pipeline.{Pipeline, PendingItem, push, enqueue, admits, time_max}
use rediscoro.Connection.State.{Connection}
use rediscoro.Connection.Runtime.{IoError}
use rediscoro.Connection.Attempt.{
  Progress, gives_up, goes_on, handshaking, fails_with, Dialed, dial_loop, connect_error,
  push_handshake, on_dialed,
}
use rediscoro.Connection.Effects.{IsIdle, view}
use rediscoro.Connection.Queue.{Holds, unsent}

module _ {ℓ} {T : Type ℓ} where
  at_end : (xs : List (Pending T)) (x : Pending T) → get_elem? (xs ++ (x ∷ [])) (length xs) ≡ some x
  at_end [] x = refl
  at_end (y ∷ xs) x = at_end xs x

  enqueue-Holds :
      (p p' : Pipeline) (sinks : List (Pending T)) (x : Pending T) (wire : List ℕ) (d : ℕ)
      (taken : Bool)
      → IsIdle p
      → is_complete x ≡ false
      → enqueue p wire (length sinks) d ≡ (p', taken)
      → (if taken then Holds (length sinks) p' (sinks ++ (x ∷ [])) else (IsIdle p' × Unit {ℓ}))
  unfolding enqueue
  enqueue-Holds p p' sinks x wire d taken idle part h = elim (Bool-cases (admits p (length wire))) [
    | inl fits ↦
        let ends = sym (if_true _ _ fits) ∙ h in
        let item : PendingItem = record {
          wire = wire;
          sink = length sinks;
          written = 0;
          deadline = d;
        } in
        subst
          (λ r.
            if r.1 then Holds (length sinks) r.0 (sinks ++ (x ∷ [])) else (IsIdle r.0 × Unit {ℓ}))
          ends
          (unsent item refl (ap (λ ws. ws ++ (item ∷ [])) idle.0) idle.1 (x, at_end sinks x, part))
    | inr full ↦
        let ends = sym (if_false _ _ full) ∙ h in
        subst
          (λ r.
            if r.1 then Holds (length sinks) r.0 (sinks ++ (x ∷ [])) else (IsIdle r.0 × Unit {ℓ}))
          ends (idle, tt)
  ]

  -- The attempt is over with an empty pipeline, or its handshake is all that the pipeline holds.
  abbrev pub Dials : Connection T → Connection T → Progress → Type ℓ
  Dials c c' p =
      (view c' ≡ view c)
      × (((e : ErrorInfo) × (p ≡ gives_up e) × IsIdle c'.intake.pipe)
          ⊎ ((place : ℕ) × (p ≡ goes_on (handshaking place))
              × Holds place c'.intake.pipe c'.intake.sinks))

  push_in :
      (c : Connection T) (req : Request) (r : Pipeline × Bool)
      → push c.intake.pipe
          (c.intake.sinks ++ (new_pending req.command_count no_trace ∷ []))
          req.wire
          req.command_count
          (length c.intake.sinks)
          time_max
        ≡ some r
      → IsIdle c.intake.pipe
      → (if r.1
          then Holds
              (length c.intake.sinks)
              r.0
              (c.intake.sinks ++ (new_pending req.command_count no_trace ∷ []))
          else (IsIdle r.0 × Unit {ℓ}))
  unfolding push new_pending
  push_in c req r h idle =
      let x = new_pending req.command_count no_trace in
      let (s, found, rest) =
        >>=-eq-some (get_elem? (c.intake.sinks ++ (x ∷ [])) (length c.intake.sinks)) _ h in
      elim (Bool-cases (req.command_count == expected_replies s)) [
        | inl same ↦
            enqueue-Holds c.intake.pipe r.0 c.intake.sinks x req.wire time_max r.1 idle refl
              (same_some (sym (if_true _ _ same) ∙ rest))
        | inr other ↦ absurd (none≢some (sym (if_false _ _ other) ∙ rest))
      ]

  push_handshake_lem :
      (req : Request) (c c' : Connection T) (p : Progress)
      → IsIdle c.intake.pipe
      → push_handshake req c ≡ some (c', p)
      → Dials c c' p
  unfolding push_handshake
  push_handshake_lem req c c' p idle h =
      let ((q, taken), pushes, gives') = >>=-eq-some (push _ _ _ _ _ _) _ h in
      subst (λ x. Dials c x.0 x.1) (same_some gives')
        (refl, kind taken q (push_in c req (q, taken) pushes idle))
    where
      kind :
          (taken : Bool) (q : Pipeline)
          → (if taken
              then Holds
                  (length c.intake.sinks)
                  q
                  (c.intake.sinks ++ (new_pending req.command_count no_trace ∷ []))
              else (IsIdle q × Unit {ℓ}))
          → let p : Progress =
              if taken
              then goes_on (handshaking (length c.intake.sinks))
              else fails_with ClientErrc.queue_full in
            ((e : ErrorInfo) × (p ≡ gives_up e) × IsIdle q)
            ⊎ ((place : ℕ) × (p ≡ goes_on (handshaking place))
                × Holds place q (c.intake.sinks ++ (new_pending req.command_count no_trace ∷ [])))
      kind true q held = inr (length c.intake.sinks, refl, held)
      kind false q held = inl (_, refl, held.0)

  pub on_dialed_lem :
      (req : Request) (ds : List Dialed) (c c' : Connection T) (p : Progress)
      → IsIdle c.intake.pipe
      → on_dialed req ds c ≡ some (c', p)
      → Dials c c' p
  unfolding on_dialed
  on_dialed_lem req ds c c' p idle h = tried (dial_loop c.socket_open none ds).1 h
    where
      after : Connection T
      after = record c { socket_open = (dial_loop c.socket_open none ds).0 }

      tried :
          (o : Option IoError)
          → (elim o as (λ _. Option (Connection T × Progress)) [
            | some e ↦ some (after, gives_up (connect_error e))
            | none ↦
                if c.stop_requested
                then some (after, fails_with ClientErrc.operation_aborted)
                else push_handshake req after
          ])
            ≡ some (c', p)
          → Dials c c' p
      tried (some e) h = subst (λ x. Dials c x.0 x.1) (same_some h) (refl, inl (_, refl, idle))
      tried none h = elim (Bool-cases c.stop_requested) [
        | inl stops ↦
            subst (λ x. Dials c x.0 x.1) (same_some (sym (if_true _ _ stops) ∙ h))
              (refl, inl (_, refl, idle))
        | inr runs ↦ push_handshake_lem req after c' p idle (sym (if_false _ _ runs) ∙ h)
      ]
