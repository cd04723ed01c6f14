-- ===== src/Connection/Verdict.antt =====
-- impl/connection/connect.ipp: the end of a handshake, and the dialing that comes before it.
use rediscoro.Prelude.{
  ℕ, ◌+◌, ◌%◌, ◌^◌, ◌≡◌, refl, sym, ap, ◌∙◌, subst, ◌⊎◌, inl, inr, Bool, true, false, Option, none,
  some, List, get_elem?, >>=-eq-some, same_some, Bool-cases, if_true, if_false, if◌then◌else◌,
}
use rediscoro.Errors.{ErrorInfo}
use rediscoro.Sink.{Pending, Slot, is_complete}
use rediscoro.Intake.{open_}
use rediscoro.Connection.State.{Connection, clear_pipeline}
use rediscoro.Connection.Attempt.{
  Progress, gives_up, is_connected, HandshakeError, handshake_error, reply_error, first_error,
  give_up_cleared, opened, judge, incomplete, on_handshake,
}
use rediscoro.Connection.Effects.{IsIdle, view, clear_pipeline_lem}
use rediscoro.Connection.Queue.{Holds, Holds-complete}

module _ {ℓ} {T : Type ℓ} where
  -- The attempt failed, and the state is as it was.
  abbrev pub GaveUp : Connection T → Connection T → Progress → Type 0
  GaveUp c c' p = (e : ErrorInfo) × (p ≡ gives_up e) × (view c' ≡ view c) × IsIdle c'.intake.pipe

  give_up_cleared_lem :
      (e : ErrorInfo) (c c' : Connection T) (p : Progress)
      → give_up_cleared e c ≡ some (c', p)
      → GaveUp c c' p
  give_up_cleared_lem e c c' p h =
      let (d, clears, gives) = >>=-eq-some (clear_pipeline e c) _ h in
      let (seen, idle, running) = clear_pipeline_lem e c d clears in
      let ends = same_some gives in
      (
        e,
        ap (λ x. x.1) (sym ends),
        ap (λ x. view x.0) (sym ends) ∙ seen,
        subst (λ x. IsIdle x.0.intake.pipe) ends idle,
      )

  -- The connection is open, in the next generation.
  abbrev pub Opened : Connection T → Connection T → Progress → Type 0
  Opened c c' p =
      (p ≡ is_connected) × (view c' ≡ (open_, (c.generation + 1) % 2 ^ 64, c.stop_requested))

  judge_in :
      (o : Option ErrorInfo) (c c' : Connection T) (p : Progress)
      → IsIdle c.intake.pipe
      → (elim o as (λ _. Option (Connection T × Progress)) [
        | none ↦ some (opened c, is_connected)
        | some e ↦
            let (out, clears) = reply_error e in
            if clears then give_up_cleared out c else some (c, gives_up out)
      ])
        ≡ some (c', p)
      → GaveUp c c' p ⊎ ((o ≡ none) × Opened c c' p)
  judge_in none c c' p idle h =
      let ends = same_some h in
      inr (refl, (ap (λ x. x.1) (sym ends), ap (λ x. view x.0) (sym ends)))
  judge_in (some e) c c' p idle h = elim (Bool-cases (reply_error e).1) [
    | inl clears ↦ inl (give_up_cleared_lem (reply_error e).0 c c' p (sym (if_true _ _ clears) ∙ h))
    | inr keeps ↦
        let ends = same_some (sym (if_false _ _ keeps) ∙ h) in
        inl (
          (reply_error e).0,
          ap (λ x. x.1) (sym ends),
          ap (λ x. view x.0) (sym ends),
          subst (λ x. IsIdle x.0.intake.pipe) ends idle,
        )
  ]

  -- The sink's result by itself.
  result_in :
      (o : Option (List (Slot T))) (c c' : Connection T) (p : Progress)
      → ((rs : List (Slot T)) → o ≡ some rs → IsIdle c.intake.pipe)
      → (elim o as (λ _. Option (Connection T × Progress)) [
        | none ↦ give_up_cleared incomplete c
        | some results ↦ judge results c
      ])
        ≡ some (c', p)
      → GaveUp c c' p
        ⊎ ((rs : List (Slot T)) × (o ≡ some rs) × (first_error rs ≡ none) × Opened c c' p)
  unfolding judge
  result_in none c c' p idle h = inl (give_up_cleared_lem incomplete c c' p h)
  result_in (some rs) c c' p idle h = elim (judge_in (first_error rs) c c' p (idle rs refl) h) [
    | inl up ↦ inl up
    | inr (fine, o) ↦ inr (rs, refl, fine, o)
  ]

  pub on_handshake_lem :
      (place : ℕ) (r : Option HandshakeError) (c c' : Connection T) (p : Progress)
      → Holds place c.intake.pipe c.intake.sinks
      → on_handshake place r c ≡ some (c', p)
      → GaveUp c c' p
        ⊎ ((r ≡ none)
            × (s : Pending T) × (rs : List (Slot T)) × (get_elem? c.intake.sinks place ≡ some s)
            × (s.result ≡ some rs)
            × (first_error rs ≡ none)
            × Opened c c' p)
  unfolding on_handshake
  on_handshake_lem place (some e) c c' p q h =
      inl (give_up_cleared_lem (handshake_error e) c c' p h)
  on_handshake_lem place none c c' p q h =
      let (s, found, rest) = >>=-eq-some (get_elem? c.intake.sinks place) _ h in
      elim (result_in s.result c c' p
        (λ rs full.
          Holds-complete place c.intake.pipe c.intake.sinks s q found (full_complete s rs full))
        rest) [
          | inl up ↦ inl up
          | inr (rs, full, fine, o) ↦ inr (refl, s, rs, found, full, fine, o)
        ]
    where
      full_complete :
          (s : Pending T) (rs : List (Slot T)) → s.result ≡ some rs → is_complete s ≡ true
      full_complete s rs full = ap has full
        where
          has : Option (List (Slot T)) → Bool
          has none = false
          has (some x) = true
