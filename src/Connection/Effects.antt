-- ===== src/Connection/Effects.antt =====
-- impl/connection/: what each operation makes of the state, the generation and the stop request.
use rediscoro.Prelude.{
  ℕ, ◌≡◌, ◌≢◌, refl, sym, ◌∙◌, subst, ◌⊎◌, inl, inr, Bool, true, some, [], if_true, if_false,
  >>=-eq-some, same_some, none≢some, Bool-cases,
}
use rediscoro.Errors.{ErrorInfo, error_info, client, ClientErrc}
use rediscoro.Pipeline.{Pipeline, clear_all}
use rediscoro.Pipeline.Line.{cleared}
use rediscoro.Intake.{
  ConnectionState, init, connecting, open_, failed, reconnecting, closing, closed,
}
use rediscoro.Connection.State.{
  Connection, clear_pipeline, error_in, close_in, shut_down, handle_error, lose,
  transition_to_closed, close, set_state,
}

-- No request waits in the pipeline.
abbrev pub IsIdle : Pipeline → Type 0
IsIdle p = (p.pending_write ≡ []) × (p.awaiting_read ≡ [])

module _ {ℓ} {T : Type ℓ} where
  abbrev pub view : Connection T → ConnectionState × ℕ × Bool
  view c = (c.intake.state, c.generation, c.stop_requested)

  pub clear_pipeline_lem :
      (e : ErrorInfo) (c c' : Connection T)
      → clear_pipeline e c ≡ some c'
      → (view c' ≡ view c) × IsIdle c'.intake.pipe × (c'.actor_running ≡ c.actor_running)
  unfolding clear_pipeline
  clear_pipeline_lem e c c' h =
      let (r, clears, gives) = >>=-eq-some (clear_all c.intake.pipe c.intake.sinks e) _ h in
      let idle : IsIdle r.0 =
        subst (λ x. IsIdle x.0) (cleared c.intake.pipe c.intake.sinks e r clears) (refl, refl) in
      subst (λ d. (view d ≡ view c) × IsIdle d.intake.pipe × (d.actor_running ≡ c.actor_running))
        (same_some gives) (refl, idle, refl)

  lose_lem :
      (e : ErrorInfo) (c c' : Connection T)
      → lose e c ≡ some c'
      → (view c' ≡ (failed, c.generation, c.stop_requested)) × IsIdle c'.intake.pipe
  lose_lem e c c' h =
      let (d, clears, gives) = >>=-eq-some (clear_pipeline e _) _ h in
      let (seen, idle, running) = clear_pipeline_lem e _ d clears in
      subst (λ x. (view x ≡ (failed, c.generation, c.stop_requested)) × IsIdle x.intake.pipe)
        (same_some gives) (seen, idle)

  error_in_lem :
      (s : ConnectionState) (e : ErrorInfo) (c c' : Connection T)
      → error_in s e c ≡ some c'
      → ((s ≡ open_) × (view c' ≡ (failed, c.generation, c.stop_requested)) × IsIdle c'.intake.pipe)
        ⊎ ((s ≢ open_) × (c ≡ c'))
  unfolding error_in
  error_in_lem closed e c c' h = inr ((λ bad. absurd cc), same_some h)
  error_in_lem closing e c c' h = inr ((λ bad. absurd cc), same_some h)
  error_in_lem failed e c c' h = inr ((λ bad. absurd cc), same_some h)
  error_in_lem reconnecting e c c' h = inr ((λ bad. absurd cc), same_some h)
  error_in_lem open_ e c c' h = let (seen, idle) = lose_lem e c c' h in inl (refl, seen, idle)
  error_in_lem init e c c' h = absurd (none≢some h)
  error_in_lem connecting e c c' h = absurd (none≢some h)

  pub handle_error_lem :
      (e : ErrorInfo) (c c' : Connection T)
      → handle_error e c ≡ some c'
      → ((c.intake.state ≡ open_)
          × (view c' ≡ (failed, c.generation, c.stop_requested))
          × IsIdle c'.intake.pipe)
        ⊎ ((c.intake.state ≢ open_) × (c ≡ c'))
  handle_error_lem e c c' h = error_in_lem c.intake.state e c c' h

  pub transition_to_closed_lem :
      (c c' : Connection T)
      → transition_to_closed c ≡ some c'
      → (view c' ≡ (closed, c.generation, c.stop_requested)) × IsIdle c'.intake.pipe
  unfolding transition_to_closed
  transition_to_closed_lem c c' h =
      let e = error_info (client ClientErrc.connection_closed) in
      let (d, clears, gives) = >>=-eq-some (clear_pipeline e (set_state closed c)) _ h in
      let (seen, idle, running) = clear_pipeline_lem e _ d clears in
      subst (λ x. (view x ≡ (closed, c.generation, c.stop_requested)) × IsIdle x.intake.pipe)
        (same_some gives) (seen, idle)

  shut_down_lem :
      (c c' : Connection T)
      → shut_down c ≡ some c'
      → (view c' ≡ (closing, c.generation, true)) × IsIdle c'.intake.pipe
  shut_down_lem c c' h =
      let e = error_info (client ClientErrc.connection_closed) in
      let (d, clears, rest) =
        >>=-eq-some (clear_pipeline e (set_state closing (record c { stop_requested = true }))) _
          h in
      let (seen, idle, running) = clear_pipeline_lem e _ d clears in
      elim (Bool-cases c.actor_running) [
        | inl runs ↦
            subst (λ x. (view x ≡ (closing, c.generation, true)) × IsIdle x.intake.pipe)
              (same_some (sym (if_true _ _ runs) ∙ rest)) (seen, idle)
        | inr idles ↦ absurd (none≢some (sym (if_false _ _ idles) ∙ rest))
      ]

  close_in_lem :
      (s : ConnectionState) (c c' : Connection T)
      → close_in s c ≡ some c'
      → ((s ≢ closed) × (view c' ≡ (closing, c.generation, true)) × IsIdle c'.intake.pipe)
        ⊎ ((s ≡ closed) × (c ≡ c'))
  unfolding close_in
  close_in_lem closed c c' h = inr (refl, same_some h)
  close_in_lem _ c c' h =
      let (seen, idle) = shut_down_lem c c' h in inl ((λ bad. absurd cc), seen, idle)

  pub close_lem :
      (c c' : Connection T)
      → close c ≡ some c'
      → ((c.intake.state ≢ closed)
          × (view c' ≡ (closing, c.generation, true))
          × IsIdle c'.intake.pipe)
        ⊎ ((c.intake.state ≡ closed) × (c ≡ c'))
  close_lem c c' h = close_in_lem c.intake.state c c' h
