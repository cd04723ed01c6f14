-- ===== src/Connection/Losing.antt =====
-- impl/connection/core.ipp and io.ipp: the three operations that let go of all requests, where the pipeline is in a
-- state that it can come to; and a write that ends behind one of them.
use rediscoro.Prelude.{
  ℕ, ◌≡◌, ◌≢◌, refl, ◌∙◌, ◌⊎◌, inl, inr, true, false, none, some, [], >>=-some, if_true,
}
use rediscoro.Errors.{ErrorInfo, error_info, client, ClientErrc}
use rediscoro.Resp3.Message.{Message}
use rediscoro.Pipeline.{Pipeline, clear_all, on_write_done}
use rediscoro.Pipeline.Delivery.{AllFailed, held}
use rediscoro.Pipeline.Loss.{Reachable-clear_all}
use rediscoro.Pipeline.Reachable.{Reachable}
use rediscoro.Intake.{ConnectionState, open_, failed, closing, closed}
use rediscoro.Connection.State.{
  Connection, clear_pipeline, handle_error, error_in, close, close_in, lose, shut_down,
  transition_to_closed, set_state, emit_connection_event, disconnected, runtime_io, notify_all,
  close_socket, closed_event, close_stage,
}
use rediscoro.Connection.Runtime.{write_done}
use rediscoro.Connection.Effects.{IsIdle, handle_error_lem}

module _ {ℓ} {T : Type ℓ} where
  -- The state is `s`, the socket is closed, no request waits, and every sink that waited has the error.
  pub record LetGo (c c' : Connection T) (s : ConnectionState) (e : ErrorInfo) : Type ℓ where
    pub state_is : c'.intake.state ≡ s
    pub socket_closed : c'.socket_open ≡ false
    pub idle : IsIdle c'.intake.pipe
    pub all_failed : AllFailed c.intake.sinks c'.intake.sinks e (held c.intake.pipe)

  close_state : (s : ConnectionState) (c : Connection T) → s ≢ closed → close_in s c ≡ shut_down c
  unfolding close_in
  close_state closed c open' = absurd (open' refl)
  close_state _ c open' = refl

  error_state :
      (s : ConnectionState) (e : ErrorInfo) (c : Connection T)
      → s ≡ open_
      → error_in s e c ≡ lose e c
  unfolding error_in
  error_state open_ e c o = refl
  error_state _ e c o = absurd cc

module _ {ℓ} {T : Type ℓ} (adapt : Message → T ⊎ ErrorInfo) where
  clear_total :
      (e : ErrorInfo) (c : Connection T)
      → Reachable adapt (c.intake.pipe, c.intake.sinks)
      → (d : Connection T) × (clear_pipeline e c ≡ some d)
        × (d.intake.state ≡ c.intake.state)
        × IsIdle d.intake.pipe
        × AllFailed c.intake.sinks d.intake.sinks e (held c.intake.pipe)
  unfolding clear_pipeline
  clear_total e c r =
      let (after, clears, all) = Reachable-clear_all adapt c.intake.pipe c.intake.sinks e r in
      let empty : Pipeline = record c.intake.pipe {
        pending_write = [];
        awaiting_read = [];
        pending_write_bytes = 0;
      } in
      let d : Connection T = record c {
        intake = record c.intake { pipe = empty; sinks = after };
      } in
      (
        d,
        >>=-some (clear_all c.intake.pipe c.intake.sinks e) _ clears refl,
        refl,
        (refl, refl),
        all,
      )

  -- Where the pipeline and its sinks are in a state that they can come to from an empty pipeline, by
  -- requests of one or more commands with sinks of their own, taken or refused, writes of what was
  -- offered, replies, errors and losses of the connection: handle_error of an OPEN connection, close of
  -- one that is not CLOSED and has an actor, and transition_to_closed fail no assertion; they set FAILED,
  -- CLOSING and CLOSED, close the socket, leave both queues empty, and complete every sink that waited,
  -- each open slot with the error of the loss or with connection_closed.
  pub let_go :
      (c : Connection T) (e : ErrorInfo)
      → Reachable adapt (c.intake.pipe, c.intake.sinks)
      → (c.intake.state ≡ open_
          → (c' : Connection T) × (handle_error e c ≡ some c') × LetGo c c' failed e)
        × (c.intake.state ≢ closed
            → c.actor_running ≡ true
            → (c' : Connection T) × (close c ≡ some c')
              × LetGo c c' closing (error_info (client ClientErrc.connection_closed)))
        × ((c' : Connection T) × (transition_to_closed c ≡ some c')
            × LetGo c c' closed (error_info (client ClientErrc.connection_closed)))
  unfolding transition_to_closed
  let_go c e r =
      let done = error_info (client ClientErrc.connection_closed) in
      let lost =
        emit_connection_event disconnected runtime_io open_ failed (some e) (set_state failed c) in
      let stopping = set_state closing (record c { stop_requested = true }) in
      (
        λ o.
            let (d, clears, st, idle, all) = clear_total e lost r in
            (
              notify_all (close_socket d),
              error_state c.intake.state e c o ∙ >>=-some (clear_pipeline e lost) _ clears refl,
              record { state_is = st; socket_closed = refl; idle = idle; all_failed = all },
            ),
        λ up runs.
            let (d, clears, st, idle, all) = clear_total done stopping r in
            (
              notify_all (close_socket d),
              close_state c.intake.state c up
                  ∙ >>=-some (clear_pipeline done stopping) _ clears (if_true _ _ runs),
              record { state_is = st; socket_closed = refl; idle = idle; all_failed = all },
            ),
        (let (d, clears, st, idle, all) = clear_total done (set_state closed c) r in
            (
              emit_connection_event closed_event close_stage c.intake.state closed none
                  (close_socket d),
              >>=-some (clear_pipeline done (set_state closed c)) _ clears refl,
              record { state_is = st; socket_closed = refl; idle = idle; all_failed = all },
            )),
      )

nothing_written : (p : Pipeline) (n : ℕ) → p.pending_write ≡ [] → on_write_done p n ≡ none
unfolding on_write_done
nothing_written p n h = rw (h, on_write_done) refl

module _ {ℓ} {T : Type ℓ} where
  -- When a write that is in flight on an OPEN connection ends well after handle_error has run,
  -- on_write_done fails its assertion that a request is there.
  pub write_done-handle_error :
      (c c' : Connection T) (e : ErrorInfo) (n : ℕ)
      → c.intake.state ≡ open_
      → handle_error e c ≡ some c'
      → write_done (inr n) c' ≡ none
  unfolding write_done
  write_done-handle_error c c' e n o h = elim (handle_error_lem e c c' h) [
    | inl (up, seen, idle) ↦ rw (nothing_written c'.intake.pipe n idle.0) refl
    | inr (not_open, same) ↦ absurd (not_open o)
  ]
