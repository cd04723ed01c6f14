-- ===== src/Connection/Owners.antt =====
-- impl/connection/core.ipp and reconnect.ipp: who starts an attempt to connect and what is made of its end, and the
-- end of the actor.
use rediscoro.Prelude.{◌+◌, Bool, true, false, ◌||◌, Option, none, some, if◌then◌else◌, ◌>>=◌}
use rediscoro.Errors.{ErrorInfo, ClientErrc}
use rediscoro.Intake.{
  ConnectionState, init, connecting, open_, failed, reconnecting, closing, closed,
}
use rediscoro.Connection.State.{
  Connection, disconnected, connect_stage, actor_stage, set_state, emit_connection_event,
  clear_pipeline, close, close_socket, notify_all, transition_to_closed,
}

-- What `connect` does at first.
pub data Started : Type 0 where
  already_open starts : Started
  refused : ClientErrc → Started

abbrev pub is_closed : ConnectionState → Bool
is_closed closed = true
is_closed _ = false

abbrev pub is_open : ConnectionState → Bool
is_open open_ = true
is_open _ = false

abbrev pub is_closing : ConnectionState → Bool
is_closing closing = true
is_closing _ = false

module _ {ℓ} {T : Type ℓ} where
  -- `connect` up to the call of `do_connect`. The actor is started if it does not run.
  abbrev pub start_connecting : Connection T → Connection T × Started
  start_connecting c =
      if c.stop_requested
      then (c, refused ClientErrc.operation_aborted)
      else (set_state connecting (record c { actor_running = true }), starts)

  unfoldable pub connect_in : ConnectionState → Connection T → Connection T × Started
  connect_in open_ c = (c, already_open)
  connect_in connecting c = (c, refused ClientErrc.already_in_progress)
  connect_in closed c =
      start_connecting (record (set_state init c) { reconnect_count = 0; stop_requested = false })
  connect_in _ c = start_connecting c

  abbrev pub connect : Connection T → Connection T × Started
  connect c = connect_in c.intake.state c

  -- After `do_connect` failed: the close that follows waits for the actor.
  unfoldable pub connect_failed : ErrorInfo → Connection T → Option (Connection T)
  connect_failed e c =
      close (emit_connection_event disconnected connect_stage connecting closing (some e) c)

  -- After it went well, which means OPEN.
  unfoldable pub connect_succeeded : Connection T → Option (Connection T)
  connect_succeeded c = if is_open c.intake.state then some (notify_all c) else none

  -- `do_reconnect` behind the delay: none if it is cancelled.
  unfoldable pub reconnect_attempt : Connection T → Option (Connection T)
  reconnect_attempt c =
      if c.stop_requested || is_closing c.intake.state
      then none
      else some (set_state reconnecting c)

  unfoldable pub reconnect_failed : Connection T → Connection T
  reconnect_failed c = record (set_state failed c) { reconnect_count = c.reconnect_count + 1 }

  unfoldable pub reconnect_succeeded : Connection T → Option (Connection T)
  reconnect_succeeded c =
      if is_open c.intake.state then some (notify_all (record c { reconnect_count = 0 })) else none

  -- What `run_actor` does once the actor has come to its end, with the error if it threw.
  abbrev pub tell_actor_error : ErrorInfo → Connection T → Connection T
  tell_actor_error e c = elim c.intake.state [
    | closing ↦ c
    | closed ↦ c
    | _ ↦ emit_connection_event disconnected actor_stage c.intake.state closing (some e) c
  ]

  abbrev pub actor_threw : ErrorInfo → Connection T → Option (Connection T)
  actor_threw e c = do
    cleared ← clear_pipeline e (tell_actor_error e c)
    let shut = close_socket cleared
    some (notify_all (if is_closed shut.intake.state then shut else set_state closing shut))

  abbrev pub close_if_open : Connection T → Option (Connection T)
  close_if_open c = if is_closed c.intake.state then some c else transition_to_closed c

  unfoldable pub actor_completed : Option ErrorInfo → Connection T → Option (Connection T)
  actor_completed threw c = do
    let stopped = record c { actor_running = false }
    after ← (elim threw [ none ↦ some stopped | some e ↦ actor_threw e stopped ])
    shut ← close_if_open after
    some (record shut { actor_done = shut.actor_done + 1 })
