-- ===== src/Connection/Runtime.antt =====
-- impl/connection/io.ipp and actor_loops.ipp: what a connection does between two waits of its loops, while it runs.
use rediscoro.Prelude.{
  ℕ, ◌+◌, Bool, true, false, not, ◌&&◌, Option, none, some, List, if◌then◌else◌, ◌>>=◌, ◌==◌, ◌⊎◌,
  inl, inr,
}
use rediscoro.Errors.{ErrorInfo, error_info, client, protocol, ClientErrc, ProtocolErrc}
use rediscoro.Resp3.Message.{Message}
use rediscoro.Pipeline.{
  has_pending_read, on_write_done, on_message, on_error, has_expired, next_deadline, time_max,
}
use rediscoro.Intake.{ConnectionState, open_, failed, closing, closed}
use rediscoro.Connection.State.{Connection, handle_error}

-- An error of the socket; other ones have a text.
pub data IoError : Type 0 where
  timed_out aborted : IoError
  other_io : List ℕ → IoError

abbrev pub is_aborted : IoError → Bool
is_aborted aborted = true
is_aborted _ = false

abbrev pub shutting_down : ConnectionState → Bool
shutting_down closing = true
shutting_down closed = true
shutting_down _ = false

-- What the control loop does next.
pub data Control : Type 0 where
  leaves again reconnects waits : Control
  waits_until : ℕ → Control

module _ {ℓ} {T : Type ℓ} where
  -- A read or a write that failed: the error is ignored if it comes of closing the socket.
  unfoldable pub io_failed : IoError → ClientErrc → Connection T → Option (Connection T)
  io_failed io e c =
      if is_aborted io && shutting_down c.intake.state
      then some c
      else handle_error (error_info (client e)) c

  -- `do_write` behind `async_write_some`.
  unfoldable pub write_done : IoError ⊎ ℕ → Connection T → Option (Connection T)
  unfolding io_failed
  write_done (inl io) c = io_failed io ClientErrc.write_error c
  write_done (inr n) c = do
    p ← on_write_done c.intake.pipe n
    let written = record c { intake = record c.intake { pipe = p } }
    some (
        if has_pending_read p
        then record written { read_wakeups = c.read_wakeups + 1 }
        else written)

  -- `do_read` behind `async_read_some`, where there is nothing to parse.
  unfoldable pub read_failed : Option IoError → Connection T → Option (Connection T)
  unfolding io_failed
  read_failed (some io) c = io_failed io ClientErrc.connection_lost c
  read_failed none c = handle_error (error_info (client ClientErrc.connection_reset)) c

  -- The parser refused the input.
  unfoldable pub parse_failed : ProtocolErrc → Connection T → Option (Connection T)
  parse_failed e c =
      if has_pending_read c.intake.pipe
      then (do
        (p, ss) ← on_error c.intake.pipe c.intake.sinks (error_info (protocol e))
        handle_error (error_info (protocol e))
            (record c { intake = record c.intake { pipe = p; sinks = ss } }))
      else handle_error (error_info (protocol e)) c

  -- The parser gave a message.
  unfoldable pub message_read :
      (Message → T ⊎ ErrorInfo) → Message → Connection T → Option (Connection T)
  message_read adapt m c =
      if not (has_pending_read c.intake.pipe)
      then handle_error (error_info (client ClientErrc.unsolicited_message)) c
      else (do
        (p, ss) ← on_message adapt c.intake.pipe c.intake.sinks m
        some (record c { intake = record c.intake { pipe = p; sinks = ss } }))

  abbrev pub stop_without_reconnection : Connection T → Connection T
  stop_without_reconnection c = record c {
    intake = record c.intake { state = closing; write_wakeups = c.intake.write_wakeups + 1 };
    stop_requested = true;
    read_wakeups = c.read_wakeups + 1;
  }

  abbrev pub wait_open : ℕ → Connection T → Option (Connection T × Control)
  wait_open now c =
      if has_expired c.intake.pipe now
      then (do
        c' ← handle_error (error_info (client ClientErrc.request_timeout)) c
        some (c', again))
      else let next = next_deadline c.intake.pipe in
        some (c, if next == time_max then waits else waits_until next)

  -- One turn of the loop in `control_loop`, at the time `now`, by the state.
  unfoldable pub control_in : ConnectionState → ℕ → Connection T → Option (Connection T × Control)
  control_in closed now c = some (c, leaves)
  control_in closing now c = some (c, leaves)
  control_in failed now c =
      if not c.reconnection_enabled
      then some (stop_without_reconnection c, again)
      else some (c, reconnects)
  control_in open_ now c = elim c.intake.request_timeout [
    | none ↦ some (c, waits)
    | some d ↦ wait_open now c
  ]
  control_in _ now c = some (c, waits)

  unfoldable pub control_turn : ℕ → Connection T → Option (Connection T × Control)
  unfolding control_in
  control_turn now c =
      if c.stop_requested then some (c, leaves) else control_in c.intake.state now c
