-- ===== src/Connection/State.antt =====
-- detail/connection.hpp and impl/connection/core.ipp, io.ipp: the state of a connection, what it reports, and the
-- three ways in which it lets go of its requests.
use rediscoro.Prelude.{
  ℕ, ◌+◌, Bool, true, false, Option, none, some, List, [], ◌∷◌, ◌++◌, if◌then◌else◌, ◌>>=◌,
}
use rediscoro.Errors.{ErrorInfo, error_info, client, ClientErrc}
use rediscoro.Pipeline.{Pipeline, clear_all}
use rediscoro.Intake.{
  ConnectionState, init, connecting, open_, failed, reconnecting, closing, closed, Intake,
}

pub data EventKind : Type 0 where
  connected disconnected closed_event : EventKind

pub data EventStage : Type 0 where
  unknown_stage connect_stage handshake_stage runtime_io reconnect_stage close_stage actor_stage :
      EventStage

-- The time of an event is left out.
pub record Event : Type 0 where
  pub kind : EventKind
  pub stage : EventStage
  pub from_state : ConnectionState
  pub to_state : ConnectionState
  pub error : Option ErrorInfo
  pub generation : ℕ
  pub reconnect_count : ℕ

-- `intake` holds the state, the pipeline with its sinks, the request timeout and the wake-ups of the write and control
-- loops. `events` is what the hook was called with; `actor_done` counts its notifications.
pub record Connection {ℓ} (T : Type ℓ) : Type ℓ where
  pub intake : Intake T
  pub generation : ℕ
  pub reconnect_count : ℕ
  pub stop_requested : Bool
  pub socket_open : Bool
  pub read_wakeups : ℕ
  pub actor_running : Bool
  pub actor_done : ℕ
  pub reconnection_enabled : Bool
  pub has_on_event : Bool
  pub events : List Event

module _ {ℓ} {T : Type ℓ} where
  abbrev pub state : Connection T → ConnectionState
  state c = c.intake.state

  abbrev pub pipe : Connection T → Pipeline
  pipe c = c.intake.pipe

  abbrev pub set_state : ConnectionState → Connection T → Connection T
  set_state s c = record c { intake = record c.intake { state = s } }

  abbrev pub emit_connection_event :
      EventKind
      → EventStage
      → ConnectionState
      → ConnectionState
      → Option ErrorInfo
      → Connection T
      → Connection T
  emit_connection_event k st from to e c = record c {
    events =
        if c.has_on_event
        then c.events
          ++ (record {
            kind = k;
            stage = st;
            from_state = from;
            to_state = to;
            error = e;
            generation = c.generation;
            reconnect_count = c.reconnect_count;
          }
              ∷ [])
        else c.events;
  }

  abbrev pub close_socket : Connection T → Connection T
  close_socket c = record c { socket_open = false }

  -- Each of the three wake-ups once.
  abbrev pub notify_all : Connection T → Connection T
  notify_all c = record c {
    intake = record c.intake {
      write_wakeups = c.intake.write_wakeups + 1;
      control_wakeups = c.intake.control_wakeups + 1;
    };
    read_wakeups = c.read_wakeups + 1;
  }

  -- `pipeline_.clear_all(e)`.
  unfoldable pub clear_pipeline : ErrorInfo → Connection T → Option (Connection T)
  clear_pipeline e c = do
    (p, ss) ← clear_all c.intake.pipe c.intake.sinks e
    some (record c { intake = record c.intake { pipe = p; sinks = ss } })

  -- The part of `handle_error` for the state OPEN.
  abbrev pub lose : ErrorInfo → Connection T → Option (Connection T)
  lose e c = do
    cleared ←
        clear_pipeline e
          (emit_connection_event disconnected runtime_io open_ failed (some e) (set_state failed c))
    some (notify_all (close_socket cleared))

  -- `handle_error` by the state. It is not to be used before the connection was OPEN, which is an assertion.
  unfoldable pub error_in : ConnectionState → ErrorInfo → Connection T → Option (Connection T)
  unfolding clear_pipeline
  error_in closed e c = some c
  error_in closing e c = some c
  error_in failed e c = some c
  error_in reconnecting e c = some c
  error_in open_ e c = lose e c
  error_in init e c = none
  error_in connecting e c = none

  abbrev pub handle_error : ErrorInfo → Connection T → Option (Connection T)
  handle_error e c = error_in c.intake.state e c

  unfoldable pub transition_to_closed : Connection T → Option (Connection T)
  unfolding clear_pipeline
  transition_to_closed c = do
    cleared ← clear_pipeline (error_info (client ClientErrc.connection_closed)) (set_state closed c)
    some (
        emit_connection_event closed_event close_stage c.intake.state closed none
          (close_socket cleared))

  -- `close` up to where it waits for the actor. Without an actor it asserts that the state is CLOSED, which
  -- it has just set to CLOSING.
  abbrev pub shut_down : Connection T → Option (Connection T)
  shut_down c = do
    cleared ←
        clear_pipeline (error_info (client ClientErrc.connection_closed))
          (set_state closing (record c { stop_requested = true }))
    (if c.actor_running then some (notify_all (close_socket cleared)) else none)

  unfoldable pub close_in : ConnectionState → Connection T → Option (Connection T)
  unfolding clear_pipeline
  close_in closed c = some c
  close_in _ c = shut_down c

  abbrev pub close : Connection T → Option (Connection T)
  close c = close_in c.intake.state c
