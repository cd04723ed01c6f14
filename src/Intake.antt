-- ===== src/Intake.antt =====
-- impl/connection/core.ipp, `enqueue_impl`, and detail/connection_state.hpp: which requests the connection takes.
pub mod Laws
pub mod Effects
mod Tests
use rediscoro.Prelude.{
  ℕ, ◌+◌, Bool, true, false, ◌&&◌, ◌||◌, Option, none, some, List, [], ◌∷◌, ◌++◌, get_elem?, set,
  if◌then◌else◌, ◌>>=◌,
}
use rediscoro.Errors.{ErrorInfo, error_info, client, ClientErrc}
use rediscoro.Sink.{Pending, Trace, TraceSummary, expected_replies, fail_all}
use rediscoro.Pipeline.{Pipeline, push, time_max}

pub data ConnectionState : Type 0 where
  init connecting open_ failed reconnecting closing closed : ConnectionState

-- What of the connection `enqueue_impl` reads and writes. The hooks are set or null; `on_start` is counted, and
-- `finishes` is what `on_finish` was called with for rejected requests; wake-ups are counted too.
pub record Intake {ℓ} (T : Type ℓ) : Type ℓ where
  pub state : ConnectionState
  pub pipe : Pipeline
  pub sinks : List (Pending T)
  pub request_timeout : Option ℕ
  pub has_on_start : Bool
  pub has_on_finish : Bool
  pub next_request_id : ℕ
  pub starts : ℕ
  pub finishes : List TraceSummary
  pub write_wakeups : ℕ
  pub control_wakeups : ℕ

-- The error of the states that take no request.
unfoldable pub gate : ConnectionState → Option ClientErrc
gate ConnectionState.init = some ClientErrc.not_connected
gate ConnectionState.connecting = some ClientErrc.not_connected
gate ConnectionState.failed = some ClientErrc.connection_lost
gate ConnectionState.reconnecting = some ClientErrc.connection_lost
gate ConnectionState.closing = some ClientErrc.connection_closed
gate ConnectionState.closed = some ClientErrc.connection_closed
gate ConnectionState.open_ = none

abbrev pub deadline_at : Option ℕ → ℕ → ℕ
deadline_at none now = time_max
deadline_at (some d) now = now + d

module _ {ℓ} {T : Type ℓ} where
  abbrev pub tracing : Intake T → Bool
  tracing c = c.has_on_start || c.has_on_finish

  unfoldable pub trace_start : Intake T → Intake T
  trace_start c =
      if tracing c
      then record c {
        next_request_id = c.next_request_id + 1;
        starts = c.starts + (if c.has_on_start then 1 else 0);
      }
      else c

  abbrev pub rejected : Intake T → ℕ → Pending T → Pending T → ClientErrc → Intake T
  rejected c sink s failed_sink e = record c {
    sinks = set c.sinks sink failed_sink;
    finishes =
        if c.has_on_finish
        then c.finishes
          ++ (record {
            ok_count = 0;
            error_count = expected_replies s;
            primary_error = some (error_info (client e));
          }
              ∷ [])
        else c.finishes;
  }

  unfoldable pub reject : Intake T → ℕ → Pending T → ClientErrc → Option (Intake T)
  reject c sink s e = do
    failed_sink ← fail_all s (error_info (client e))
    some (rejected c sink s failed_sink e)

  -- The sink learns of the hooks only once its request is taken.
  unfoldable pub taken_by : Intake T → Pipeline → ℕ → Pending T → Intake T
  taken_by c p sink s = record c {
    pipe = p;
    sinks =
        if tracing c
        then set c.sinks sink (record s {
          trace = record {
            trace_enabled = true;
            has_on_finish = c.has_on_finish;
            trace_finished = false;
            finishes = s.trace.finishes;
          };
        })
        else c.sinks;
    write_wakeups = c.write_wakeups + 1;
    control_wakeups = c.control_wakeups + 1;
  }

  unfoldable pub pushed : Intake T → ℕ → Pending T → Pipeline × Bool → Option (Intake T)
  pushed c sink s (p, true) = some (taken_by c p sink s)
  pushed c sink s (p, false) = reject c sink s ClientErrc.queue_full

  -- `enqueue_impl`, at the time `now`.
  unfoldable pub enqueue_impl : Intake T → List ℕ → ℕ → ℕ → ℕ → Option (Intake T)
  enqueue_impl c wire reply_count sink now = do
    s ← get_elem? c.sinks sink
    let started = trace_start c
    (elim (gate c.state) [
      | some e ↦ reject started sink s e
      | none ↦
          push c.pipe c.sinks wire reply_count sink (deadline_at c.request_timeout now)
          >>= pushed started sink s
    ])
