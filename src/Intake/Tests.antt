-- ===== src/Intake/Tests.antt =====
-- impl/connection/core.ipp, `enqueue_impl`: a request for two replies on an open connection.
use rediscoro.Prelude.{ℕ, ◌≡◌, refl, true, some, [], ◌∷◌, arith}
use rediscoro.Sink.{Pending, new_pending, no_trace}
use rediscoro.Sink.Laws.{IsOpen}
use rediscoro.Pipeline.{new_pipeline}
use rediscoro.Pipeline.Invariant.{new_pipeline-IsWf}
use rediscoro.Intake.{Intake, ConnectionState, enqueue_impl}
use rediscoro.Intake.Laws.{Decided, enqueue_impl_lem}

abbrev two : Pending ℕ
two = new_pending 2 no_trace

two-IsOpen : IsOpen two
unfolding new_pending
two-IsOpen = record { pending = refl; room = omega arith; silent = refl }

abbrev at_state : ConnectionState → Intake ℕ
at_state st = record {
  state = st;
  pipe = new_pipeline 4 8;
  sinks = two ∷ [];
  request_timeout = some 50;
  has_on_start = true;
  has_on_finish = true;
  next_request_id = 1;
  starts = 0;
  finishes = [];
  write_wakeups = 0;
  control_wakeups = 0;
}

enqueue_impl_lem_example :
    (c' : Intake ℕ) × (enqueue_impl (at_state ConnectionState.open_) (1 ∷ 2 ∷ []) 2 0 40 ≡ some c')
    × Decided (at_state ConnectionState.open_) c' (1 ∷ 2 ∷ []) 0 two ConnectionState.open_
unfolding new_pending
enqueue_impl_lem_example =
    enqueue_impl_lem (at_state ConnectionState.open_) (1 ∷ 2 ∷ []) 0 40 two (new_pipeline-IsWf 4 8)
      refl two-IsOpen
