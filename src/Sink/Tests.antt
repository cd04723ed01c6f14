-- ===== src/Sink/Tests.antt =====
-- detail/pending_response.hpp: a sink for two replies.
use rediscoro.Prelude.{ℕ, ◌+◌, ◌≡◌, refl, none, true, false, some, [], ◌∷◌, arith}
use rediscoro.Errors.{ErrorInfo, error_info, client, ClientErrc}
use rediscoro.Sink.{
  value, unexpected, Trace, TraceSummary, Pending, new_pending, put_slot, deliver_error, fail_all,
}
use rediscoro.Sink.Laws.{
  IsOpen, completed, put_slots, put_slots_lem, put_slots-traced, fail_all_lem,
}

abbrev hooked : Trace
hooked = record {
  trace_enabled = true;
  has_on_finish = true;
  trace_finished = false;
  finishes = [];
}

abbrev lost : ErrorInfo
lost = error_info (client ClientErrc.connection_lost)

abbrev two : Pending ℕ
two = new_pending 2 hooked

two-IsOpen : IsOpen two
unfolding new_pending
two-IsOpen = record { pending = refl; room = omega arith; silent = refl }

put_slots_lem_example :
    put_slots two (value 4 ∷ unexpected lost ∷ [])
    ≡ some (completed two (value 4 ∷ unexpected lost ∷ []))
unfolding new_pending
put_slots_lem_example = put_slots_lem (value 4 ∷ unexpected lost ∷ []) two two-IsOpen refl

put_slots-traced_example :
    (q : Pending ℕ) × (t : TraceSummary) × (put_slots two (value 4 ∷ unexpected lost ∷ []) ≡ some q)
    × (q.trace.finishes ≡ t ∷ [])
    × (t.ok_count + t.error_count ≡ 2)
unfolding new_pending
put_slots-traced_example =
    put_slots-traced (value 4 ∷ unexpected lost ∷ []) two two-IsOpen refl refl

fail_all_lem_example :
    fail_all two lost ≡ some (completed two (unexpected lost ∷ unexpected lost ∷ []))
unfolding new_pending
fail_all_lem_example = fail_all_lem two lost two-IsOpen

-- A sink for no replies never completes: the first error that it is given is a fault.
no_replies : deliver_error (new_pending {T = ℕ} 0 hooked) lost ≡ none
unfolding deliver_error put_slot new_pending
no_replies = refl
