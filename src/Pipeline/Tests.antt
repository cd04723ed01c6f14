-- ===== src/Pipeline/Tests.antt =====
-- impl/pipeline.ipp: a request that is being written, and two that wait for three replies.
use rediscoro.Prelude.{
  ℕ, ◌+◌, ◌<◌, ◌≤◌, ◌≡◌, ◌↔◌, ◌⊎◌, inl, inr, refl, Bool, true, some, List, [], ◌∷◌, ◌++◌, arith,
  if◌then◌else◌,
}
use rediscoro.Errors.{ErrorInfo, error_info, client, ClientErrc, adapter, AdapterErrc}
use rediscoro.Resp3.Message.{Message, message, bulk_string, simple_error, no_attrs}
use rediscoro.Sink.{Pending, new_pending, no_trace}
use rediscoro.Sink.Laws.{IsOpen}
use rediscoro.Pipeline.{Pipeline, PendingItem, next_write_buffer, on_write_done, enqueue, clear_all}
use rediscoro.Pipeline.Invariant.{IsWf, reply_order, enqueue_lem, on_write_done_lem}
use rediscoro.Pipeline.Delivery.{Opens, AllFailed}
use rediscoro.Pipeline.Reachable.{
  Reachable, fresh, step, pushes, writes, Reachable-invariant, Reachable-on_message,
}
use rediscoro.Pipeline.Loss.{Reachable-clear_all}
use rediscoro.Pipeline.{new_pipeline, on_message, advance}
use rediscoro.Pipeline.{has_expired, next_deadline}
use rediscoro.Pipeline.Deadlines.{WritesLater, ReadsLater, has_expired-later}
use rediscoro.Pipeline.Order.{on_messages, concat, Matches, Answered, replies_in_order}

-- `adapter::adapt<std::string>`, for bulk strings.
abbrev as_text : Message → List ℕ ⊎ ErrorInfo
as_text (message (bulk_string s) at) = inl s
as_text _ = inr (error_info (adapter AdapterErrc.type_mismatch))

abbrev lost : ErrorInfo
lost = error_info (client ClientErrc.connection_lost)

abbrev item : PendingItem
item = record { wire = 1 ∷ 2 ∷ 3 ∷ []; sink = 2; written = 1; deadline = 90 }

abbrev busy : Pipeline
busy = record {
  pending_write = item ∷ [];
  awaiting_read = record { sink = 0; deadline = 50 } ∷ record { sink = 1; deadline = 70 } ∷ [];
  max_requests = 4;
  max_pending_write_bytes = 8;
  pending_write_bytes = 2;
}

busy-IsWf : IsWf busy
busy-IsWf = record {
  counted = refl;
  within = (omega arith, tt);
  few = omega arith;
  small = omega arith;
}

abbrev sinks : List (Pending (List ℕ))
sinks = new_pending 2 no_trace ∷ new_pending 1 no_trace ∷ new_pending 1 no_trace ∷ []

two-IsOpen : IsOpen (new_pending {T = List ℕ} 2 no_trace)
unfolding new_pending
two-IsOpen = record { pending = refl; room = omega arith; silent = refl }

one-IsOpen : IsOpen (new_pending {T = List ℕ} 1 no_trace)
unfolding new_pending
one-IsOpen = record { pending = refl; room = omega arith; silent = refl }

abbrev replies : List (List Message)
replies =
    (message (bulk_string (65 ∷ [])) no_attrs ∷ message (simple_error (66 ∷ [])) no_attrs ∷ [])
    ∷ (message (bulk_string (67 ∷ [])) no_attrs ∷ [])
    ∷ []

replies-Matches : Matches as_text sinks busy.awaiting_read replies
unfolding new_pending
replies-Matches =
    ((_, refl, two-IsOpen, refl), (λ e. omega arith, tt), ((_, refl, one-IsOpen, refl), tt, tt))

enqueue_lem_example :
    (p' : Pipeline) × (taken : Bool) × (enqueue busy (5 ∷ []) 3 99 ≡ (p', taken))
    × IsWf p'
    × ((taken ≡ true) ↔ ((3 < 4) × (2 + 1 ≤ 8)))
    × (reply_order p' ≡ (0 ∷ 1 ∷ 2 ∷ []) ++ (if taken then 3 ∷ [] else []))
enqueue_lem_example = enqueue_lem busy (5 ∷ []) 3 99 busy-IsWf

on_write_done_lem_example :
    (p' : Pipeline) × (on_write_done busy 2 ≡ some p')
    × IsWf p'
    × (p'.pending_write_bytes + 2 ≡ 2)
    × (reply_order p' ≡ 0 ∷ 1 ∷ 2 ∷ [])
unfolding next_write_buffer
on_write_done_lem_example = on_write_done_lem busy (2 ∷ 3 ∷ []) 2 busy-IsWf refl (omega arith)

replies_in_order_example :
    (after : List (Pending (List ℕ))) × (on_messages as_text busy sinks (concat replies)
      ≡ some (record busy { awaiting_read = [] }, after))
    × Answered as_text sinks after busy.awaiting_read replies
replies_in_order_example = replies_in_order as_text replies busy sinks replies-Matches

-- A request of two bytes is taken and written, and its reply comes.
abbrev taken : Pipeline
taken = record (new_pipeline 4 8) {
  pending_write = record { wire = 1 ∷ 2 ∷ []; sink = 0; written = 0; deadline = 90 } ∷ [];
  pending_write_bytes = 2;
}

abbrev sent : Pipeline
sent = record (new_pipeline 4 8) { awaiting_read = record { sink = 0; deadline = 90 } ∷ [] }

abbrev one_sink : List (Pending (List ℕ))
one_sink = new_pending 1 no_trace ∷ []

taken-Reachable : Reachable as_text (taken, one_sink)
unfolding enqueue
taken-Reachable =
    step (new_pipeline 4 8, []) (taken, one_sink) (fresh 4 8)
      (pushes (new_pipeline 4 8) taken [] (1 ∷ 2 ∷ []) 1 90 no_trace (omega arith) refl)

sent-Reachable : Reachable as_text (sent, one_sink)
unfolding on_write_done next_write_buffer advance
sent-Reachable =
    step (taken, one_sink) (sent, one_sink) taken-Reachable
      (writes taken sent one_sink (1 ∷ 2 ∷ []) 2 refl (omega arith) refl)

Reachable-invariant_example : IsWf sent × Opens one_sink (0 ∷ [])
Reachable-invariant_example = Reachable-invariant as_text (sent, one_sink) sent-Reachable

Reachable-on_message_example :
    (b : Pipeline × List (Pending (List ℕ))) × (on_message as_text sent one_sink
        (message (bulk_string (65 ∷ [])) no_attrs)
      ≡ some b)
    × Reachable as_text b
Reachable-on_message_example =
    Reachable-on_message as_text (sent, one_sink) (message (bulk_string (65 ∷ [])) no_attrs)
      sent-Reachable (λ e. cc)

Reachable-clear_all_example :
    (after : List (Pending (List ℕ))) × (clear_all taken one_sink lost
      ≡ some
          (record taken { pending_write = []; awaiting_read = []; pending_write_bytes = 0 }, after))
    × AllFailed one_sink after lost (0 ∷ [])
Reachable-clear_all_example = Reachable-clear_all as_text taken one_sink lost taken-Reachable

has_expired-later_example : WritesLater 40 busy.pending_write × ReadsLater 40 busy.awaiting_read
unfolding has_expired next_deadline
has_expired-later_example =
    has_expired-later busy 40 (omega arith, tt) (omega arith, (omega arith, tt)) (omega arith) refl
