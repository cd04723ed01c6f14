-- ===== src/Typed.antt =====
-- detail/response_builder.hpp and detail/pending_response.hpp: the builder and the sink for replies of several types,
-- known when the program is compiled. A type is a target of the adapters.
pub mod Laws
mod Tests
use rediscoro.Prelude.{
  ℕ, zero, suc, ◌+◌, Bool, true, false, Option, none, some, List, [], ◌∷◌, ◌++◌, length, ltb, ◌==◌,
  if◌then◌else◌, ◌>>=◌, ◌⊎◌, inl, inr,
}
use rediscoro.Errors.{ErrorInfo}
use rediscoro.Resp3.Message.{Message}
use rediscoro.Adapter.Dispatch.{Target, Adapted, adapt_reply}
use rediscoro.Sink.{
  Slot, value, unexpected, Trace, TraceSummary, no_summary, or_else, emit_trace_finish,
  slot_from_message,
}

-- `std::tuple<std::optional<response_slot<Ts>>...>` and `std::tuple<response_slot<Ts>...>`.
abbrev pub Slots : List Target → Type 0
Slots [] = Unit
Slots (t ∷ ts) = Option (Slot (Adapted t)) × Slots ts

abbrev pub Response : List Target → Type 0
Response [] = Unit
Response (t ∷ ts) = Slot (Adapted t) × Response ts

-- A reply, or an error in its place.
abbrev pub Reply : Type 0
Reply = Message ⊎ ErrorInfo

-- `set_from_message` and `set_error`, by the type of the slot.
abbrev pub slot_of : Reply → (t : Target) → Slot (Adapted t)
slot_of (inl m) t = slot_from_message (adapt_reply t) m
slot_of (inr e) t = unexpected e

abbrev pub no_slots : (ts : List Target) → Slots ts
no_slots [] = tt
no_slots (t ∷ ts) = (none, no_slots ts)

-- The entry of the dispatch table at the index, which asserts that its slot is empty.
unfoldable pub dispatch : (ts : List Target) → ℕ → Reply → Slots ts → Option (Slots ts)
dispatch [] i r s = none
dispatch (t ∷ ts) zero r (none, s) = some (some (slot_of r t), s)
dispatch (t ∷ ts) zero r (some x, s) = none
dispatch (t ∷ ts) (suc i) r (o, s) = do s' ← dispatch ts i r s; some (o, s')

-- Every slot has its value, which is an assertion.
unfoldable pub take_slots : (ts : List Target) → Slots ts → Option (Response ts)
take_slots [] s = some tt
take_slots (t ∷ ts) (none, s) = none
take_slots (t ∷ ts) (some x, s) = do r ← take_slots ts s; some (x, r)

pub record ResponseBuilder (ts : List Target) : Type 0 where
  pub next_index : ℕ
  pub results : Slots ts

pub record PendingResponse (ts : List Target) : Type 0 where
  pub builder : ResponseBuilder ts
  pub result : Option (Response ts)
  pub notified : ℕ
  pub trace : Trace

abbrev pub has_result : {ts : List Target} → PendingResponse ts → Bool
has_result p = elim p.result [ none ↦ false | some r ↦ true ]

-- `visit_slot` on each slot in turn.
pub summarize_response : (ts : List Target) → TraceSummary → Response ts → TraceSummary
summarize_response [] t r = t
summarize_response (u ∷ ts) t (value x, r) =
    summarize_response ts (record t { ok_count = t.ok_count + 1 }) r
summarize_response (u ∷ ts) t (unexpected e, r) =
    summarize_response ts
      (record t {
        error_count = t.error_count + 1;
        primary_error = or_else t.primary_error (some e);
      })
      r

module _ {ts : List Target} where
  unfoldable pub accept_reply : Reply → ResponseBuilder ts → Option (ResponseBuilder ts)
  unfolding dispatch
  accept_reply r b =
      if ltb b.next_index (length ts)
      then (do
        s ← dispatch ts b.next_index r b.results
        some (record { next_index = b.next_index + 1; results = s }))
      else none

  -- Behind `accept`: when every slot is filled, the results are the response, and the waiting coroutine is told.
  unfoldable pub complete_response : PendingResponse ts → Option (PendingResponse ts)
  unfolding take_slots summarize_response emit_trace_finish
  complete_response p =
      if p.builder.next_index == length ts
      then (do
        r ← take_slots ts p.builder.results
        some (record p {
          result = some r;
          notified = p.notified + 1;
          trace = emit_trace_finish p.trace (summarize_response ts no_summary r);
        }))
      else some p

  -- `do_deliver` and `do_deliver_error`.
  unfoldable pub deliver_reply : PendingResponse ts → Reply → Option (PendingResponse ts)
  unfolding accept_reply complete_response
  deliver_reply p r =
      if has_result p
      then none
      else (do b ← accept_reply r p.builder; complete_response (record p { builder = b }))

abbrev pub new_response : (ts : List Target) → Trace → PendingResponse ts
new_response ts t = record {
  builder = record { next_index = 0; results = no_slots ts };
  result = none;
  notified = 0;
  trace = t;
}
