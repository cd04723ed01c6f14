-- ===== src/Sink.antt =====
-- detail/response_builder.hpp, detail/response_sink.hpp and detail/pending_response.hpp: where the replies to
-- one request are put together.
pub mod Laws
mod Tests
use rediscoro.Prelude.{
  ℕ, zero, suc, ◌+◌, ◌-◌, Bool, true, false, not, ◌&&◌, Option, none, some, List, [], ◌∷◌, ◌++◌,
  length, ltb, ◌==◌, if◌then◌else◌, ◌>>=◌, ◌⊎◌, inl, inr,
}
use rediscoro.Errors.{ErrorInfo, ErrorCode, server, ServerErrc}
use rediscoro.Resp3.Message.{Message, error_text}

-- `response_slot<T>`, an `expected<T, error_info>`.
pub data Slot {ℓ} (T : Type ℓ) : Type ℓ where
  value : T → Slot T
  unexpected : ErrorInfo → Slot T

-- The counts given to `on_finish`, and the first error.
pub record TraceSummary : Type 0 where
  pub ok_count : ℕ
  pub error_count : ℕ
  pub primary_error : Option ErrorInfo

-- `trace_enabled` and `has_on_finish` are what the hooks are; `finishes` is what `on_finish` was called with.
pub record Trace : Type 0 where
  pub trace_enabled : Bool
  pub has_on_finish : Bool
  pub trace_finished : Bool
  pub finishes : List TraceSummary

pub record Builder {ℓ} (T : Type ℓ) : Type ℓ where
  pub expected : ℕ
  pub results : List (Slot T)

-- `notified` counts the calls of `event_.notify()`.
pub record Pending {ℓ} (T : Type ℓ) : Type ℓ where
  pub builder : Builder T
  pub result : Option (List (Slot T))
  pub notified : ℕ
  pub trace : Trace

abbrev pub no_trace : Trace
no_trace = record {
  trace_enabled = false;
  has_on_finish = false;
  trace_finished = false;
  finishes = [];
}

abbrev pub no_summary : TraceSummary
no_summary = record { ok_count = 0; error_count = 0; primary_error = none }

abbrev pub or_else {ℓ} : {A : Type ℓ} → Option A → Option A → Option A
or_else none o = o
or_else (some a) o = some a

-- An `on_finish` that is null is not called, and then the trace is not marked either.
unfoldable pub emit_trace_finish : Trace → TraceSummary → Trace
emit_trace_finish t s =
    if t.trace_enabled && t.has_on_finish && not t.trace_finished
    then record t { trace_finished = true; finishes = t.finishes ++ (s ∷ []) }
    else t

module _ {ℓ} {T : Type ℓ} where
  unfoldable pub done : Builder T → Bool
  done b = length b.results == b.expected

  -- An assertion that fails is `none`.
  unfoldable pub accept : Builder T → Slot T → Option (Builder T)
  accept b s =
      if ltb (length b.results) b.expected
      then some (record b { results = b.results ++ (s ∷ []) })
      else none

  -- `results_` is moved out, which leaves it empty.
  unfoldable pub take_results : Builder T → Option (List (Slot T) × Builder T)
  unfolding done
  take_results b = if done b then some (b.results, record b { results = [] }) else none

  abbrev pub is_complete : Pending T → Bool
  is_complete p = elim p.result [ none ↦ false | some r ↦ true ]

  abbrev pub expected_replies : Pending T → ℕ
  expected_replies p = p.builder.expected

  -- The loop of `emit_trace_finish_if_needed` from what it has counted so far.
  pub summarize : TraceSummary → List (Slot T) → TraceSummary
  summarize t [] = t
  summarize t (value x ∷ ss) = summarize (record t { ok_count = t.ok_count + 1 }) ss
  summarize t (unexpected e ∷ ss) =
      summarize
        (record t {
          error_count = t.error_count + 1;
          primary_error = or_else t.primary_error (some e);
        })
        ss

  unfoldable pub new_pending : ℕ → Trace → Pending T
  new_pending n t = record {
    builder = record { expected = n; results = [] };
    result = none;
    notified = 0;
    trace = t;
  }

  -- After `accept`: when the builder is done, its results are the result, and the waiting coroutine is told.
  unfoldable pub finish_if_done : Pending T → Option (Pending T)
  unfolding done take_results summarize emit_trace_finish
  finish_if_done p =
      if done p.builder
      then (do
        (r, b) ← take_results p.builder
        some (record {
          builder = b;
          result = some r;
          notified = p.notified + 1;
          trace = emit_trace_finish p.trace (summarize no_summary r);
        }))
      else some p

  -- `deliver` and `deliver_error` alike, with the slot already made.
  unfoldable pub put_slot : Pending T → Slot T → Option (Pending T)
  unfolding accept finish_if_done
  put_slot p s =
      if is_complete p
      then none
      else (do b ← accept p.builder s; finish_if_done (record p { builder = b }))

  unfoldable pub deliver_error : Pending T → ErrorInfo → Option (Pending T)
  deliver_error p e = put_slot p (unexpected e)

  -- `while (!is_complete())`, on fuel.
  unfoldable pub fail_loop : ℕ → Pending T → ErrorInfo → Option (Pending T)
  fail_loop zero p e = if is_complete p then some p else none
  fail_loop (suc fuel) p e =
      if is_complete p then some p else (do q ← deliver_error p e; fail_loop fuel q e)

  -- Each round fills one slot, so as much fuel as there are slots left is enough.
  unfoldable pub fail_all : Pending T → ErrorInfo → Option (Pending T)
  fail_all p e = fail_loop (p.builder.expected - length p.builder.results) p e

  -- `adapt` is `adapter::adapt<T>`, whose error comes with its text.
  module _ (adapt : Message → T ⊎ ErrorInfo) where
    abbrev pub adapted : T ⊎ ErrorInfo → Slot T
    adapted (inl x) = value x
    adapted (inr e) = unexpected e

    unfoldable pub slot_from_message : Message → Slot T
    slot_from_message m = elim (error_text m) [
      | some text ↦ unexpected (record { code = server ServerErrc.redis_error; detail = text })
      | none ↦ adapted (adapt m)
    ]

    unfoldable pub deliver : Pending T → Message → Option (Pending T)
    deliver p m = put_slot p (slot_from_message m)
