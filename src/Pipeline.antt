-- ===== src/Pipeline.antt =====
-- detail/pipeline.hpp and impl/pipeline.ipp: the requests to write and the sinks that wait for replies.
pub mod Invariant
pub mod Delivery
pub mod Order
pub mod Line
pub mod Reachable
pub mod Loss
pub mod Deadlines
mod Tests
use rediscoro.Prelude.{
  ℕ, zero, suc, ◌+◌, ◌-◌, ◌^◌, Bool, true, false, not, ◌&&◌, ◌||◌, Option, none, some, List, [],
  ◌∷◌, ◌++◌, length, get_elem?, set, drop, ltb, leb, ◌==◌, min, if◌then◌else◌, ◌>>=◌, ◌⊎◌, inl, inr,
}
use rediscoro.Errors.{ErrorInfo}
use rediscoro.Resp3.Message.{Message}
use rediscoro.Sink.{Pending, is_complete, expected_replies, deliver, deliver_error, fail_all}

-- A sink is shared with the coroutine that waits for it, so an item holds its place in the store of sinks.
pub record PendingItem : Type 0 where
  pub wire : List ℕ
  pub sink : ℕ
  pub written : ℕ
  pub deadline : ℕ

pub record AwaitingItem : Type 0 where
  pub sink : ℕ
  pub deadline : ℕ

-- The two `ring_queue`s as the lists that they represent, oldest first.
pub record Pipeline : Type 0 where
  pub pending_write : List PendingItem
  pub awaiting_read : List AwaitingItem
  pub max_requests : ℕ
  pub max_pending_write_bytes : ℕ
  pub pending_write_bytes : ℕ

-- `time_point::max()`, no deadline.
abbrev pub time_max : ℕ
time_max = 2 ^ 63 - 1

abbrev pub new_pipeline : ℕ → ℕ → Pipeline
new_pipeline requests bytes = record {
  pending_write = [];
  awaiting_read = [];
  max_requests = requests;
  max_pending_write_bytes = bytes;
  pending_write_bytes = 0;
}

abbrev pub write_sinks : List PendingItem → List ℕ
write_sinks [] = []
write_sinks (i ∷ rest) = i.sink ∷ write_sinks rest

abbrev pub read_sinks : List AwaitingItem → List ℕ
read_sinks [] = []
read_sinks (i ∷ rest) = i.sink ∷ read_sinks rest

abbrev pub pending_count : Pipeline → ℕ
pending_count p = length p.pending_write + length p.awaiting_read

abbrev pub has_pending_write : Pipeline → Bool
has_pending_write p = elim p.pending_write [ [] ↦ false | i ∷ rest ↦ true ]

abbrev pub has_pending_read : Pipeline → Bool
has_pending_read p = elim p.awaiting_read [ [] ↦ false | i ∷ rest ↦ true ]

-- The guards of `push` on the limits, in the code's order.
unfoldable pub admits : Pipeline → ℕ → Bool
admits p wire_bytes =
    not (leb p.max_requests (pending_count p))
    && not (
        ltb p.max_pending_write_bytes wire_bytes
        || ltb (p.max_pending_write_bytes - wire_bytes) p.pending_write_bytes)

abbrev pub unwritten : PendingItem → ℕ
unwritten i = length i.wire - i.written

abbrev pub unsent : List PendingItem → Option (List ℕ)
unsent [] = none
unsent (i ∷ rest) = if leb i.written (length i.wire) then some (drop i.written i.wire) else none

unfoldable pub next_write_buffer : Pipeline → Option (List ℕ)
next_write_buffer p = unsent p.pending_write

-- The front item with `n` more bytes written: it moves to the other queue once nothing is left of it.
unfoldable pub advance : Pipeline → PendingItem → List PendingItem → ℕ → Pipeline
advance p i rest n =
    if i.written + n == length i.wire
    then record p {
      pending_write = rest;
      awaiting_read = p.awaiting_read ++ (record { sink = i.sink; deadline = i.deadline } ∷ []);
      pending_write_bytes = p.pending_write_bytes - n;
    }
    else record p {
      pending_write = record i { written = i.written + n } ∷ rest;
      pending_write_bytes = p.pending_write_bytes - n;
    }

unfoldable pub on_write_done : Pipeline → ℕ → Option Pipeline
on_write_done p n = elim p.pending_write [
  | [] ↦ none
  | i ∷ rest ↦
      if leb i.written (length i.wire) && leb n (unwritten i) && leb n p.pending_write_bytes
      then some (advance p i rest n)
      else none
]

unfoldable pub next_deadline : Pipeline → ℕ
next_deadline p =
    min (elim p.pending_write [ [] ↦ time_max | i ∷ rest ↦ i.deadline ])
      (elim p.awaiting_read [ [] ↦ time_max | i ∷ rest ↦ i.deadline ])

-- `now` is what `clock::now()` gives.
unfoldable pub has_expired : Pipeline → ℕ → Bool
has_expired p now = not (next_deadline p == time_max) && leb (next_deadline p) now

unfoldable pub enqueue : Pipeline → List ℕ → ℕ → ℕ → Pipeline × Bool
unfolding admits
enqueue p wire sink deadline =
    if admits p (length wire)
    then (
      record p {
        pending_write =
            p.pending_write
            ++ (record { wire = wire; sink = sink; written = 0; deadline = deadline } ∷ []);
        pending_write_bytes = p.pending_write_bytes + length wire;
      },
      true,
    )
    else (p, false)

module _ {ℓ} {T : Type ℓ} where
  -- The result is the code's: whether the request was taken. An assertion that fails is `none`.
  unfoldable pub push : Pipeline → List (Pending T) → List ℕ → ℕ → ℕ → ℕ → Option (Pipeline × Bool)
  push p sinks wire reply_count sink deadline = do
    s ← get_elem? sinks sink
    (if reply_count == expected_replies s then some (enqueue p wire sink deadline) else none)

  -- The sink at the front of `awaiting_read` after a reply: it leaves the queue once it is complete.
  unfoldable pub replied :
      Pipeline
      → List (Pending T)
      → AwaitingItem
      → List AwaitingItem
      → Pending T
      → Pipeline × List (Pending T)
  replied p sinks i rest s =
      ((if is_complete s then record p { awaiting_read = rest } else p), set sinks i.sink s)

  -- `on_message` and `on_error`, by what the sink does with the reply.
  unfoldable pub on_reply :
      (Pending T → Option (Pending T))
      → Pipeline
      → List (Pending T)
      → Option (Pipeline × List (Pending T))
  on_reply give p sinks = elim p.awaiting_read [
    | [] ↦ none
    | i ∷ rest ↦ (do s ← get_elem? sinks i.sink; s' ← give s; some (replied p sinks i rest s'))
  ]

  unfoldable pub on_message :
      (Message → T ⊎ ErrorInfo)
      → Pipeline
      → List (Pending T)
      → Message
      → Option (Pipeline × List (Pending T))
  on_message adapt p sinks m = on_reply (λ s. deliver adapt s m) p sinks

  unfoldable pub on_error :
      Pipeline → List (Pending T) → ErrorInfo → Option (Pipeline × List (Pending T))
  on_error p sinks e = on_reply (λ s. deliver_error s e) p sinks

  -- The two loops of `clear_all`, by the sinks of the items.
  unfoldable pub fail_each : List (Pending T) → List ℕ → ErrorInfo → Option (List (Pending T))
  fail_each sinks [] e = some sinks
  fail_each sinks (i ∷ rest) e = do
    s ← get_elem? sinks i
    s' ← fail_all s e
    fail_each (set sinks i s') rest e

  unfoldable pub clear_all :
      Pipeline → List (Pending T) → ErrorInfo → Option (Pipeline × List (Pending T))
  clear_all p sinks e = do
    after_writes ← fail_each sinks (write_sinks p.pending_write) e
    after_reads ← fail_each after_writes (read_sinks p.awaiting_read) e
    some (record p { pending_write = []; awaiting_read = []; pending_write_bytes = 0 }, after_reads)
