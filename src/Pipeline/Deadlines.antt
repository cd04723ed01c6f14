-- ===== src/Pipeline/Deadlines.antt =====
-- impl/pipeline.ipp, `next_deadline` and `has_expired`: what the fronts of the queues say of all requests.
use rediscoro.Prelude.{ℕ, ◌≤◌, ◌<◌, ◌≡◌, refl, false, List, [], ◌∷◌, arith}
use rediscoro.Pipeline.{PendingItem, AwaitingItem, Pipeline, next_deadline, has_expired, time_max}

-- Deadlines that do not go down, from `d` on.
abbrev pub RisingWrites : ℕ → List PendingItem → Type 0
RisingWrites d [] = Unit
RisingWrites d (i ∷ rest) = (d ≤ i.deadline) × RisingWrites i.deadline rest

abbrev pub RisingReads : ℕ → List AwaitingItem → Type 0
RisingReads d [] = Unit
RisingReads d (i ∷ rest) = (d ≤ i.deadline) × RisingReads i.deadline rest

-- Every request is due after `now`.
abbrev pub WritesLater : ℕ → List PendingItem → Type 0
WritesLater now [] = Unit
WritesLater now (i ∷ rest) = (now < i.deadline) × WritesLater now rest

abbrev pub ReadsLater : ℕ → List AwaitingItem → Type 0
ReadsLater now [] = Unit
ReadsLater now (i ∷ rest) = (now < i.deadline) × ReadsLater now rest

writes_later :
    (d now : ℕ) (is : List PendingItem) → now < d → RisingWrites d is → WritesLater now is
writes_later d now [] h r = tt
writes_later d now (i ∷ rest) h r =
    (omega (arith, r.0), writes_later i.deadline now rest (omega (arith, r.0)) r.1)

reads_later : (d now : ℕ) (is : List AwaitingItem) → now < d → RisingReads d is → ReadsLater now is
reads_later d now [] h r = tt
reads_later d now (i ∷ rest) h r =
    (omega (arith, r.0), reads_later i.deadline now rest (omega (arith, r.0)) r.1)

late : (p : Pipeline) (now : ℕ) → now < time_max → has_expired p now ≡ false → now < next_deadline p
unfolding has_expired
late p now early h = ground arith

writes_due :
    (p : Pipeline) (now : ℕ) (is : List PendingItem)
    → p.pending_write ≡ is
    → now < next_deadline p
    → RisingWrites 0 is
    → WritesLater now is
unfolding next_deadline
writes_due p now [] e h r = tt
writes_due p now (i ∷ rest) e h r = (due, writes_later i.deadline now rest due r.1)
  where
    due : now < i.deadline
    due = let bound = h in ground (arith, e, bound)

reads_due :
    (p : Pipeline) (now : ℕ) (is : List AwaitingItem)
    → p.awaiting_read ≡ is
    → now < next_deadline p
    → RisingReads 0 is
    → ReadsLater now is
unfolding next_deadline
reads_due p now [] e h r = tt
reads_due p now (i ∷ rest) e h r = (due, reads_later i.deadline now rest due r.1)
  where
    due : now < i.deadline
    due = let bound = h in ground (arith, e, bound)

-- Where the deadlines of each queue do not go down and the clock is below its maximum, has_expired answers
-- no only if every request in both queues is due later than now.
pub has_expired-later :
    (p : Pipeline) (now : ℕ)
    → RisingWrites 0 p.pending_write
    → RisingReads 0 p.awaiting_read
    → now < time_max
    → has_expired p now ≡ false
    → WritesLater now p.pending_write × ReadsLater now p.awaiting_read
has_expired-later p now w r early h = (
  writes_due p now p.pending_write refl (late p now early h) w,
  reads_due p now p.awaiting_read refl (late p now early h) r,
)
