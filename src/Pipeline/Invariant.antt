-- ===== src/Pipeline/Invariant.antt =====
-- impl/pipeline.ipp: the byte count, the limits and the order of the queues, through every operation on them.
use rediscoro.Prelude.{
  ℕ, suc, ◌+◌, ◌<◌, ◌≤◌, ◌≡◌, ◌≢◌, ◌↔◌, refl, sym, ap, ◌∙◌, inl, inr, Bool, true, false, some, List,
  [], ◌∷◌, ◌++◌, arith, length, length-append, length-drop, ◌==◌, Bool-cases, append_assoc,
  append-nil, subst, ==_iff, if◌then◌else◌,
}
use rediscoro.Pipeline.{
  PendingItem, AwaitingItem, Pipeline, new_pipeline, pending_count, admits, unwritten, unsent,
  next_write_buffer, advance, on_write_done, enqueue, write_sinks, read_sinks,
}

abbrev pub total : List PendingItem → ℕ
total [] = 0
total (i ∷ rest) = unwritten i + total rest

abbrev pub AllWithin : List PendingItem → Type 0
AllWithin [] = Unit
AllWithin (i ∷ rest) = (i.written ≤ length i.wire) × AllWithin rest

-- The count of bytes is right, no item is written past its end, and the queues are within the limits.
pub record IsWf (p : Pipeline) : Type 0 where
  pub counted : p.pending_write_bytes ≡ total p.pending_write
  pub within : AllWithin p.pending_write
  pub few : pending_count p ≤ p.max_requests
  pub small : p.pending_write_bytes ≤ p.max_pending_write_bytes

-- The sinks in the order in which their replies come.
abbrev pub reply_order : Pipeline → List ℕ
reply_order p = read_sinks p.awaiting_read ++ write_sinks p.pending_write

total-append : (xs ys : List PendingItem) → total (xs ++ ys) ≡ total xs + total ys
total-append [] ys = omega arith
total-append (x ∷ xs) ys = omega (arith, total-append xs ys)

AllWithin-append :
    (xs : List PendingItem) (i : PendingItem)
    → AllWithin xs
    → i.written ≤ length i.wire
    → AllWithin (xs ++ (i ∷ []))
AllWithin-append [] i a h = (h, tt)
AllWithin-append (x ∷ xs) i a h = (a.0, AllWithin-append xs i a.1 h)

write_sinks-append :
    (xs : List PendingItem) (i : PendingItem)
    → write_sinks (xs ++ (i ∷ [])) ≡ write_sinks xs ++ (i.sink ∷ [])
write_sinks-append [] i = refl
write_sinks-append (x ∷ xs) i = rw (write_sinks-append xs i) refl

read_sinks-append :
    (xs : List AwaitingItem) (i : AwaitingItem)
    → read_sinks (xs ++ (i ∷ [])) ≡ read_sinks xs ++ (i.sink ∷ [])
read_sinks-append [] i = refl
read_sinks-append (x ∷ xs) i = rw (read_sinks-append xs i) refl

pub new_pipeline-IsWf : (requests bytes : ℕ) → IsWf (new_pipeline requests bytes)
new_pipeline-IsWf requests bytes = record {
  counted = refl;
  within = tt;
  few = omega arith;
  small = omega arith;
}

-- `push` takes a request exactly if the limits hold with it.
pub admits_iff :
    (p : Pipeline) (n : ℕ)
    → (admits p n ≡ true) ↔ (
        (pending_count p < p.max_requests)
        × (p.pending_write_bytes + n ≤ p.max_pending_write_bytes))
unfolding admits
admits_iff p n = ground arith

-- In a well-formed pipeline, push takes a request exactly if there are fewer requests than the limit and
-- the pending bytes with its own stay within their limit; the pipeline stays well formed, and the sink
-- goes to the end of the order of replies exactly if the request is taken.
pub enqueue_lem :
    (p : Pipeline) (wire : List ℕ) (sink deadline : ℕ)
    → IsWf p
    → (p' : Pipeline) × (taken : Bool) × (enqueue p wire sink deadline ≡ (p', taken))
      × IsWf p'
      × ((taken ≡ true) ↔ (
          (pending_count p < p.max_requests)
          × (p.pending_write_bytes + length wire ≤ p.max_pending_write_bytes)))
      × (reply_order p' ≡ reply_order p ++ (if taken then sink ∷ [] else []))
unfolding enqueue
enqueue_lem p wire sink deadline v = elim (Bool-cases (admits p (length wire))) [
  | inl fits ↦
      let (room, bytes) = (admits_iff p (length wire)).0 fits in
      (
        taken,
        true,
        rw fits refl,
        record {
          counted = omega (arith, total-append p.pending_write (item ∷ []), v.counted);
          within = AllWithin-append p.pending_write item v.within (omega arith);
          few = omega (arith, room, length-append p.pending_write (item ∷ []));
          small = bytes;
        },
        (λ e. (room, bytes), λ e. refl),
        ap (λ zs. read_sinks p.awaiting_read ++ zs) (write_sinks-append p.pending_write item)
            ∙ sym (
                append_assoc (read_sinks p.awaiting_read) (write_sinks p.pending_write)
                  (sink ∷ [])),
      )
  | inr full ↦ (
    p,
    false,
    rw full refl,
    v,
    (λ e. cc, λ h. sym full ∙ (admits_iff p (length wire)).1 h),
    sym (append-nil (reply_order p)),
  )
]
  where
    item : PendingItem
    item = record { wire = wire; sink = sink; written = 0; deadline = deadline }

    taken : Pipeline
    taken = record p {
      pending_write = p.pending_write ++ (item ∷ []);
      pending_write_bytes = p.pending_write_bytes + length wire;
    }

offered_some :
    (p : Pipeline) (buffer : List ℕ) → p.pending_write ≡ [] → next_write_buffer p ≢ some buffer
unfolding next_write_buffer
offered_some p buffer e offered = let gone = sym (ap unsent e) ∙ offered in cc

offered_length :
    (p : Pipeline) (i : PendingItem) (rest : List PendingItem) (buffer : List ℕ)
    → p.pending_write ≡ i ∷ rest
    → next_write_buffer p ≡ some buffer
    → length buffer ≡ unwritten i
unfolding next_write_buffer
offered_length p i rest buffer e offered =
    let rest_of = sym (ap unsent e) ∙ offered in
    ground (arith, length-drop i.written i.wire, rest_of)

front_facts :
    (p : Pipeline) (i : PendingItem) (rest : List PendingItem)
    → IsWf p
    → p.pending_write ≡ i ∷ rest
    → (i.written ≤ length i.wire)
      × AllWithin rest
      × (p.pending_write_bytes ≡ unwritten i + total rest)
      × (length p.pending_write ≡ suc (length rest))
front_facts p i rest v e =
    let w = subst AllWithin e v.within in (w.0, w.1, v.counted ∙ ap total e, ap length e)

front_item :
    (p : Pipeline) (buffer : List ℕ)
    → IsWf p
    → next_write_buffer p ≡ some buffer
    → (i : PendingItem) × (rest : List PendingItem) × (p.pending_write ≡ i ∷ rest)
      × (length buffer ≡ unwritten i)
unfolding next_write_buffer
front_item p buffer v offered = go p.pending_write refl
  where
    go :
        (ws : List PendingItem)
        → p.pending_write ≡ ws
        → (i : PendingItem) × (rest : List PendingItem) × (p.pending_write ≡ i ∷ rest)
          × (length buffer ≡ unwritten i)
    go [] e = absurd (offered_some p buffer e offered)
    go (i ∷ rest) e = (i, rest, e, offered_length p i rest buffer e offered)

on_write_done_eq :
    (p : Pipeline) (i : PendingItem) (rest : List PendingItem) (n : ℕ)
    → IsWf p
    → p.pending_write ≡ i ∷ rest
    → n ≤ unwritten i
    → on_write_done p n ≡ some (advance p i rest n)
unfolding on_write_done
on_write_done_eq p i rest n v e h =
    let (w, ws, bytes, len) = front_facts p i rest v e in rw e (ground (arith, w, bytes, h))

advance_lem :
    (p : Pipeline) (i : PendingItem) (rest : List PendingItem) (n : ℕ)
    → IsWf p
    → p.pending_write ≡ i ∷ rest
    → n ≤ unwritten i
    → IsWf (advance p i rest n)
      × ((advance p i rest n).pending_write_bytes + n ≡ p.pending_write_bytes)
      × (reply_order (advance p i rest n) ≡ reply_order p)
unfolding advance
advance_lem p i rest n v e h =
    let (w, ws, bytes, len) = front_facts p i rest v e in
    elim (Bool-cases (i.written + n == length i.wire)) [
      | inl all ↦ rw all (
        record {
          counted = omega (arith, w, bytes, (==_iff _ _).0 all);
          within = ws;
          few = omega (arith, len, v.few, length-append p.awaiting_read (moved ∷ []));
          small = omega (arith, v.small);
        },
        omega (arith, bytes, h),
        rw (read_sinks-append p.awaiting_read moved, e)
            (append_assoc (read_sinks p.awaiting_read) (i.sink ∷ []) (write_sinks rest)),
      )
      | inr part ↦ rw part (
        record {
          counted = omega (arith, w, bytes, h);
          within = (omega (arith, w, h), ws);
          few = omega (arith, len, v.few);
          small = omega (arith, v.small);
        },
        omega (arith, bytes, h),
        rw e refl,
      )
    ]
  where
    moved : AwaitingItem
    moved = record { sink = i.sink; deadline = i.deadline }

-- In a well-formed pipeline, on_write_done of no more bytes than next_write_buffer offers fails no
-- assertion, keeps the pipeline well formed (byte count, item bounds, both limits), takes exactly these
-- bytes off the count, and leaves the order in which sinks are to be answered.
pub on_write_done_lem :
    (p : Pipeline) (buffer : List ℕ) (n : ℕ)
    → IsWf p
    → next_write_buffer p ≡ some buffer
    → n ≤ length buffer
    → (p' : Pipeline) × (on_write_done p n ≡ some p')
      × IsWf p'
      × (p'.pending_write_bytes + n ≡ p.pending_write_bytes)
      × (reply_order p' ≡ reply_order p)
on_write_done_lem p buffer n v offered h =
    let (i, rest, e, fits) = front_item p buffer v offered in
    let (ok, bytes, order) = advance_lem p i rest n v e (omega (arith, h, fits)) in
    (advance p i rest n, on_write_done_eq p i rest n v e (omega (arith, h, fits)), ok, bytes, order)
