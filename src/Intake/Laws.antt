-- ===== src/Intake/Laws.antt =====
-- impl/connection/core.ipp, `enqueue_impl`: a request is queued, or every slot of its sink has the error.
use rediscoro.Prelude.{
  ℕ, ◌+◌, ◌-◌, ◌<◌, ◌≤◌, ◌≡◌, refl, inl, inr, ◌⊎◌, ◌↔◌, Bool, true, false, none, some, List, [],
  ◌∷◌, ◌++◌, arith, length, replicate, get_elem?, get_elem?-set_self, lt_of_get_elem?, ◌>>=◌,
  if◌then◌else◌, ==_iff, ◌||◌,
}
use rediscoro.Errors.{error_info, client, ClientErrc}
use rediscoro.Sink.{Pending, unexpected}
use rediscoro.Sink.Laws.{IsOpen, completed, fail_all_lem}
use rediscoro.Pipeline.{Pipeline, enqueue, push, pending_count}
use rediscoro.Pipeline.Invariant.{IsWf, reply_order, enqueue_lem}
use rediscoro.Intake.{
  ConnectionState, init, connecting, open_, failed, reconnecting, closing, closed, Intake, gate,
  deadline_at, trace_start, rejected, reject, taken_by, pushed, enqueue_impl,
}

module _ {ℓ} {T : Type ℓ} where
  -- The request is refused with the error `e`: the pipeline is as it was, and the sink is complete.
  abbrev pub Refused : Intake T → Intake T → ℕ → Pending T → ClientErrc → Type ℓ
  Refused c c' sink s e =
      (c'.pipe ≡ c.pipe)
      × (get_elem? c'.sinks sink
          ≡ some (
              completed s (
                s.builder.results
                ++ replicate (s.builder.expected - length s.builder.results)
                    (unexpected (error_info (client e))))))
      × (c'.write_wakeups ≡ c.write_wakeups)

  -- The request is queued behind the others, and the loops are woken.
  abbrev pub Queued : Intake T → Intake T → ℕ → Type 0
  Queued c c' sink =
      (reply_order c'.pipe ≡ reply_order c.pipe ++ (sink ∷ []))
      × (c'.write_wakeups ≡ c.write_wakeups + 1)
      × (c'.control_wakeups ≡ c.control_wakeups + 1)

  -- The request is queued exactly if both limits of the pipeline have room for it.
  abbrev pub Limited : Intake T → Intake T → List ℕ → ℕ → Pending T → Type ℓ
  Limited c c' wire sink s =
      ((pending_count c.pipe < c.pipe.max_requests)
        × (c.pipe.pending_write_bytes + length wire ≤ c.pipe.max_pending_write_bytes)
        × Queued c c' sink)
      ⊎ (¬ (
            (pending_count c.pipe < c.pipe.max_requests)
            × (c.pipe.pending_write_bytes + length wire ≤ c.pipe.max_pending_write_bytes))
          × Refused c c' sink s ClientErrc.queue_full)

  -- The connection's state decides first, and then the limits of the pipeline.
  abbrev pub Decided : Intake T → Intake T → List ℕ → ℕ → Pending T → ConnectionState → Type ℓ
  Decided c c' wire sink s init = Refused c c' sink s ClientErrc.not_connected
  Decided c c' wire sink s connecting = Refused c c' sink s ClientErrc.not_connected
  Decided c c' wire sink s failed = Refused c c' sink s ClientErrc.connection_lost
  Decided c c' wire sink s reconnecting = Refused c c' sink s ClientErrc.connection_lost
  Decided c c' wire sink s closing = Refused c c' sink s ClientErrc.connection_closed
  Decided c c' wire sink s closed = Refused c c' sink s ClientErrc.connection_closed
  Decided c c' wire sink s open_ = Limited c c' wire sink s

  reject_lem :
      (c d : Intake T) (sink : ℕ) (s : Pending T) (e : ClientErrc)
      → IsOpen s
      → get_elem? c.sinks sink ≡ some s
      → (d.pipe ≡ c.pipe)
        × (d.sinks ≡ c.sinks)
        × (d.write_wakeups ≡ c.write_wakeups)
        × (d.control_wakeups ≡ c.control_wakeups)
      → (c' : Intake T) × (reject d sink s e ≡ some c') × Refused c c' sink s e
  unfolding reject
  reject_lem c d sink s e o at_sink same = (
    rejected d sink s
        (completed s (
          s.builder.results
          ++ replicate (s.builder.expected - length s.builder.results)
              (unexpected (error_info (client e)))))
        e,
    rw (fail_all_lem s (error_info (client e)) o) refl,
    (
      same.0,
      rw same.1 (get_elem?-set_self c.sinks sink _ (lt_of_get_elem? c.sinks sink s at_sink)),
      same.2,
    ),
  )

  trace_start-keeps :
      (c : Intake T)
      → ((trace_start c).pipe ≡ c.pipe)
        × ((trace_start c).sinks ≡ c.sinks)
        × ((trace_start c).write_wakeups ≡ c.write_wakeups)
        × ((trace_start c).control_wakeups ≡ c.control_wakeups)
  unfolding trace_start
  trace_start-keeps c = go (c.has_on_start || c.has_on_finish) refl
    where
      go :
          (on : Bool)
          → (c.has_on_start || c.has_on_finish) ≡ on
          → ((trace_start c).pipe ≡ c.pipe)
            × ((trace_start c).sinks ≡ c.sinks)
            × ((trace_start c).write_wakeups ≡ c.write_wakeups)
            × ((trace_start c).control_wakeups ≡ c.control_wakeups)
      go true e = rw e (refl, refl, refl, refl)
      go false e = rw e (refl, refl, refl, refl)

  push_eq :
      (p : Pipeline) (sinks : List (Pending T)) (wire : List ℕ) (s : Pending T) (sink deadline : ℕ)
      → get_elem? sinks sink ≡ some s
      → push p sinks wire s.builder.expected sink deadline ≡ some (enqueue p wire sink deadline)
  unfolding push
  push_eq p sinks wire s sink deadline e =
      rw (e, (==_iff s.builder.expected s.builder.expected).1 refl) refl

  taken_lem :
      (c d : Intake T) (p : Pipeline) (sink : ℕ) (s : Pending T)
      → (d.write_wakeups ≡ c.write_wakeups) × (d.control_wakeups ≡ c.control_wakeups)
      → reply_order p ≡ reply_order c.pipe ++ (sink ∷ [])
      → Queued c (taken_by d p sink s) sink
  unfolding taken_by
  taken_lem c d p sink s same order = (order, omega (arith, same.0), omega (arith, same.1))

  open_lem :
      (c d : Intake T) (wire : List ℕ) (sink deadline : ℕ) (s : Pending T)
      → IsWf c.pipe
      → get_elem? c.sinks sink ≡ some s
      → IsOpen s
      → (d.pipe ≡ c.pipe)
        × (d.sinks ≡ c.sinks)
        × (d.write_wakeups ≡ c.write_wakeups)
        × (d.control_wakeups ≡ c.control_wakeups)
      → (c' : Intake T) × (pushed d sink s (enqueue c.pipe wire sink deadline) ≡ some c')
        × Limited c c' wire sink s
  unfolding pushed
  open_lem c d wire sink deadline s v at_sink o same =
      let (p, taken, eq, wf, accepts, order) = enqueue_lem c.pipe wire sink deadline v in
      rw eq (go p taken accepts order)
    where
      go :
          (p : Pipeline) (taken : Bool)
          → (taken ≡ true) ↔ (
              (pending_count c.pipe < c.pipe.max_requests)
              × (c.pipe.pending_write_bytes + length wire ≤ c.pipe.max_pending_write_bytes))
          → reply_order p ≡ reply_order c.pipe ++ (if taken then sink ∷ [] else [])
          → (c' : Intake T) × (pushed d sink s (p, taken) ≡ some c') × Limited c c' wire sink s
      go p true accepts order =
          let room = accepts.0 refl in
          (
            taken_by d p sink s,
            refl,
            inl (room.0, room.1, taken_lem c d p sink s (same.2, same.3) order),
          )
      go p false accepts order =
          let (c', e, refused) = reject_lem c d sink s ClientErrc.queue_full o at_sink same in
          (c', e, inr (λ h. let no_room = accepts.1 h in cc, refused))

  -- For an open sink in the store and a well-formed pipeline, enqueue_impl fails no assertion. In INIT and
  -- CONNECTING, in FAILED and RECONNECTING, and in CLOSING and CLOSED it leaves the pipeline and fills
  -- every open slot of the sink with not_connected, connection_lost and connection_closed; in OPEN it
  -- queues the request behind the others and wakes the write and control loops if the limits of the
  -- pipeline allow it, and otherwise fills the slots with queue_full.
  pub enqueue_impl_lem :
      (c : Intake T) (wire : List ℕ) (sink now : ℕ) (s : Pending T)
      → IsWf c.pipe
      → get_elem? c.sinks sink ≡ some s
      → IsOpen s
      → (c' : Intake T) × (enqueue_impl c wire s.builder.expected sink now ≡ some c')
        × Decided c c' wire sink s c.state
  unfolding enqueue_impl gate
  enqueue_impl_lem c wire sink now s v at_sink o = rw at_sink (go c.state)
    where
      turned_away :
          (e : ClientErrc)
          → (c' : Intake T) × (reject (trace_start c) sink s e ≡ some c') × Refused c c' sink s e
      turned_away e = reject_lem c (trace_start c) sink s e o at_sink (trace_start-keeps c)

      go :
          (st : ConnectionState)
          → (c' : Intake T) × ((elim (gate st) [
            | some e ↦ reject (trace_start c) sink s e
            | none ↦
                push c.pipe c.sinks wire s.builder.expected sink (deadline_at c.request_timeout now)
                >>= pushed (trace_start c) sink s
          ])
              ≡ some c')
            × Decided c c' wire sink s st
      go init = turned_away ClientErrc.not_connected
      go connecting = turned_away ClientErrc.not_connected
      go failed = turned_away ClientErrc.connection_lost
      go reconnecting = turned_away ClientErrc.connection_lost
      go closing = turned_away ClientErrc.connection_closed
      go closed = turned_away ClientErrc.connection_closed
      go open_ =
          rw (push_eq c.pipe c.sinks wire s sink (deadline_at c.request_timeout now) at_sink) (
            open_lem c (trace_start c) wire sink (deadline_at c.request_timeout now) s v at_sink o
              (trace_start-keeps c))
