-- ===== src/Pipeline/Order.antt =====
-- impl/pipeline.ipp: the replies of a connection, in the order they come, against the requests that were sent.
use rediscoro.Prelude.{
  ℕ, ◌+◌, ◌≡◌, refl, sym, ap, ◌∙◌, ◌⊎◌, inl, inr, Option, some, List, [], ◌∷◌, ◌++◌, arith, length,
  set, get_elem?, get_elem?-set_self, get_elem?-set_ne, ◌>>=◌, lt_of_get_elem?, length-append,
  append_assoc, Option-cases, set-set,
}
use rediscoro.Errors.{ErrorInfo}
use rediscoro.Resp3.Message.{Message}
use rediscoro.Sink.{Slot, Pending, put_slot, slot_from_message, deliver}
use rediscoro.Sink.Laws.{
  IsOpen, open_incomplete, after_slot, completed, put_slot-next, put_slot-last,
}
use rediscoro.Pipeline.{AwaitingItem, Pipeline, read_sinks, replied, on_reply, on_message}
use rediscoro.Pipeline.Delivery.{Fresh}

pub concat : List (List Message) → List Message
concat [] = []
concat (ms ∷ mss) = ms ++ concat mss

module _ {ℓ} {T : Type ℓ} (adapt : Message → T ⊎ ErrorInfo) where
  pub slots_from : List Message → List (Slot T)
  slots_from [] = []
  slots_from (m ∷ ms) = slot_from_message adapt m ∷ slots_from ms

  -- `on_message` for one message after another, as `do_read` calls it.
  pub on_messages :
      Pipeline → List (Pending T) → List Message → Option (Pipeline × List (Pending T))
  on_messages p sinks [] = some (p, sinks)
  on_messages p sinks (m ∷ ms) = do r ← on_message adapt p sinks m; on_messages r.0 r.1 ms

  on_message_eq :
      (p : Pipeline) (sinks : List (Pending T)) (i : AwaitingItem) (rest : List AwaitingItem)
      (s s' : Pending T) (m : Message)
      → p.awaiting_read ≡ i ∷ rest
      → get_elem? sinks i.sink ≡ some s
      → put_slot s (slot_from_message adapt m) ≡ some s'
      → on_message adapt p sinks m ≡ some (replied p sinks i rest s')
  unfolding on_message on_reply deliver
  on_message_eq p sinks i rest s s' m front at_i gives = rw (front, at_i, gives) refl

  -- As many replies as the front request expects complete its sink, in order, and take it off the queue.
  pub one_request :
      (ms : List Message) (p : Pipeline) (sinks : List (Pending T)) (i : AwaitingItem)
      (rest : List AwaitingItem) (s : Pending T)
      → p.awaiting_read ≡ i ∷ rest
      → get_elem? sinks i.sink ≡ some s
      → IsOpen s
      → length s.builder.results + length ms ≡ s.builder.expected
      → on_messages p sinks ms
        ≡ some (
          record p { awaiting_read = rest },
          set sinks i.sink (completed s (s.builder.results ++ slots_from ms)),
        )
  unfolding on_messages slots_from replied
  one_request [] p sinks i rest s front at_i o h = absurd (omega (arith, o.room))
  one_request (m ∷ []) p sinks i rest s front at_i o h =
      rw
        (on_message_eq p sinks i rest s _ m front at_i
          (put_slot-last s (slot_from_message adapt m) o (omega (arith, h))))
        refl
  one_request (m ∷ m' ∷ ms) p sinks i rest s front at_i o h =
      let (eq, o') = put_slot-next s (slot_from_message adapt m) o (omega (arith, h)) in
      rw (on_message_eq p sinks i rest s _ m front at_i eq, open_incomplete _ o')
        (one_request (m' ∷ ms) p (set sinks i.sink next) i rest next front
            (get_elem?-set_self sinks i.sink next (lt_of_get_elem? sinks i.sink s at_i)) o'
            (omega (arith, h, length-append s.builder.results (slot_from_message adapt m ∷ [])))
          ∙ ap (λ zs. some (record p { awaiting_read = rest }, zs))
              (set-set sinks i.sink next _
                ∙ ap (λ ss. set sinks i.sink (completed s ss))
                    (append_assoc s.builder.results (slot_from_message adapt m ∷ [])
                      (slots_from (m' ∷ ms)))))
    where
      next : Pending T
      next = after_slot s (slot_from_message adapt m)

  -- The replies `mss`, one list for each request that was sent: each sink is open and its list has the length that
  -- it expects, and no sink stands twice.
  abbrev pub Matches : List (Pending T) → List AwaitingItem → List (List Message) → Type ℓ
  Matches sinks [] [] = Unit
  Matches sinks [] (ms ∷ mss) = ⊥ × Unit {ℓ}
  Matches sinks (i ∷ rest) [] = ⊥ × Unit {ℓ}
  Matches sinks (i ∷ rest) (ms ∷ mss) =
      ((s : Pending T) × (get_elem? sinks i.sink ≡ some s)
        × IsOpen s
        × (length s.builder.results + length ms ≡ s.builder.expected))
      × Fresh i.sink (read_sinks rest)
      × Matches sinks rest mss

  -- Each sink is complete with its own replies.
  abbrev pub Answered :
      List (Pending T) → List (Pending T) → List AwaitingItem → List (List Message) → Type ℓ
  Answered sinks after [] mss = Unit
  Answered sinks after (i ∷ rest) [] = ⊥ × Unit {ℓ}
  Answered sinks after (i ∷ rest) (ms ∷ mss) =
      ((s : Pending T) × (get_elem? sinks i.sink ≡ some s)
        × (get_elem? after i.sink ≡ some (completed s (s.builder.results ++ slots_from ms))))
      × Answered sinks after rest mss

  on_messages-append :
      (ms ns : List Message) (p : Pipeline) (sinks : List (Pending T))
      → on_messages p sinks (ms ++ ns) ≡ (on_messages p sinks ms >>= λ r. on_messages r.0 r.1 ns)
  unfolding on_messages
  on_messages-append [] ns p sinks = refl
  on_messages-append (m ∷ ms) ns p sinks = elim (Option-cases (on_message adapt p sinks m)) [
    | inl fault ↦ rw fault refl
    | inr (r, eq) ↦ rw eq (on_messages-append ms ns r.0 r.1)
  ]

  Matches-set :
      (sinks : List (Pending T)) (i : ℕ) (s : Pending T) (items : List AwaitingItem)
      (mss : List (List Message))
      → Fresh i (read_sinks items)
      → Matches sinks items mss
      → Matches (set sinks i s) items mss
  Matches-set sinks i s [] [] f m = m
  Matches-set sinks i s [] (ms ∷ mss) f m = m
  Matches-set sinks i s (j ∷ rest) [] f m = m
  Matches-set sinks i s (j ∷ rest) (ms ∷ mss) f ((t, at_j, o, n), fr, more) = (
    (t, get_elem?-set_ne sinks s (λ h. f.0 (sym h)) ∙ at_j, o, n),
    fr,
    Matches-set sinks i s rest mss f.1 more,
  )

  Answered-set :
      (sinks after : List (Pending T)) (i : ℕ) (s : Pending T) (items : List AwaitingItem)
      (mss : List (List Message))
      → Fresh i (read_sinks items)
      → Answered (set sinks i s) after items mss
      → Answered sinks after items mss
  Answered-set sinks after i s [] mss f a = a
  Answered-set sinks after i s (j ∷ rest) [] f a = a
  Answered-set sinks after i s (j ∷ rest) (ms ∷ mss) f ((t, at_j, gives), more) = (
    (t, sym (get_elem?-set_ne sinks s (λ h. f.0 (sym h))) ∙ at_j, gives),
    Answered-set sinks after i s rest mss f.1 more,
  )

  all_requests :
      (items : List AwaitingItem) (mss : List (List Message)) (p : Pipeline)
      (sinks : List (Pending T))
      → p.awaiting_read ≡ items
      → Matches sinks items mss
      → (after : List (Pending T)) × (on_messages p sinks (concat mss)
          ≡ some (record p { awaiting_read = [] }, after))
        × Answered sinks after items mss
        × ((j : ℕ) → Fresh j (read_sinks items) → get_elem? after j ≡ get_elem? sinks j)
  unfolding concat on_messages
  all_requests [] [] p sinks e m =
      (sinks, ap (λ zs. some (record p { awaiting_read = zs }, sinks)) e, tt, λ j f. refl)
  all_requests [] (ms ∷ mss) p sinks e m = absurd m.0
  all_requests (i ∷ rest) [] p sinks e m = absurd m.0
  all_requests (i ∷ rest) (ms ∷ mss) p sinks e ((s, at_i, o, n), fresh, more) =
      let (after, eq, answered, same) =
        all_requests rest mss (record p { awaiting_read = rest }) (set sinks i.sink full) refl
          (Matches-set sinks i.sink full rest mss fresh more) in
      (
        after,
        on_messages-append ms (concat mss) p sinks
            ∙ rw (one_request ms p sinks i rest s e at_i o n) eq,
        (
          (
            s,
            at_i,
            same i.sink fresh
                ∙ get_elem?-set_self sinks i.sink full (lt_of_get_elem? sinks i.sink s at_i),
          ),
          Answered-set sinks after i.sink full rest mss fresh answered,
        ),
        λ j f. same j f.1 ∙ get_elem?-set_ne sinks full f.0,
      )
    where
      full : Pending T
      full = completed s (s.builder.results ++ slots_from ms)

  -- Given the replies of all awaiting requests in the order in which the requests were sent, where each
  -- sink is open, expects as many replies as stand in its list, and stands in the queue once, on_message
  -- fails no assertion, leaves no request waiting, and completes every sink with its earlier slots
  -- followed by exactly its own replies.
  pub replies_in_order :
      (mss : List (List Message)) (p : Pipeline) (sinks : List (Pending T))
      → Matches sinks p.awaiting_read mss
      → (after : List (Pending T)) × (on_messages p sinks (concat mss)
          ≡ some (record p { awaiting_read = [] }, after))
        × Answered sinks after p.awaiting_read mss
  replies_in_order mss p sinks m =
      let (after, eq, answered, same) = all_requests p.awaiting_read mss p sinks refl m in
      (after, eq, answered)
