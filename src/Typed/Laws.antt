-- ===== src/Typed/Laws.antt =====
-- detail/response_builder.hpp and detail/pending_response.hpp: each reply is put into the slot of its place, by the
-- type of this slot.
use rediscoro.Prelude.{
  ◌+◌, ◌<◌, ◌≡◌, ◌≢◌, refl, sym, ap, ◌∙◌, subst, Option, none, some, List, [], ◌∷◌, ◌++◌, length,
  length-append, ◌==◌, ==_iff, lt→ltb, arith, if_true, if_false, ◌>>=◌, >>=-some, append_assoc, inl,
  inr, Bool-cases,
}
use rediscoro.Adapter.Dispatch.{Target}
use rediscoro.Sink.{Trace, no_summary, emit_trace_finish}
use rediscoro.Typed.{
  Slots, Response, Reply, slot_of, no_slots, dispatch, take_slots, PendingResponse,
  summarize_response, accept_reply, complete_response, deliver_reply, new_response,
}

-- The first slots hold the replies, the other ones are empty.
abbrev pub filled : (ts : List Target) → List Reply → Slots ts
filled [] rs = tt
filled (t ∷ ts) [] = (none, filled ts [])
filled (t ∷ ts) (r ∷ rs) = (some (slot_of r t), filled ts rs)

filled-no_slots : (ts : List Target) → filled ts [] ≡ no_slots ts
filled-no_slots [] = refl
filled-no_slots (t ∷ ts) = ap (λ s. (none, s)) (filled-no_slots ts)

-- One slot for each reply, made of it by the type of the slot.
abbrev pub Matches : (ts : List Target) → List Reply → Response ts → Type 0
Matches [] [] out = Unit
Matches (t ∷ ts) (r ∷ rs) (s, out) = (s ≡ slot_of r t) × Matches ts rs out
Matches _ _ out = ⊥

dispatch-filled :
    (ts : List Target) (rs : List Reply) (r : Reply)
    → length rs < length ts
    → dispatch ts (length rs) r (filled ts rs) ≡ some (filled ts (rs ++ (r ∷ [])))
unfolding dispatch
dispatch-filled [] rs r h = absurd (omega arith)
dispatch-filled (t ∷ ts) [] r h = refl
dispatch-filled (t ∷ ts) (q ∷ rs) r h =
    >>=-some (dispatch ts (length rs) r (filled ts rs)) _ (dispatch-filled ts rs r (omega arith))
      refl

take_slots-filled :
    (ts : List Target) (rs : List Reply)
    → length rs ≡ length ts
    → (out : Response ts) × (take_slots ts (filled ts rs) ≡ some out) × Matches ts rs out
unfolding take_slots
take_slots-filled [] [] h = (tt, refl, tt)
take_slots-filled [] (r ∷ rs) h = absurd (omega arith)
take_slots-filled (t ∷ ts) [] h = absurd (omega arith)
take_slots-filled (t ∷ ts) (r ∷ rs) h =
    let (out, takes, all) = take_slots-filled ts rs (omega arith) in
    ((slot_of r t, out), >>=-some (take_slots ts (filled ts rs)) _ takes refl, (refl, all))

-- Replies given one after the other.
pub deliver_each :
    (ts : List Target) → PendingResponse ts → List Reply → Option (PendingResponse ts)
deliver_each ts p [] = some p
deliver_each ts p (r ∷ rs) = do q ← deliver_reply p r; deliver_each ts q rs

abbrev holding : (ts : List Target) → Trace → List Reply → PendingResponse ts
holding ts t rs = record (new_response ts t) {
  builder = record { next_index = length rs; results = filled ts rs };
}

accept_reply-filled :
    (ts : List Target) (rs : List Reply) (r : Reply)
    → length rs < length ts
    → accept_reply {ts = ts} r (record { next_index = length rs; results = filled ts rs })
      ≡ some (record { next_index = length rs + 1; results = filled ts (rs ++ (r ∷ [])) })
unfolding accept_reply
accept_reply-filled ts rs r h =
    if_true _ _ (lt→ltb (length rs) (length ts) h)
    ∙ >>=-some (dispatch ts (length rs) r (filled ts rs)) _ (dispatch-filled ts rs r h) refl

abbrev counted : (ts : List Target) → Trace → List Reply → Reply → PendingResponse ts
counted ts t rs r = record (new_response ts t) {
  builder = record { next_index = length rs + 1; results = filled ts (rs ++ (r ∷ [])) };
}

deliver_reply-counted :
    (ts : List Target) (t : Trace) (rs : List Reply) (r : Reply)
    → length rs < length ts
    → deliver_reply (holding ts t rs) r ≡ complete_response (counted ts t rs r)
unfolding deliver_reply
deliver_reply-counted ts t rs r h =
    ap (λ o. o >>= (λ b. complete_response (record (holding ts t rs) { builder = b })))
      (accept_reply-filled ts rs r h)

-- All replies are there: the response is made of them, once.
pub record Completed (ts : List Target) (t : Trace) (rs : List Reply) (p : PendingResponse ts)
    : Type 0 where
  pub response : Response ts
  pub has : p.result ≡ some response
  pub matches : Matches ts rs response
  pub told_once : p.notified ≡ 1
  pub traced : p.trace ≡ emit_trace_finish t (summarize_response ts no_summary response)

complete_response-last :
    (ts : List Target) (t : Trace) (rs : List Reply) (r : Reply)
    → length rs + 1 ≡ length ts
    → (p : PendingResponse ts) × (complete_response (counted ts t rs r) ≡ some p)
      × Completed ts t (rs ++ (r ∷ [])) p
unfolding complete_response
complete_response-last ts t rs r h =
    let full : length (rs ++ (r ∷ [])) ≡ length ts = omega (arith, length-append rs (r ∷ [])) in
    let (out, takes, all) = take_slots-filled ts (rs ++ (r ∷ [])) full in
    let p : PendingResponse ts = record (counted ts t rs r) {
      result = some out;
      notified = 1;
      trace = emit_trace_finish t (summarize_response ts no_summary out);
    } in
    (
      p,
      if_true _ _ ((==_iff (length rs + 1) (length ts)).1 h)
          ∙ >>=-some (take_slots ts (filled ts (rs ++ (r ∷ [])))) _ takes refl,
      record { response = out; has = refl; matches = all; told_once = refl; traced = refl },
    )

complete_response-more :
    (ts : List Target) (t : Trace) (rs : List Reply) (r : Reply)
    → length rs + 1 ≢ length ts
    → complete_response (counted ts t rs r) ≡ some (holding ts t (rs ++ (r ∷ [])))
unfolding complete_response
complete_response-more ts t rs r h = elim (Bool-cases (length rs + 1 == length ts)) [
  | inl same ↦ absurd (h ((==_iff (length rs + 1) (length ts)).0 same))
  | inr other ↦
      if_false _ _ other
      ∙ ap
          (λ n. some (record (new_response ts t) {
            builder = record { next_index = n; results = filled ts (rs ++ (r ∷ [])) };
          }))
          (sym (length-append rs (r ∷ [])))
]

deliver_each-holding :
    (ts : List Target) (t : Trace) (rs qs : List Reply)
    → length rs + length qs ≡ length ts
    → 0 < length qs
    → (p : PendingResponse ts) × (deliver_each ts (holding ts t rs) qs ≡ some p)
      × Completed ts t (rs ++ qs) p
unfolding deliver_each
deliver_each-holding ts t rs [] h some_left = absurd (omega arith)
deliver_each-holding ts t rs (q ∷ []) h some_left =
    let (p, ends, all) = complete_response-last ts t rs q (omega arith) in
    (
      p,
      >>=-some (deliver_reply (holding ts t rs) q) _
          (deliver_reply-counted ts t rs q (omega arith) ∙ ends) refl,
      all,
    )
deliver_each-holding ts t rs (q ∷ q' ∷ qs) h some_left =
    let (p, ends, all) =
      deliver_each-holding ts t (rs ++ (q ∷ [])) (q' ∷ qs)
        (omega (arith, length-append rs (q ∷ []))) (omega arith) in
    (
      p,
      >>=-some (deliver_reply (holding ts t rs) q) _
          (deliver_reply-counted ts t rs q (omega arith)
            ∙ complete_response-more ts t rs q (omega arith))
          ends,
      subst (λ xs. Completed ts t xs p) (append_assoc rs (q ∷ []) (q' ∷ qs)) all,
    )

pub deliver_each-Completed :
    (ts : List Target) (t : Trace) (rs : List Reply)
    → length rs ≡ length ts
    → 0 < length ts
    → (p : PendingResponse ts) × (deliver_each ts (new_response ts t) rs ≡ some p)
      × Completed ts t rs p
deliver_each-Completed ts t rs h some_type =
    let (p, ends, all) = deliver_each-holding ts t [] rs (omega arith) (omega arith) in
    (
      p,
      ap
            (λ s.
              deliver_each ts
                (record (new_response ts t) { builder = record { next_index = 0; results = s } })
                rs)
            (sym (filled-no_slots ts))
          ∙ ends,
      all,
    )
