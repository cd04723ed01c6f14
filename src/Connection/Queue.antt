-- ===== src/Connection/Queue.antt =====
-- impl/connection/connect.ipp: while a handshake is in flight, its request is all that the pipeline holds, and once its
-- sink is complete, nothing is left there.
use rediscoro.Prelude.{
  ℕ, ◌+◌, ◌<◌, ◌≡◌, refl, sym, ap, ◌∙◌, subst, ◌⊎◌, inl, inr, true, false, Option, none, some, List,
  [], ◌∷◌, ◌++◌, length, get_elem?, set, >>=-eq-some, same_some, none≢some, if_true, if_false,
  true≢false, Bool-cases, ◌>>=◌, if◌then◌else◌, ◌==◌, leb, ◌&&◌, lt_of_get_elem?,
  get_elem?-set_self,
}
use rediscoro.Errors.{ErrorInfo}
use rediscoro.Resp3.Message.{Message}
use rediscoro.Sink.{Pending, is_complete, deliver}
use rediscoro.Pipeline.{
  Pipeline, PendingItem, AwaitingItem, unwritten, advance, on_write_done, on_message, on_reply,
  replied,
}
use rediscoro.Connection.Effects.{IsIdle}

module _ {ℓ} {T : Type ℓ} where
  -- The sink at `place` waits for replies still.
  abbrev pub IsWaiting : ℕ → List (Pending T) → Type ℓ
  IsWaiting place sinks =
      (s : Pending T) × (get_elem? sinks place ≡ some s) × (is_complete s ≡ false)

  -- Nothing, or the one request whose sink is at `place`, to be written or to be answered.
  pub data Holds (place : ℕ) (p : Pipeline) (sinks : List (Pending T)) : Type ℓ where
    nothing : IsIdle p → Holds place p sinks
    unsent :
        (i : PendingItem)
        → i.sink ≡ place
        → p.pending_write ≡ i ∷ []
        → p.awaiting_read ≡ []
        → IsWaiting place sinks
        → Holds place p sinks
    sent :
        (i : AwaitingItem)
        → i.sink ≡ place
        → p.pending_write ≡ []
        → p.awaiting_read ≡ i ∷ []
        → IsWaiting place sinks
        → Holds place p sinks

write_in :
    (ws : List PendingItem) (p p' : Pipeline) (n : ℕ)
    → (elim ws as (λ _. Option Pipeline) [
      | [] ↦ none
      | i ∷ rest ↦
          if leb i.written (length i.wire) && leb n (unwritten i) && leb n p.pending_write_bytes
          then some (advance p i rest n)
          else none
    ])
      ≡ some p'
    → (i : PendingItem) × (rest : List PendingItem) × (ws ≡ i ∷ rest) × (advance p i rest n ≡ p')
write_in [] p p' n h = absurd (none≢some h)
write_in (i ∷ rest) p p' n h =
    elim (Bool-cases
      (leb i.written (length i.wire) && leb n (unwritten i) && leb n p.pending_write_bytes)) [
        | inl fits ↦ (i, rest, refl, same_some (sym (if_true _ _ fits) ∙ h))
        | inr unfit ↦ absurd (none≢some (sym (if_false _ _ unfit) ∙ h))
      ]

pub on_write_done-front :
    (p p' : Pipeline) (n : ℕ)
    → on_write_done p n ≡ some p'
    → (i : PendingItem) × (rest : List PendingItem) × (p.pending_write ≡ i ∷ rest)
      × (advance p i rest n ≡ p')
unfolding on_write_done
on_write_done-front p p' n h = write_in p.pending_write p p' n h

module _ {ℓ} {T : Type ℓ} where
  pub Holds-written :
      (place : ℕ) (p p' : Pipeline) (sinks : List (Pending T)) (n : ℕ)
      → Holds place p sinks
      → on_write_done p n ≡ some p'
      → Holds place p' sinks
  unfolding advance
  Holds-written place p p' sinks n (nothing idle) h =
      let (i, rest, front, gives) = on_write_done-front p p' n h in absurd cc
  Holds-written place p p' sinks n (sent j at none' one w) h =
      let (i, rest, front, gives) = on_write_done-front p p' n h in absurd cc
  Holds-written place p p' sinks n (unsent j at one none' w) h =
      let (i, rest, front, gives) = on_write_done-front p p' n h in
      let same : i ≡ j = cc in
      let alone : rest ≡ [] = cc in
      let moved : AwaitingItem = record { sink = i.sink; deadline = i.deadline } in
      let left : PendingItem = record i { written = i.written + n } in
      elim (Bool-cases (i.written + n == length i.wire)) [
        | inl all ↦
            subst (λ q. Holds place q sinks) (sym (if_true _ _ all) ∙ gives)
              (sent moved (ap (λ x. x.sink) same ∙ at) alone (ap (λ x. x ++ (moved ∷ [])) none') w)
        | inr part ↦
            subst (λ q. Holds place q sinks) (sym (if_false _ _ part) ∙ gives)
              (unsent left (ap (λ x. x.sink) same ∙ at) (ap (λ x. left ∷ x) alone) none' w)
      ]

  reply_in :
      (ws : List AwaitingItem) (p : Pipeline) (sinks : List (Pending T))
      (give : Pending T → Option (Pending T)) (r : Pipeline × List (Pending T))
      → (elim ws as (λ _. Option (Pipeline × List (Pending T))) [
        | [] ↦ none
        | i ∷ rest ↦ (do s ← get_elem? sinks i.sink; s' ← give s; some (replied p sinks i rest s'))
      ])
        ≡ some r
      → (i : AwaitingItem) × (rest : List AwaitingItem) × (s' : Pending T) × (ws ≡ i ∷ rest)
        × (i.sink < length sinks)
        × (replied p sinks i rest s' ≡ r)
  reply_in [] p sinks give r h = absurd (none≢some h)
  reply_in (i ∷ rest) p sinks give r h =
      let (s, found, then') = >>=-eq-some (get_elem? sinks i.sink) _ h in
      let (s', given, gives) = >>=-eq-some (give s) _ then' in
      (i, rest, s', refl, lt_of_get_elem? sinks i.sink s found, same_some gives)

  on_message-front :
      (adapt : Message → T ⊎ ErrorInfo) (p : Pipeline) (sinks : List (Pending T)) (m : Message)
      (r : Pipeline × List (Pending T))
      → on_message adapt p sinks m ≡ some r
      → (i : AwaitingItem) × (rest : List AwaitingItem) × (s' : Pending T) × (p.awaiting_read
          ≡ i ∷ rest)
        × (i.sink < length sinks)
        × (replied p sinks i rest s' ≡ r)
  unfolding on_message on_reply
  on_message-front adapt p sinks m r h =
      reply_in p.awaiting_read p sinks (λ s. deliver adapt s m) r h

  pub Holds-replied :
      (adapt : Message → T ⊎ ErrorInfo) (place : ℕ) (p : Pipeline) (sinks : List (Pending T))
      (m : Message) (r : Pipeline × List (Pending T))
      → Holds place p sinks
      → on_message adapt p sinks m ≡ some r
      → Holds place r.0 r.1
  unfolding replied
  Holds-replied adapt place p sinks m r (nothing idle) h =
      let (i, rest, s', front, found, gives) = on_message-front adapt p sinks m r h in absurd cc
  Holds-replied adapt place p sinks m r (unsent j at one none' w) h =
      let (i, rest, s', front, found, gives) = on_message-front adapt p sinks m r h in absurd cc
  Holds-replied adapt place p sinks m r (sent j at none' one w) h =
      let (i, rest, s', front, found, gives) = on_message-front adapt p sinks m r h in
      let same : i ≡ j = cc in
      let here : i.sink ≡ place = ap (λ x. x.sink) same ∙ at in
      let alone : rest ≡ [] = cc in
      subst (λ q. Holds place q.0 q.1) gives
        (elim (Bool-cases (is_complete s')) [
          | inl all ↦
              subst (λ q. Holds place q (set sinks i.sink s')) (sym (if_true _ _ all))
                (nothing (none', alone))
          | inr part ↦
              subst (λ q. Holds place q (set sinks i.sink s')) (sym (if_false _ _ part))
                (sent j at none' one (
                  s',
                  subst (λ k. get_elem? (set sinks i.sink s') k ≡ some s') here
                      (get_elem?-set_self sinks i.sink s' found),
                  part,
                ))
        ])

  -- Once the sink is complete, nothing is left.
  pub Holds-complete :
      (place : ℕ) (p : Pipeline) (sinks : List (Pending T)) (s : Pending T)
      → Holds place p sinks
      → get_elem? sinks place ≡ some s
      → is_complete s ≡ true
      → IsIdle p
  Holds-complete place p sinks s (nothing idle) found all = idle
  Holds-complete place p sinks s (unsent i at one none' (s', found', part)) found all =
      absurd (true≢false (sym all ∙ ap is_complete (same_some (sym found ∙ found')) ∙ part))
  Holds-complete place p sinks s (sent i at none' one (s', found', part)) found all =
      absurd (true≢false (sym all ∙ ap is_complete (same_some (sym found ∙ found')) ∙ part))

  -- Other sinks may change, and further ones come.
  pub Holds-elsewhere :
      (place : ℕ) (p p' : Pipeline) (sinks sinks' : List (Pending T))
      → p' ≡ p
      → ((s : Pending T) → get_elem? sinks place ≡ some s → get_elem? sinks' place ≡ some s)
      → Holds place p sinks
      → Holds place p' sinks'
  Holds-elsewhere place p p' sinks sinks' same keeps h =
      subst (λ q. Holds place q sinks') (sym same) (moved h)
    where
      moved : Holds place p sinks → Holds place p sinks'
      moved (nothing idle) = nothing idle
      moved (unsent i at one none' (s, found, part)) =
          unsent i at one none' (s, keeps s found, part)
      moved (sent i at none' one (s, found, part)) = sent i at none' one (s, keeps s found, part)
