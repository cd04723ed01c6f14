-- ===== src/Pipeline/Line.antt =====
-- impl/pipeline.ipp: what each operation does to the line of sinks that wait.
use rediscoro.Prelude.{
  get_elem?-last, ℕ, zero, suc, ◌<◌, ◌≡◌, ◌≢◌, refl, sym, ap, subst, ◌∙◌, ◌⊎◌, inl, inr, Bool, true,
  false, Option, none, some, List, [], ◌∷◌, ◌++◌, arith, length, set, get_elem?, get_elem?-set_self,
  lt_of_get_elem?, if◌then◌else◌, dec_lt, append-nil, >>=-eq-some,
}
use rediscoro.Errors.{ErrorInfo}
use rediscoro.Sink.{Slot, Trace, Pending, is_complete, put_slot, new_pending}
use rediscoro.Sink.Laws.{
  IsOpen, open_incomplete, after_slot, completed, put_slot-next, put_slot-last,
}
use rediscoro.Pipeline.{
  AwaitingItem, Pipeline, read_sinks, write_sinks, replied, on_reply, fail_each, clear_all,
}
use rediscoro.Pipeline.Invariant.{IsWf, reply_order}
use rediscoro.Pipeline.Delivery.{Fresh, Opens, Opens-set}

pub some_eq {κ} : {A : Type κ} {a b : A} → some a ≡ some b → a ≡ b
some_eq e = cc

Fresh-append : (i j : ℕ) (is : List ℕ) → Fresh i is → j ≢ i → Fresh i (is ++ (j ∷ []))
Fresh-append i j [] f ne = (ne, tt)
Fresh-append i j (k ∷ is) f ne = (f.0, Fresh-append i j is f.1 ne)

-- The queues after `clear_all`.
abbrev pub empty_of : Pipeline → Pipeline
empty_of p = record p { pending_write = []; awaiting_read = []; pending_write_bytes = 0 }

pub emptied : (p : Pipeline) → IsWf (empty_of p)
emptied p = record { counted = refl; within = tt; few = omega arith; small = omega arith }

module _ {ℓ} {T : Type ℓ} where
  -- The pipeline is well formed, and each sink of the line is open and stands in it once.
  abbrev pub Inv : Pipeline × List (Pending T) → Type ℓ
  Inv (p, sinks) = IsWf p × Opens sinks (reply_order p)

  pub get_elem?-append :
      (xs ys : List (Pending T)) (i : ℕ) (s : Pending T)
      → get_elem? xs i ≡ some s
      → get_elem? (xs ++ ys) i ≡ some s
  get_elem?-append [] ys i s e = absurd cc
  get_elem?-append (x ∷ xs) ys zero s e = e
  get_elem?-append (x ∷ xs) ys (suc i) s e = get_elem?-append xs ys i s e

  pub Opens-append :
      (sinks more : List (Pending T)) (is : List ℕ) → Opens sinks is → Opens (sinks ++ more) is
  Opens-append sinks more [] o = o
  Opens-append sinks more (i ∷ is) ((s, e, os), f, rest) =
      ((s, get_elem?-append sinks more i s e, os), f, Opens-append sinks more is rest)

  -- A sink that was just put at the end of the store joins the line.
  Opens-join :
      (sinks : List (Pending T)) (s : Pending T) (is : List ℕ)
      → Opens sinks is
      → IsOpen s
      → Opens (sinks ++ (s ∷ [])) (is ++ (length sinks ∷ []))
  Opens-join sinks s [] o os = ((s, get_elem?-last sinks s, os), tt, tt)
  Opens-join sinks s (i ∷ is) ((t, e, ot), f, rest) os = (
    (t, get_elem?-append sinks (s ∷ []) i t e, ot),
    Fresh-append i (length sinks) is f
        (λ h. let bound = lt_of_get_elem? sinks i t e in omega arith),
    Opens-join sinks s is rest os,
  )

  pub Opens-join_if :
      (sinks : List (Pending T)) (s : Pending T) (is : List ℕ) (taken : Bool)
      → Opens sinks is
      → IsOpen s
      → Opens (sinks ++ (s ∷ [])) (is ++ (if taken then length sinks ∷ [] else []))
  Opens-join_if sinks s is true o os = Opens-join sinks s is o os
  Opens-join_if sinks s is false o os =
      subst (Opens (sinks ++ (s ∷ []))) (sym (append-nil is)) (Opens-append sinks (s ∷ []) is o)

  pub cleared :
      (p : Pipeline) (sinks : List (Pending T)) (e : ErrorInfo) (r : Pipeline × List (Pending T))
      → clear_all p sinks e ≡ some r
      → (empty_of p, r.1) ≡ r
  unfolding clear_all
  cleared p sinks e r h =
      let (x, fails, rest) = >>=-eq-some (fail_each sinks (write_sinks p.pending_write) e) _ h in
      let (y, fails', gives) = >>=-eq-some (fail_each x (read_sinks p.awaiting_read) e) _ rest in
      ap (λ z. (empty_of p, z.1)) (sym (some_eq gives)) ∙ some_eq gives

  pub new_pending-IsOpen : (n : ℕ) (t : Trace) → 0 < n → IsOpen (new_pending {T = T} n t)
  unfolding new_pending
  new_pending-IsOpen n t h = record { pending = refl; room = h; silent = refl }

  -- What a slot makes of an open sink: it stays open, or it is complete.
  put_slot_cases :
      (s : Pending T) (slot : Slot T)
      → IsOpen s
      → (s' : Pending T) × (put_slot s slot ≡ some s')
        × ((IsOpen s' × (is_complete s' ≡ false)) ⊎ (is_complete s' ≡ true))
  put_slot_cases s slot o = elim (dec_lt (suc (length s.builder.results)) s.builder.expected) [
    | yes more ↦
        let (eq, o') = put_slot-next s slot o more in
        (after_slot s slot, eq, inl (o', open_incomplete (after_slot s slot) o'))
    | no last ↦ (
      completed s (s.builder.results ++ (slot ∷ [])),
      put_slot-last s slot o (omega (arith, last, o.room)),
      inr refl,
    )
  ]

  abbrev pub put : Slot T → Pending T → Option (Pending T)
  put slot s = put_slot s slot

  pub reply_total :
      (p : Pipeline) (sinks : List (Pending T)) (slot : Slot T) (i : AwaitingItem)
      (rest : List AwaitingItem)
      → Inv (p, sinks)
      → p.awaiting_read ≡ i ∷ rest
      → (r : Pipeline × List (Pending T)) × (on_reply (put slot) p sinks ≡ some r) × Inv r
  unfolding on_reply replied
  reply_total p sinks slot i rest (v, o) front =
      let line = subst (λ zs. Opens sinks (read_sinks zs ++ write_sinks p.pending_write)) front o in
      let (s, at_i, os) = line.0 in
      let (s', gives, ends) = put_slot_cases s slot os in
      elim ends [
        | inl (os', incomplete) ↦ (
          (p, set sinks i.sink s'),
          rw (front, at_i, gives, incomplete) refl,
          (
            v,
            subst (λ zs. Opens (set sinks i.sink s') (read_sinks zs ++ write_sinks p.pending_write))
                (sym front)
                (
                  (
                    s',
                    get_elem?-set_self sinks i.sink s' (lt_of_get_elem? sinks i.sink s at_i),
                    os',
                  ),
                  line.1,
                  Opens-set sinks i.sink s' _ line.1 line.2,
                ),
          ),
        )
        | inr complete ↦ (
          (record p { awaiting_read = rest }, set sinks i.sink s'),
          rw (front, at_i, gives, complete) refl,
          (
            record {
              counted = v.counted;
              within = v.within;
              few = omega (arith, v.few, ap length front);
              small = v.small;
            },
            Opens-set sinks i.sink s' _ line.1 line.2,
          ),
        )
      ]

  pub reply_Inv :
      (p : Pipeline) (sinks : List (Pending T)) (slot : Slot T) (r : Pipeline × List (Pending T))
      → Inv (p, sinks)
      → on_reply (put slot) p sinks ≡ some r
      → Inv r
  unfolding on_reply
  reply_Inv p sinks slot r inv e = go p.awaiting_read refl
    where
      go : (ws : List AwaitingItem) → p.awaiting_read ≡ ws → Inv r
      go [] front = let none_left : on_reply (put slot) p sinks ≡ none = rw front refl in cc
      go (i ∷ rest) front =
          let (r', e', inv') = reply_total p sinks slot i rest inv front in
          subst Inv (some_eq (sym e' ∙ e)) inv'
