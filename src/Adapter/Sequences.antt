-- ===== src/Adapter/Sequences.antt =====
-- adapter/detail/adapt_sequence.hpp and adapt_array.hpp: the loop over the elements, on both of its ends.
use rediscoro.Prelude.{
  ℕ, suc, ◌+◌, ◌≡◌, refl, sym, ap, ◌∙◌, List, [], ◌∷◌, ◌++◌, length, get_elem?, ◌⊎◌, inl, inr, some,
  Sum-cases, true≢false, same_some, none≢some, Option, none, subst, ==_iff, Bool-cases, true, false,
  ◌==◌, same_inl, same_inr, inl≢inr, append_assoc, append-nil, arith, ◌↔◌,
}
use rediscoro.Adapter.Error.{
  Error, path_index, prepend_path, make_type_mismatch, make_size_mismatch,
}
use rediscoro.Adapter.Containers.{elements, element_loop, adapt_sequence, adapt_std_array}
use rediscoro.Resp3.Kind.{Kind}
use rediscoro.Resp3.Message.{Message, message, array, set, push, Messages, Attrs}

module _ {ℓ} {V : Type ℓ} (adapt : Message → V ⊎ Error) where
  -- The values are those of the messages, one after the other.
  abbrev pub Yields : List Message → List V → Type ℓ
  Yields [] [] = Unit
  Yields (m ∷ ms) (v ∷ vs) = (adapt m ≡ inl v) × Yields ms vs
  Yields _ _ = ⊥ × Unit {ℓ}

  element_loop_value :
      (i : ℕ) (out : List V) (m : Message) (ms : List Message) (v : V)
      → adapt m ≡ inl v
      → element_loop adapt i out (m ∷ ms) ≡ element_loop adapt (i + 1) (out ++ (v ∷ [])) ms
  unfolding element_loop
  element_loop_value i out m ms v e = rw (e, element_loop) refl

  element_loop_error :
      (i : ℕ) (out : List V) (m : Message) (ms : List Message) (e : Error)
      → adapt m ≡ inr e
      → element_loop adapt i out (m ∷ ms) ≡ inr (prepend_path (path_index i) e)
  unfolding element_loop
  element_loop_error i out m ms e h = rw (h, element_loop) refl

  -- The element at `j` is refused, and those before it are not.
  pub record FirstRefused (i : ℕ) (ms : List Message) (e : Error) : Type ℓ where
    pub index : ℕ
    pub element : Message
    pub cause : Error
    pub here : get_elem? ms index ≡ some element
    pub refused : adapt element ≡ inr cause
    pub same_error : e ≡ prepend_path (path_index (i + index)) cause

  pub element_loop-Yields :
      (i : ℕ) (out xs : List V) (ms : List Message)
      → element_loop adapt i out ms ≡ inl xs
      → (ys : List V) × (xs ≡ out ++ ys) × Yields ms ys
  unfolding element_loop
  element_loop-Yields i out xs [] h = ([], same_inl (sym h) ∙ sym (append-nil out), tt)
  element_loop-Yields i out xs (m ∷ ms) h = elim (Sum-cases (adapt m)) [
    | inl (v, e) ↦
        let (ys, split, all) =
          element_loop-Yields (i + 1) (out ++ (v ∷ [])) xs ms
            (sym (element_loop_value i out m ms v e) ∙ h) in
        (v ∷ ys, split ∙ append_assoc out (v ∷ []) ys, (e, all))
    | inr (er, e) ↦ absurd (inl≢inr (sym h ∙ element_loop_error i out m ms er e))
  ]

  pub Yields-element_loop :
      (i : ℕ) (out ys : List V) (ms : List Message)
      → Yields ms ys
      → element_loop adapt i out ms ≡ inl (out ++ ys)
  unfolding element_loop
  Yields-element_loop i out [] [] h = ap inl (sym (append-nil out))
  Yields-element_loop i out (v ∷ ys) [] h = absurd h.0
  Yields-element_loop i out [] (m ∷ ms) h = absurd h.0
  Yields-element_loop i out (v ∷ ys) (m ∷ ms) h =
      element_loop_value i out m ms v h.0
      ∙ Yields-element_loop (i + 1) (out ++ (v ∷ [])) ys ms h.1
      ∙ ap inl (append_assoc out (v ∷ []) ys)

  pub element_loop-FirstRefused :
      (i : ℕ) (out : List V) (ms : List Message) (e : Error)
      → element_loop adapt i out ms ≡ inr e
      → FirstRefused i ms e
  unfolding element_loop
  element_loop-FirstRefused i out [] e h = absurd (inl≢inr h)
  element_loop-FirstRefused i out (m ∷ ms) e h = elim (Sum-cases (adapt m)) [
    | inl (v, ok) ↦
        let r =
          element_loop-FirstRefused (i + 1) (out ++ (v ∷ [])) ms e
            (sym (element_loop_value i out m ms v ok) ∙ h) in
        record {
          index = suc r.index;
          element = r.element;
          cause = r.cause;
          here = r.here;
          refused = r.refused;
          same_error = r.same_error ∙ ap (λ k. prepend_path (path_index k) r.cause) (omega arith);
        }
    | inr (er, failed) ↦ record {
      index = 0;
      element = m;
      cause = er;
      here = refl;
      refused = failed;
      same_error =
          same_inr (sym h ∙ element_loop_error i out m ms er failed)
          ∙ ap (λ k. prepend_path (path_index k) er) (omega arith);
    }
  ]

-- An error of the adapter itself, and not of one inside it.
abbrev pub IsPlain : Error → Type 0
IsPlain e = (e.path ≡ []) × (e.cached_message ≡ none)

-- The elements of a message that a sequence can be made of.
pub sequence_elements : Message → Option (List Message)
sequence_elements (message (array ms) at) = some (elements ms)
sequence_elements (message (set ms) at) = some (elements ms)
sequence_elements (message (push ms) at) = some (elements ms)
sequence_elements _ = none

pub array_elements : Message → Option (List Message)
array_elements (message (array ms) at) = some (elements ms)
array_elements _ = none

module _ {ℓ} {V : Type ℓ} (adapt : Message → V ⊎ Error) where
  loop_iff :
      (ms : List Message) (xs : List V) → (element_loop adapt 0 [] ms ≡ inl xs) ↔ Yields adapt ms xs
  loop_iff ms xs = (
    λ h.
        let (ys, split, all) = element_loop-Yields adapt 0 [] xs ms h in
        subst (λ zs. Yields adapt ms zs) (sym split) all,
    λ all. Yields-element_loop adapt 0 [] xs ms all,
  )

  pub adapt_sequence-loop :
      (m : Message)
      → ((ms : List Message) × (sequence_elements m ≡ some ms)
          × (adapt_sequence adapt m ≡ element_loop adapt 0 [] ms))
        ⊎ ((sequence_elements m ≡ none)
            × (e : Error) × IsPlain e
            × (adapt_sequence adapt m ≡ inr e))
  unfolding adapt_sequence sequence_elements make_type_mismatch
  adapt_sequence-loop (message (array ms) at) = inl (elements ms, refl, refl)
  adapt_sequence-loop (message (set ms) at) = inl (elements ms, refl, refl)
  adapt_sequence-loop (message (push ms) at) = inl (elements ms, refl, refl)
  adapt_sequence-loop (message _ at) = inr (refl, _, (refl, refl), refl)

  -- adapt_sequence gives some values exactly if the message is an array, a set or a push whose elements
  -- adapt to them, in order.
  pub adapt_sequence_lem :
      (m : Message) (xs : List V)
      → (adapt_sequence adapt m ≡ inl xs)
        ↔ ((ms : List Message) × (sequence_elements m ≡ some ms) × Yields adapt ms xs)
  adapt_sequence_lem m xs = elim (adapt_sequence-loop m) [
    | inl (ms, found, same) ↦ (
      λ h. (ms, found, (loop_iff ms xs).0 (sym same ∙ h)),
      λ (ms', found', all).
          same
          ∙ (loop_iff ms xs).1
              (subst (λ zs. Yields adapt zs xs) (same_some (sym found' ∙ found)) all),
    )
    | inr (nothing, e, plain, same) ↦ (
      λ h. absurd (inl≢inr (sym h ∙ same)),
      λ (ms', found', all). absurd (none≢some (sym nothing ∙ found')),
    )
  ]

  pub length-Yields : (ms : List Message) (xs : List V) → Yields adapt ms xs → length xs ≡ length ms
  length-Yields [] [] h = refl
  length-Yields [] (x ∷ xs) h = absurd h.0
  length-Yields (m ∷ ms) [] h = absurd h.0
  length-Yields (m ∷ ms) (x ∷ xs) h = ap suc (length-Yields ms xs h.1)

  array_of_size :
      (n : ℕ) (ms : Messages) (at : Attrs)
      → (length (elements ms) == n) ≡ true
      → adapt_std_array adapt n (message (array ms) at) ≡ element_loop adapt 0 [] (elements ms)
  unfolding adapt_std_array
  array_of_size n ms at h = rw h refl

  array_of_other_size :
      (n : ℕ) (ms : Messages) (at : Attrs)
      → (length (elements ms) == n) ≡ false
      → adapt_std_array adapt n (message (array ms) at)
        ≡ inr (make_size_mismatch Kind.array n (length (elements ms)))
  unfolding adapt_std_array
  array_of_other_size n ms at h = rw h refl

  -- adapt_std_array gives some values exactly if the message is an array of this many elements that adapt to them.
  pub adapt_std_array_lem :
      (n : ℕ) (m : Message) (xs : List V)
      → (adapt_std_array adapt n m ≡ inl xs) ↔ (
          (ms : List Message) × (array_elements m ≡ some ms) × (length ms ≡ n) × Yields adapt ms xs)
  unfolding adapt_std_array array_elements
  adapt_std_array_lem n (message (array ms) at) xs = elim (Bool-cases (length (elements ms) == n)) [
    | inl same ↦ (
      λ h. (
        elements ms,
        refl,
        (==_iff (length (elements ms)) n).0 same,
        (loop_iff (elements ms) xs).0 (sym (array_of_size n ms at same) ∙ h),
      ),
      λ (ms', found, size, all).
          array_of_size n ms at same
          ∙ (loop_iff (elements ms) xs).1
              (subst (λ zs. Yields adapt zs xs) (sym (same_some found)) all),
    )
    | inr other ↦ (
      λ h. absurd (inl≢inr (sym h ∙ array_of_other_size n ms at other)),
      λ (ms', found, size, all). absurd (
          true≢false (
            sym ((==_iff (length (elements ms)) n).1 (ap length (same_some found) ∙ size))
            ∙ other)),
    )
  ]
  adapt_std_array_lem n (message _ at) xs =
      (λ h. absurd (inl≢inr (sym h)), λ (ms', found, size, all). absurd (none≢some found))

  pub adapt_std_array-loop :
      (n : ℕ) (m : Message)
      → ((ms : List Message) × (array_elements m ≡ some ms)
          × (adapt_std_array adapt n m ≡ element_loop adapt 0 [] ms))
        ⊎ ((e : Error) × IsPlain e × (adapt_std_array adapt n m ≡ inr e))
  unfolding adapt_std_array array_elements make_type_mismatch make_size_mismatch
  adapt_std_array-loop n (message (array ms) at) = elim (Bool-cases (length (elements ms) == n)) [
    | inl same ↦ inl (elements ms, refl, array_of_size n ms at same)
    | inr other ↦ inr (_, (refl, refl), array_of_other_size n ms at other)
  ]
  adapt_std_array-loop n (message _ at) = inr (_, (refl, refl), refl)
