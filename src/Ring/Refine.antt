-- ===== src/Ring/Refine.antt =====
-- detail/ring_queue.hpp against the list of its elements, oldest first.
use native.Mathlib.Nat.{mod-add-mod, mod-eq_of_lt}
use rediscoro.Prelude.{
  ℕ, zero, suc, ◌+◌, ◌%◌, ◌-◌, ◌^◌, ◌≤◌, ◌<◌, max, ◌≡◌, refl, ap, sym, ◌∙◌, inl, inr, false, none,
  some, List, [], ◌∷◌, ◌++◌, map, subst, arith, Option, Bool-cases, leb, leb→le, length, replicate,
  length-append, length-replicate, length-map, length-set, get_elem?, get_elem?-set_self, set, ◌||◌,
  if◌then◌else◌, ◌==◌,
}
use rediscoro.Ring.{
  Ring, grow_cap, add_size, relocate, ensure_capacity, cell, empty_ring, emplace_back, front,
  pop_front, clear, clear_loop,
}
use rediscoro.Ring.Holds.{Holds, Holds-row, Holds-set, Holds-snoc}
use rediscoro.Ring.Growth.{grow_cap_lem, relocate_lem, index-mod}

-- The ring is well formed and holds the elements `xs`.
pub record Represents {ℓ} {A : Type ℓ} (r : Ring A) (xs : List A) : Type ℓ where
  pub small : r.cap ≤ 2 ^ 62
  pub storage : length r.cells ≡ r.cap
  pub head_in : 0 < r.cap → r.head < r.cap
  pub count : length xs ≡ r.size
  pub fits : r.size ≤ r.cap
  pub held : Holds r.cells r.cap r.head xs

module _ {ℓ} {A : Type ℓ} where
  pub empty-Represents : Represents (empty_ring {A = A}) []
  unfolding empty_ring
  empty-Represents = record {
    small = omega arith;
    storage = refl;
    head_in = omega arith;
    count = refl;
    fits = omega arith;
    held = tt;
  }

  relocate_all :
      (r : Ring A) (xs : List A) → Represents r xs → relocate r r.size 0 ≡ some (map some xs)
  unfolding relocate
  relocate_all r [] v = rw (← v.count)
  relocate_all r (x ∷ xs) v =
      relocate_lem r r.size 0 (x ∷ xs) v.small inside v.fits (omega arith) v.count
        (subst (λ k. Holds r.cells r.cap k (x ∷ xs)) start v.held)
    where
      open v use {head_in, count, fits}

      inside : r.head < r.cap
      inside = head_in (omega arith)

      start : r.head ≡ (r.head + 0) % r.cap
      start = sym (ap (λ k. k % r.cap) (omega arith) ∙ mod-eq_of_lt inside)

  -- Room for one more element, with the same elements.
  pub ensure_capacity_lem :
      (r : Ring A) (xs : List A)
      → Represents r xs
      → length xs < 2 ^ 61
      → (r' : Ring A) × (ensure_capacity r (r.size + 1) ≡ some r')
        × Represents r' xs
        × (r'.size < r'.cap)
  unfolding ensure_capacity
  ensure_capacity_lem r xs v lim = elim (Bool-cases (leb (r.size + 1) r.cap)) [
    | inl roomy ↦ (r, rw roomy, v, omega (arith, leb→le (r.size + 1) r.cap roomy))
    | inr full ↦
        grown full (grow_cap_lem r.cap (r.size + 1) (ground arith) (omega arith) (ground arith))
  ]
    where
      open v use {small, count, fits}

      grown :
          leb (r.size + 1) r.cap ≡ false
          → (c : ℕ) × (grow_cap 65 (max 8 r.cap) (r.size + 1) ≡ some c)
            × (r.size + 1 ≤ c)
            × (c ≤ 2 ^ 62)
          → (r' : Ring A) × (ensure_capacity r (r.size + 1) ≡ some r')
            × Represents r' xs
            × (r'.size < r'.cap)
      grown full (c, e, lo, hi) = (
        record {
          cells = map some xs ++ replicate (c - r.size) none;
          cap = c;
          head = 0;
          size = r.size;
        },
        rw (full, e, relocate_all r xs v),
        record {
          small = hi;
          storage = omega (
            arith,
            length-append (map some xs) (replicate (c - r.size) none),
            length-map xs (λ x. some x),
            length-replicate {A = Option A} (c - r.size) none,
          );
          head_in = λ p. p;
          count = count;
          fits = omega arith;
          held = Holds-row [] (replicate (c - r.size) none) c 0 xs refl (omega arith);
        },
        omega arith,
      )

  -- The new element goes to the end.
  pub emplace_back_refines :
      (r : Ring A) (xs : List A) (x : A)
      → Represents r xs
      → length xs < 2 ^ 61
      → (r' : Ring A) × (emplace_back r x ≡ some r') × Represents r' (xs ++ (x ∷ []))
  unfolding emplace_back
  emplace_back_refines r xs x v lim = stored (ensure_capacity_lem r xs v lim)
    where
      grow_arg : add_size r.size 1 ≡ r.size + 1
      grow_arg = mod-eq_of_lt (omega (arith, v.small, v.fits))

      stored :
          (r' : Ring A) × (ensure_capacity r (r.size + 1) ≡ some r')
            × Represents r' xs
            × (r'.size < r'.cap)
          → (q : Ring A) × (emplace_back r x ≡ some q) × Represents q (xs ++ (x ∷ []))
      stored (r', e, w, room) = (
        record r' { cells = set r'.cells i (some x); size = add_size r'.size 1 },
        rw (grow_arg, e),
        record {
          small = w.small;
          storage = omega (arith, length-set r'.cells i (some x), w.storage);
          head_in = w.head_in;
          count = omega (arith, length-append xs (x ∷ []), w.count, w.small);
          fits = omega (arith, w.small);
          held =
              Holds-snoc (set r'.cells i (some x)) r'.cap r'.head x xs inside
                (subst (λ k. get_elem? (set r'.cells i (some x)) k ≡ some (some x)) here
                  (get_elem?-set_self r'.cells i (some x) (omega (arith, w.storage))))
                (Holds-set r'.cells r'.cap r'.head i r'.size (some x) xs inside
                  (omega (arith, w.count)) room (here ∙ ap (λ k. (r'.head + k) % r'.cap) w.count)
                  w.held);
        },
      )
        where
          i : ℕ
          i = add_size r'.head r'.size % r'.cap

          inside : r'.head < r'.cap
          inside = w.head_in (omega arith)

          here : i ≡ (r'.head + length xs) % r'.cap
          here =
              ap (λ k. k % r'.cap)
                (index-mod r'.cap r'.head r'.size w.small inside w.fits
                  ∙ ap (λ k. r'.head + k) (sym w.count))

  pub front_refines : (r : Ring A) (x : A) (xs : List A) → Represents r (x ∷ xs) → front r ≡ some x
  unfolding front
  front_refines r x xs v = rw (size_pos, v.held.0, cell)
    where
      size_pos : (r.size == 0) ≡ false
      size_pos = ground (arith, v.count)

  -- The oldest element leaves, and its cell is given up.
  pub pop_front_refines :
      (r : Ring A) (x : A) (xs : List A)
      → Represents r (x ∷ xs)
      → (r' : Ring A) × (pop_front r ≡ some r') × Represents r' xs
  unfolding pop_front
  pop_front_refines r x xs v = (
    record r { cells = set r.cells r.head none; head = next; size = r.size - 1 },
    rw full,
    record {
      small = small;
      storage = omega (arith, length-set r.cells r.head none);
      head_in = λ p. ground arith;
      count = omega arith;
      fits = omega arith;
      held = left xs count held.1;
    },
  )
    where
      open v use {small, storage, head_in, count, fits, held}

      inside : r.head < r.cap
      inside = head_in (omega arith)

      full : (r.size == 0 || r.cap == 0) ≡ false
      full = ground arith

      next : ℕ
      next = if r.size - 1 == 0 then 0 else add_size r.head 1 % r.cap

      step : add_size r.head 1 ≡ r.head + 1
      step = mod-eq_of_lt (omega arith)

      wrap : r.head ≡ ((r.head + 1) % r.cap + (r.cap - 1)) % r.cap
      wrap = sym (mod-add-mod (r.head + 1) r.cap (r.cap - 1) ∙ grind arith)

      left :
          (ys : List A)
          → suc (length ys) ≡ r.size
          → Holds r.cells r.cap ((r.head + 1) % r.cap) ys
          → Holds (set r.cells r.head none) r.cap next ys
      left [] c h = tt
      left (y ∷ ys) c h =
          subst (λ k. Holds (set r.cells r.head none) r.cap k (y ∷ ys)) (sym moved)
            (Holds-set r.cells r.cap ((r.head + 1) % r.cap) r.head (r.cap - 1) none (y ∷ ys)
              (omega arith) (omega arith) (omega arith) wrap h)
        where
          moved : next ≡ (r.head + 1) % r.cap
          moved = ground (arith, step)

  clear_loop_lem :
      (n : ℕ) (r : Ring A) (xs : List A)
      → Represents r xs
      → n ≡ length xs
      → (r' : Ring A) × (clear_loop n r ≡ some r') × Represents r' []
  unfolding clear_loop
  clear_loop_lem zero r [] v e = (r, refl, v)
  clear_loop_lem zero r (x ∷ xs) v e = absurd (omega arith)
  clear_loop_lem (suc n) r [] v e = absurd (omega arith)
  clear_loop_lem (suc n) r (x ∷ xs) v e =
      let (r', e', w) = pop_front_refines r x xs v in rw e' (clear_loop_lem n r' xs w (omega arith))

  -- Clearing destroys every element and keeps the storage.
  pub clear_refines :
      (r : Ring A) (xs : List A)
      → Represents r xs
      → (r' : Ring A) × (clear r ≡ some r') × Represents r' []
  unfolding clear
  clear_refines r xs v = emptied (clear_loop_lem r.size r xs v (sym v.count))
    where
      emptied :
          (r' : Ring A) × (clear_loop r.size r ≡ some r') × Represents r' []
          → (r' : Ring A) × (clear r ≡ some r') × Represents r' []
      emptied (r', e, w) = (
        record r' { head = 0 },
        rw e,
        record {
          small = w.small;
          storage = w.storage;
          head_in = λ p. p;
          count = w.count;
          fits = w.fits;
          held = tt;
        },
      )

  pub front-empty : (r : Ring A) → Represents r [] → front r ≡ none
  unfolding front
  front-empty r v = ground (arith, v.count)
