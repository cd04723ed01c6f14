-- ===== src/Ring/Growth.antt =====
-- detail/ring_queue.hpp, `ensure_capacity`: the doubling loop and the move into new storage.
use native.Mathlib.Nat.{mod-add-mod, mod-eq_of_lt}
use rediscoro.Prelude.{
  ℕ, zero, suc, ◌+◌, ◌%◌, ◌^◌, ◌≤◌, ◌<◌, max, ◌≡◌, refl, ap, ◌∙◌, inl, inr, some, List, [], ◌∷◌,
  map, subst, lt→ltb, get_elem?, arith, Bool-cases, ltb, length,
}
use rediscoro.Ring.{Ring, grow_cap, double_size, add_size, at, relocate, cell}
use rediscoro.Ring.Holds.{Holds}

-- A ring that is full or empty grows to at least one more cell, in at most two rounds.
pub grow_cap_lem :
    (cap need : ℕ)
    → cap < need
    → need ≤ cap + 1
    → cap < 2 ^ 61
    → (c : ℕ) × (grow_cap 65 (max 8 cap) need ≡ some c) × (need ≤ c) × (c ≤ 2 ^ 62)
unfolding grow_cap
grow_cap_lem cap need lo hi small = elim (Bool-cases (ltb (max 8 cap) need)) [
  | inl more ↦ (double_size (max 8 cap), ground arith, ground arith, ground arith)
  | inr enough ↦ (max 8 cap, ground arith, ground arith, ground arith)
]

-- The index of the `i`-th element does not wrap at 64 bits.
pub index-mod : (cap head i : ℕ) → cap ≤ 2 ^ 62 → head < cap → i ≤ cap → add_size head i ≡ head + i
index-mod cap head i small hh hi = mod-eq_of_lt (omega arith)

module _ {ℓ} {A : Type ℓ} where
  at_lem :
      (r : Ring A) (i : ℕ) (x : A)
      → r.cap ≤ 2 ^ 62
      → r.head < r.cap
      → r.size ≤ r.cap
      → i < r.size
      → get_elem? r.cells ((r.head + i) % r.cap) ≡ some (some x)
      → at r i ≡ some x
  unfolding at
  at_lem r i x small hh hs hi e =
      rw (lt→ltb i r.size hi, index-mod r.cap r.head i small hh (omega arith), e, cell)

  -- The loop moves exactly the elements that the cells hold.
  pub relocate_lem :
      (r : Ring A) (n i : ℕ) (xs : List A)
      → r.cap ≤ 2 ^ 62
      → r.head < r.cap
      → r.size ≤ r.cap
      → i + n ≡ r.size
      → length xs ≡ n
      → Holds r.cells r.cap ((r.head + i) % r.cap) xs
      → relocate r n i ≡ some (map some xs)
  unfolding relocate
  relocate_lem r zero i [] small hh hs e l held = refl
  relocate_lem r zero i (x ∷ xs) small hh hs e l held = absurd (omega arith)
  relocate_lem r (suc n) i [] small hh hs e l held = absurd (omega arith)
  relocate_lem r (suc n) i (x ∷ xs) small hh hs e l held =
      rw (at_lem r i x small hh hs (omega arith) held.0, relocate)
        (rw (relocate_lem r n (i + 1) xs small hh hs (omega arith) (omega arith) rest, relocate))
    where
      rest : Holds r.cells r.cap ((r.head + (i + 1)) % r.cap) xs
      rest =
          subst (λ k. Holds r.cells r.cap k xs)
            (mod-add-mod (r.head + i) r.cap 1 ∙ ap (λ k. k % r.cap) (omega arith)) held.1
