-- ===== src/Ring/Holds.antt =====
-- detail/ring_queue.hpp: which cells hold which elements.
use native.Mathlib.Nat.{mod-add-mod, mod-eq_of_lt, mod-eq-sub-mod}
use rediscoro.Prelude.{
  ℕ, zero, suc, ◌+◌, ◌-◌, ◌%◌, ◌≤◌, ◌<◌, ◌≡◌, refl, sym, ap, ◌∙◌, ◌≢◌, Option, some, List, [], ◌∷◌,
  ◌++◌, map, arith, dec_lt, length, get_elem?, set, length-append, get_elem?-set_ne, append_assoc,
  subst,
}

module _ {ℓ} {A : Type ℓ} where
  -- From cell `h` on, going round at `m`, the cells hold `xs`.
  abbrev pub Holds : List (Option A) → ℕ → ℕ → List A → Type ℓ
  Holds cells m h [] = Unit
  Holds cells m h (x ∷ xs) = (get_elem? cells h ≡ some (some x)) × Holds cells m ((h + 1) % m) xs

-- Fewer than `m` steps round the ring do not come back to the start.
pub add-mod-ne_self : (m h d : ℕ) → h < m → 0 < d → d < m → (h + d) % m ≢ h
add-mod-ne_self m h d hh hp hd = elim (dec_lt (h + d) m) [
  | yes p ↦ omega (arith, mod-eq_of_lt p)
  | no p ↦ omega (
    arith,
    mod-eq-sub-mod {n = h + d} {m = m} (omega arith),
    mod-eq_of_lt {n = h + d - m} {m = m} (omega arith),
  )
]

-- One step and `d` more are `d + 1` steps.
pub step-mod : (m h d : ℕ) → ((h + 1) % m + d) % m ≡ (h + suc d) % m
step-mod m h d = rw mod-add-mod (ap (λ k. k % m) (omega arith))

module _ {ℓ} {A : Type ℓ} where
  -- A write `d` steps on, past the elements, leaves them.
  pub Holds-set :
      (cells : List (Option A)) (m h i d : ℕ) (v : Option A) (xs : List A)
      → h < m
      → length xs ≤ d
      → d < m
      → i ≡ (h + d) % m
      → Holds cells m h xs
      → Holds (set cells i v) m h xs
  Holds-set cells m h i d v [] hh hx hd e held = tt
  Holds-set cells m h i zero v (x ∷ xs) hh hx hd e held = absurd (omega arith)
  Holds-set cells m h i (suc d) v (x ∷ xs) hh hx hd e held = (
    get_elem?-set_ne cells v (λ q. add-mod-ne_self m h (suc d) hh (omega arith) hd (sym e ∙ q))
        ∙ held.0,
    Holds-set cells m ((h + 1) % m) i d v xs (omega arith) (omega arith) (omega arith)
        (e ∙ sym (step-mod m h d)) held.1,
  )

  -- One more element in the cell behind the last.
  pub Holds-snoc :
      (cells : List (Option A)) (m h : ℕ) (x : A) (xs : List A)
      → h < m
      → get_elem? cells ((h + length xs) % m) ≡ some (some x)
      → Holds cells m h xs
      → Holds cells m h (xs ++ (x ∷ []))
  Holds-snoc cells m h x [] hh e held = (rw (← at_start) e, tt)
    where
      at_start : (h + 0) % m ≡ h
      at_start = ap (λ k. k % m) (omega arith) ∙ mod-eq_of_lt hh
  Holds-snoc cells m h x (y ∷ xs) hh e held = (
    held.0,
    Holds-snoc cells m ((h + 1) % m) x xs (omega arith) (rw (step-mod m h (length xs)) e) held.1,
  )

  get_elem?-append :
      (pre : List (Option A)) (o : Option A) (post : List (Option A))
      → get_elem? (pre ++ (o ∷ post)) (length pre) ≡ some o
  get_elem?-append [] o post = refl
  get_elem?-append (p ∷ pre) o post = get_elem?-append pre o post

  -- Elements laid out in a row are held from the first of them on.
  pub Holds-row :
      (pre post : List (Option A)) (m h : ℕ) (xs : List A)
      → h ≡ length pre
      → h + length xs ≤ m
      → Holds (pre ++ (map some xs ++ post)) m h xs
  Holds-row pre post m h [] e hx = tt
  Holds-row pre post m h (x ∷ []) e hx = (rw e (get_elem?-append pre (some x) post), tt)
  Holds-row pre post m h (x ∷ y ∷ ys) e hx = (
    rw e (get_elem?-append pre (some x) (map some (y ∷ ys) ++ post)),
    subst (λ k. Holds (pre ++ (some x ∷ (map some (y ∷ ys) ++ post))) m k (y ∷ ys))
        (sym (mod-eq_of_lt (omega arith)))
        (subst (λ row. Holds row m (h + 1) (y ∷ ys)) (append_assoc pre (some x ∷ []) _)
          (Holds-row (pre ++ (some x ∷ [])) post m (h + 1) (y ∷ ys)
            (omega (arith, length-append pre (some x ∷ []))) (omega arith))),
  )
