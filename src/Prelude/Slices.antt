-- ===== src/Prelude/Slices.antt =====
-- How `take` and `drop` meet `++`, `length` and one another.
use Prim.Native.Nat.{ℕ, zero, suc, ◌+◌, ◌≤◌, ◌<◌}
use mathlib.Core.Path.{◌≡◌, refl, ap}
use mathlib.Core.List.{List, [], ◌∷◌, ◌++◌}
use mathlib.Core.Option.{some}
use native.Mathlib.Omega.{arith}
use rediscoro.Prelude.Lists.{length, take, drop, get_elem?}

module _ {ℓ} {A : Type ℓ} where
  pub take-all : (n : ℕ) (xs : List A) → length xs ≤ n → take n xs ≡ xs
  take-all zero [] h = refl
  take-all zero (x ∷ xs) h = absurd (omega arith)
  take-all (suc n) [] h = refl
  take-all (suc n) (x ∷ xs) h = rw (take-all n xs (omega arith))

  pub drop-all : (n : ℕ) (xs : List A) → length xs ≤ n → drop n xs ≡ []
  drop-all zero [] h = refl
  drop-all zero (x ∷ xs) h = absurd (omega arith)
  drop-all (suc n) [] h = refl
  drop-all (suc n) (x ∷ xs) h = drop-all n xs (omega arith)

  pub take-append_le : (n : ℕ) (xs ys : List A) → n ≤ length xs → take n (xs ++ ys) ≡ take n xs
  take-append_le zero xs ys h = refl
  take-append_le (suc n) [] ys h = absurd (omega arith)
  take-append_le (suc n) (x ∷ xs) ys h = rw (take-append_le n xs ys (omega arith))

  pub drop-append_le :
      (n : ℕ) (xs ys : List A) → n ≤ length xs → drop n (xs ++ ys) ≡ drop n xs ++ ys
  drop-append_le zero xs ys h = refl
  drop-append_le (suc n) [] ys h = absurd (omega arith)
  drop-append_le (suc n) (x ∷ xs) ys h = drop-append_le n xs ys (omega arith)

  -- Past the first list, `n` being its length.
  pub take-append_ge :
      (n k : ℕ) (xs ys : List A) → n ≡ length xs → take (n + k) (xs ++ ys) ≡ xs ++ take k ys
  take-append_ge n k [] ys e = ap (λ m. take m ys) (omega arith)
  take-append_ge zero k (x ∷ xs) ys e = absurd (omega arith)
  take-append_ge (suc n) k (x ∷ xs) ys e =
      let shift : suc n + k ≡ suc (n + k) = omega arith in
      rw shift (ap (◌∷◌ x) (take-append_ge n k xs ys (omega arith)))

  pub drop-append_eq : (n : ℕ) (xs ys : List A) → n ≡ length xs → drop n (xs ++ ys) ≡ ys
  drop-append_eq zero [] ys e = refl
  drop-append_eq zero (x ∷ xs) ys e = absurd (omega arith)
  drop-append_eq (suc n) [] ys e = absurd (omega arith)
  drop-append_eq (suc n) (x ∷ xs) ys e = drop-append_eq n xs ys (omega arith)

  pub take-append_eq : (n : ℕ) (xs ys : List A) → n ≡ length xs → take n (xs ++ ys) ≡ xs
  take-append_eq zero [] ys e = refl
  take-append_eq zero (x ∷ xs) ys e = absurd (omega arith)
  take-append_eq (suc n) [] ys e = absurd (omega arith)
  take-append_eq (suc n) (x ∷ xs) ys e = rw (take-append_eq n xs ys (omega arith))

  -- A slice is cut from the part up to its end.
  pub take-drop : (m n : ℕ) (xs : List A) → take n (drop m xs) ≡ drop m (take (m + n) xs)
  take-drop zero n xs = ap (λ k. take k xs) (omega arith)
  take-drop (suc m) n [] = let shift : suc m + n ≡ suc (m + n) = omega arith in rw shift (empty n)
    where
      empty : (n : ℕ) → take {A = A} n [] ≡ []
      empty zero = refl
      empty (suc n) = refl
  take-drop (suc m) n (x ∷ xs) =
      let shift : suc m + n ≡ suc (m + n) = omega arith in rw shift (take-drop m n xs)

  pub drop-drop : (m n : ℕ) (xs : List A) → drop n (drop m xs) ≡ drop (m + n) xs
  drop-drop zero n xs = ap (λ k. drop k xs) (omega arith)
  drop-drop (suc m) n [] = let shift : suc m + n ≡ suc (m + n) = omega arith in rw shift (empty n)
    where
      empty : (n : ℕ) → drop {A = A} n [] ≡ []
      empty zero = refl
      empty (suc n) = refl
  drop-drop (suc m) n (x ∷ xs) =
      let shift : suc m + n ≡ suc (m + n) = omega arith in rw shift (drop-drop m n xs)

  -- An index in range has an element.
  pub get_elem?_lt : (xs : List A) (i : ℕ) → i < length xs → (x : A) × (get_elem? xs i ≡ some x)
  get_elem?_lt [] i h = absurd (omega arith)
  get_elem?_lt (x ∷ xs) zero h = (x, refl)
  get_elem?_lt (x ∷ xs) (suc i) h = get_elem?_lt xs i (omega arith)

  pub get_elem?-last : (xs : List A) (x : A) → get_elem? (xs ++ (x ∷ [])) (length xs) ≡ some x
  get_elem?-last [] x = refl
  get_elem?-last (y ∷ xs) x = get_elem?-last xs x

  pub take-take_le : (n m : ℕ) (xs : List A) → n ≤ m → take n (take m xs) ≡ take n xs
  take-take_le zero m xs h = refl
  take-take_le (suc n) zero xs h = absurd (omega arith)
  take-take_le (suc n) (suc m) [] h = refl
  take-take_le (suc n) (suc m) (x ∷ xs) h = rw (take-take_le n m xs (omega arith))
