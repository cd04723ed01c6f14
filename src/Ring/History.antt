-- ===== src/Ring/History.antt =====
-- detail/ring_queue.hpp: whole histories of calls, against the same history on a list.
use rediscoro.Prelude.{
  ◌+◌, ◌^◌, ◌<◌, ◌≡◌, refl, Option, none, some, List, [], ◌∷◌, ◌++◌, arith, length, length-append,
  ◌>>=◌,
}
use rediscoro.Ring.{Ring, emplace_back, front, pop_front}
use rediscoro.Ring.Refine.{
  Represents, emplace_back_refines, front_refines, pop_front_refines, front-empty,
}

-- `put` is `push_back`; `get` is `front` and then `pop_front`, as the pipeline calls them.
pub data Op {ℓ} (A : Type ℓ) : Type ℓ where
  put : A → Op A
  get : Op A

module _ {ℓ} {A : Type ℓ} where
  -- What the gets of a history give, in order; `none` where a call faults.
  unfoldable pub run : Ring A → List (Op A) → Option (List A)
  run r [] = some []
  run r (put x ∷ ops) = do r' ← emplace_back r x; run r' ops
  run r (get ∷ ops) = do x ← front r; r' ← pop_front r; rest ← run r' ops; some (x ∷ rest)

  -- The same on a list of elements, oldest first.
  unfoldable pub run_list : List A → List (Op A) → Option (List A)
  run_list xs [] = some []
  run_list xs (put x ∷ ops) = run_list (xs ++ (x ∷ [])) ops
  run_list [] (get ∷ ops) = none
  run_list (x ∷ xs) (get ∷ ops) = do rest ← run_list xs ops; some (x ∷ rest)

  -- Over any history of push_back and of front with pop_front, a ring that represents a list gives what
  -- the list gives, faults included, as long as the elements of the list and the calls together are fewer
  -- than 2 ^ 61.
  pub run_refines :
      (ops : List (Op A)) (r : Ring A) (xs : List A)
      → Represents r xs
      → length xs + length ops < 2 ^ 61
      → run r ops ≡ run_list xs ops
  unfolding run run_list
  run_refines [] r xs v lim = refl
  run_refines (put x ∷ ops) r xs v lim =
      let (r', e, w) = emplace_back_refines r xs x v (omega arith) in
      rw e (run_refines ops r' (xs ++ (x ∷ [])) w (omega (arith, length-append xs (x ∷ []))))
  run_refines (get ∷ ops) r [] v lim = rw (front-empty r v)
  run_refines (get ∷ ops) r (x ∷ xs) v lim =
      let (r', e, w) = pop_front_refines r x xs v in
      rw (front_refines r x xs v, e, run_refines ops r' xs w (omega arith))
