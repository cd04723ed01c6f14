-- ===== src/Ring/Tests.antt =====
-- detail/ring_queue.hpp: a history of calls on a fresh queue.
use rediscoro.Prelude.{ℕ, ◌≡◌, refl, some, List, [], ◌∷◌, arith}
use rediscoro.Ring.{empty_ring}
use rediscoro.Ring.Refine.{empty-Represents}
use rediscoro.Ring.History.{Op, put, get, run, run_list, run_refines}

abbrev calls : List (Op ℕ)
calls = put 3 ∷ put 4 ∷ get ∷ put 5 ∷ get ∷ get ∷ []

calls_give : run_list [] calls ≡ some (3 ∷ 4 ∷ 5 ∷ [])
unfolding run_list
calls_give = refl

run_refines_example : run empty_ring calls ≡ run_list [] calls
run_refines_example = run_refines calls empty_ring [] empty-Represents (omega arith)
