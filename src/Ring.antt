-- ===== src/Ring.antt =====
-- detail/ring_queue.hpp: a FIFO queue in a growable ring buffer. An operation whose assertion fails
-- gives `none`; a cell without a constructed element is `none` too.
pub mod Holds
pub mod Growth
pub mod Refine
pub mod History
mod Tests
use rediscoro.Prelude.{
  ℕ, zero, suc, ◌+◌, ◌-◌, ◌*◌, ◌%◌, ◌^◌, max, Bool, Option, none, some, List, [], ◌∷◌, ltb, leb,
  ◌==◌, if◌then◌else◌, get_elem?, set, replicate, ◌++◌, ◌>>=◌, ◌||◌,
}

pub record Ring {ℓ} (A : Type ℓ) : Type ℓ where
  pub cells : List (Option A)
  pub cap : ℕ
  pub head : ℕ
  pub size : ℕ

-- `std::size_t` addition and doubling wrap.
abbrev pub add_size : ℕ → ℕ → ℕ
add_size a b = (a + b) % 2 ^ 64

abbrev pub double_size : ℕ → ℕ
double_size a = (a * 2) % 2 ^ 64

-- `while (new_cap < need) new_cap *= 2`, on fuel.
pub grow_cap : ℕ → ℕ → ℕ → Option ℕ
grow_cap zero new_cap need = none
grow_cap (suc f) new_cap need =
    let more = grow_cap f (double_size new_cap) need in
    if ltb new_cap need then more else some new_cap

module _ {ℓ} {A : Type ℓ} where
  pub empty_ring : Ring A
  empty_ring = record { cells = []; cap = 0; head = 0; size = 0 }

  -- The element in a cell, a fault where none is constructed.
  abbrev pub cell : List (Option A) → ℕ → Option A
  cell cells i = elim (get_elem? cells i) [ none ↦ none | some o ↦ o ]

  pub is_empty : Ring A → Bool
  is_empty r = r.size == 0

  pub front : Ring A → Option A
  front r = if r.size == 0 then none else cell r.cells r.head

  pub pop_front : Ring A → Option (Ring A)
  pop_front r =
      if r.size == 0 || r.cap == 0
      then none
      else some (record r {
        cells = set r.cells r.head none;
        head = if r.size - 1 == 0 then 0 else add_size r.head 1 % r.cap;
        size = r.size - 1;
      })

  pub at : Ring A → ℕ → Option A
  at r i = if ltb i r.size then cell r.cells (add_size r.head i % r.cap) else none

  -- The loop that moves `n` elements, from the `i`-th on, to the front of the new storage.
  pub relocate : Ring A → ℕ → ℕ → Option (List (Option A))
  unfolding at
  relocate r zero i = some []
  relocate r (suc n) i = do x ← at r i; rest ← relocate r n (i + 1); some (some x ∷ rest)

  -- The fuel covers every doubling of a 64-bit size.
  pub ensure_capacity : Ring A → ℕ → Option (Ring A)
  ensure_capacity r need = if leb need r.cap then some r else (do
    new_cap ← grow_cap 65 (max 8 r.cap) need
    moved ← relocate r r.size 0
    some (record {
      cells = moved ++ replicate (new_cap - r.size) none;
      cap = new_cap;
      head = 0;
      size = r.size;
    }))

  pub emplace_back : Ring A → A → Option (Ring A)
  emplace_back r x = do
    r' ← ensure_capacity r (add_size r.size 1)
    some (record r' {
      cells = set r'.cells (add_size r'.head r'.size % r'.cap) (some x);
      size = add_size r'.size 1;
    })

  -- `clear`: the rounds are the elements left.
  clear_loop : ℕ → Ring A → Option (Ring A)
  unfolding pop_front
  clear_loop zero r = some r
  clear_loop (suc n) r = do r' ← pop_front r; clear_loop n r'

  pub clear : Ring A → Option (Ring A)
  unfolding clear_loop
  clear r = do r' ← clear_loop r.size r; some (record r' { head = 0 })

  -- The move constructor: the new queue, and the queue moved from.
  pub move_ring : Ring A → Ring A × Ring A
  move_ring r = (r, record { cells = []; cap = 0; head = 0; size = 0 })
