-- ===== src/Resp3/Buffer/Growth.antt =====
-- resp3/buffer.hpp, `ensure_writable`: the doubling loop ends, and makes the room asked for.
use native.Mathlib.Nat.{pow-suc}
use rediscoro.Prelude.{
  ℕ, zero, suc, ◌+◌, ◌-◌, ◌*◌, ◌/◌, ◌%◌, ◌^◌, ◌≤◌, ◌<◌, ◌≡◌, ap, some, arith, ltb, Bool-cases, inl,
  inr,
}
use rediscoro.Resp3.Buffer.{grow_size, size_max}

-- `f` doublings reach half of the address space, after which the loop breaks.
grow_size_total :
    (f s w n : ℕ)
    → 2 ^ 63 ≤ s * 2 ^ f
    → w ≤ s
    → w + n < 2 ^ 64
    → (m : ℕ) × (grow_size (suc f) s w n ≡ some m) × (w + n ≤ m)
unfolding grow_size
grow_size_total zero s w n h hw small = elim (Bool-cases (ltb (s - w) n)) [
  | inl more ↦ ((w + n) % 2 ^ 64, ground arith, omega arith)
  | inr enough ↦ (s, rw enough, ground arith)
]
grow_size_total (suc f) s w n h hw small = elim (Bool-cases (ltb (s - w) n)) [
  | inl more ↦ elim (Bool-cases (ltb (size_max / 2) s)) [
    | inl large ↦ ((w + n) % 2 ^ 64, ground arith, omega arith)
    | inr room ↦
        rw (more, room)
          (grow_size_total f (s * 2) w n (omega (arith, ap (λ (t : ℕ). s * t) (pow-suc 2 f)))
            (omega arith) small)
  ]
  | inr enough ↦ (s, rw enough, ground arith)
]

-- From a non-empty vector the fuel of `ensure_writable` is enough.
pub grow_size_lem :
    (s w n : ℕ)
    → 0 < s
    → w ≤ s
    → w + n < 2 ^ 64
    → (m : ℕ) × (grow_size 64 s w n ≡ some m) × (w + n ≤ m)
grow_size_lem s w n h hw small = grow_size_total 63 s w n (omega arith) hw small
