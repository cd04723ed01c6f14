-- ===== src/Connection/Policy.antt =====
-- config.hpp, impl/connection/core.ipp and reconnect.ipp: the policy of reconnection made valid, and the delay before an
-- attempt. `double` is an argument: its values, its operations and its constants.
pub mod Bounds
mod Tests
use Prim.Native.Nat.{bit_xor}
use rediscoro.Prelude.{
  ℕ, ◌+◌, ◌-◌, ◌*◌, ◌/◌, ◌%◌, ◌^◌, Bool, true, false, not, ◌&&◌, ◌||◌, ℤ, pos, negsuc, pos_part,
  neg_part, ltb_ℤ, leb_ℤ, if◌then◌else◌,
}

pub record Doubles : Type 1 where
  pub D : Type 0
  pub is_number : D → Bool
  pub is_finite : D → Bool
  pub less : D → D → Bool
  pub of_int : ℤ → D
  pub plus : D → D → D
  pub minus : D → D → D
  pub times : D → D → D
  pub pow : D → D → D
  pub llround : D → ℤ
  pub unit_step : D  -- 1.0 / 9007199254740992.0

module _ (F : Doubles) where
  pub record Policy : Type 0 where
    pub enabled : Bool
    pub immediate_attempts : ℤ
    pub initial_delay : ℤ
    pub max_delay : ℤ
    pub backoff_factor : F.D
    pub jitter_ratio : F.D

  abbrev pub zero_d : F.D
  zero_d = F.of_int (pos 0)

  abbrev pub one_d : F.D
  one_d = F.of_int (pos 1)

  abbrev pub two_d : F.D
  two_d = F.of_int (pos 2)

  -- A negative count is set to 0.
  abbrev pub at_least_zero : ℤ → ℤ
  at_least_zero z = if ltb_ℤ z (pos 0) then pos 0 else z

  -- `b <= a` on doubles is `less b a` or that neither is less, which a NaN is not; `is_finite` comes before it.
  abbrev pub sane_factor : F.D → F.D
  sane_factor x = if not (F.is_finite x) || not (F.less one_d x) then two_d else x

  abbrev pub sane_jitter : F.D → F.D
  sane_jitter x =
      if not (F.is_finite x) || F.less x zero_d then zero_d else if F.less one_d x then one_d else x

  unfoldable pub sanitize_reconnection_policy : Policy → Policy
  sanitize_reconnection_policy p =
      let initial = at_least_zero p.initial_delay in
      let longest = at_least_zero p.max_delay in
      record {
        enabled = p.enabled;
        immediate_attempts = at_least_zero p.immediate_attempts;
        initial_delay = initial;
        max_delay = if ltb_ℤ longest initial then initial else longest;
        backoff_factor = sane_factor p.backoff_factor;
        jitter_ratio = sane_jitter p.jitter_ratio;
      }

  -- `std::clamp`.
  abbrev pub clamp : F.D → F.D → F.D → F.D
  clamp v lo hi = if F.less v lo then lo else if F.less hi v then hi else v

  -- The xorshift step on the 64-bit state, which every call goes on with.
  unfoldable pub next_jitter : ℕ → ℕ → ℕ → ℕ
  next_jitter st count generation =
      let a = bit_xor st (count * 2 % 2 ^ 64) in
      let b = bit_xor a (generation * 2 ^ 17 % 2 ^ 64) in
      let c = bit_xor b (b / 2 ^ 12) in
      let d = bit_xor c (c * 2 ^ 25 % 2 ^ 64) in bit_xor d (d / 2 ^ 27)

  unfoldable pub jitter_scale : Policy → ℕ → F.D
  jitter_scale p st =
      let drawn = st * 2685821657736338717 % 2 ^ 64 / 2 ^ 11 in
      let unit = F.times (F.of_int (pos drawn)) F.unit_step in
      F.plus (F.minus one_d p.jitter_ratio) (F.times (F.times two_d p.jitter_ratio) unit)

  abbrev pub index_of : ℕ → ℤ → ℤ
  index_of count (pos n) = pos (count - n)
  index_of count (negsuc n) = pos (count + n + 1)

  abbrev pub backoff_ms : Policy → ℕ → F.D
  backoff_ms p count =
      F.times (F.of_int p.initial_delay)
        (F.pow p.backoff_factor (F.of_int (index_of count p.immediate_attempts)))

  -- The delay after the jitter, and the state of the generator, which steps only where it is used.
  unfoldable pub jittered : Policy → ℕ → ℕ → F.D → ℕ → F.D × ℕ
  unfolding jitter_scale next_jitter
  jittered p count generation bounded st =
      if F.less zero_d bounded && F.less zero_d p.jitter_ratio
      then (let drawn = next_jitter st count generation in
          (
            clamp (F.times bounded (jitter_scale p drawn)) (F.of_int p.initial_delay)
                (F.of_int p.max_delay),
            drawn,
          ))
      else (bounded, st)

  unfoldable pub bounded_ms : Policy → ℕ → F.D
  bounded_ms p count = clamp (backoff_ms p count) (F.of_int p.initial_delay) (F.of_int p.max_delay)

  abbrev pub at_least_none : ℤ → ℤ
  at_least_none out = if leb_ℤ out (pos 0) then pos 0 else out

  unfoldable pub calculate_reconnect_delay : Policy → ℕ → ℕ → ℕ → ℤ × ℕ
  unfolding bounded_ms jittered
  calculate_reconnect_delay p count generation st =
      if ltb_ℤ (pos count) p.immediate_attempts
      then (pos 0, st)
      else (let (ms, after) = jittered p count generation (bounded_ms p count) st in
          (at_least_none (F.llround ms), after))
