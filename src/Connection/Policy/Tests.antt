-- ===== src/Connection/Policy/Tests.antt =====
-- config.hpp and reconnect.ipp: a policy made valid and a delay, with integers in the place of doubles.
use rediscoro.Prelude.{
  ℕ, ◌+◌, ◌-◌, ◌*◌, ◌^◌, ◌≡◌, refl, true, false, ◌⊎◌, ℤ, pos, negsuc, ltb_ℤ, leb_ℤ, arith,
}
use rediscoro.Connection.Policy.{
  Doubles, Policy, sanitize_reconnection_policy, calculate_reconnect_delay, bounded_ms, jittered,
}
use rediscoro.Connection.Policy.Bounds.{
  Constants, Rounding, IsSane, Between, sanitize_reconnection_policy_lem,
  calculate_reconnect_delay-Between,
}

abbrev part : ℤ → ℕ
part (pos n) = n
part (negsuc n) = 0

-- Numbers from 0 on, with the unit of the jitter set to 0.
abbrev whole : Doubles
whole = record {
  D = ℤ;
  is_number = λ x. true;
  is_finite = λ x. true;
  less = ltb_ℤ;
  of_int = λ z. z;
  plus = λ x y. pos (part x + part y);
  minus = λ x y. pos (part x - part y);
  times = λ x y. pos (part x * part y);
  pow = λ x y. pos (part x ^ part y);
  llround = λ x. x;
  unit_step = pos 0;
}

abbrev wild : Policy whole
wild = record {
  enabled = true;
  immediate_attempts = negsuc 4;
  initial_delay = pos 100;
  max_delay = pos 30;
  backoff_factor = pos 1;
  jitter_ratio = pos 7;
}

abbrev usual : Policy whole
usual = record {
  enabled = true;
  immediate_attempts = pos 5;
  initial_delay = pos 100;
  max_delay = pos 30000;
  backoff_factor = pos 2;
  jitter_ratio = pos 0;
}

abbrev constants : Constants whole
constants = record {
  zero_finite = refl;
  one_finite = refl;
  two_finite = refl;
  one_two = refl;
  zero_zero = refl;
  one_one = refl;
  one_zero = refl;
}

not_under : (x a : ℤ) → ltb_ℤ x a ≡ false → leb_ℤ a x ≡ true
not_under x a h = ground arith

rounding : Rounding whole
rounding = record {
  exact = λ z h k. refl;
  between = λ x a b n h k l u. (not_under x a l, not_under b x u);
}

abbrev shaken : Policy whole
shaken = record {
  enabled = true;
  immediate_attempts = pos 5;
  initial_delay = pos 100;
  max_delay = pos 30000;
  backoff_factor = pos 2;
  jitter_ratio = pos 1;
}

shaken-IsSane : IsSane whole shaken
shaken-IsSane = record {
  attempts = refl;
  initial = refl;
  longest = refl;
  factor_finite = refl;
  factor_above = refl;
  jitter_finite = refl;
  jitter_low = refl;
  jitter_high = refl;
}

tamed : sanitize_reconnection_policy whole wild ≡ record {
  enabled = true;
  immediate_attempts = pos 0;
  initial_delay = pos 100;
  max_delay = pos 100;
  backoff_factor = pos 2;
  jitter_ratio = pos 1;
}
unfolding sanitize_reconnection_policy
tamed = refl

second_delay : (calculate_reconnect_delay whole usual 7 1 5).0 ≡ pos 400
unfolding calculate_reconnect_delay bounded_ms jittered
second_delay = refl

longest_delay : (calculate_reconnect_delay whole usual 20 1 5).0 ≡ pos 30000
unfolding calculate_reconnect_delay bounded_ms jittered
longest_delay = refl

sanitize_reconnection_policy_lem_example :
    IsSane whole (sanitize_reconnection_policy whole wild)
    × (sanitize_reconnection_policy whole (sanitize_reconnection_policy whole wild)
        ≡ sanitize_reconnection_policy whole wild)
sanitize_reconnection_policy_lem_example = sanitize_reconnection_policy_lem whole constants wild

calculate_reconnect_delay-Between_example :
    ((ltb_ℤ (pos 7) (pos 5) ≡ true) × (calculate_reconnect_delay whole shaken 7 1 5 ≡ (pos 0, 5)))
    ⊎ ((ltb_ℤ (pos 7) (pos 5) ≡ false)
        × Between whole (pos 100) (pos 30000) (calculate_reconnect_delay whole shaken 7 1 5).0)
calculate_reconnect_delay-Between_example =
    calculate_reconnect_delay-Between whole rounding shaken 7 1 5 shaken-IsSane refl
      (record { backoff = refl; product = refl })
