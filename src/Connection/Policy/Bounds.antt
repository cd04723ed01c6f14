-- ===== src/Connection/Policy/Bounds.antt =====
-- config.hpp, impl/connection/core.ipp and reconnect.ipp: policies that are valid, and the delays they give.
use rediscoro.Prelude.{
  ◌&&◌, ◌∙◌, if◌then◌else◌, sym, subst, Bool-cases, if_true, if_false, ap, ℕ, ◌^◌, ◌≡◌, true, false,
  ◌⊎◌, inl, inr, ℤ, pos, negsuc, ltb_ℤ, leb_ℤ, arith,
}
use rediscoro.Connection.Policy.{
  Doubles, Policy, zero_d, one_d, two_d, clamp, at_least_zero, at_least_none, sane_factor,
  sane_jitter, sanitize_reconnection_policy, next_jitter, jitter_scale, backoff_ms, jittered,
  bounded_ms, calculate_reconnect_delay,
}

module _ (F : Doubles) where
  -- What the constants 0, 1 and 2 are.
  pub record Constants : Type 0 where
    pub zero_finite : F.is_finite (zero_d F) ≡ true
    pub one_finite : F.is_finite (one_d F) ≡ true
    pub two_finite : F.is_finite (two_d F) ≡ true
    pub one_two : F.less (one_d F) (two_d F) ≡ true
    pub zero_zero : F.less (zero_d F) (zero_d F) ≡ false
    pub one_one : F.less (one_d F) (one_d F) ≡ false
    pub one_zero : F.less (one_d F) (zero_d F) ≡ false

  -- Integers up to 2 ^ 53 are doubles, and rounding does not leave an interval between two of them.
  pub record Rounding : Type 0 where
    pub exact :
        (z : ℤ)
        → leb_ℤ (pos 0) z ≡ true
        → leb_ℤ z (pos (2 ^ 53)) ≡ true
        → F.llround (F.of_int z) ≡ z
    pub between :
        (x : F.D) (a b : ℤ)
        → F.is_number x ≡ true
        → leb_ℤ (pos 0) a ≡ true
        → leb_ℤ b (pos (2 ^ 53)) ≡ true
        → F.less x (F.of_int a) ≡ false
        → F.less (F.of_int b) x ≡ false
        → (leb_ℤ a (F.llround x) ≡ true) × (leb_ℤ (F.llround x) b ≡ true)

  pub record IsSane (p : Policy F) : Type 0 where
    pub attempts : leb_ℤ (pos 0) p.immediate_attempts ≡ true
    pub initial : leb_ℤ (pos 0) p.initial_delay ≡ true
    pub longest : leb_ℤ p.initial_delay p.max_delay ≡ true
    pub factor_finite : F.is_finite p.backoff_factor ≡ true
    pub factor_above : F.less (one_d F) p.backoff_factor ≡ true
    pub jitter_finite : F.is_finite p.jitter_ratio ≡ true
    pub jitter_low : F.less p.jitter_ratio (zero_d F) ≡ false
    pub jitter_high : F.less (one_d F) p.jitter_ratio ≡ false

  abbrev pub Between : ℤ → ℤ → ℤ → Type 0
  Between a b d = (leb_ℤ a d ≡ true) × (leb_ℤ d b ≡ true)

  leb_ℤ-refl : (z : ℤ) → leb_ℤ z z ≡ true
  leb_ℤ-refl (pos n) = ground arith
  leb_ℤ-refl (negsuc n) = ground arith

  leb_ℤ-trans : (a b c : ℤ) → leb_ℤ a b ≡ true → leb_ℤ b c ≡ true → leb_ℤ a c ≡ true
  leb_ℤ-trans a b c h k = ground arith

  at_least_zero_lem : (z : ℤ) → leb_ℤ (pos 0) (at_least_zero F z) ≡ true
  at_least_zero_lem (pos n) = ground arith
  at_least_zero_lem (negsuc n) = ground arith

  at_least_none-Between :
      (a b d : ℤ) → leb_ℤ (pos 0) a ≡ true → Between a b d → Between a b (at_least_none F d)
  at_least_none-Between a b d h w = elim (Bool-cases (leb_ℤ d (pos 0))) [
    | inl under ↦
        subst (Between a b) (sym (if_true _ _ under))
          (leb_ℤ-trans a d (pos 0) w.0 under, leb_ℤ-trans (pos 0) a b h (leb_ℤ-trans a d b w.0 w.1))
    | inr over ↦ subst (Between a b) (sym (if_false _ _ over)) w
  ]

  clamp-Between :
      Rounding
      → (a b : ℤ) (x : F.D) → leb_ℤ (pos 0) a ≡ true
      → leb_ℤ a b ≡ true
      → leb_ℤ b (pos (2 ^ 53)) ≡ true
      → F.is_number x ≡ true
      → Between a b (F.llround (clamp F x (F.of_int a) (F.of_int b)))
  clamp-Between R a b x low order small number = elim (Bool-cases (F.less x (F.of_int a))) [
    | inl under ↦
        subst (λ y. Between a b (F.llround y)) (sym (if_true _ _ under))
          (subst (Between a b) (sym (R.exact a low (leb_ℤ-trans a b (pos (2 ^ 53)) order small)))
            (leb_ℤ-refl a, order))
    | inr reached ↦
        subst (λ y. Between a b (F.llround y)) (sym (if_false _ _ reached))
          (elim (Bool-cases (F.less (F.of_int b) x)) [
            | inl over ↦
                subst (λ y. Between a b (F.llround y)) (sym (if_true _ _ over))
                  (subst (Between a b) (sym (R.exact b (leb_ℤ-trans (pos 0) a b low order) small))
                    (order, leb_ℤ-refl b))
            | inr within ↦
                subst (λ y. Between a b (F.llround y)) (sym (if_false _ _ within))
                  (R.between x a b number low small reached within)
          ])
  ]

  -- The factor is finite and above 1.
  sane_factor_lem :
      Constants
      → (x : F.D)
      → (F.is_finite (sane_factor F x) ≡ true) × (F.less (one_d F) (sane_factor F x) ≡ true)
  sane_factor_lem C x = ground arith

  -- The jitter is finite and in [0, 1].
  sane_jitter_lem :
      Constants
      → (x : F.D)
      → (F.is_finite (sane_jitter F x) ≡ true)
        × ((F.less (sane_jitter F x) (zero_d F) ≡ false)
            × (F.less (one_d F) (sane_jitter F x) ≡ false))
  sane_jitter_lem C x = ground arith

  sanitize-IsSane : Constants → (p : Policy F) → IsSane (sanitize_reconnection_policy F p)
  unfolding sanitize_reconnection_policy
  sanitize-IsSane C p = record {
    attempts = at_least_zero_lem p.immediate_attempts;
    initial = at_least_zero_lem p.initial_delay;
    longest = ground arith;
    factor_finite = (sane_factor_lem C p.backoff_factor).0;
    factor_above = (sane_factor_lem C p.backoff_factor).1;
    jitter_finite = (sane_jitter_lem C p.jitter_ratio).0;
    jitter_low = (sane_jitter_lem C p.jitter_ratio).1.0;
    jitter_high = (sane_jitter_lem C p.jitter_ratio).1.1;
  }

  at_least_zero-keeps : (z : ℤ) → leb_ℤ (pos 0) z ≡ true → at_least_zero F z ≡ z
  at_least_zero-keeps z h = ground arith

  longest-keeps : (a b : ℤ) → leb_ℤ a b ≡ true → (if ltb_ℤ b a then a else b) ≡ b
  longest-keeps a b h = ground arith

  sane_factor-keeps :
      (x : F.D) → F.is_finite x ≡ true → F.less (one_d F) x ≡ true → sane_factor F x ≡ x
  sane_factor-keeps x h k = ground arith

  sane_jitter-keeps :
      (x : F.D)
      → F.is_finite x ≡ true
      → F.less x (zero_d F) ≡ false
      → F.less (one_d F) x ≡ false
      → sane_jitter F x ≡ x
  sane_jitter-keeps x h k l = ground arith

  sanitize-keeps : (p : Policy F) → IsSane p → sanitize_reconnection_policy F p ≡ p
  unfolding sanitize_reconnection_policy
  sanitize-keeps p s = λ i. record {
    enabled = p.enabled;
    immediate_attempts = at_least_zero-keeps p.immediate_attempts s.attempts i;
    initial_delay = at_least_zero-keeps p.initial_delay s.initial i;
    max_delay =
        ((ap (λ a. let b = at_least_zero F p.max_delay in if ltb_ℤ b a then a else b)
                (at_least_zero-keeps p.initial_delay s.initial)
              ∙ ap (λ b. if ltb_ℤ b p.initial_delay then p.initial_delay else b)
                  (at_least_zero-keeps p.max_delay
                    (leb_ℤ-trans (pos 0) p.initial_delay p.max_delay s.initial s.longest)))
            ∙ longest-keeps p.initial_delay p.max_delay s.longest)
          i;
    backoff_factor = sane_factor-keeps p.backoff_factor s.factor_finite s.factor_above i;
    jitter_ratio = sane_jitter-keeps p.jitter_ratio s.jitter_finite s.jitter_low s.jitter_high i;
  }

  -- Where the constants 0, 1 and 2 are finite and compare as these numbers do,
  -- sanitize_reconnection_policy makes every policy sane: no count or delay is negative, the longest delay
  -- is no less than the initial one, the factor is finite and above 1, and the jitter is finite and from 0
  -- to 1. Making it valid once more changes nothing.
  pub sanitize_reconnection_policy_lem :
      Constants
      → (p : Policy F)
      → IsSane (sanitize_reconnection_policy F p)
        × (sanitize_reconnection_policy F (sanitize_reconnection_policy F p)
            ≡ sanitize_reconnection_policy F p)
  sanitize_reconnection_policy_lem C p =
      (sanitize-IsSane C p, sanitize-keeps (sanitize_reconnection_policy F p) (sanitize-IsSane C p))

  -- The delay before the jitter is a number, and so is the product that the jitter makes of it.
  pub record Numbers (p : Policy F) (count generation st : ℕ) : Type 0 where
    pub backoff : F.is_number (backoff_ms F p count) ≡ true
    pub product :
        F.is_number
          (F.times (bounded_ms F p count) (jitter_scale F p (next_jitter F st count generation)))
        ≡ true

  bounded-Between :
      Rounding
      → (p : Policy F) (count : ℕ) → IsSane p
      → leb_ℤ p.max_delay (pos (2 ^ 53)) ≡ true
      → F.is_number (backoff_ms F p count) ≡ true
      → Between p.initial_delay p.max_delay (F.llround (bounded_ms F p count))
  unfolding bounded_ms
  bounded-Between R p count s small number =
      clamp-Between R p.initial_delay p.max_delay _ s.initial s.longest small number

  jittered-Between :
      Rounding
      → (p : Policy F) (count generation st : ℕ) → IsSane p
      → leb_ℤ p.max_delay (pos (2 ^ 53)) ≡ true
      → Numbers p count generation st
      → Between p.initial_delay p.max_delay
          (F.llround (jittered F p count generation (bounded_ms F p count) st).0)
  unfolding jittered
  jittered-Between R p count generation st s small ns =
      elim (Bool-cases
        (F.less (zero_d F) (bounded_ms F p count) && F.less (zero_d F) p.jitter_ratio)) [
          | inl shaken ↦
              subst (λ (y : F.D × ℕ). Between p.initial_delay p.max_delay (F.llround y.0))
                (sym (if_true _ _ shaken))
                (clamp-Between R p.initial_delay p.max_delay _ s.initial s.longest small ns.product)
          | inr still ↦
              subst (λ (y : F.D × ℕ). Between p.initial_delay p.max_delay (F.llround y.0))
                (sym (if_false _ _ still)) (bounded-Between R p count s small ns.backoff)
        ]

  -- For a sane policy whose delays are at most 2 ^ 53 milliseconds, where the delay and its product with
  -- the jitter are numbers and rounding does what is documented of it, calculate_reconnect_delay is 0 and
  -- leaves the generator for the immediate attempts, and else lies between the initial and the longest
  -- delay.
  pub calculate_reconnect_delay-Between :
      Rounding
      → (p : Policy F) (count generation st : ℕ) → IsSane p
      → leb_ℤ p.max_delay (pos (2 ^ 53)) ≡ true
      → Numbers p count generation st
      → ((ltb_ℤ (pos count) p.immediate_attempts ≡ true)
          × (calculate_reconnect_delay F p count generation st ≡ (pos 0, st)))
        ⊎ ((ltb_ℤ (pos count) p.immediate_attempts ≡ false)
            × Between p.initial_delay p.max_delay
                (calculate_reconnect_delay F p count generation st).0)
  unfolding calculate_reconnect_delay
  calculate_reconnect_delay-Between R p count generation st s small ns =
      elim (Bool-cases (ltb_ℤ (pos count) p.immediate_attempts)) [
        | inl at_once ↦ inl (at_once, if_true _ _ at_once)
        | inr waits ↦ inr (
          waits,
          subst (λ (y : ℤ × ℕ). Between p.initial_delay p.max_delay y.0) (sym (if_false _ _ waits))
              (at_least_none-Between p.initial_delay p.max_delay _ s.initial
                (jittered-Between R p count generation st s small ns)),
        )
      ]
