-- ===== src/Adapter/Bounds.antt =====
-- adapter/detail/adapt_scalar.hpp: which integers an integral type takes.
use rediscoro.Prelude.{
  ℕ, ◌-◌, ◌^◌, ◌<◌, ◌≡◌, refl, true, ◌⊎◌, inl, inr, ℤ, pos, negsuc, arith, fits_i64, dec_lt,
}
use rediscoro.Resp3.Kind.{Kind}
use rediscoro.Resp3.Message.{message, Attrs, integer}
use rediscoro.Adapter.Error.{make_value_out_of_range}
use rediscoro.Adapter.Scalar.{
  Width, w8, w16, w32, w64, bits, unsigned, signed, adapt_unsigned, adapt_signed, adapt_scalar,
}

-- The value lies between the limits of the type.
abbrev pub FitsSigned : Width → ℤ → Type 0
FitsSigned w (pos n) = n < 2 ^ (bits w - 1)
FitsSigned w (negsuc n) = n < 2 ^ (bits w - 1)

abbrev pub FitsUnsigned : Width → ℤ → Type 0
FitsUnsigned w (pos n) = n < 2 ^ bits w
FitsUnsigned w (negsuc n) = ⊥

signed_fit : (w : Width) (v : ℤ) → FitsSigned w v → adapt_signed w v ≡ inl v
unfolding adapt_signed
signed_fit w8 (pos n) h = ground arith
signed_fit w8 (negsuc n) h = ground arith
signed_fit w16 (pos n) h = ground arith
signed_fit w16 (negsuc n) h = ground arith
signed_fit w32 (pos n) h = ground arith
signed_fit w32 (negsuc n) h = ground arith
signed_fit w64 (pos n) h = ground arith
signed_fit w64 (negsuc n) h = ground arith

signed_unfit :
    (w : Width) (v : ℤ)
    → fits_i64 v ≡ true
    → ¬ FitsSigned w v
    → adapt_signed w v ≡ inr (make_value_out_of_range Kind.integer)
unfolding adapt_signed
signed_unfit w8 (pos n) f h = ground arith
signed_unfit w8 (negsuc n) f h = ground arith
signed_unfit w16 (pos n) f h = ground arith
signed_unfit w16 (negsuc n) f h = ground arith
signed_unfit w32 (pos n) f h = ground arith
signed_unfit w32 (negsuc n) f h = ground arith
signed_unfit w64 (pos n) f h = absurd (ground arith)
signed_unfit w64 (negsuc n) f h = absurd (ground arith)

unsigned_fit : (w : Width) (n : ℕ) → n < 2 ^ 63 → n < 2 ^ bits w → adapt_unsigned w (pos n) ≡ inl n
unfolding adapt_unsigned
unsigned_fit w8 n f h = ground arith
unsigned_fit w16 n f h = ground arith
unsigned_fit w32 n f h = ground arith
unsigned_fit w64 n f h = ground arith

unsigned_unfit :
    (w : Width) (v : ℤ)
    → fits_i64 v ≡ true
    → ¬ FitsUnsigned w v
    → adapt_unsigned w v ≡ inr (make_value_out_of_range Kind.integer)
unfolding adapt_unsigned
unsigned_unfit w8 (pos n) f h = ground arith
unsigned_unfit w16 (pos n) f h = ground arith
unsigned_unfit w32 (pos n) f h = ground arith
unsigned_unfit w64 (pos n) f h = absurd (ground arith)
unsigned_unfit w (negsuc n) f h = ground arith

FitsSigned-dec : (w : Width) (v : ℤ) → Dec (FitsSigned w v)
FitsSigned-dec w (pos n) = dec_lt n (2 ^ (bits w - 1))
FitsSigned-dec w (negsuc n) = dec_lt n (2 ^ (bits w - 1))

signed_lem :
    (w : Width) (v : ℤ)
    → fits_i64 v ≡ true
    → (FitsSigned w v × (adapt_signed w v ≡ inl v))
      ⊎ (¬ FitsSigned w v × (adapt_signed w v ≡ inr (make_value_out_of_range Kind.integer)))
signed_lem w v f = elim (FitsSigned-dec w v) [
  | Dec.yes h ↦ inl (h, signed_fit w v h)
  | Dec.no h ↦ inr (h, signed_unfit w v f h)
]

unsigned_lem :
    (w : Width) (v : ℤ)
    → fits_i64 v ≡ true
    → ((n : ℕ) × (v ≡ pos n) × FitsUnsigned w v × (adapt_unsigned w v ≡ inl n))
      ⊎ (¬ FitsUnsigned w v × (adapt_unsigned w v ≡ inr (make_value_out_of_range Kind.integer)))
unsigned_lem w (pos n) f = elim (dec_lt n (2 ^ bits w)) [
  | Dec.yes h ↦ inl (n, refl, h, unsigned_fit w n (ground arith) h)
  | Dec.no h ↦ inr (h, unsigned_unfit w (pos n) f h)
]
unsigned_lem w (negsuc n) f = inr (λ h. h, unsigned_unfit w (negsuc n) f (λ h. h))

-- For a number that std::int64_t holds and an integral type of 8, 16, 32 or 64 bits, signed or not,
-- adapt_scalar gives this very number if the type holds it, and value_out_of_range otherwise.
pub adapt_scalar-bounds :
    (w : Width) (v : ℤ) (at : Attrs)
    → fits_i64 v ≡ true
    → let s = adapt_scalar (signed w) (message (integer v) at) in
      let u = adapt_scalar (unsigned w) (message (integer v) at) in
      ((FitsSigned w v × (s ≡ inl v))
        ⊎ (¬ FitsSigned w v × (s ≡ inr (make_value_out_of_range Kind.integer))))
      × (((n : ℕ) × (v ≡ pos n) × FitsUnsigned w v × (u ≡ inl n))
          ⊎ (¬ FitsUnsigned w v × (u ≡ inr (make_value_out_of_range Kind.integer))))
unfolding adapt_scalar
adapt_scalar-bounds w v at f = (signed_lem w v f, unsigned_lem w v f)
