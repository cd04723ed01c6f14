-- ===== src/Request/Digits.antt =====
-- request.hpp, `append_unsigned`: the digits that it writes are read back by the parser's `parse_i64`.
use rediscoro.Prelude.{
  ℕ, zero, suc, ◌+◌, ◌/◌, ◌%◌, ◌^◌, ◌≤◌, ◌<◌, ◌≡◌, refl, sym, ap, ◌∙◌, inl, inr, Bool, true, false,
  some, List, [], ◌∷◌, ◌++◌, length, ltb, arith, append_assoc, append-nil, Bool-cases, pos,
  length-append, lt→ltb, ◌==◌,
}
use native.Mathlib.Omega.{pow_step}
use rediscoro.Resp3.Scan.{read_digits, is_digit, from_chars_i64, parse_i64}
use rediscoro.Request.{to_digits, to_chars}

abbrev pub AllDigits : List ℕ → Type 0
AllDigits [] = Unit
AllDigits (c ∷ cs) = (is_digit c ≡ true) × AllDigits cs

AllDigits-append :
    (xs : List ℕ) (c : ℕ) → AllDigits xs → is_digit c ≡ true → AllDigits (xs ++ (c ∷ []))
AllDigits-append [] c a d = (d, tt)
AllDigits-append (x ∷ xs) c a d = (a.0, AllDigits-append xs c a.1 d)

digit : (n : ℕ) → n < 10 → is_digit (b'0' + n) ≡ true
digit n h = ground arith

pub to_digits-AllDigits : (fuel n : ℕ) → AllDigits (to_digits fuel n)
unfolding to_digits
to_digits-AllDigits zero n = tt
to_digits-AllDigits (suc fuel) n = elim (Bool-cases (ltb n 10)) [
  | inl short ↦ rw short (digit n (ground arith), tt)
  | inr long ↦ rw long (
      AllDigits-append (to_digits fuel (n / 10)) (b'0' + n % 10) (to_digits-AllDigits fuel (n / 10))
        (digit (n % 10) (omega arith)))
]

last_digit :
    (n : ℕ) (tail : List ℕ)
    → read_digits (n / 10) true ((b'0' + n % 10) ∷ tail) ≡ read_digits n true tail
unfolding read_digits
last_digit n tail =
    rw (digit (n % 10) (omega arith)) (ap (λ m. read_digits m true tail) (omega arith))

one_digit :
    (n : ℕ) (any : Bool) (tail : List ℕ)
    → n < 10
    → read_digits 0 any ((b'0' + n) ∷ tail) ≡ read_digits n true tail
unfolding read_digits
one_digit n any tail h = rw (digit n h) (ap (λ m. read_digits m true tail) (omega arith))

-- Whatever follows, the digits are read as their number.
read_digits-to_digits :
    (fuel n : ℕ) (any : Bool) (tail : List ℕ)
    → n < 10 ^ suc fuel
    → read_digits 0 any (to_digits (suc fuel) n ++ tail) ≡ read_digits n true tail
unfolding to_digits
read_digits-to_digits zero n any tail h =
    rw (lt→ltb n 10 (omega arith)) (one_digit n any tail (omega arith))
read_digits-to_digits (suc fuel) n any tail h = elim (Bool-cases (ltb n 10)) [
  | inl short ↦ rw short (one_digit n any tail (ground arith))
  | inr long ↦ rw long (
      ap (read_digits 0 any)
        (append_assoc (to_digits (suc fuel) (n / 10)) ((b'0' + n % 10) ∷ []) tail)
      ∙ read_digits-to_digits fuel (n / 10) any ((b'0' + n % 10) ∷ tail)
          (omega (arith, pow_step 10 (suc fuel)))
      ∙ last_digit n tail)
]

pub length-to_digits : (fuel n : ℕ) → length (to_digits fuel n) ≤ fuel
unfolding to_digits
length-to_digits zero n = omega arith
length-to_digits (suc fuel) n = elim (Bool-cases (ltb n 10)) [
  | inl short ↦ rw short (omega arith)
  | inr long ↦ rw long (
      omega (
        arith,
        length-append (to_digits fuel (n / 10)) ((b'0' + n % 10) ∷ []),
        length-to_digits fuel (n / 10),
      ))
]

to_digits-nonempty : (fuel n : ℕ) → 0 < length (to_digits (suc fuel) n)
unfolding to_digits
to_digits-nonempty fuel n = elim (Bool-cases (ltb n 10)) [
  | inl short ↦ rw short (omega arith)
  | inr long ↦
      rw long (omega (arith, length-append (to_digits fuel (n / 10)) ((b'0' + n % 10) ∷ [])))
]

parse_digits :
    (ds : List ℕ) (n : ℕ)
    → AllDigits ds
    → 0 < length ds
    → read_digits 0 false ds ≡ (n, true, [])
    → n < 2 ^ 63
    → parse_i64 ds ≡ some (pos n)
unfolding parse_i64 from_chars_i64
parse_digits [] n a some_digit e h = absurd (omega arith)
parse_digits (c ∷ cs) n a some_digit e h = rw (not_minus, e, lt→ltb n (2 ^ 63) h) refl
  where
    not_minus : (c == b'-') ≡ false
    not_minus = let d = a.0 in ground arith

read_none : (n : ℕ) → read_digits n true [] ≡ (n, true, [])
unfolding read_digits
read_none n = refl

-- The decimal digits written of a number below 2 ^ 63 are parsed as this number.
pub parse_i64-to_chars : (n : ℕ) → n < 2 ^ 63 → parse_i64 (to_chars n) ≡ some (pos n)
unfolding to_chars
parse_i64-to_chars n h =
    parse_digits (to_digits 20 n) n (to_digits-AllDigits 20 n) (to_digits-nonempty 19 n)
      (ap (read_digits 0 false) (sym (append-nil (to_digits 20 n)))
        ∙ read_digits-to_digits 19 n false [] (omega arith)
        ∙ read_none n)
      h

pub to_chars-AllDigits : (n : ℕ) → AllDigits (to_chars n)
unfolding to_chars
to_chars-AllDigits n = to_digits-AllDigits 20 n

pub length-to_chars : (n : ℕ) → length (to_chars n) ≤ 20
unfolding to_chars
length-to_chars n = length-to_digits 20 n
