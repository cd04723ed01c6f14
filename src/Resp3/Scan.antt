-- ===== src/Resp3/Scan.antt =====
-- resp3/impl/parser.ipp, namespace detail: lines, numbers and lengths.
use rediscoro.Prelude.{
  ℕ, zero, suc, ◌+◌, ◌-◌, ◌*◌, ◌/◌, ◌^◌, Bool, true, false, ◌&&◌, Option, none, some, List, [], ◌∷◌,
  ltb, leb, ◌==◌, if◌then◌else◌, get_elem?, length, ◌>>=◌, ℤ, pos, negsuc, fits_i64,
}
use rediscoro.Resp3.Kind.{Kind}

abbrev pub cr : ℕ
cr = 13

abbrev pub lf : ℕ
lf = 10

abbrev pub starts_lf : List ℕ → Bool
starts_lf [] = false
starts_lf (c ∷ cs) = c == lf

-- `sv.find("\r\n")`
unfoldable pub find_crlf : List ℕ → Option ℕ
find_crlf [] = none
find_crlf (c ∷ cs) =
    let rest = find_crlf cs in
    if c == cr && starts_lf cs then some 0 else (do i ← rest; some (suc i))

abbrev pub is_digit : ℕ → Bool
is_digit c = leb b'0' c && leb c b'9'

-- The digits at the start of a text, added to those read before: value, whether any, and the rest.
unfoldable pub read_digits : ℕ → Bool → List ℕ → ℕ × Bool × List ℕ
read_digits acc any [] = (acc, any, [])
read_digits acc any (c ∷ cs) =
    let rest = read_digits (acc * 10 + (c - b'0')) true cs in
    if is_digit c then rest else (acc, any, c ∷ cs)

abbrev pub negate : ℕ → ℤ
negate zero = pos 0
negate (suc n) = negsuc n

-- `std::from_chars` into an `int64_t`: the value and what follows it; `none` on any error.
unfoldable pub from_chars_i64 : List ℕ → Option (ℤ × List ℕ)
from_chars_i64 [] = none
from_chars_i64 (c ∷ cs) =
    let (n, any, rest) = read_digits 0 false (if c == b'-' then cs else c ∷ cs) in
    let v : ℤ = if c == b'-' then negate n else pos n in
    if any && fits_i64 v then some (v, rest) else none

abbrev pub is_empty {ℓ} : {A : Type ℓ} → List A → Bool
is_empty [] = true
is_empty (x ∷ xs) = false

unfoldable pub parse_i64 : List ℕ → Option ℤ
parse_i64 sv = do (v, rest) ← from_chars_i64 sv; if is_empty rest then some v else none

abbrev pub inf_bits : ℕ
inf_bits = 0x7FF0_0000_0000_0000

abbrev pub neg_inf_bits : ℕ
neg_inf_bits = 0xFFF0_0000_0000_0000

abbrev pub nan_bits : ℕ
nan_bits = 0x7FF8_0000_0000_0000

abbrev pub same_text : List ℕ → List ℕ → Bool
same_text [] [] = true
same_text [] (y ∷ ys) = false
same_text (x ∷ xs) [] = false
same_text (x ∷ xs) (y ∷ ys) = x == y && same_text xs ys

-- `from_chars_f64` is `std::from_chars` into a `double`: the bits, and what follows the number.
unfoldable pub parse_double : (List ℕ → Option (ℕ × List ℕ)) → List ℕ → Option ℕ
parse_double from_chars_f64 sv =
    if same_text sv (b'i' ∷ b'n' ∷ b'f' ∷ [])
    then some inf_bits
    else if same_text sv (b'-' ∷ b'i' ∷ b'n' ∷ b'f' ∷ [])
    then some neg_inf_bits
    else if same_text sv (b'n' ∷ b'a' ∷ b'n' ∷ [])
    then some nan_bits
    else (do (v, rest) ← from_chars_f64 sv; if is_empty rest then some v else none)

abbrev pub max_u32 : ℕ
max_u32 = 2 ^ 32 - 1

unfoldable pub is_representable_length : Kind → ℤ → Bool
is_representable_length k (negsuc n) = false
is_representable_length Kind.array (pos n) = leb n max_u32
is_representable_length Kind.set (pos n) = leb n max_u32
is_representable_length Kind.push (pos n) = leb n max_u32
is_representable_length Kind.map (pos n) = leb n (max_u32 / 2)
is_representable_length Kind.attribute (pos n) = leb n (max_u32 / 2)
is_representable_length _ (pos n) = false

unfoldable pub is_valid_verbatim_payload : List ℕ → Bool
is_valid_verbatim_payload payload =
    leb 4 (length payload) && elim (get_elem? payload 3) [ none ↦ false | some c ↦ c == b':' ]

unfoldable pub exceeds_i64_limit : ℤ → ℕ → Bool
exceeds_i64_limit (negsuc n) limit = false
exceeds_i64_limit (pos n) limit = ltb limit n
