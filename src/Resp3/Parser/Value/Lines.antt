-- ===== src/Resp3/Parser/Value/Lines.antt =====
-- resp3/impl/parser.ipp: a line that is found lies within the unread bytes.
use rediscoro.Prelude.{
  ℕ, ◌+◌, ◌≤◌, ◌<◌, ◌≡◌, refl, some, List, [], ◌∷◌, arith, Bool-cases, inl, inr, Option-cases, drop,
  length, length-drop, take, ltb, ℤ, pos_part, ◌^◌,
}
use rediscoro.Errors.{ProtocolErrc}
use rediscoro.Resp3.Scan.{find_crlf, from_chars_i64, parse_i64}
use rediscoro.Resp3.Parser.{Limits, Parsed, fails, more, done}
use rediscoro.Resp3.Parser.Value.{line_after_type, LengthHeader, parse_length_after_type}

pub find_crlf-le : (xs : List ℕ) (i : ℕ) → find_crlf xs ≡ some i → i + 2 ≤ length xs
unfolding find_crlf
find_crlf-le [] i e = cc
find_crlf-le (x ∷ []) i e = ground arith
find_crlf-le (x ∷ y ∷ xs) i e = elim (Option-cases (find_crlf (y ∷ xs))) [
  | inl none_ ↦ ground (arith, none_)
  | inr (j, found) ↦ ground (arith, found, find_crlf-le (y ∷ xs) j found)
]

-- An error that the parser reports of its input; the two others say that its own state is broken.
abbrev pub Reported : ProtocolErrc → Type 0
Reported ProtocolErrc.invalid_state = ⊥
Reported ProtocolErrc.invalid_map_pairs = ⊥
Reported _ = Unit

abbrev pub LineOk : List ℕ → Parsed ℕ → Type 0
LineOk input (fails e) = Reported e
LineOk input more = Unit
LineOk input (done i) = i + 3 ≤ length input

pub line_after_type_ok : (l : Limits) (input : List ℕ) → LineOk input (line_after_type l input)
unfolding line_after_type
line_after_type_ok l input = elim (Option-cases (find_crlf (drop 1 input))) [
  | inl e ↦ elim (Bool-cases (ltb l.max_resp_line_bytes (length (drop 1 input)))) [
    | inl long ↦ rw (e, line_after_type) (rw long tt)
    | inr short ↦ rw (e, line_after_type) (rw short tt)
  ]
  | inr (i, e) ↦ elim (Bool-cases (ltb l.max_resp_line_bytes i)) [
    | inl long ↦ rw (e, line_after_type) (rw long tt)
    | inr short ↦
        rw (e, line_after_type)
          (rw short (omega (arith, find_crlf-le (drop 1 input) i e, length-drop 1 input)))
  ]
]

-- A number that is read fits into an `int64_t`.
pub parse_i64-lt : (xs : List ℕ) (v : ℤ) → parse_i64 xs ≡ some v → pos_part v < 2 ^ 63
unfolding parse_i64 from_chars_i64
parse_i64-lt [] v e = cc
parse_i64-lt (x ∷ xs) v e = ground arith

abbrev pub HeaderOk : List ℕ → Parsed LengthHeader → Type 0
HeaderOk input (fails e) = Reported e
HeaderOk input more = Unit
HeaderOk input (done h) =
    (h.header_bytes ≤ length input) × (0 < h.header_bytes) × (pos_part h.length < 2 ^ 63)

pub header_ok : (l : Limits) (input : List ℕ) → HeaderOk input (parse_length_after_type l input)
unfolding parse_length_after_type
header_ok l input = go (line_after_type l input) refl (line_after_type_ok l input)
  where
    go :
        (r : Parsed ℕ)
        → line_after_type l input ≡ r
        → LineOk input r
        → HeaderOk input (parse_length_after_type l input)
    go (fails e) q h = rw (q, parse_length_after_type) h
    go more q h = rw (q, parse_length_after_type) tt
    go (done i) q h = elim (Option-cases (parse_i64 (take i (drop 1 input)))) [
      | inl bad ↦ rw (q, parse_length_after_type) (rw (bad, parse_length_after_type) tt)
      | inr (n, good) ↦
          rw (q, parse_length_after_type)
            (rw (good, parse_length_after_type)
              (omega arith, omega arith, parse_i64-lt (take i (drop 1 input)) n good))
    ]
