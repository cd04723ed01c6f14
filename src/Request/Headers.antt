-- ===== src/Request/Headers.antt =====
-- request.hpp: what is written of one command is what the parser reads of it.
use rediscoro.Prelude.{
  ℕ, ◌+◌, ◌^◌, ◌≤◌, ◌<◌, ◌≡◌, refl, sym, ap, ◌∙◌, false, some, List, [], ◌∷◌, ◌++◌, length, ltb,
  arith, append_assoc, pos, length-append, take, drop, ◌==◌, take-append_eq, drop-append_eq, ltb_ℤ,
  negsuc,
}
use native.Mathlib.Nat.{mod-eq_of_lt}
use rediscoro.Resp3.Buffer.{size_max}
use rediscoro.Resp3.Kind.{Kind}
use rediscoro.Resp3.Raw.{blank_node}
use rediscoro.Resp3.Scan.{exceeds_i64_limit, find_crlf, cr, lf}
use rediscoro.Resp3.Parser.{Limits, done, Parser}
use rediscoro.Resp3.Parser.Value.{
  line_after_type, parse_length_after_type, parse_bulk, parse_payload, produce, text_at,
}
use rediscoro.Request.{new_request, to_chars, header, append_bulk_string}
use rediscoro.Request.Digits.{AllDigits, to_chars-AllDigits, length-to_chars, parse_i64-to_chars}

find_crlf-digits :
    (ds tail : List ℕ) → AllDigits ds → find_crlf (ds ++ (cr ∷ lf ∷ tail)) ≡ some (length ds)
unfolding find_crlf
find_crlf-digits [] tail a = refl
find_crlf-digits (d ∷ ds) tail a = rw (not_cr, find_crlf-digits ds tail a.1) refl
  where
    not_cr : (d == cr) ≡ false
    not_cr = let x = a.0 in ground arith

line_of_header :
    (lims : Limits) (k : Kind) (n : ℕ) (tail : List ℕ)
    → 20 ≤ lims.max_resp_line_bytes
    → line_after_type lims (header k n ++ tail) ≡ done (length (to_chars n))
unfolding line_after_type header
line_of_header lims k n tail line =
    rw (append_assoc (to_chars n) (cr ∷ lf ∷ []) tail, line_after_type)
      (rw (find_crlf-digits (to_chars n) tail (to_chars-AllDigits n), line_after_type)
        (rw short refl))
  where
    short : ltb lims.max_resp_line_bytes (length (to_chars n)) ≡ false
    short = let few = length-to_chars n in ground arith

text_of_header :
    (k : Kind) (n : ℕ) (tail : List ℕ)
    → take (length (to_chars n)) (drop 1 (header k n ++ tail)) ≡ to_chars n
unfolding header
text_of_header k n tail =
    rw (append_assoc (to_chars n) (cr ∷ lf ∷ []) tail)
      (take-append_eq (length (to_chars n)) (to_chars n) (cr ∷ lf ∷ tail) refl)

length-header : (k : Kind) (n : ℕ) → length (header k n) ≡ 1 + length (to_chars n) + 2
unfolding header
length-header k n = omega (arith, length-append (to_chars n) (cr ∷ lf ∷ []))

-- A length header that a request writes, whatever follows it, is read by the parser as this length and as
-- the bytes of the header, where the length is below 2 ^ 63 and lines of 20 bytes are allowed.
pub header_read :
    (lims : Limits) (k : Kind) (n : ℕ) (tail : List ℕ)
    → n < 2 ^ 63
    → 20 ≤ lims.max_resp_line_bytes
    → parse_length_after_type lims (header k n ++ tail)
      ≡ done (record { length = pos n; header_bytes = length (header k n) })
unfolding parse_length_after_type
header_read lims k n tail h line =
    rw (line_of_header lims k n tail line, parse_length_after_type)
      (rw (text_of_header k n tail, parse_i64-to_chars n h, length-header k n) refl)

-- What one argument adds to the wire.
abbrev pub bulk : List ℕ → List ℕ
bulk sv = (append_bulk_string new_request sv).wire

pub length-bulk :
    (sv : List ℕ) → length (bulk sv) ≡ length (header Kind.bulk_string (length sv)) + length sv + 2
length-bulk sv = omega (
  arith,
  length-append (header Kind.bulk_string (length sv) ++ sv) (cr ∷ lf ∷ []),
  length-append (header Kind.bulk_string (length sv)) sv,
)

payload_read :
    (p : Parser) (head sv tail : List ℕ)
    → length head + length sv + 2 < 2 ^ 64
    → parse_payload p Kind.bulk_string (head ++ (sv ++ (cr ∷ lf ∷ tail))) (length head) (length sv)
      ≡ produce p (length head + length sv + 2) (record (blank_node Kind.bulk_string) {
        text = text_at p (length head) (length sv);
        i64 = pos (length sv);
      })
unfolding parse_payload
payload_read p head sv tail small = rw (mod-eq_of_lt small, in_range, all_there, trailer) refl
  where
    in_range : ltb size_max (length head + length sv + 2) ≡ false
    in_range = ground (arith, small)

    all_there :
        ltb (length (head ++ (sv ++ (cr ∷ lf ∷ tail)))) (length head + length sv + 2) ≡ false
    all_there =
        let outer = length-append head (sv ++ (cr ∷ lf ∷ tail)) in
        let inner = length-append sv (cr ∷ lf ∷ tail) in ground (arith, outer, inner)

    trailer :
        take 2 (drop (length head + length sv) (head ++ (sv ++ (cr ∷ lf ∷ tail)))) ≡ cr ∷ lf ∷ []
    trailer = ap (take 2) (
        ap (drop (length head + length sv)) (sym (append_assoc head sv (cr ∷ lf ∷ tail)))
        ∙ drop-append_eq (length head + length sv) (head ++ sv) (cr ∷ lf ∷ tail)
            (sym (length-append head sv)))

pub bulk_text :
    (sv tail : List ℕ)
    → bulk sv ++ tail ≡ header Kind.bulk_string (length sv) ++ (sv ++ (cr ∷ lf ∷ tail))
bulk_text sv tail =
    append_assoc (header Kind.bulk_string (length sv) ++ sv) (cr ∷ lf ∷ []) tail
    ∙ append_assoc (header Kind.bulk_string (length sv)) sv (cr ∷ lf ∷ tail)

length-header-le : (k : Kind) (n : ℕ) → length (header k n) ≤ 23
length-header-le k n = omega (arith, length-header k n, length-to_chars n)

-- The bytes of an argument, whatever follows, become a node, and the argument stands where the view of the node is.
pub bulk-produce :
    (p : Parser) (sv tail : List ℕ)
    → length sv < 2 ^ 62
    → length sv ≤ p.limits.max_resp_bulk_bytes
    → 20 ≤ p.limits.max_resp_line_bytes
    → (parse_bulk p Kind.bulk_string (bulk sv ++ tail)
        ≡ produce p (length (bulk sv)) (record (blank_node Kind.bulk_string) {
          text = text_at p (length (header Kind.bulk_string (length sv))) (length sv);
          i64 = pos (length sv);
        }))
      × (take (length sv) (drop (length (header Kind.bulk_string (length sv))) (bulk sv ++ tail))
          ≡ sv)
unfolding parse_bulk exceeds_i64_limit
bulk-produce p sv tail h few line = (
  rw (bulk_text sv tail, length-bulk sv)
      (rw
        (
          header_read p.limits Kind.bulk_string (length sv) (sv ++ (cr ∷ lf ∷ tail)) (omega arith)
              line,
          parse_bulk,
        )
        (rw (nonneg, fits)
          (payload_read p (header Kind.bulk_string (length sv)) sv tail
            (omega (arith, h, length-header-le Kind.bulk_string (length sv)))))),
  rw (bulk_text sv tail) (
      ap (take (length sv)) (
        drop-append_eq (length (header Kind.bulk_string (length sv)))
          (header Kind.bulk_string (length sv)) (sv ++ (cr ∷ lf ∷ tail)) refl)
      ∙ take-append_eq (length sv) sv (cr ∷ lf ∷ tail) refl),
)
  where
    nonneg : ltb_ℤ (pos (length sv)) (negsuc 0) ≡ false
    nonneg = ground arith

    fits : ltb p.limits.max_resp_bulk_bytes (length sv) ≡ false
    fits = ground arith
