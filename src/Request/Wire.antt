-- ===== src/Request/Wire.antt =====
-- request.hpp, `push`: the bytes of a command, as the parser's own reader of length headers finds them.
use rediscoro.Prelude.{
  ℕ, ◌+◌, ◌^◌, ◌≤◌, ◌<◌, ◌≡◌, refl, sym, ap, ◌∙◌, subst, some, List, [], ◌∷◌, ◌++◌, length, pos,
  append_assoc, take, drop, take-append_eq, drop-append_eq, get_elem?,
}
use rediscoro.Resp3.Kind.{Kind, kind_to_prefix}
use rediscoro.Resp3.Parser.{Limits, done}
use rediscoro.Resp3.Parser.Value.{parse_length_after_type}
use rediscoro.Request.{
  Request, new_request, header, append_args, append_bulk_string, append_command_header, push,
}
use rediscoro.Request.Headers.{header_read, bulk, bulk_text}
use rediscoro.Request.Commands.{append_args-wire, push-wire}

-- The bytes begin with the prefix and a length header of this size that the parser reads as `n`.
pub record Headed (lims : Limits) (prefix n size : ℕ) (bytes : List ℕ) : Type 0 where
  pub starts : get_elem? bytes 0 ≡ some prefix
  pub reads :
      parse_length_after_type lims bytes ≡ done (record { length = pos n; header_bytes = size })

-- The bytes are these arguments, one after the other, each behind its header and before CRLF, and then the tail.
abbrev pub Arguments : Limits → List (List ℕ) → List ℕ → List ℕ → Type 0
Arguments lims [] bytes tail = bytes ≡ tail
Arguments lims (sv ∷ argv) bytes tail =
    (size : ℕ) × Headed lims b'$' (length sv) size bytes
    × (take (length sv) (drop size bytes) ≡ sv)
    × (take 2 (drop (length sv) (drop size bytes)) ≡ 13 ∷ 10 ∷ [])
    × Arguments lims argv (drop 2 (drop (length sv) (drop size bytes))) tail

-- Every argument has fewer than 2 ^ 63 bytes.
abbrev pub AllShort : List (List ℕ) → Type 0
AllShort [] = Unit
AllShort (sv ∷ argv) = (length sv < 2 ^ 63) × AllShort argv

header-Headed :
    (lims : Limits) (k : Kind) (n : ℕ) (tail : List ℕ)
    → n < 2 ^ 63
    → 20 ≤ lims.max_resp_line_bytes
    → Headed lims (kind_to_prefix k) n (length (header k n)) (header k n ++ tail)
unfolding header
header-Headed lims k n tail h line = record {
  starts = refl;
  reads = header_read lims k n tail h line;
}

bulk-Arguments :
    (lims : Limits) (sv : List ℕ) (argv : List (List ℕ)) (rest tail : List ℕ)
    → length sv < 2 ^ 63
    → 20 ≤ lims.max_resp_line_bytes
    → Arguments lims argv rest tail
    → Arguments lims (sv ∷ argv) (bulk sv ++ rest) tail
unfolding kind_to_prefix
bulk-Arguments lims sv argv rest tail short line more =
    subst (λ bytes. Arguments lims (sv ∷ argv) bytes tail) (sym (bulk_text sv rest))
      (
        size,
        header-Headed lims Kind.bulk_string (length sv) (sv ++ (13 ∷ 10 ∷ rest)) short line,
        ap (take (length sv)) past ∙ take-append_eq (length sv) sv (13 ∷ 10 ∷ rest) refl,
        ap (take 2) after,
        subst (λ bytes. Arguments lims argv bytes tail) (sym (ap (drop 2) after)) more,
      )
  where
    size : ℕ
    size = length (header Kind.bulk_string (length sv))

    past :
        drop size (header Kind.bulk_string (length sv) ++ (sv ++ (13 ∷ 10 ∷ rest)))
        ≡ sv ++ (13 ∷ 10 ∷ rest)
    past = drop-append_eq size (header Kind.bulk_string (length sv)) (sv ++ (13 ∷ 10 ∷ rest)) refl

    after :
        drop
          (length sv)
          (drop size (header Kind.bulk_string (length sv) ++ (sv ++ (13 ∷ 10 ∷ rest))))
        ≡ 13 ∷ 10 ∷ rest
    after = ap (drop (length sv)) past ∙ drop-append_eq (length sv) sv (13 ∷ 10 ∷ rest) refl

args-Arguments :
    (lims : Limits) (argv : List (List ℕ)) (tail : List ℕ)
    → AllShort argv
    → 20 ≤ lims.max_resp_line_bytes
    → Arguments lims argv ((append_args new_request argv).wire ++ tail) tail
unfolding append_args
args-Arguments lims [] tail short line = refl
args-Arguments lims (sv ∷ argv) tail short line =
    subst (λ bytes. Arguments lims (sv ∷ argv) bytes tail)
      (sym (
        ap (λ w. w ++ tail) (append_args-wire argv (append_bulk_string new_request sv))
        ∙ append_assoc (bulk sv) (append_args new_request argv).wire tail))
      (bulk-Arguments lims sv argv ((append_args new_request argv).wire ++ tail) tail short.0 line
        (args-Arguments lims argv tail short.1 line))

-- The command that stands behind the earlier bytes of a request.
pub record Command (lims : Limits) (argv : List (List ℕ)) (bytes tail : List ℕ) : Type 0 where
  pub size : ℕ
  pub headed : Headed lims b'*' (length argv) size bytes
  pub arguments : Arguments lims argv (drop size bytes) tail

command_lem :
    (lims : Limits) (argv : List (List ℕ)) (tail : List ℕ)
    → length argv < 2 ^ 63
    → AllShort argv
    → 20 ≤ lims.max_resp_line_bytes
    → Command lims argv ((push new_request argv).wire ++ tail) tail
unfolding push kind_to_prefix
command_lem lims argv tail few short line =
    subst (λ bytes. Command lims argv bytes tail)
      (sym (
        ap (λ w. w ++ tail)
          (append_args-wire argv (append_command_header new_request (length argv)))
        ∙ append_assoc (header Kind.array (length argv)) (append_args new_request argv).wire tail))
      (record {
        size = length (header Kind.array (length argv));
        headed = header-Headed lims Kind.array (length argv) rest few line;
        arguments =
            subst (λ bytes. Arguments lims argv bytes tail)
              (sym (
                drop-append_eq (length (header Kind.array (length argv)))
                  (header Kind.array (length argv)) rest refl))
              (args-Arguments lims argv tail short line);
      })
  where
    rest : List ℕ
    rest = (append_args new_request argv).wire ++ tail

-- Pushing a command counts one more, and what it appends to the request, whatever follows, begins with an
-- array header that the parser reads as the number of the arguments, behind which stand the arguments in
-- their order, each with a bulk string header that the parser reads as its length before it and CRLF
-- behind it, and nothing more; where there are fewer than 2 ^ 63 arguments and bytes in each of them, and
-- lines of 20 bytes are allowed.
pub push-Command :
    (lims : Limits) (r : Request) (argv : List (List ℕ)) (tail : List ℕ)
    → length argv < 2 ^ 63
    → AllShort argv
    → 20 ≤ lims.max_resp_line_bytes
    → (bytes : List ℕ) × ((push r argv).wire ≡ r.wire ++ bytes)
      × ((push r argv).command_count ≡ r.command_count + 1)
      × Command lims argv (bytes ++ tail) tail
push-Command lims r argv tail few short line =
    let (behind, counted) = push-wire r argv in
    ((push new_request argv).wire, behind, counted, command_lem lims argv tail few short line)
