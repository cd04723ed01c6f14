-- ===== src/Request.antt =====
-- request.hpp: a request as the RESP3 bytes of its commands.
pub mod Digits
pub mod Headers
pub mod Reading
pub mod Wire
pub mod Commands
mod Tests
use rediscoro.Prelude.{
  ℕ, zero, suc, ◌+◌, ◌-◌, ◌/◌, ◌%◌, Bool, List, [], ◌∷◌, ◌++◌, length, ltb, ◌==◌, if◌then◌else◌,
}
use rediscoro.Resp3.Kind.{Kind, kind_to_prefix}
use rediscoro.Resp3.Scan.{cr, lf}

pub record Request : Type 0 where
  pub wire : List ℕ
  pub command_count : ℕ

abbrev pub new_request : Request
new_request = record { wire = []; command_count = 0 }

-- The decimal digits of a number below 10 ^ fuel.
unfoldable pub to_digits : ℕ → ℕ → List ℕ
to_digits zero n = []
to_digits (suc fuel) n =
    let rest = to_digits fuel (n / 10) in
    if ltb n 10 then (b'0' + n) ∷ [] else rest ++ ((b'0' + n % 10) ∷ [])

-- `std::to_chars` on a `std::size_t`, which has at most 20 digits.
unfoldable pub to_chars : ℕ → List ℕ
to_chars n = to_digits 20 n

-- `append_unsigned` behind a prefix, and the end of the line.
unfoldable pub header : Kind → ℕ → List ℕ
header k n = kind_to_prefix k ∷ (to_chars n ++ (cr ∷ lf ∷ []))

abbrev pub append_command_header : Request → ℕ → Request
append_command_header r argc = record r { wire = r.wire ++ header Kind.array argc }

abbrev pub append_bulk_string : Request → List ℕ → Request
append_bulk_string r sv = record r {
  wire = r.wire ++ header Kind.bulk_string (length sv) ++ sv ++ (cr ∷ lf ∷ []);
}

pub append_args : Request → List (List ℕ) → Request
append_args r [] = r
append_args r (sv ∷ argv) = append_args (append_bulk_string r sv) argv

-- `push` of one command in its argv form.
unfoldable pub push : Request → List (List ℕ) → Request
unfolding append_args
push r argv =
    let q = append_args (append_command_header r (length argv)) argv in
    record q { command_count = q.command_count + 1 }

abbrev pub is_empty : Request → Bool
is_empty r = r.command_count == 0

abbrev pub clear : Request → Request
clear r = record { wire = []; command_count = 0 }
