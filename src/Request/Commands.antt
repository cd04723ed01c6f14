-- ===== src/Request/Commands.antt =====
-- request.hpp, `push`: the commands of a request one after another.
use rediscoro.Prelude.{
  ℕ, ◌+◌, ◌≡◌, refl, sym, ap, ◌∙◌, List, [], ◌∷◌, ◌++◌, length, append_assoc, append-nil,
}
use rediscoro.Resp3.Kind.{Kind}
use rediscoro.Resp3.Scan.{cr, lf}
use rediscoro.Request.{
  Request, new_request, header, append_command_header, append_bulk_string, append_args, push,
}

append_bulk_string-wire :
    (r : Request) (sv : List ℕ)
    → (append_bulk_string r sv).wire ≡ r.wire ++ (append_bulk_string new_request sv).wire
append_bulk_string-wire r sv =
    ap (λ w. (w ++ (cr ∷ lf ∷ []))) (append_assoc r.wire (header Kind.bulk_string (length sv)) sv)
    ∙ append_assoc r.wire (header Kind.bulk_string (length sv) ++ sv) (cr ∷ lf ∷ [])

pub append_args-wire :
    (argv : List (List ℕ)) (r : Request)
    → (append_args r argv).wire ≡ r.wire ++ (append_args new_request argv).wire
unfolding append_args
append_args-wire [] r = sym (append-nil r.wire)
append_args-wire (sv ∷ argv) r =
    append_args-wire argv (append_bulk_string r sv)
    ∙ ap (λ w. w ++ (append_args new_request argv).wire) (append_bulk_string-wire r sv)
    ∙ append_assoc r.wire (append_bulk_string new_request sv).wire
        (append_args new_request argv).wire
    ∙ ap (λ w. r.wire ++ w) (sym (append_args-wire argv (append_bulk_string new_request sv)))

append_args-count :
    (argv : List (List ℕ)) (r : Request) → (append_args r argv).command_count ≡ r.command_count
unfolding append_args
append_args-count [] r = refl
append_args-count (sv ∷ argv) r = append_args-count argv (append_bulk_string r sv)

-- The bytes of a command are behind those of the request.
pub push-wire :
    (r : Request) (argv : List (List ℕ))
    → ((push r argv).wire ≡ r.wire ++ (push new_request argv).wire)
      × ((push r argv).command_count ≡ r.command_count + 1)
unfolding push
push-wire r argv = (
  append_args-wire argv (append_command_header r (length argv))
      ∙ append_assoc r.wire (header Kind.array (length argv)) (append_args new_request argv).wire
      ∙ ap (λ w. r.wire ++ w)
          (sym (append_args-wire argv (append_command_header new_request (length argv)))),
  ap (λ n. n + 1) (append_args-count argv (append_command_header r (length argv))),
)
