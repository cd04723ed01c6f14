-- ===== src/Pipeline/Loss.antt =====
-- impl/pipeline.ipp, `clear_all`, in the states that a pipeline can come to.
use rediscoro.Prelude.{ℕ, ◌≡◌, ◌≢◌, sym, ◌⊎◌, some, List, [], ◌∷◌, ◌++◌, append-nil, subst}
use rediscoro.Errors.{ErrorInfo}
use rediscoro.Resp3.Message.{Message}
use rediscoro.Sink.{Pending}
use rediscoro.Pipeline.{Pipeline, read_sinks, write_sinks, clear_all}
use rediscoro.Pipeline.Delivery.{Fresh, Opens, OpenAt, AllFailed, held, clear_all_lem}
use rediscoro.Pipeline.Reachable.{Reachable, Reachable-invariant}

Fresh-insert : (j x : ℕ) (ys xs : List ℕ) → x ≢ j → Fresh j (ys ++ xs) → Fresh j (ys ++ (x ∷ xs))
Fresh-insert j x [] xs ne f = (ne, f)
Fresh-insert j x (y ∷ ys) xs ne f = (f.0, Fresh-insert j x ys xs ne f.1)

Fresh-swap : (j : ℕ) (xs ys : List ℕ) → Fresh j (xs ++ ys) → Fresh j (ys ++ xs)
Fresh-swap j [] ys f = subst (Fresh j) (sym (append-nil ys)) f
Fresh-swap j (x ∷ xs) ys f = Fresh-insert j x ys xs f.0 (Fresh-swap j xs ys f.1)

module _ {ℓ} {T : Type ℓ} where
  Opens-insert :
      (sinks : List (Pending T)) (x : ℕ) (ys xs : List ℕ)
      → OpenAt sinks x
      → Fresh x (ys ++ xs)
      → Opens sinks (ys ++ xs)
      → Opens sinks (ys ++ (x ∷ xs))
  Opens-insert sinks x [] xs at_x f o = (at_x, f, o)
  Opens-insert sinks x (y ∷ ys) xs at_x f o =
      (o.0, Fresh-insert y x ys xs (λ e. f.0 (sym e)) o.1, Opens-insert sinks x ys xs at_x f.1 o.2)

  Opens-swap :
      (sinks : List (Pending T)) (xs ys : List ℕ) → Opens sinks (xs ++ ys) → Opens sinks (ys ++ xs)
  Opens-swap sinks [] ys o = subst (Opens sinks) (sym (append-nil ys)) o
  Opens-swap sinks (x ∷ xs) ys o =
      Opens-insert sinks x ys xs o.0 (Fresh-swap x xs ys o.1) (Opens-swap sinks xs ys o.2)

module _ {ℓ} {T : Type ℓ} (adapt : Message → T ⊎ ErrorInfo) where
  -- In every state that the pipeline and its sinks can come to from an empty pipeline, by requests of one
  -- or more commands with sinks of their own, taken or refused, writes of what was offered, replies,
  -- errors and losses of the connection, clear_all ends with both queues empty and no byte pending, and
  -- every sink that waited is complete: it keeps the replies that it has, and every other slot holds the
  -- error.
  pub Reachable-clear_all :
      (p : Pipeline) (sinks : List (Pending T)) (e : ErrorInfo)
      → Reachable adapt (p, sinks)
      → (after : List (Pending T)) × (clear_all p sinks e
          ≡ some
              (record p { pending_write = []; awaiting_read = []; pending_write_bytes = 0 }, after))
        × AllFailed sinks after e (held p)
  Reachable-clear_all p sinks e h = clear_all_lem p sinks e (
      Opens-swap sinks (read_sinks p.awaiting_read) (write_sinks p.pending_write)
        (Reachable-invariant adapt (p, sinks) h).1)
