-- ===== src/Resp3/Message/Queries.antt =====
-- resp3/message.hpp: the queries on the kind of a message.
use rediscoro.Prelude.{ℕ, ◌≡◌, ◌↔◌, refl, true, false, not, ◌&&◌, ◌||◌, some, List}
use rediscoro.Resp3.Message.{
  Message, message, simple_string, simple_error, bulk_error, is_simple, is_bulk, is_aggregate,
  is_error, is_string, error_text,
}

-- Every message is simple exactly if it is neither bulk nor aggregate, none is bulk and aggregate, and an
-- error is neither a string nor an aggregate.
pub queries_partition :
    (m : Message)
    → (is_simple m ≡ not (is_bulk m || is_aggregate m))
      × ((is_bulk m && is_aggregate m) ≡ false)
      × ((is_error m && is_string m) ≡ false)
      × ((is_error m && is_aggregate m) ≡ false)
unfolding is_simple is_bulk is_aggregate is_error is_string
queries_partition (message (simple_string s) at) = (refl, refl, refl, refl)
queries_partition (message _ at) = (refl, refl, refl, refl)

-- The replies that are turned into server errors with their text are exactly the messages that is_error
-- holds of.
error_text-is_error :
    (m : Message) → (is_error m ≡ true) ↔ ((text : List ℕ) × (error_text m ≡ some text))
unfolding is_error
error_text-is_error (message (simple_error s) at) = (λ e. (s, refl), λ e. refl)
error_text-is_error (message (bulk_error s) at) = (λ e. (s, refl), λ e. refl)
error_text-is_error (message _ at) = (λ e. cc, λ e. let same = e.1 in cc)
