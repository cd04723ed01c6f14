-- ===== src/Typed/Tests.antt =====
-- detail/pending_response.hpp: a request of two commands, with a text and a small number for replies.
use rediscoro.Prelude.{◌≡◌, refl, true, none, some, List, [], ◌∷◌, inl, arith, pos, codes}
use rediscoro.Resp3.Message.{message, Value, no_attrs}
use rediscoro.Adapter.Dispatch.{Target, scalar, sequence}
use rediscoro.Adapter.Scalar.{text, unsigned, w8}
use rediscoro.Sink.{no_trace}
use rediscoro.Typed.{Reply, PendingResponse, new_response, deliver_reply, accept_reply}
use rediscoro.Typed.Laws.{deliver_each, deliver_each-Completed, Completed}

abbrev two_types : List Target
two_types = scalar text ∷ sequence (scalar (unsigned w8)) ∷ []

abbrev two_replies : List Reply
two_replies =
    inl (message (Value.bulk_string (codes "ok")) no_attrs)
    ∷ inl (message (Value.integer (pos 300)) no_attrs)
    ∷ []

deliver_each-Completed_example :
    (p : PendingResponse two_types) × (deliver_each two_types
        (new_response two_types no_trace)
        two_replies
      ≡ some p)
    × Completed two_types no_trace two_replies p
deliver_each-Completed_example =
    deliver_each-Completed two_types no_trace two_replies refl (omega arith)

-- A sink of no types never completes, and the first reply fails the assertion of `accept`.
no_types :
    deliver_reply (new_response [] no_trace) (inl (message (Value.boolean true) no_attrs)) ≡ none
unfolding deliver_reply accept_reply
no_types = refl
