-- ===== src/Connection/Receive/Tests.antt =====
-- impl/connection/io.ipp: reads of a connection that waits for two replies.
use rediscoro.Prelude.{
  true, false, ℕ, ◌≡◌, refl, Option, none, some, List, [], ◌∷◌, ◌⊎◌, inl, inr, pos, length,
}
use rediscoro.Errors.{ErrorInfo, error_info, client, ClientErrc}
use rediscoro.Resp3.Buffer
use rediscoro.Resp3.Buffer.{readable}
use rediscoro.Resp3.Message.{Message, message, integer}
use rediscoro.Resp3.Scan.{read_digits, from_chars_i64}
use rediscoro.Resp3.Builder.{
  build_message, initialize, visit, finalize, give_to_parent, push_child, push_attr,
}
use rediscoro.Resp3.Parser.{Parser, Limits, new_parser}
use rediscoro.Resp3.Parser.Run.{parse_one, reclaim}
use rediscoro.Sink.{
  Pending, Slot, value, new_pending, no_trace, deliver, put_slot, accept, finish_if_done,
  take_results, slot_from_message,
}
use rediscoro.Pipeline.{new_pipeline, on_message, on_reply, replied}
use rediscoro.Intake.{open_, ConnectionState}
use rediscoro.Connection.State.{Connection}
use rediscoro.Connection.Runtime.{message_read}
use rediscoro.Connection.Receive.{read_done}

abbrev number_of : Message → ℕ ⊎ ErrorInfo
number_of (message (integer (pos n)) at) = inl n
number_of (message _ at) = inr (error_info (client ClientErrc.internal_error))

abbrev waiting : Connection ℕ
waiting = record {
  intake = record {
    state = open_;
    pipe = record (new_pipeline 4 100) {
      awaiting_read = record { sink = 0; deadline = 9 } ∷ record { sink = 1; deadline = 9 } ∷ [];
    };
    sinks = new_pending 1 no_trace ∷ new_pending 1 no_trace ∷ [];
    request_timeout = none;
    has_on_start = false;
    has_on_finish = false;
    next_request_id = 1;
    starts = 0;
    finishes = [];
    write_wakeups = 0;
    control_wakeups = 0;
  };
  generation = 1;
  reconnect_count = 0;
  stop_requested = false;
  socket_open = true;
  read_wakeups = 0;
  actor_running = true;
  actor_done = 0;
  reconnection_enabled = true;
  has_on_event = false;
  events = [];
}

abbrev lims : Limits
lims = record { max_resp_bulk_bytes = 512; max_resp_container_len = 1000; max_resp_line_bytes = 64 }

abbrev no_f64 : List ℕ → Option (ℕ × List ℕ)
no_f64 xs = none

-- What is left: the state, the bytes not read, the requests that wait and the replies that came.
abbrev left_by :
    Option (Parser × Connection ℕ)
    → Option (ConnectionState × ℕ × ℕ × List (Option (List (Slot ℕ))))
left_by none = none
left_by (some (p, c)) =
    some
      (c.intake.state, readable p.buf, length c.intake.pipe.awaiting_read, results c.intake.sinks)
  where
    results : List (Pending ℕ) → List (Option (List (Slot ℕ)))
    results [] = []
    results (s ∷ ss) = s.result ∷ results ss

abbrev receives : List ℕ → Option (ConnectionState × ℕ × ℕ × List (Option (List (Slot ℕ))))
receives bytes = left_by (read_done no_f64 number_of 20 5 (inr bytes) (new_parser lims 16) waiting)

-- :1 :2 : answers both requests and keeps the last byte.
two_replies :
    receives (b':' ∷ b'1' ∷ 13 ∷ 10 ∷ b':' ∷ b'2' ∷ 13 ∷ 10 ∷ b':' ∷ [])
    ≡ some (open_, 1, 0, some (value 1 ∷ []) ∷ some (value 2 ∷ []) ∷ [])
unfolding read_done parse_one new_parser reclaim Buffer.compact Buffer.consume Buffer.new_buffer
    Buffer.commit read_digits from_chars_i64 build_message initialize visit finalize give_to_parent
    push_child push_attr message_read on_message on_reply replied deliver put_slot accept
    finish_if_done take_results slot_from_message new_pending
two_replies = refl
