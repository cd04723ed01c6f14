-- ===== src/Connection/Tests.antt =====
-- impl/connection/: a connection that is made, opens, and is lost; and runs that end badly.
use rediscoro.Prelude.{
  arith, ℕ, ◌≡◌, ◌≢◌, refl, ◌⊎◌, inl, inr, true, false, Option, none, some, List, [], ◌∷◌,
  get_elem?,
}
use rediscoro.Errors.{ErrorInfo, error_info, client, ClientErrc}
use rediscoro.Resp3.Message.{Message, message, Value, no_attrs}
use rediscoro.Request.{Request}
use rediscoro.Sink.{
  Pending, Slot, value, new_pending, no_trace, deliver, put_slot, accept, finish_if_done,
  take_results, slot_from_message,
}
use rediscoro.Pipeline.{
  new_pipeline, push, enqueue, admits, on_write_done, advance, on_message, on_reply, replied,
  clear_all, fail_each,
}
use rediscoro.Resp3.Buffer
use rediscoro.Resp3.Scan.{read_digits, from_chars_i64}
use rediscoro.Resp3.Parser.{Parser, Limits, new_parser}
use rediscoro.Resp3.Parser.Run.{parse_one}
use rediscoro.Resp3.Parser.Invariant.{IsWf}
use rediscoro.Connection.Receive.{receive_loop}
use rediscoro.Connection.Receive.Rounds.{receive_loop-Reachable}
use rediscoro.Connection.Life
use rediscoro.Pipeline.Reachable
use rediscoro.Intake.{init, connecting, open_, failed, closing, closed}
use rediscoro.Connection.State.{
  Connection, clear_pipeline, error_in, handle_error, close, close_in, transition_to_closed,
}
use rediscoro.Connection.Runtime.{other_io, write_done}
use rediscoro.Connection.Attempt.{
  resolving, dialing, handshaking, Progress, goes_on, is_connected, dialed, not_connected_to,
  dial_loop, HandshakeError, begin_attempt, on_resolved, on_dialed, push_handshake,
  handshake_written, handshake_reply, on_handshake, judge, first_error,
}
use rediscoro.Connection.Owners.{
  connect, connect_in, connect_succeeded, reconnect_failed, actor_completed,
}
use rediscoro.Connection.Life.{
  Live, live, by_connect, settle, Step, starts_connect, resolves, dials, handshake_writes,
  handshake_reads, handshake_ends, IsFresh,
}
use rediscoro.Connection.Effects.{view}
use rediscoro.Connection.Moves.{Sound, Move}
use rediscoro.Connection.Reach.{Reachable-Sound, Reachable-Move}
use rediscoro.Connection.Verdict.{GaveUp, Opened, on_handshake_lem}
use rediscoro.Connection.Queue.{Holds}
use rediscoro.Connection.Losing.{LetGo, let_go, write_done-handle_error}

abbrev lims : Limits
lims = record { max_resp_bulk_bytes = 512; max_resp_container_len = 1000; max_resp_line_bytes = 64 }

abbrev no_f64 : List ℕ → Option (ℕ × List ℕ)
no_f64 xs = none

abbrev made : Connection ℕ
made = record {
  intake = record {
    state = init;
    pipe = new_pipeline 4 100;
    sinks = [];
    request_timeout = none;
    has_on_start = false;
    has_on_finish = false;
    next_request_id = 1;
    starts = 0;
    finishes = [];
    write_wakeups = 0;
    control_wakeups = 0;
  };
  generation = 0;
  reconnect_count = 0;
  stop_requested = false;
  socket_open = false;
  read_wakeups = 0;
  actor_running = false;
  actor_done = 0;
  reconnection_enabled = true;
  has_on_event = true;
  events = [];
}

abbrev zero_of : Message → ℕ ⊎ ErrorInfo
zero_of m = inl 0

abbrev ok : Message
ok = message (Value.simple_string []) no_attrs

-- A handshake of one command, of five bytes here.
abbrev hello : Request
hello = record { wire = 1 ∷ 2 ∷ 3 ∷ 4 ∷ 5 ∷ []; command_count = 1 }

abbrev conn_of : Option (Connection ℕ × Progress) → Connection ℕ
conn_of none = made
conn_of (some r) = r.0

abbrev or_made : Option (Connection ℕ) → Connection ℕ
or_made none = made
or_made (some c) = c

abbrev replied_to : Option (Connection ℕ ⊎ HandshakeError) → Connection ℕ
replied_to (some (inl c)) = c
replied_to _ = made

abbrev begun : Connection ℕ
begun = (connect made).0

abbrev dialed_up : Connection ℕ
dialed_up = conn_of (on_dialed hello (not_connected_to (other_io []) ∷ dialed ∷ []) begun)

abbrev sent : Connection ℕ
sent = or_made (handshake_written 5 dialed_up)

abbrev answered : Connection ℕ
answered = replied_to (handshake_reply zero_of ok sent)

abbrev up : Connection ℕ
up = conn_of (on_handshake 0 none answered)

opens_up : (up.intake.state ≡ open_) × (up.generation ≡ 1) × (up.intake.pipe.awaiting_read ≡ [])
unfolding connect_in on_dialed dial_loop push_handshake push enqueue admits new_pending
    handshake_written on_write_done advance handshake_reply on_message on_reply replied deliver
    put_slot accept finish_if_done take_results slot_from_message on_handshake judge first_error
opens_up = (refl, refl, refl)

made-Reachable : Life.Reachable zero_of (live made none)
made-Reachable =
    Life.fresh made (record { at_init = refl; no_requests = (4, 100, refl); not_stopped = refl })

begun-Reachable : Life.Reachable zero_of (live begun (some (by_connect, resolving)))
unfolding connect_in settle begin_attempt
begun-Reachable =
    Life.step (live made none) (live begun (some (by_connect, resolving))) made-Reachable (
      starts_connect made begun (live begun (some (by_connect, resolving))) (λ bad. absurd cc)
        (inl refl) refl refl)

resolved-Reachable : Life.Reachable zero_of (live begun (some (by_connect, dialing)))
unfolding connect_in settle on_resolved
resolved-Reachable =
    Life.step (live begun (some (by_connect, resolving))) (live begun (some (by_connect, dialing)))
      begun-Reachable
      (resolves begun by_connect (inr 2) (live begun (some (by_connect, dialing))) refl)

abbrev shaking : Connection ℕ → Live ℕ
shaking c = live c (some (by_connect, handshaking 0))

dialed_up-Reachable : Life.Reachable zero_of (shaking dialed_up)
unfolding connect_in on_dialed dial_loop push_handshake push enqueue admits new_pending settle
dialed_up-Reachable =
    Life.step (live begun (some (by_connect, dialing))) (shaking dialed_up) resolved-Reachable (
      dials begun dialed_up by_connect hello (not_connected_to (other_io []) ∷ dialed ∷ [])
        (goes_on (handshaking 0)) (shaking dialed_up) refl refl)

sent-Reachable : Life.Reachable zero_of (shaking sent)
unfolding connect_in on_dialed dial_loop push_handshake push enqueue admits new_pending
    handshake_written on_write_done advance
sent-Reachable =
    Life.step (shaking dialed_up) (shaking sent) dialed_up-Reachable
      (handshake_writes dialed_up sent by_connect 0 5 refl)

answered-Reachable : Life.Reachable zero_of (shaking answered)
unfolding connect_in on_dialed dial_loop push_handshake push enqueue admits new_pending
    handshake_written on_write_done advance handshake_reply on_message on_reply replied deliver
    put_slot accept finish_if_done take_results slot_from_message
answered-Reachable =
    Life.step (shaking sent) (shaking answered) sent-Reachable
      (handshake_reads sent answered by_connect 0 ok refl)

abbrev opened_up : Connection ℕ
opened_up = or_made (connect_succeeded up)

opening : Step zero_of (shaking answered) (live opened_up none)
unfolding connect_in on_dialed dial_loop push_handshake push enqueue admits new_pending settle
    handshake_written on_write_done advance handshake_reply on_message on_reply replied deliver
    put_slot accept finish_if_done take_results slot_from_message on_handshake judge first_error
    connect_succeeded
opening = handshake_ends answered up by_connect 0 none is_connected (live opened_up none) refl refl

Reachable-Sound_example : Sound none opened_up
Reachable-Sound_example =
    Reachable-Sound zero_of (live opened_up none)
      (Life.step (shaking answered) (live opened_up none) answered-Reachable opening)

Reachable-Move_example : Move (view answered) (view opened_up)
Reachable-Move_example =
    Reachable-Move zero_of (shaking answered) (live opened_up none) answered-Reachable opening

opened_up-Reachable : Life.Reachable zero_of (live opened_up none)
opened_up-Reachable = Life.step (shaking answered) (live opened_up none) answered-Reachable opening

-- A parser that has received `:1`, as a whole.
abbrev one_reply : Parser
one_reply = record (new_parser lims 1) {
  buf = record { cells = b':' ∷ b'1' ∷ 13 ∷ 10 ∷ []; block = 0; read_pos = 0; write_pos = 4 };
}

one_reply-IsWf : IsWf one_reply
unfolding new_parser
one_reply-IsWf = record {
  buffer = record { order = omega arith; inside = omega arith; nonempty = omega arith };
  few = omega arith;
  frames = inr refl;
}

abbrev received : ℕ → Option (Parser × Connection ℕ)
received rounds = receive_loop no_f64 zero_of 20 rounds one_reply opened_up

abbrev unsolicited_reply : Parser × Connection ℕ
unsolicited_reply = elim (received 5) [ none ↦ (one_reply, made) | some r ↦ r ]

receive_loop-Reachable_example :
    (received 9 ≡ some unsolicited_reply) × Life.Reachable zero_of (live unsolicited_reply.1 none)
unfolding new_parser receive_loop parse_one Buffer.consume read_digits from_chars_i64 connect_in
    on_dialed dial_loop push_handshake push enqueue admits new_pending handshake_written
    on_write_done advance handshake_reply on_message on_reply replied deliver put_slot accept
    finish_if_done take_results slot_from_message on_handshake judge first_error connect_succeeded
    error_in clear_pipeline clear_all fail_each
receive_loop-Reachable_example =
    receive_loop-Reachable no_f64 zero_of 20 5 9 one_reply opened_up unsolicited_reply
      one_reply-IsWf (omega arith) refl (omega arith) (omega arith) opened_up-Reachable refl

abbrev no_reply : Connection ℕ
no_reply = record made {
  intake = record made.intake {
    state = connecting;
    sinks = record (new_pending 1 no_trace) { result = some (value 0 ∷ []) } ∷ [];
  };
}

on_handshake_lem_example :
    GaveUp no_reply (conn_of (on_handshake 0 none no_reply)) is_connected
    ⊎ (◌≡◌ {A = Option HandshakeError} none none
        × (s : Pending ℕ) × (rs : List (Slot ℕ)) × (get_elem? no_reply.intake.sinks 0 ≡ some s)
        × (s.result ≡ some rs)
        × (first_error rs ≡ none)
        × Opened no_reply (conn_of (on_handshake 0 none no_reply)) is_connected)
unfolding on_handshake judge first_error new_pending
on_handshake_lem_example =
    on_handshake_lem 0 none no_reply (conn_of (on_handshake 0 none no_reply)) is_connected
      (Holds.nothing (refl, refl)) refl

abbrev running : Connection ℕ
running = record made { intake = record made.intake { state = open_ }; actor_running = true }

abbrev lost : ErrorInfo
lost = error_info (client ClientErrc.connection_reset)

abbrev closing_error : ErrorInfo
closing_error = error_info (client ClientErrc.connection_closed)

let_go_example :
    (running.intake.state ≡ open_
      → (c' : Connection ℕ) × (handle_error lost running ≡ some c') × LetGo running c' failed lost)
    × (running.intake.state ≢ closed
        → running.actor_running ≡ true
        → (c' : Connection ℕ) × (close running ≡ some c') × LetGo running c' closing closing_error)
    × ((c' : Connection ℕ) × (transition_to_closed running ≡ some c')
        × LetGo running c' closed closing_error)
let_go_example = let_go zero_of running lost (Reachable.fresh 4 100)

write_done-handle_error_example : write_done (inr 3) (or_made (handle_error lost running)) ≡ none
unfolding error_in clear_pipeline clear_all fail_each
write_done-handle_error_example =
    write_done-handle_error running (or_made (handle_error lost running)) lost 3 refl refl

-- `close` on a connection that never connected has no actor to wait for, and fails its last assertion.
close_unconnected : close made ≡ none
unfolding close_in clear_pipeline clear_all fail_each
close_unconnected = refl

-- A reconnection that `close` cancels writes FAILED over CLOSING.
cancelled_reconnect :
    (reconnect_failed
      (record running { intake = record made.intake { state = closing } })).intake.state
    ≡ failed
unfolding reconnect_failed
cancelled_reconnect = refl

-- `connect` that comes between the end of the actor and its completion is closed by the completion.
abbrev between : Connection ℕ
between = record running { intake = record made.intake { state = closed }; stop_requested = true }

actor_completed-connect :
    ((connect between).0.intake.state ≡ connecting)
    × ((or_made (actor_completed none (connect between).0)).intake.state ≡ closed)
    × ((or_made (actor_completed none (connect between).0)).actor_running ≡ false)
    × ((or_made (actor_completed none (connect between).0)).stop_requested ≡ false)
unfolding connect_in actor_completed transition_to_closed clear_pipeline clear_all fail_each
actor_completed-connect = (refl, refl, refl, refl)
