-- ===== src/Connection/Attempt.antt =====
-- impl/connection/connect.ipp, core.ipp and reconnect.ipp: an attempt to connect, from one wait to the next, and what
-- `connect` and the reconnection make of its end.
use rediscoro.Prelude.{
  ℕ, zero, suc, get_elem?, ◌+◌, ◌%◌, ◌^◌, Bool, true, false, not, Option, none, some, List, [], ◌∷◌,
  ◌++◌, length, if◌then◌else◌, ◌>>=◌, ◌==◌, ◌⊎◌, inl, inr, codes, ℤ, pos, negsuc,
}
use rediscoro.Errors.{ErrorInfo, ErrorCode, error_info, client, protocol, server, ClientErrc}
use rediscoro.Errors.Messages.{to_string, code_message}
use rediscoro.Request.{Request, new_request, to_chars}
use rediscoro.Sink.{Slot, value, unexpected, new_pending, no_trace}
use rediscoro.Pipeline.{push, time_max, on_write_done, on_message, has_pending_read}
use rediscoro.Resp3.Message.{Message}
use rediscoro.Intake.{open_}
use rediscoro.Connection.State.{
  Connection, connected, handshake_stage, set_state, emit_connection_event, clear_pipeline,
}
use rediscoro.Connection.Runtime.{IoError, timed_out, aborted, other_io}

-- What an attempt waits for; a handshake has its sink in the store.
pub data Attempt : Type 0 where
  resolving dialing : Attempt
  handshaking : ℕ → Attempt

pub data Progress : Type 0 where
  gives_up : ErrorInfo → Progress
  goes_on : Attempt → Progress
  is_connected : Progress

abbrev pub fails_with : ClientErrc → Progress
fails_with e = gives_up (error_info (client e))

abbrev pub resolve_error : IoError → ClientErrc
resolve_error timed_out = ClientErrc.resolve_timeout
resolve_error aborted = ClientErrc.operation_aborted
resolve_error (other_io t) = ClientErrc.resolve_failed

-- One endpoint tried: the connection, or one of the two options, failed, or all was well.
pub data Dialed : Type 0 where
  not_connected_to option_refused : IoError → Dialed
  dialed : Dialed

-- The loop over the endpoints: whether the socket is open at its end, and `connect_ec`.
unfoldable pub dial_loop : Bool → Option IoError → List Dialed → Bool × Option IoError
dial_loop sock ec [] = (sock, ec)
dial_loop sock ec (not_connected_to e ∷ ds) = dial_loop true (some e) ds
dial_loop sock ec (option_refused e ∷ ds) = dial_loop false (some e) ds
dial_loop sock ec (dialed ∷ ds) = (true, none)

abbrev pub connect_error : IoError → ErrorInfo
connect_error timed_out = error_info (client ClientErrc.connect_timeout)
connect_error aborted = error_info (client ClientErrc.operation_aborted)
connect_error (other_io t) = record { code = client ClientErrc.connect_failed; detail = t }

-- What of the configuration the handshake needs.
pub record Credentials : Type 0 where
  pub username : List ℕ
  pub password : List ℕ
  pub database : ℤ
  pub client_name : List ℕ

-- `std::to_chars` on an `int`.
unfoldable pub int_chars : ℤ → List ℕ
int_chars (pos n) = to_chars n
int_chars (negsuc n) = b'-' ∷ to_chars (suc n)

abbrev pub auth_command : List ℕ → List ℕ → List (List (List ℕ))
auth_command user [] = []
auth_command [] (p ∷ ps) = (codes "AUTH" ∷ (p ∷ ps) ∷ []) ∷ []
auth_command (u ∷ us) (p ∷ ps) = (codes "AUTH" ∷ (u ∷ us) ∷ (p ∷ ps) ∷ []) ∷ []

abbrev pub select_command : ℤ → List (List (List ℕ))
select_command (pos zero) = []
select_command d = (codes "SELECT" ∷ int_chars d ∷ []) ∷ []

abbrev pub name_command : List ℕ → List (List (List ℕ))
name_command [] = []
name_command (c ∷ cs) = (codes "CLIENT" ∷ codes "SETNAME" ∷ (c ∷ cs) ∷ []) ∷ []

unfoldable pub handshake_commands : Credentials → List (List (List ℕ))
handshake_commands k =
    ((codes "HELLO" ∷ codes "3" ∷ []) ∷ [])
    ++ auth_command k.username k.password
    ++ select_command k.database
    ++ name_command k.client_name

pub push_commands : Request → List (List (List ℕ)) → Request
push_commands r [] = r
push_commands r (argv ∷ cs) = push_commands (rediscoro.Request.push r argv) cs

unfoldable pub handshake_request : Credentials → Request
unfolding push_commands
handshake_request k = push_commands new_request (handshake_commands k)

-- The result of `do_handshake` when it is an error: of the timer, of the socket, or one of the library's own.
pub data HandshakeError : Type 0 where
  io : IoError → HandshakeError
  coded : ErrorCode → HandshakeError

abbrev pub handshake_error : HandshakeError → ErrorInfo
handshake_error (io timed_out) = error_info (client ClientErrc.handshake_timeout)
handshake_error (io aborted) = error_info (client ClientErrc.operation_aborted)
handshake_error (io (other_io t)) = record { code = client ClientErrc.handshake_failed; detail = t }
handshake_error (coded (protocol e)) = error_info (protocol e)
handshake_error (coded (client e)) = error_info (client e)
handshake_error (coded c) = record {
  code = client ClientErrc.handshake_failed;
  detail = code_message c;
}

-- What the first reply that is an error makes of the handshake: the error, and whether the pipeline is cleared.
abbrev pub reply_error : ErrorInfo → ErrorInfo × Bool
reply_error e = elim e.code [
  | server s ↦ (e, false)
  | _ ↦ (record { code = client ClientErrc.handshake_failed; detail = to_string e }, true)
]

abbrev pub incomplete : ErrorInfo
incomplete = record {
  code = client ClientErrc.handshake_failed;
  detail = codes "handshake slot incomplete";
}

module _ {ℓ} {T : Type ℓ} where
  unfoldable pub first_error : List (Slot T) → Option ErrorInfo
  first_error [] = none
  first_error (value x ∷ ss) = first_error ss
  first_error (unexpected e ∷ ss) = some e

  abbrev pub give_up_cleared : ErrorInfo → Connection T → Option (Connection T × Progress)
  give_up_cleared e c = do cleared ← clear_pipeline e c; some (cleared, gives_up e)

  abbrev pub opened : Connection T → Connection T
  opened c =
      emit_connection_event connected handshake_stage c.intake.state open_ none
        (record (set_state open_ c) {
          reconnect_count = 0;
          generation = (c.generation + 1) % 2 ^ 64;
        })

  unfoldable pub judge : List (Slot T) → Connection T → Option (Connection T × Progress)
  unfolding first_error
  judge results c = elim (first_error results) [
    | none ↦ some (opened c, is_connected)
    | some e ↦
        let (out, clears) = reply_error e in
        if clears then give_up_cleared out c else some (c, gives_up out)
  ]

  -- The end of `do_handshake`: an error of its loops, or of the stop request that they end on.
  abbrev pub handshake_outcome : Option HandshakeError → Connection T → Option HandshakeError
  handshake_outcome (some h) c = some h
  handshake_outcome none c =
      if c.stop_requested then some (coded (client ClientErrc.operation_aborted)) else none

  -- The end of `do_connect`, after `do_handshake`.
  unfoldable pub on_handshake :
      ℕ → Option HandshakeError → Connection T → Option (Connection T × Progress)
  unfolding judge
  on_handshake place (some h) c = give_up_cleared (handshake_error h) c
  on_handshake place none c = do
    s ← get_elem? c.intake.sinks place
    (elim s.result [ none ↦ give_up_cleared incomplete c | some results ↦ judge results c ])

  -- The start of `do_connect`; the parser is reset there.
  unfoldable pub begin_attempt : Connection T → Progress
  begin_attempt c =
      if c.stop_requested then fails_with ClientErrc.operation_aborted else goes_on resolving

  -- After the resolver: the error, or how many endpoints there are.
  unfoldable pub on_resolved : IoError ⊎ ℕ → Connection T → Progress
  on_resolved (inl e) c = fails_with (resolve_error e)
  on_resolved (inr n) c =
      if n == 0
      then fails_with ClientErrc.resolve_failed
      else if c.stop_requested
      then fails_with ClientErrc.operation_aborted
      else goes_on dialing

  -- The request of the handshake, with a sink of its own, is pushed without a deadline.
  unfoldable pub push_handshake : Request → Connection T → Option (Connection T × Progress)
  push_handshake req c = do
    let place = length c.intake.sinks
    let sinks = c.intake.sinks ++ (new_pending req.command_count no_trace ∷ [])
    (p, taken) ← push c.intake.pipe sinks req.wire req.command_count place time_max
    some (
      record c { intake = record c.intake { pipe = p; sinks = sinks } },
      if taken then goes_on (handshaking place) else fails_with ClientErrc.queue_full,
    )

  -- After the endpoints were tried.
  unfoldable pub on_dialed : Request → List Dialed → Connection T → Option (Connection T × Progress)
  unfolding push_handshake
  on_dialed req ds c =
      let (sock, ec) = dial_loop c.socket_open none ds in
      let c' = record c { socket_open = sock } in
      elim ec [
        | some e ↦ some (c', gives_up (connect_error e))
        | none ↦
            if c.stop_requested
            then some (c', fails_with ClientErrc.operation_aborted)
            else push_handshake req c'
      ]

  -- `do_handshake`: a write that went well, and a message that was parsed.
  unfoldable pub handshake_written : ℕ → Connection T → Option (Connection T)
  handshake_written n c = do
    p ← on_write_done c.intake.pipe n
    some (record c { intake = record c.intake { pipe = p } })

  unfoldable pub handshake_reply :
      (Message → T ⊎ ErrorInfo) → Message → Connection T → Option (Connection T ⊎ HandshakeError)
  handshake_reply adapt m c =
      if not (has_pending_read c.intake.pipe)
      then some (inr (coded (client ClientErrc.unsolicited_message)))
      else (do
        (p, ss) ← on_message adapt c.intake.pipe c.intake.sinks m
        some (inl (record c { intake = record c.intake { pipe = p; sinks = ss } })))
