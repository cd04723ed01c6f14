-- ===== src/Connection/Life.antt =====
-- impl/connection/: a connection with the attempt to connect that is in flight, and the order in which its coroutines
-- may run between their waits.
use rediscoro.Prelude.{
  ℕ, ◌≡◌, ◌≢◌, Bool, true, false, Option, none, some, List, [], ◌∷◌, ◌++◌, length, ◌>>=◌, ◌⊎◌, inl,
}
use rediscoro.Errors.{ErrorInfo, ProtocolErrc}
use rediscoro.Resp3.Message.{Message}
use rediscoro.Request.{Request}
use rediscoro.Sink.{new_pending, no_trace}
use rediscoro.Pipeline.{new_pipeline}
use rediscoro.Intake.{
  ConnectionState, init, connecting, failed, reconnecting, closed, Intake, enqueue_impl,
}
use rediscoro.Connection.State.{Connection, close, transition_to_closed}
use rediscoro.Connection.Runtime.{
  IoError, write_done, read_failed, parse_failed, message_read, Control, control_turn,
}
use rediscoro.Connection.Attempt.{
  Attempt, resolving, dialing, handshaking, Progress, gives_up, goes_on, is_connected, Dialed,
  HandshakeError, begin_attempt, on_resolved, on_dialed, handshake_written, handshake_reply,
  on_handshake, handshake_outcome,
}
use rediscoro.Connection.Owners.{
  starts, connect, connect_failed, connect_succeeded, reconnect_attempt, reconnect_failed,
  reconnect_succeeded, actor_completed,
}

-- Who waits for the attempt.
pub data Owner : Type 0 where
  by_connect by_reconnect : Owner

-- The state that the owner has set.
abbrev pub attempt_state : Owner → ConnectionState
attempt_state by_connect = connecting
attempt_state by_reconnect = reconnecting

pub record Live {ℓ} (T : Type ℓ) : Type ℓ where
  pub conn : Connection T
  pub attempt : Option (Owner × Attempt)

abbrev pub owned_by_reconnect : Option (Owner × Attempt) → Bool
owned_by_reconnect (some (by_reconnect, a)) = true
owned_by_reconnect _ = false

module _ {ℓ} {T : Type ℓ} where
  abbrev pub live : Connection T → Option (Owner × Attempt) → Live T
  live c at = record { conn = c; attempt = at }

  -- The sink that `enqueue_dynamic` makes for a request.
  abbrev pub with_sink : ℕ → Intake T → Intake T
  with_sink n i = record i { sinks = i.sinks ++ (new_pending n no_trace ∷ []) }

  abbrev ended : Option (Connection T) → Option (Live T)
  ended c = do d ← c; some (live d none)

  -- What the attempt came to, and what its owner does when it is over.
  unfoldable pub settle : Owner → Connection T → Progress → Option (Live T)
  settle o c (goes_on a) = some (live c (some (o, a)))
  settle by_connect c (gives_up e) = ended (connect_failed e c)
  settle by_connect c is_connected = ended (connect_succeeded c)
  settle by_reconnect c (gives_up e) = some (live (reconnect_failed c) none)
  settle by_reconnect c is_connected = ended (reconnect_succeeded c)

  -- A connection that was just made.
  pub record IsFresh (c : Connection T) : Type ℓ where
    pub at_init : c.intake.state ≡ init
    pub no_requests : (requests bytes : ℕ) × (c.intake.pipe ≡ new_pipeline requests bytes)
    pub not_stopped : c.stop_requested ≡ false

module _ {ℓ} {T : Type ℓ} (adapt : Message → T ⊎ ErrorInfo) where
  -- One coroutine runs from one wait to the next; do_connect goes on in the turn in which do_handshake ends. Five
  -- orders that the code has are left out: a read or a write of the runtime loops that ends well while an attempt is
  -- in flight, `connect` in FAILED or RECONNECTING, `connect` while an earlier attempt is in flight, `connect` between
  -- CLOSED and the completion of the actor, and an actor that throws.
  pub data Step : Live T → Live T → Type ℓ where
    accepts :
        (c : Connection T) (i : Intake T) (at : Option (Owner × Attempt)) (wire : List ℕ)
        (n now : ℕ)
        → enqueue_impl (with_sink n c.intake) wire n (length c.intake.sinks) now ≡ some i
        → Step (live c at) (live (record c { intake = i }) at)
    writes :
        (c c' : Connection T) (r : IoError ⊎ ℕ)
        → write_done r c ≡ some c'
        → Step (live c none) (live c' none)
    read_fails :
        (c c' : Connection T) (r : Option IoError)
        → read_failed r c ≡ some c'
        → Step (live c none) (live c' none)
    parse_fails :
        (c c' : Connection T) (e : ProtocolErrc)
        → parse_failed e c ≡ some c'
        → Step (live c none) (live c' none)
    reads :
        (c c' : Connection T) (m : Message)
        → message_read adapt m c ≡ some c'
        → Step (live c none) (live c' none)
    controls :
        (c c' : Connection T) (now : ℕ) (next : Control)
        → control_turn now c ≡ some (c', next)
        → Step (live c none) (live c' none)
    starts_connect :
        (c c' : Connection T) (b : Live T)
        → c.intake.state ≢ failed
        → c.actor_running ≡ false ⊎ (c.intake.state ≢ closed)
        → connect c ≡ (c', starts)
        → settle by_connect c' (begin_attempt c') ≡ some b
        → Step (live c none) b
    starts_reconnect :
        (c c' : Connection T) (b : Live T)
        → c.intake.state ≡ failed
        → reconnect_attempt c ≡ some c'
        → settle by_reconnect c' (begin_attempt c') ≡ some b
        → Step (live c none) b
    resolves :
        (c : Connection T) (o : Owner) (r : IoError ⊎ ℕ) (b : Live T)
        → settle o c (on_resolved r c) ≡ some b
        → Step (live c (some (o, resolving))) b
    dials :
        (c c' : Connection T) (o : Owner) (req : Request) (ds : List Dialed) (p : Progress)
        (b : Live T)
        → on_dialed req ds c ≡ some (c', p)
        → settle o c' p ≡ some b
        → Step (live c (some (o, dialing))) b
    handshake_writes :
        (c c' : Connection T) (o : Owner) (place n : ℕ)
        → handshake_written n c ≡ some c'
        → Step (live c (some (o, handshaking place))) (live c' (some (o, handshaking place)))
    handshake_reads :
        (c c' : Connection T) (o : Owner) (place : ℕ) (m : Message)
        → handshake_reply adapt m c ≡ some (inl c')
        → Step (live c (some (o, handshaking place))) (live c' (some (o, handshaking place)))
    handshake_ends :
        (c c' : Connection T) (o : Owner) (place : ℕ) (r : Option HandshakeError) (p : Progress)
        (b : Live T)
        → on_handshake place (handshake_outcome r c) c ≡ some (c', p)
        → settle o c' p ≡ some b
        → Step (live c (some (o, handshaking place))) b
    closes :
        (c c' : Connection T) (at : Option (Owner × Attempt))
        → close c ≡ some c'
        → Step (live c at) (live c' at)
    actor_ends :
        (c c' : Connection T) (at : Option (Owner × Attempt))
        → c.stop_requested ≡ true
        → owned_by_reconnect at ≡ false
        → transition_to_closed c ≡ some c'
        → Step (live c at) (live c' at)
    completes :
        (c c' : Connection T) (at : Option (Owner × Attempt))
        → c.intake.state ≡ closed
        → actor_completed none c ≡ some c'
        → Step (live c at) (live c' at)

  pub data Reachable : Live T → Type ℓ where
    fresh : (c : Connection T) → IsFresh c → Reachable (live c none)
    step : (a b : Live T) → Reachable a → Step a b → Reachable b
