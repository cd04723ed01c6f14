-- ===== src/Connection/Moves.antt =====
-- detail/connection_state.hpp and impl/connection/: the diagram of the states, with the generation and the stop
-- request, and what each state says of the pipeline.
use rediscoro.Prelude.{
  ℕ, ◌+◌, ◌%◌, ◌^◌, ◌≡◌, ◌≢◌, refl, sym, Bool, true, false, Option, none, some, true≢false,
}
use rediscoro.Pipeline.{Pipeline}
use rediscoro.Intake.{
  ConnectionState, init, connecting, open_, failed, reconnecting, closing, closed,
}
use rediscoro.Connection.State.{Connection}
use rediscoro.Connection.Attempt.{Attempt, resolving, dialing, handshaking}
use rediscoro.Connection.Life.{Owner, by_connect, by_reconnect, attempt_state}
use rediscoro.Connection.Effects.{IsIdle, view}
use rediscoro.Connection.Queue.{Holds}

-- State, generation, and whether a stop is requested.
abbrev pub View : Type 0
View = ConnectionState × ℕ × Bool

-- CLOSED comes only with a stop request, OPEN only out of an attempt and with the next generation. A reconnection that
-- `close` cancels is written as FAILED over CLOSING.
pub data Move : View → View → Type 0 where
  stays : {v : View} → Move v v
  dials_up : {g : ℕ} → Move (init, g, false) (connecting, g, false)
  starts_over : {g : ℕ} → Move (closed, g, true) (connecting, g, false)
  opens : (o : Owner) {g : ℕ} → Move (attempt_state o, g, false) (open_, (g + 1) % 2 ^ 64, false)
  loses : {g : ℕ} {b : Bool} → Move (open_, g, b) (failed, g, b)
  retries : {g : ℕ} → Move (failed, g, false) (reconnecting, g, false)
  retry_fails : {g : ℕ} {b : Bool} → Move (reconnecting, g, b) (failed, g, b)
  retry_cancelled : {g : ℕ} → Move (closing, g, true) (failed, g, true)
  shuts : {s : ConnectionState} {g : ℕ} {b : Bool} → s ≢ closed → Move (s, g, b) (closing, g, true)
  ends : {s : ConnectionState} {g : ℕ} → Move (s, g, true) (closed, g, true)

-- Between attempts only an open connection holds requests.
abbrev pub Settled : View → Pipeline → Type 0
Settled (open_, g, b) p = Unit
Settled (init, g, b) p = IsIdle p × (b ≡ false)
Settled (failed, g, b) p = IsIdle p
Settled (closing, g, b) p = IsIdle p × (b ≡ true)
Settled (closed, g, b) p = IsIdle p × (b ≡ true)
Settled (connecting, g, b) p = ⊥
Settled (reconnecting, g, b) p = ⊥

-- During an attempt the state is its owner's, or the connection is shutting down.
abbrev pub Attempting : Owner → View → Type 0
Attempting by_connect (connecting, g, b) = Unit
Attempting by_connect (closing, g, b) = b ≡ true
Attempting by_connect (closed, g, b) = b ≡ true
Attempting by_reconnect (reconnecting, g, b) = Unit
Attempting by_reconnect (closing, g, b) = b ≡ true
Attempting _ _ = ⊥

module _ {ℓ} {T : Type ℓ} where
  abbrev pub Sound : Option (Owner × Attempt) → Connection T → Type ℓ
  Sound none c = Settled (view c) c.intake.pipe × Unit {ℓ}
  Sound (some (o, resolving)) c = Attempting o (view c) × IsIdle c.intake.pipe × Unit {ℓ}
  Sound (some (o, dialing)) c = Attempting o (view c) × IsIdle c.intake.pipe × Unit {ℓ}
  Sound (some (o, handshaking place)) c =
      Attempting o (view c) × Holds place c.intake.pipe c.intake.sinks

-- A stop request tells that the connection is not shutting down.
pub Attempting-state :
    (o : Owner) (s : ConnectionState) (g : ℕ) → Attempting o (s, g, false) → s ≡ attempt_state o
Attempting-state by_connect connecting g a = refl
Attempting-state by_connect closing g a = absurd (true≢false (sym a))
Attempting-state by_connect closed g a = absurd (true≢false (sym a))
Attempting-state by_reconnect reconnecting g a = refl
Attempting-state by_reconnect closing g a = absurd (true≢false (sym a))
Attempting-state _ _ g a = absurd a

-- `close` during an attempt, and behind one.
pub Attempting-closing : (o : Owner) (v : View) → Attempting o v → Attempting o (closing, v.1, true)
Attempting-closing by_connect v a = refl
Attempting-closing by_reconnect v a = refl

pub failed-Move : (v : View) → Attempting by_reconnect v → Move v (failed, v.1, v.2)
failed-Move (reconnecting, g, b) a = retry_fails
failed-Move (closing, g, true) a = retry_cancelled
failed-Move (closing, g, false) a = absurd (true≢false (sym a))
failed-Move (_, g, b) a = absurd a

pub idle-Settled : (v : View) (p : Pipeline) → IsIdle p → v.0 ≡ closing → v.2 ≡ true → Settled v p
idle-Settled (closing, g, b) p i s e = (i, e)
idle-Settled (_, g, b) p i s e = absurd cc
