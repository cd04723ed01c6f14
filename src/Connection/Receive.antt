-- ===== src/Connection/Receive.antt =====
-- impl/connection/io.ipp, `do_read`: a read of the socket, and the loop that parses what was received, builds the
-- messages and gives them to the pipeline.
pub mod Steps
pub mod Rounds
mod Tests
use rediscoro.Prelude.{
  ℕ, zero, suc, Option, none, some, List, [], ◌∷◌, if◌then◌else◌, not, ◌>>=◌, length, ◌⊎◌, inl, inr,
}
use rediscoro.Errors.{ErrorInfo, error_info, client, ClientErrc}
use rediscoro.Resp3.Buffer
use rediscoro.Resp3.Message.{Message}
use rediscoro.Resp3.Builder.{build_message}
use rediscoro.Resp3.Parser.{Parser, Parsed, fails, more, done}
use rediscoro.Resp3.Parser.Run.{parse_one, reclaim}
use rediscoro.Pipeline.{has_pending_read}
use rediscoro.Connection.State.{Connection, handle_error}
use rediscoro.Connection.Runtime.{IoError, read_failed, parse_failed, message_read}

module _ {ℓ} {T : Type ℓ} (from_chars_f64 : List ℕ → Option (ℕ × List ℕ))
    (adapt : Message → T ⊎ ErrorInfo) (build_rounds : ℕ) where
  -- What the loop does with the outcome of `parse_one`; `loop` is the rest of the loop.
  unfoldable pub on_parsed :
      (Parser → Connection T → Option (Parser × Connection T))
      → Parser
      → Connection T
      → Parsed ℕ
      → Option (Parser × Connection T)
  on_parsed loop p c (fails e) = do c' ← parse_failed e c; some (p, c')
  on_parsed loop p c more = some (p, c)
  on_parsed loop p c (done root) =
      if not (has_pending_read c.intake.pipe)
      then (do
        c' ← handle_error (error_info (client ClientErrc.unsolicited_message)) c
        some (p, c'))
      else (do
        m ← build_message build_rounds p.buf p.tree root
        c' ← message_read adapt m c
        loop (reclaim p) c')

  -- `for (;;)`, on fuel.
  unfoldable pub receive_loop : ℕ → Parser → Connection T → Option (Parser × Connection T)
  unfolding on_parsed
  receive_loop zero p c = none
  receive_loop (suc fuel) p c = do
    (q, r) ← parse_one from_chars_f64 p
    on_parsed (λ p' c'. receive_loop fuel p' c') q c r

  -- `do_read` behind `async_read_some` into the span that `prepare` gave.
  unfoldable pub read_done :
      ℕ → IoError ⊎ List ℕ → Parser → Connection T → Option (Parser × Connection T)
  unfolding receive_loop
  read_done fuel (inl io) p c = do c' ← read_failed (some io) c; some (p, c')
  read_done fuel (inr []) p c = do c' ← read_failed none c; some (p, c')
  read_done fuel (inr (x ∷ bytes)) p c = do
    b ← Buffer.commit (Buffer.fill p.buf (x ∷ bytes)) (length (x ∷ bytes))
    receive_loop fuel (record p { buf = b }) c
