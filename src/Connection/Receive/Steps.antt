-- ===== src/Connection/Receive/Steps.antt =====
-- impl/connection/io.ipp: `do_read` is made of steps of the connection.
use rediscoro.Prelude.{
  ap, ℕ, zero, suc, ◌≡◌, sym, ◌∙◌, subst, true, not, Option, none, some, List, [], ◌∷◌, ◌⊎◌, inl,
  inr, >>=-eq-some, same_some, none≢some, Bool-cases, if_true, if_false, length,
}
use rediscoro.Errors.{ErrorInfo, error_info, client, ClientErrc}
use rediscoro.Resp3.Buffer
use rediscoro.Resp3.Kind.{Kind}
use rediscoro.Resp3.Message.{Message, message, null, no_attrs}
use rediscoro.Resp3.Builder.{build_message}
use rediscoro.Resp3.Parser.{Parser, Parsed, fails, more, done}
use rediscoro.Resp3.Parser.Run.{parse_one, reclaim}
use rediscoro.Pipeline.{has_pending_read}
use rediscoro.Connection.Life
use rediscoro.Connection.Life.{live, Step, reads, read_fails, parse_fails}
use rediscoro.Connection.State.{Connection, handle_error}
use rediscoro.Connection.Runtime.{IoError, read_failed, parse_failed, message_read}
use rediscoro.Connection.Receive.{on_parsed, receive_loop, read_done}

module _ {ℓ} {T : Type ℓ} (from_chars_f64 : List ℕ → Option (ℕ × List ℕ))
    (adapt : Message → T ⊎ ErrorInfo) (build_rounds : ℕ) where
  abbrev Can : Connection T → Type ℓ
  Can c = Life.Reachable adapt (live c none)

  abbrev any_message : Message
  any_message = message (null Kind.null) no_attrs

  unsolicited :
      (c c' : Connection T)
      → not (has_pending_read c.intake.pipe) ≡ true
      → handle_error (error_info (client ClientErrc.unsolicited_message)) c ≡ some c'
      → message_read adapt any_message c ≡ some c'
  unfolding message_read
  unsolicited c c' nobody h = if_true _ _ nobody ∙ h

  abbrev Keeps : (Parser → Connection T → Option (Parser × Connection T)) → Type ℓ
  Keeps loop =
      (p : Parser) (c : Connection T) (r : Parser × Connection T)
      → Can c
      → loop p c ≡ some r
      → Can r.1

  on_parsed-Can :
      (loop : Parser → Connection T → Option (Parser × Connection T))
      → Keeps loop
      → (p : Parser) (c : Connection T) (v : Parsed ℕ) (r : Parser × Connection T) → Can c
      → on_parsed from_chars_f64 adapt build_rounds loop p c v ≡ some r
      → Can r.1
  unfolding on_parsed
  on_parsed-Can loop k p c (fails e) r can h =
      let (c', parsed, gives) = >>=-eq-some (parse_failed e c) _ h in
      subst Can (ap (λ x. x.1) (same_some gives))
        (Life.step (live c none) (live c' none) can (parse_fails c c' e parsed))
  on_parsed-Can loop k p c more r can h = subst Can (ap (λ x. x.1) (same_some h)) can
  on_parsed-Can loop k p c (done root) r can h =
      elim (Bool-cases (not (has_pending_read c.intake.pipe))) [
        | inl nobody ↦
            let (c', lost, gives) =
              >>=-eq-some (handle_error (error_info (client ClientErrc.unsolicited_message)) c) _
                (sym (if_true _ _ nobody) ∙ h) in
            subst Can (ap (λ x. x.1) (same_some gives)) (
              Life.step (live c none) (live c' none) can
                (reads c c' any_message (unsolicited c c' nobody lost)))
        | inr waits ↦
            let (m, built, then_) =
              >>=-eq-some (build_message build_rounds p.buf p.tree root) _
                (sym (if_false _ _ waits) ∙ h) in
            let (c', told, goes) = >>=-eq-some (message_read adapt m c) _ then_ in
            k (reclaim p) c' r (Life.step (live c none) (live c' none) can (reads c c' m told)) goes
      ]

  pub receive_loop-Can : (fuel : ℕ) → Keeps (receive_loop from_chars_f64 adapt build_rounds fuel)
  unfolding receive_loop
  receive_loop-Can zero p c r can h = absurd (none≢some h)
  receive_loop-Can (suc fuel) p c r can h =
      let (v, parsed, then_) = >>=-eq-some (parse_one from_chars_f64 p) _ h in
      on_parsed-Can (λ p' c'. receive_loop from_chars_f64 adapt build_rounds fuel p' c')
        (receive_loop-Can fuel) v.0 c v.1 r can then_

  -- What do_read makes of the outcome of a read, wherever it returns, is a state that the steps of the connection come to.
  read_done-Reachable :
      (fuel : ℕ) (got : IoError ⊎ List ℕ) (p : Parser) (c : Connection T)
      (r : Parser × Connection T)
      → Can c
      → read_done from_chars_f64 adapt build_rounds fuel got p c ≡ some r
      → Can r.1
  unfolding read_done
  read_done-Reachable fuel (inl io) p c r can h =
      let (c', lost, gives) = >>=-eq-some (read_failed (some io) c) _ h in
      subst Can (ap (λ x. x.1) (same_some gives))
        (Life.step (live c none) (live c' none) can (read_fails c c' (some io) lost))
  read_done-Reachable fuel (inr []) p c r can h =
      let (c', lost, gives) = >>=-eq-some (read_failed none c) _ h in
      subst Can (ap (λ x. x.1) (same_some gives))
        (Life.step (live c none) (live c' none) can (read_fails c c' none lost))
  read_done-Reachable fuel (inr (x ∷ bytes)) p c r can h =
      let (b, committed, then_) =
        >>=-eq-some (Buffer.commit (Buffer.fill p.buf (x ∷ bytes)) (length (x ∷ bytes))) _ h in
      receive_loop-Can fuel (record p { buf = b }) c r can then_
