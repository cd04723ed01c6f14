-- ===== src/Connection/Receive/Rounds.antt =====
-- impl/connection/io.ipp: the loop of `do_read` ends.
use rediscoro.Prelude.{
  sym, ◌∙◌, ℕ, zero, suc, ◌^◌, ◌<◌, ◌≡◌, refl, true, false, not, Option, none, some, List, arith,
  ◌⊎◌, inl, inr, Bool-cases, if◌then◌else◌, ◌>>=◌,
}
use rediscoro.Errors.{ErrorInfo, ProtocolErrc, error_info, client, ClientErrc}
use rediscoro.Resp3.Message.{Message}
use rediscoro.Resp3.Builder.{build_message}
use rediscoro.Resp3.Buffer.{Buffer, compact, readable}
use rediscoro.Resp3.Parser.{Parser, Parsed, fails, more, done}
use rediscoro.Resp3.Parser.Invariant.{IsWf}
use rediscoro.Resp3.Parser.Run.{parse_one, reclaim}
use rediscoro.Resp3.Parser.Run.Between.{reclaim_lem}
use rediscoro.Resp3.Parser.Run.Total.{parse_one_total}
use rediscoro.Resp3.Parser.Run.Turns.{AfterParse}
use rediscoro.Pipeline.{has_pending_read}
use rediscoro.Connection.State.{Connection, handle_error}
use rediscoro.Connection.Runtime.{message_read}
use rediscoro.Connection.Life
use rediscoro.Connection.Life.{live}
use rediscoro.Connection.Receive.{on_parsed, receive_loop}
use rediscoro.Connection.Receive.Steps.{receive_loop-Can}

module _ {ℓ} {T : Type ℓ} (from_chars_f64 : List ℕ → Option (ℕ × List ℕ))
    (adapt : Message → T ⊎ ErrorInfo) (build_rounds : ℕ) where
  abbrev Loop : Type ℓ
  Loop = Parser → Connection T → Option (Parser × Connection T)

  on_parsed-done :
      (loop loop' : Loop) (p : Parser) (c : Connection T) (root : ℕ)
      → ((c' : Connection T) → loop (reclaim p) c' ≡ loop' (reclaim p) c')
      → on_parsed from_chars_f64 adapt build_rounds loop p c (done root)
        ≡ on_parsed from_chars_f64 adapt build_rounds loop' p c (done root)
  unfolding on_parsed
  on_parsed-done loop loop' p c root same = λ i.
      if not (has_pending_read c.intake.pipe)
      then (handle_error (error_info (client ClientErrc.unsolicited_message)) c >>= λ c'.
          some (p, c'))
      else (build_message build_rounds p.buf p.tree root >>= λ m.
          message_read adapt m c >>= λ c'. same c' i)

  compact-end : (b : Buffer) → 0 < b.read_pos → (compact b).write_pos ≡ readable b
  unfolding compact
  compact-end b h = ground arith

  reclaim-less :
      (end : ℕ) (p : Parser) (root : ℕ)
      → AfterParse end p (done root)
      → (reclaim p).buf.write_pos < end
  unfolding reclaim
  reclaim-less end p root (v, isnode, empty, ready, same) =
      omega (arith, v.few, v.buffer, compact-end p.buf (omega (arith, v.few)))

  parse_one-failed :
      (p : Parser)
      → p.tree_ready ≡ false
      → p.failed ≡ true
      → parse_one from_chars_f64 p ≡ some (p, fails ProtocolErrc.parser_failed)
  unfolding parse_one
  parse_one-failed p fresh failed = simp (fresh, failed) refl

  abbrev Same : ℕ → ℕ → Type ℓ
  Same m n =
      (p : Parser) (c : Connection T)
      → IsWf p
      → p.buf.write_pos < 2 ^ 32
      → p.tree_ready ≡ false
      → p.buf.write_pos < m
      → p.buf.write_pos < n
      → receive_loop from_chars_f64 adapt build_rounds m p c
        ≡ receive_loop from_chars_f64 adapt build_rounds n p c

  rest-Same :
      (m n : ℕ)
      → Same m n
      → (end : ℕ) (q : Parser) (c : Connection T) (r : Parsed ℕ) → end < 2 ^ 32
      → end < suc m
      → end < suc n
      → AfterParse end q r
      → on_parsed from_chars_f64 adapt build_rounds
          (λ p' c'. receive_loop from_chars_f64 adapt build_rounds m p' c')
          q
          c
          r
        ≡ on_parsed from_chars_f64 adapt build_rounds
            (λ p' c'. receive_loop from_chars_f64 adapt build_rounds n p' c')
            q
            c
            r
  unfolding on_parsed
  rest-Same m n ih end q c (fails e) small a b after = refl
  rest-Same m n ih end q c more small a b after = refl
  rest-Same m n ih end q c (done root) small a b after =
      let less = reclaim-less end q root after in
      let (ok, kept, ready, failed) = reclaim_lem q after.0 in
      on_parsed-done (λ p' c'. receive_loop from_chars_f64 adapt build_rounds m p' c')
        (λ p' c'. receive_loop from_chars_f64 adapt build_rounds n p' c') q c root
        (λ c'. ih (reclaim q) c' ok (omega arith) ready (omega arith) (omega arith))

  -- For an orderly parser without an unconsumed tree and with fewer than 2 ^ 32 bytes received, more rounds than bytes
  -- received are enough: how many more of them there are does not change what the loop of do_read gives.
  receive_loop-Same : (m n : ℕ) → Same m n
  unfolding receive_loop
  receive_loop-Same zero n p c v small fresh a b = absurd (omega arith)
  receive_loop-Same (suc m) zero p c v small fresh a b = absurd (omega arith)
  receive_loop-Same (suc m) (suc n) p c v small fresh a b = elim (Bool-cases p.failed) [
    | inl failed ↦ rw (parse_one-failed p fresh failed, on_parsed) refl
    | inr going ↦
        let (q, r, gives, after) = parse_one_total from_chars_f64 p v small going fresh in
        rw gives (rest-Same m n (receive_loop-Same m n) p.buf.write_pos q c r small a b after)
  ]

  -- For an orderly parser without an unconsumed tree and with fewer than 2 ^ 32 bytes received, and a
  -- state that the connection can come to outside an attempt: where the loop of do_read over parse_one,
  -- build_message, on_message and reclaim gives a result in more rounds than bytes were received, it gives
  -- the same one in any other such number of rounds, and its connection is one that the single steps of
  -- the connection come to.
  pub receive_loop-Reachable :
      (m n : ℕ) (p : Parser) (c : Connection T) (r : Parser × Connection T)
      → IsWf p
      → p.buf.write_pos < 2 ^ 32
      → p.tree_ready ≡ false
      → p.buf.write_pos < m
      → p.buf.write_pos < n
      → Life.Reachable adapt (live c none)
      → receive_loop from_chars_f64 adapt build_rounds m p c ≡ some r
      → (receive_loop from_chars_f64 adapt build_rounds n p c ≡ some r)
        × Life.Reachable adapt (live r.1 none)
  receive_loop-Reachable m n p c r v small fresh a b can h = (
    sym (receive_loop-Same m n p c v small fresh a b) ∙ h,
    receive_loop-Can from_chars_f64 adapt build_rounds m p c r can h,
  )
