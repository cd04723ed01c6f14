-- ===== src/Resp3/Parser/Run/Between.antt =====
-- resp3/parser.hpp, `prepare`, `commit`, `reclaim` and `reset`: what the caller does between two calls of
-- `parse_one` leaves the parser in order.
use rediscoro.Prelude.{
  ℕ, ◌+◌, ◌^◌, ◌≤◌, ◌<◌, ◌≡◌, refl, inr, false, some, List, [], ◌++◌, arith, length, ap, ◌∙◌, sym,
  subst, >>=-eq-some, same_some,
}
use rediscoro.Resp3.Buffer
use rediscoro.Resp3.Buffer.{Buffer, contents, prepare, commit, fill}
use rediscoro.Resp3.Buffer.Laws.{prepare_lem, commit-fill, compact_lem}
use rediscoro.Resp3.Parser.{Parser, new_parser}
use rediscoro.Resp3.Parser.Run.{feed, reclaim, reset}
use rediscoro.Resp3.Parser.Invariant.{IsWf}

commit-read_pos : (b b' : Buffer) (n : ℕ) → commit b n ≡ some b' → b'.read_pos ≡ b.read_pos
unfolding commit
commit-read_pos b b' n e = ground arith

-- In an orderly parser, prepare, a read of no more bytes than were asked for, and commit fail no
-- assertion, append exactly these bytes to the unread ones and leave the parser orderly, where the buffer
-- stays below 2 ^ 64.
pub feed_lem :
    (p : Parser) (n : ℕ) (bytes : List ℕ)
    → IsWf p
    → p.buf.write_pos + n < 2 ^ 64
    → length bytes ≤ n
    → (q : Parser) × (feed p n bytes ≡ some q) × IsWf q × (contents q.buf ≡ contents p.buf ++ bytes)
unfolding feed
feed_lem p n bytes v small h =
    let (b, prepared, ok) = prepare_lem p.buf n v.buffer small in
    let (b', committed, valid, more) = commit-fill b bytes ok.valid (omega (arith, h, ok.room)) in
    (
      record p { buf = b' },
      rw (prepared, committed) refl,
      record {
        buffer = valid;
        few =
            omega
              (arith, v.few, ok.kept, commit-read_pos (fill b bytes) b' (length bytes) committed);
        frames = v.frames;
      },
      more ∙ ap (λ ys. ys ++ bytes) ok.same,
    )

pub reclaim_lem :
    (p : Parser)
    → IsWf p
    → IsWf (reclaim p)
      × (contents (reclaim p).buf ≡ contents p.buf)
      × ((reclaim p).tree_ready ≡ false)
      × ((reclaim p).failed ≡ p.failed)
unfolding reclaim
reclaim_lem p v =
    let (ok, same, front, size) = compact_lem p.buf v.buffer in
    (record { buffer = ok; few = omega arith; frames = inr refl }, same, refl, refl)

-- A parser that was reset is orderly and has nothing unread.
reset_lem :
    (p : Parser)
    → 0 < length p.buf.cells
    → IsWf (reset p)
      × (contents (reset p).buf ≡ [])
      × ((reset p).failed ≡ false)
      × ((reset p).tree_ready ≡ false)
unfolding reset Buffer.reset
reset_lem p h = (
  record {
    buffer = record { order = omega arith; inside = omega arith; nonempty = h };
    few = omega arith;
    frames = inr refl;
  },
  refl,
  refl,
  refl,
)

-- Whatever a parser went through, where its buffer has room for a byte at all: after reset, prepare, a
-- read of no more bytes than were asked for, and commit fail no assertion and leave a new parser with
-- these limits, no tree, frame, pending attribute or failure among it, that is orderly and whose unread
-- bytes are exactly these; where fewer than 2 ^ 64 bytes are asked for.
pub feed-reset :
    (p : Parser) (n capacity : ℕ) (bytes : List ℕ)
    → 0 < length p.buf.cells
    → n < 2 ^ 64
    → length bytes ≤ n
    → (b : Buffer) × (feed (reset p) n bytes
        ≡ some (record (new_parser p.limits capacity) { buf = b }))
      × IsWf (record (new_parser p.limits capacity) { buf = b })
      × (contents b ≡ bytes)
unfolding feed reset Buffer.reset new_parser
feed-reset p n capacity bytes some_cells small h =
    let (q, fed, ok, holds) =
      feed_lem (reset p) n bytes (reset_lem p some_cells).0 (omega arith) h in
    let (b, prepared, rest) = >>=-eq-some (prepare (Buffer.reset p.buf) n) _ fed in
    let (b', committed, gives) = >>=-eq-some (commit (fill b bytes) (length bytes)) _ rest in
    let same = same_some gives in
    (b', fed ∙ sym gives, subst IsWf (sym same) ok, ap (λ x. contents x.buf) same ∙ holds)
