-- ===== src/Resp3/Buffer/Laws.antt =====
-- resp3/buffer.hpp: what each operation does to the unread bytes and to views of them.
use rediscoro.Prelude.{
  ℕ, suc, ◌+◌, ◌-◌, ◌^◌, ◌≤◌, ◌<◌, ◌≡◌, refl, ap, sym, ◌∙◌, some, List, ◌++◌, true, false, arith,
  leb, leb→le, ◌==◌, ==_iff, if◌then◌else◌, length, take, drop, replicate, length-append,
  length-replicate, length-take, length-drop, take-append_le, take-append_ge, take-append_eq,
  drop-append_le, take-drop, drop-drop, Bool-cases, inl, inr,
}
use rediscoro.Resp3.Buffer.{
  Buffer, slice, contents, readable, prepare, commit, fill, consume, compact, resize,
}
use rediscoro.Resp3.Buffer.Growth.{grow_size_lem}

pub record IsValid (b : Buffer) : Type 0 where
  pub order : b.read_pos ≤ b.write_pos
  pub inside : b.write_pos ≤ length b.cells
  pub nonempty : 0 < length b.cells

-- A slice up to `w` sees only the part of the cells before `w`.
pub slice-eq : (cells : List ℕ) (r w : ℕ) → r ≤ w → slice cells r (w - r) ≡ drop r (take w cells)
slice-eq cells r w h = take-drop r (w - r) cells ∙ ap (λ k. drop r (take k cells)) (omega arith)

pub length-slice : (cells : List ℕ) (o n : ℕ) → o + n ≤ length cells → length (slice cells o n) ≡ n
length-slice cells o n h = omega (arith, length-take n (drop o cells), length-drop o cells)

-- Cells added at the end are outside every old slice.
pub slice-append :
    (cells more : List ℕ) (o n : ℕ)
    → o + n ≤ length cells
    → slice (cells ++ more) o n ≡ slice cells o n
slice-append cells more o n h =
    take-drop o n (cells ++ more)
    ∙ ap (drop o) (take-append_le (o + n) cells more h)
    ∙ sym (take-drop o n cells)

pub record Prepared (b : Buffer) (n : ℕ) (b' : Buffer) : Type 0 where
  pub valid : IsValid b'
  pub same : contents b' ≡ contents b
  pub room : n ≤ length b'.cells - b'.write_pos
  pub kept : (b'.read_pos ≡ b.read_pos) × (b'.write_pos ≡ b.write_pos)
  pub moved : b'.block ≡ (if leb n (length b.cells - b.write_pos) then b.block else suc b.block)

in_place-Prepared :
    (b : Buffer) (n : ℕ)
    → IsValid b
    → leb n (length b.cells - b.write_pos) ≡ true
    → (prepare b n ≡ some b) × Prepared b n b
unfolding prepare
in_place-Prepared b n v roomy = (
  ground (arith, v.inside, v.nonempty),
  record { valid = v; same = refl; room = leb→le _ _ roomy; kept = (refl, refl); moved = rw roomy },
)

moved-Prepared :
    (b : Buffer) (n m : ℕ)
    → IsValid b
    → leb n (length b.cells - b.write_pos) ≡ false
    → b.write_pos + n ≤ m
    → Prepared b n (resize b m)
moved-Prepared b n m v tight h = record {
  valid = record {
    order = v.order;
    inside = omega (arith, longer, v.inside);
    nonempty = omega (arith, longer, v.nonempty);
  };
  same =
      slice-append b.cells (replicate (m - length b.cells) 0) b.read_pos (readable b)
        (omega (arith, v.order, v.inside));
  room = omega (arith, longer);
  kept = (refl, refl);
  moved = rw tight;
}
  where
    longer : length (resize b m).cells ≡ length b.cells + (m - length b.cells)
    longer = omega (
      arith,
      length-append b.cells (replicate (m - length b.cells) 0),
      length-replicate {A = ℕ} (m - length b.cells) 0,
    )

-- In a valid buffer, where the write position with the room asked for is below 2 ^ 64, prepare succeeds
-- within its loop bound: the buffer is valid, has the room, keeps its positions and its unread bytes, and
-- is reallocated exactly if the room was not there.
pub prepare_lem :
    (b : Buffer) (n : ℕ)
    → IsValid b
    → b.write_pos + n < 2 ^ 64
    → (b' : Buffer) × (prepare b n ≡ some b') × Prepared b n b'
unfolding prepare
prepare_lem b n v small = elim (Bool-cases (leb n (length b.cells - b.write_pos))) [
  | inl roomy ↦ (b, (in_place-Prepared b n v roomy).0, (in_place-Prepared b n v roomy).1)
  | inr tight ↦
      let (m, e, h) = grow_size_lem (length b.cells) b.write_pos n v.nonempty v.inside small in
      (resize b m, ground (arith, v.inside, v.nonempty), moved-Prepared b n m v tight h)
]

pub length-fill :
    (b : Buffer) (bytes : List ℕ)
    → IsValid b
    → length bytes ≤ length b.cells - b.write_pos
    → length (fill b bytes).cells ≡ length b.cells
length-fill b bytes v room = omega (
  arith,
  length-append (take w b.cells) (bytes ++ drop (w + length bytes) b.cells),
  length-append bytes (drop (w + length bytes) b.cells),
  length-drop (w + length bytes) b.cells,
  length-take w b.cells,
  v.inside,
)
  where
    open b use {write_pos as w}

-- Bytes written into the free room of a valid buffer and committed are appended to the unread bytes; no
-- assertion fails and the buffer stays valid.
pub commit-fill :
    (b : Buffer) (bytes : List ℕ)
    → IsValid b
    → length bytes ≤ length b.cells - b.write_pos
    → (b' : Buffer) × (commit (fill b bytes) (length bytes) ≡ some b')
      × IsValid b'
      × (contents b' ≡ contents b ++ bytes)
unfolding commit
commit-fill b bytes v room = (
  record (fill b bytes) { write_pos = b.write_pos + length bytes },
  ground (arith, filled, v.inside),
  record {
    order = omega (arith, v.order);
    inside = omega (arith, filled, v.inside);
    nonempty = omega (arith, filled, v.inside, v.nonempty);
  },
  slice-eq (fill b bytes).cells r (w + k) (omega (arith, v.order))
      ∙ ap (drop r) (take-append_ge w k (take w b.cells) (bytes ++ rest) before)
      ∙ ap (λ ys. drop r (take w b.cells ++ ys)) (take-append_eq k bytes rest refl)
      ∙ drop-append_le r (take w b.cells) bytes (omega (arith, before, v.order))
      ∙ ap (λ ys. ys ++ bytes) (sym (slice-eq b.cells r w v.order)),
)
  where
    w : ℕ
    w = b.write_pos

    r : ℕ
    r = b.read_pos

    k : ℕ
    k = length bytes

    rest : List ℕ
    rest = drop (w + k) b.cells

    before : w ≡ length (take w b.cells)
    before = omega (arith, length-take w b.cells, v.inside)

    filled : length (fill b bytes).cells ≡ length b.cells
    filled = length-fill b bytes v room

pub consume_eq :
    (b : Buffer) (n : ℕ)
    → n ≤ readable b
    → consume b n ≡ some (record b { read_pos = b.read_pos + n })
unfolding consume
consume_eq b n h = ground arith

-- In a valid buffer, consuming no more bytes than are unread fails no assertion, drops exactly these bytes
-- from the front of the unread ones, and leaves the buffer valid.
pub consume_lem :
    (b : Buffer) (n : ℕ)
    → IsValid b
    → n ≤ readable b
    → (b' : Buffer) × (consume b n ≡ some b') × IsValid b' × (contents b' ≡ drop n (contents b))
consume_lem b n v h = (
  record b { read_pos = b.read_pos + n },
  consume_eq b n h,
  record { order = omega (arith, v.order); inside = v.inside; nonempty = v.nonempty },
  slice-eq b.cells (b.read_pos + n) b.write_pos (omega (arith, v.order))
      ∙ sym (drop-drop b.read_pos n (take b.write_pos b.cells))
      ∙ ap (drop n) (sym (slice-eq b.cells b.read_pos b.write_pos v.order)),
)

-- In a valid buffer compact keeps the unread bytes and the capacity, moves the read position to 0, and
-- leaves the buffer valid.
pub compact_lem :
    (b : Buffer)
    → IsValid b
    → IsValid (compact b)
      × (contents (compact b) ≡ contents b)
      × ((compact b).read_pos ≡ 0)
      × (length (compact b).cells ≡ length b.cells)
unfolding compact
compact_lem b v = elim (Bool-cases (b.read_pos == 0)) [
  | inl front ↦ rw front (v, refl, (==_iff b.read_pos 0).0 front, refl)
  | inr later ↦ rw later (
    record {
      order = omega arith;
      inside = omega (arith, kept, v.order, v.inside);
      nonempty = omega (arith, kept, v.nonempty);
    },
    take-append_eq (readable b - 0) (contents b) (drop (readable b) b.cells)
        (omega (arith, unread)),
    refl,
    kept,
  )
]
  where
    unread : length (contents b) ≡ readable b
    unread = length-slice b.cells b.read_pos (readable b) (omega (arith, v.order, v.inside))

    kept : length (contents b ++ drop (readable b) b.cells) ≡ length b.cells
    kept = omega (
      arith,
      length-append (contents b) (drop (readable b) b.cells),
      unread,
      length-drop (readable b) b.cells,
      v.order,
      v.inside,
    )
