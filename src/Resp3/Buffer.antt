-- ===== src/Resp3/Buffer.antt =====
-- resp3/buffer.hpp: the input buffer, a vector with a read and a write position. A byte is a number.
pub mod Growth
pub mod Laws
pub mod Views
mod Tests
use rediscoro.Prelude.{
  ℕ, zero, suc, ◌+◌, ◌-◌, ◌*◌, ◌/◌, ◌%◌, ◌^◌, max, false, Option, none, some, List, [], ◌++◌, ltb,
  leb, ◌==◌, if◌then◌else◌, length, take, drop, replicate, ◌>>=◌,
}

-- `block` names the allocation that holds the vector: it changes when the vector is moved.
pub record Buffer : Type 0 where
  pub cells : List ℕ
  pub block : ℕ
  pub read_pos : ℕ
  pub write_pos : ℕ

-- A `std::string_view` into the buffer. An empty one refers to no byte.
pub record View : Type 0 where
  pub block : ℕ
  pub offset : ℕ
  pub len : ℕ

abbrev pub no_text : View
no_text = record { block = 0; offset = 0; len = 0 }

abbrev pub slice : List ℕ → ℕ → ℕ → List ℕ
slice cells offset len = take len (drop offset cells)

-- The bytes behind a view; a fault where the vector has moved away or the range is outside it.
unfoldable pub read_view : Buffer → View → Option (List ℕ)
read_view b v =
    if v.len == 0
    then some []
    else if (if v.block == b.block then leb (v.offset + v.len) (length b.cells) else false)
    then some (slice b.cells v.offset v.len)
    else none

unfoldable pub new_buffer : ℕ → Buffer
new_buffer initial_capacity = record {
  cells = replicate (if initial_capacity == 0 then 1 else initial_capacity) 0;
  block = 0;
  read_pos = 0;
  write_pos = 0;
}

abbrev pub size_max : ℕ
size_max = 2 ^ 64 - 1

-- `while (new_size - write_pos < n)`, on fuel.
unfoldable pub grow_size : ℕ → ℕ → ℕ → ℕ → Option ℕ
grow_size zero new_size write_pos n = none
grow_size (suc f) new_size write_pos n =
    let more = grow_size f (new_size * 2) write_pos n in
    if ltb (new_size - write_pos) n
    then if ltb (size_max / 2) new_size then some ((write_pos + n) % 2 ^ 64) else more
    else some new_size

-- `vector::resize` to a larger size moves the vector to a new block.
abbrev pub resize : Buffer → ℕ → Buffer
resize b n = record b { cells = b.cells ++ replicate (n - length b.cells) 0; block = suc b.block }

-- The fuel covers every doubling of a 64-bit size.
unfoldable pub ensure_writable : Buffer → ℕ → Option Buffer
ensure_writable b n =
    if leb b.write_pos (length b.cells)
    then if length b.cells == 0
      then some (record (resize b (max n 1)) { read_pos = 0; write_pos = 0 })
      else if leb n (length b.cells - b.write_pos)
      then some b
      else (do new_size ← grow_size 64 (length b.cells) b.write_pos n; some (resize b new_size))
    else none

-- The span that `prepare` returns is the part of the cells from `write_pos` on.
unfoldable pub prepare : Buffer → ℕ → Option Buffer
unfolding ensure_writable
prepare b min_size = ensure_writable b min_size

unfoldable pub commit : Buffer → ℕ → Option Buffer
commit b n =
    if leb b.write_pos (length b.cells)
    then if leb n (length b.cells - b.write_pos)
      then some (record b { write_pos = b.write_pos + n })
      else none
    else none

-- What the socket does with the span that it is given: it stores bytes at its start.
abbrev pub fill : Buffer → List ℕ → Buffer
fill b bytes = record b {
  cells = take b.write_pos b.cells ++ (bytes ++ drop (b.write_pos + length bytes) b.cells);
}

-- `size()`, which asserts that the read position is not behind the write position; a valid buffer has them in order.
abbrev pub readable : Buffer → ℕ
readable b = b.write_pos - b.read_pos

abbrev pub contents : Buffer → List ℕ
contents b = slice b.cells b.read_pos (readable b)

unfoldable pub consume : Buffer → ℕ → Option Buffer
consume b n = if leb n (readable b) then some (record b { read_pos = b.read_pos + n }) else none

unfoldable pub reset : Buffer → Buffer
reset b = record b { read_pos = 0; write_pos = 0 }

-- `compact`: `memmove` of the unread bytes to the front.
unfoldable pub compact : Buffer → Buffer
compact b = if b.read_pos == 0 then b else record b {
  cells = contents b ++ drop (readable b) b.cells;
  read_pos = 0;
  write_pos = readable b;
}
