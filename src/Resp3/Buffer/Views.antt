-- ===== src/Resp3/Buffer/Views.antt =====
-- resp3/buffer.hpp: which operations keep a `std::string_view` into the buffer, and which one does not.
use rediscoro.Prelude.{
  ℕ, ◌+◌, ◌-◌, ◌^◌, ◌≤◌, ◌<◌, ◌≡◌, ap, sym, ◌∙◌, none, some, List, ◌++◌, arith, length, take, drop,
  length-take, take-append-drop,
}
use rediscoro.Resp3.Buffer.{Buffer, View, read_view, slice, prepare, fill}
use rediscoro.Resp3.Buffer.Laws.{IsValid, slice-append, prepare_lem, length-fill}

-- A view of bytes that have been received.
pub record Refers (b : Buffer) (v : View) : Type 0 where
  pub alive : v.block ≡ b.block
  pub within : v.offset + v.len ≤ b.write_pos

-- In a valid buffer, writing bytes into the prepared span, as far as there is room, leaves every view of
-- bytes received earlier reading the same text.
read_view-fill :
    (b : Buffer) (bytes : List ℕ) (v : View)
    → IsValid b
    → Refers b v
    → length bytes ≤ length b.cells - b.write_pos
    → read_view (fill b bytes) v ≡ read_view b v
unfolding read_view
read_view-fill b bytes v ok f room = ground (arith, length-fill b bytes ok room, same, ok.inside)
  where
    open b use {cells, write_pos as w}

    upto : length (take w cells) ≡ w
    upto = omega (arith, length-take w cells, ok.inside)

    same : slice (fill b bytes).cells v.offset v.len ≡ slice cells v.offset v.len
    same =
        slice-append (take w cells) (bytes ++ drop (w + length bytes) cells) v.offset v.len
          (omega (arith, upto, f.within))
        ∙ sym (
            slice-append (take w cells) (drop w cells) v.offset v.len
              (omega (arith, upto, f.within)))
        ∙ ap (λ ys. slice ys v.offset v.len) (take-append-drop w cells)

-- Where prepare must make room that is not there, every nonempty view of bytes received earlier is
-- dangling afterwards, in a valid buffer whose positions stay below 2 ^ 64.
pub read_view-prepare :
    (b b' : Buffer) (n : ℕ) (v : View)
    → IsValid b
    → b.write_pos + n < 2 ^ 64
    → Refers b v
    → 0 < v.len
    → length b.cells - b.write_pos < n
    → prepare b n ≡ some b'
    → read_view b' v ≡ none
unfolding read_view
read_view-prepare b b' n v ok small f some_text tight e =
    let (q, e', p) = prepare_lem b n ok small in ground (arith, p.moved)
