-- ===== src/Resp3/Parser/Invariant.antt =====
-- resp3/impl/parser.ipp: what holds of the parser's state between two turns of its loop.
use rediscoro.Prelude.{
  ℕ, ◌+◌, ◌*◌, ◌≤◌, ◌<◌, ◌≡◌, ◌⊎◌, Bool, true, false, List, [], ◌∷◌, arith, length,
}
use rediscoro.Resp3.Buffer.{readable}
use rediscoro.Resp3.Buffer.Laws.{IsValid}
use rediscoro.Resp3.Parser.{Frame, FrameKind, Parser}
use rediscoro.Resp3.Parser.Attach.{is_array_like, is_map, is_attribute}

-- A frame that is not a value frame, in the state `k`, over a tree of `n` nodes.
abbrev pub Fits : ℕ → Frame → FrameKind → Type 0
Fits n f FrameKind.value = ⊥
Fits n f FrameKind.array = (is_array_like f.container_type ≡ true) × (f.node_index < n)
Fits n f FrameKind.map_key = (is_map f.container_type ≡ true) × (f.node_index < n)
Fits n f FrameKind.map_value =
    (is_map f.container_type ≡ true) × (f.node_index < n) × (f.has_pending_key ≡ true)
Fits n f FrameKind.attribute = is_attribute f.container_type ≡ true

-- Below an attribute frame stands the value frame that the attributes are for.
abbrev pub wants_value : FrameKind → Bool
wants_value FrameKind.attribute = true
wants_value _ = false

-- The stack has a value frame on top exactly if `want`, and elsewhere only under attribute frames.
abbrev pub IsStack : ℕ → Bool → List Frame → Type 0
IsStack n want [] = want ≡ false
IsStack n true (f ∷ rest) = (f.state ≡ FrameKind.value) × IsStack n false rest
IsStack n false (f ∷ rest) = Fits n f f.state × IsStack n (wants_value f.state) rest

pub record IsWf (p : Parser) : Type 0 where
  pub buffer : IsValid p.buf
  pub few : length p.tree.nodes ≤ p.buf.read_pos
  pub frames :
      IsStack (length p.tree.nodes) true p.stack ⊎ IsStack (length p.tree.nodes) false p.stack

Fits-mono : (n m : ℕ) (f : Frame) (k : FrameKind) → n ≤ m → Fits n f k → Fits m f k
Fits-mono n m f FrameKind.value h x = x
Fits-mono n m f FrameKind.array h x = (x.0, omega arith)
Fits-mono n m f FrameKind.map_key h x = (x.0, omega arith)
Fits-mono n m f FrameKind.map_value h x = (x.0, omega arith, x.2)
Fits-mono n m f FrameKind.attribute h x = x

-- More nodes leave a stack in order.
pub IsStack-mono :
    (n m : ℕ) (want : Bool) (fs : List Frame) → n ≤ m → IsStack n want fs → IsStack m want fs
IsStack-mono n m want [] h s = s
IsStack-mono n m true (f ∷ rest) h s = (s.0, IsStack-mono n m false rest h s.1)
IsStack-mono n m false (f ∷ rest) h s =
    (Fits-mono n m f f.state h s.0, IsStack-mono n m (wants_value f.state) rest h s.1)

abbrev pub needs_frame : List Frame → ℕ
needs_frame [] = 1
needs_frame (f ∷ rest) = elim f.state [ FrameKind.value ↦ 0 | _ ↦ 1 ]

-- Twice the unread bytes, and one more where a value frame has yet to be put on top.
abbrev pub measure : Parser → ℕ
measure p = 2 * readable p.buf + needs_frame p.stack

pub needs_frame-value : (n : ℕ) (fs : List Frame) → IsStack n true fs → needs_frame fs ≡ 0
needs_frame-value n [] s = cc
needs_frame-value n (f ∷ rest) s = rw s.0

pub needs_frame-le : (fs : List Frame) → needs_frame fs ≤ 1
needs_frame-le [] = omega arith
needs_frame-le (f ∷ rest) = ground arith
