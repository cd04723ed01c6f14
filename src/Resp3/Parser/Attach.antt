-- ===== src/Resp3/Parser/Attach.antt =====
-- resp3/impl/parser.ipp, `attach_to_parent`: a completed node goes to the container that waits for it,
-- and completes that container in turn.
pub mod Total
use rediscoro.Prelude.{
  ℕ, ◌+◌, ◌*◌, ◌%◌, ◌^◌, Bool, true, false, Option, none, some, List, [], ◌∷◌, ◌++◌, ◌==◌,
  if◌then◌else◌, get_elem?, set, length, ◌>>=◌,
}
use rediscoro.Errors.{ProtocolErrc}
use rediscoro.Resp3.Kind.{Kind}
use rediscoro.Resp3.Raw.{RawNode, RawTree}
use rediscoro.Resp3.Parser.{
  Frame, FrameKind, value_frame, Pending, Parser, Parsed, fails, more, done, Step, continue_parsing,
  produced, u32, push_link, push_pending,
}

-- Links are added to the node of a container; the first of them fixes where its children begin.
unfoldable pub add_children : RawTree → ℕ → List ℕ → ℕ → Option RawTree
add_children t i children child_count = do
  n ← get_elem? t.nodes i
  let first = if n.child_count == 0 then u32 (length t.links) else n.first_child
  some (record {
    nodes = set t.nodes i (record n { first_child = first; child_count = child_count });
    links = t.links ++ children;
  })

abbrev pub is_array_like : Kind → Bool
is_array_like Kind.array = true
is_array_like Kind.set = true
is_array_like Kind.push = true
is_array_like _ = false

abbrev pub is_map : Kind → Bool
is_map Kind.map = true
is_map _ = false

abbrev pub is_attribute : Kind → Bool
is_attribute Kind.attribute = true
is_attribute _ = false

-- The part of the parser that the loop works on.
pub record Work : Type 0 where
  pub frames : List Frame
  pub tree : RawTree
  pub pending : Pending

abbrev pub Attached : Type 0
Attached = Option (Work × Parsed Step)

-- The container wants another value.
abbrev pub wait_for : List Frame → RawTree → Pending → Attached
wait_for fs t a =
    some (record { frames = value_frame ∷ fs; tree = t; pending = a }, done continue_parsing)

-- An array, set or push frame takes an element; `up` attaches the container itself.
unfoldable pub attach_element :
    Frame → List Frame → RawTree → Pending → ℕ → (RawTree → Attached) → Attached
unfolding add_children
attach_element f rest t a child up =
    if is_array_like f.container_type
    then (do
      let count = u32 (f.produced + 1)
      t' ← add_children t f.node_index (child ∷ []) count
      if count == f.expected then up t' else wait_for (record f { produced = count } ∷ rest) t' a)
    else none

unfoldable pub attach_key : Frame → List Frame → RawTree → Pending → ℕ → Attached
attach_key f rest t a child =
    if is_map f.container_type
    then wait_for
        (record f { pending_key = child; has_pending_key = true; state = FrameKind.map_value }
          ∷ rest)
        t a
    else none

-- A map frame takes the value of the key that it holds.
unfoldable pub attach_map_value :
    Frame → List Frame → RawTree → Pending → ℕ → (RawTree → Attached) → Attached
unfolding add_children
attach_map_value f rest t a child up =
    if is_map f.container_type
    then if f.has_pending_key
      then (do
        let count = u32 (f.produced + 1)
        t' ← add_children t f.node_index (f.pending_key ∷ child ∷ []) (u32 (count * 2))
        let f' = record f { has_pending_key = false; produced = count; state = FrameKind.map_key }
        if count == f.expected then up t' else wait_for (f' ∷ rest) t' a)
      else some (
        record { frames = f ∷ rest; tree = t; pending = a },
        fails ProtocolErrc.invalid_map_pairs,
      )
    else none

-- An attribute frame takes a key, or the value that completes a pair.
unfoldable pub attach_attribute : Frame → List Frame → RawTree → Pending → ℕ → Attached
unfolding push_pending
attach_attribute f rest t a child =
    if is_attribute f.container_type
    then if f.has_pending_key
      then (let count = u32 (f.produced + 1) in
          let (t₁, a₁) = push_pending a t f.pending_key in
          let (t₂, a₂) = push_pending a₁ t₁ child in
          if count == f.expected
          then some (record { frames = rest; tree = t₂; pending = a₂ }, done continue_parsing)
          else wait_for (record f { has_pending_key = false; produced = count } ∷ rest) t₂ a₂)
      else wait_for (record f { pending_key = child; has_pending_key = true } ∷ rest) t a
    else none

unfoldable pub attach_to_parent : List Frame → RawTree → Pending → ℕ → Attached
unfolding attach_element attach_key attach_map_value attach_attribute
attach_to_parent [] t a child =
    some (record { frames = []; tree = t; pending = a }, done (produced child))
attach_to_parent (f ∷ rest) t a child = elim f.state [
  | FrameKind.array ↦
      attach_element f rest t a child (λ t'. attach_to_parent rest t' a f.node_index)
  | FrameKind.map_key ↦ attach_key f rest t a child
  | FrameKind.map_value ↦
      attach_map_value f rest t a child (λ t'. attach_to_parent rest t' a f.node_index)
  | FrameKind.attribute ↦ attach_attribute f rest t a child
  | FrameKind.value ↦
      some (record { frames = f ∷ rest; tree = t; pending = a }, fails ProtocolErrc.invalid_state)
]
