-- ===== src/Resp3/Builder.antt =====
-- resp3/builder.hpp: a message is built from the raw tree, with a stack of frames. `none` is a failed assertion, an
-- index out of range, a variant of another type, or a text whose memory is gone.
pub mod Keeps
pub mod Reads
mod Tests
use rediscoro.Prelude.{
  ℕ, zero, suc, ◌+◌, ◌-◌, ◌*◌, ◌%◌, ◌^◌, Bool, true, false, ◌&&◌, not, Option, none, some, List, [],
  ◌∷◌, ltb, leb, ◌==◌, if◌then◌else◌, get_elem?, take, drop, length, ◌>>=◌, ℤ, pos, negsuc,
}
use rediscoro.Resp3.Kind.{Kind}
use rediscoro.Resp3.Buffer.{Buffer, read_view}
use rediscoro.Resp3.Raw.{RawNode, RawTree}
use rediscoro.Resp3.Scan.{is_valid_verbatim_payload}
use rediscoro.Resp3.Parser.{u32}
use rediscoro.Resp3.Message.{
  Message, message, Value, simple_string, simple_error, big_number, bulk_string, bulk_error,
  integer, double_number, boolean, null, verbatim_string, array, set, push, map, Attrs, no_attrs,
  attribute, Messages, no_messages, more_messages, Entries, no_entries, entry, value_of,
}

pub data ParentSlot : Type 0 where
  child attr : ParentSlot

-- `parent` is `has_parent`, with the slot kind and the index where it holds.
pub record BuildFrame : Type 0 where
  pub node : ℕ
  pub next_child : ℕ
  pub next_attr : ℕ
  pub initialized : Bool
  pub parent : Option (ParentSlot × ℕ)
  pub result : Value
  pub pending_map_key : Option Message
  pub pending_attr_key : Option Message
  pub attrs : Entries

abbrev pub new_frame : ℕ → Option (ParentSlot × ℕ) → BuildFrame
new_frame node parent = record {
  node = node;
  next_child = 0;
  next_attr = 0;
  initialized = false;
  parent = parent;
  result = null Kind.null;
  pending_map_key = none;
  pending_attr_key = none;
  attrs = no_entries;
}

unfoldable pub append_message : Messages → Message → Messages
append_message no_messages m = more_messages m no_messages
append_message (more_messages x ms) m = more_messages x (append_message ms m)

unfoldable pub append_entry : Entries → Message → Message → Entries
append_entry no_entries k v = entry k v no_entries
append_entry (entry k' v' es) k v = entry k' v' (append_entry es k v)

unfoldable pub is_typed_null_kind : Kind → Bool
is_typed_null_kind Kind.bulk_string = true
is_typed_null_kind Kind.bulk_error = true
is_typed_null_kind Kind.verbatim_string = true
is_typed_null_kind Kind.array = true
is_typed_null_kind Kind.map = true
is_typed_null_kind Kind.set = true
is_typed_null_kind Kind.push = true
is_typed_null_kind _ = false

unfoldable pub decode_verbatim : List ℕ → Option Value
unfolding is_valid_verbatim_payload
decode_verbatim payload =
    if is_valid_verbatim_payload payload
    then some (verbatim_string (take 3 payload) (drop 4 payload))
    else none

abbrev is_minus_one : ℤ → Bool
is_minus_one (negsuc zero) = true
is_minus_one _ = false

-- The value that a node starts with: containers are empty.
unfoldable pub first_value : Buffer → RawNode → Kind → Option Value
unfolding read_view decode_verbatim
first_value b n Kind.simple_string = do s ← read_view b n.text; some (simple_string s)
first_value b n Kind.simple_error = do s ← read_view b n.text; some (simple_error s)
first_value b n Kind.integer = some (integer n.i64)
first_value b n Kind.double_number = some (double_number n.f64)
first_value b n Kind.boolean = some (boolean n.boolean)
first_value b n Kind.big_number = do s ← read_view b n.text; some (big_number s)
first_value b n Kind.bulk_string = do s ← read_view b n.text; some (bulk_string s)
first_value b n Kind.bulk_error = do s ← read_view b n.text; some (bulk_error s)
first_value b n Kind.verbatim_string = do s ← read_view b n.text; decode_verbatim s
first_value b n Kind.array = some (array no_messages)
first_value b n Kind.set = some (set no_messages)
first_value b n Kind.push = some (push no_messages)
first_value b n Kind.map = some (map no_entries)
first_value b n Kind.null = some (null Kind.null)
first_value b n Kind.attribute = none

abbrev pub is_map_kind : Kind → Bool
is_map_kind Kind.map = true
is_map_kind _ = false

unfoldable pub starting_value : Buffer → RawNode → Option Value
unfolding first_value is_typed_null_kind
starting_value b n =
    if is_minus_one n.i64 && is_typed_null_kind n.kind
    then some (null n.kind)
    else first_value b n n.kind

unfoldable pub initialize : Buffer → RawNode → BuildFrame → Option BuildFrame
unfolding starting_value
initialize b n f = do
  v ← starting_value b n
  (if n.attr_count % 2 == 0 && not (is_map_kind n.kind && not (n.child_count % 2 == 0))
      then some (record f { initialized = true; result = v })
      else none)

-- A finished child enters its parent's value.
unfoldable pub push_child : Kind → ℕ → BuildFrame → Value → Message → Option BuildFrame
unfolding append_message append_entry
push_child Kind.array i f (array ms) m = some (record f { result = array (append_message ms m) })
push_child Kind.set i f (set ms) m = some (record f { result = set (append_message ms m) })
push_child Kind.push i f (push ms) m = some (record f { result = push (append_message ms m) })
push_child Kind.map i f (map es) m =
    if i % 2 == 0 then some (record f { pending_map_key = some m }) else (do
      k ← f.pending_map_key
      some (record f { result = map (append_entry es k m); pending_map_key = none }))
push_child _ i f v m = none

unfoldable pub push_attr : ℕ → BuildFrame → Message → Option BuildFrame
unfolding append_entry
push_attr i f m = if i % 2 == 0 then some (record f { pending_attr_key = some m }) else (do
  k ← f.pending_attr_key
  some (record f { attrs = append_entry f.attrs k m; pending_attr_key = none }))

-- The attributes go to the result; a key without a value is a fault.
unfoldable pub finalize : RawNode → BuildFrame → Option Message
finalize n f =
    if n.attr_count == 0 then some (message f.result no_attrs) else elim f.pending_attr_key [
      | none ↦ some (message f.result (attribute f.attrs))
      | some k ↦ none
    ]

pub data Building : Type 0 where
  going : List BuildFrame → Building
  built : Message → Building

-- The finished message goes to the frame below, or is what is returned.
unfoldable pub give_to_parent :
    RawTree → Option (ParentSlot × ℕ) → List BuildFrame → Message → Option Building
give_to_parent t parent [] m = some (built m)
give_to_parent t none (q ∷ rest) m = none
give_to_parent t (some (child, i)) (q ∷ rest) m = do
  pn ← get_elem? t.nodes q.node
  q' ← push_child pn.kind i q q.result m
  some (going (q' ∷ rest))
give_to_parent t (some (attr, i)) (q ∷ rest) m = do
  pn ← get_elem? t.nodes q.node
  q' ← push_attr i q m
  some (going (q' ∷ rest))

-- Children first, then attributes, then the node itself is done.
unfoldable pub visit : RawTree → RawNode → BuildFrame → List BuildFrame → Option Building
visit t n f rest =
    if ltb f.next_child n.child_count
    then (do
      c ← get_elem? t.links (u32 (n.first_child + f.next_child))
      some (
          going (
            new_frame c (some (child, f.next_child))
            ∷ record f { next_child = f.next_child + 1 }
            ∷ rest)))
    else if ltb f.next_attr n.attr_count
    then (do
      a ← get_elem? t.links (u32 (n.first_attr + f.next_attr))
      some (
          going (
            new_frame a (some (attr, f.next_attr))
            ∷ record f { next_attr = f.next_attr + 1 }
            ∷ rest)))
    else (do m ← finalize n f; give_to_parent t f.parent rest m)

unfoldable pub build_step : Buffer → RawTree → List BuildFrame → Option Building
build_step b t [] = none
build_step b t (f ∷ rest) = do
  n ← get_elem? t.nodes f.node
  g ← if f.initialized then some f else initialize b n f
  visit t n g rest

abbrev pub after_build : (List BuildFrame → Option Message) → Building → Option Message
after_build loop (going fs) = loop fs
after_build loop (built m) = some m

unfoldable pub build_loop : ℕ → Buffer → RawTree → List BuildFrame → Option Message
unfolding build_step
build_loop zero b t fs = none
build_loop (suc fuel) b t fs = do
  s ← build_step b t fs
  after_build (λ gs. build_loop fuel b t gs) s

-- `while (!stack.empty())`, on fuel.
unfoldable pub build_message : ℕ → Buffer → RawTree → ℕ → Option Message
unfolding build_loop
build_message fuel b t root = build_loop fuel b t (new_frame root none ∷ [])
