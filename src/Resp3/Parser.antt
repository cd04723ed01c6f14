-- ===== src/Resp3/Parser.antt =====
-- resp3/parser.hpp and resp3/impl/parser.ipp: the state of the parser, and how a container or an
-- attribute is started. `none` is a failed assertion or an index out of range.
pub mod Attach
pub mod Value
pub mod Run
pub mod Invariant
mod Tests
use rediscoro.Prelude.{
  ℕ, zero, suc, ◌+◌, ◌-◌, ◌*◌, ◌%◌, ◌^◌, Bool, true, false, ◌||◌, Option, none, some, List, [], ◌∷◌,
  ◌++◌, ltb, leb, ◌==◌, if◌then◌else◌, get_elem?, set, length, ◌>>=◌, ℤ, pos, negsuc, ltb_ℤ,
}
use rediscoro.Errors.{ProtocolErrc}
use rediscoro.Resp3.Kind.{Kind}
use rediscoro.Resp3.Buffer.{Buffer}
use rediscoro.Resp3.Buffer
use rediscoro.Resp3.Raw.{RawNode, RawTree, blank_node, reset_tree}
use rediscoro.Resp3.Scan.{is_representable_length}

pub record Limits : Type 0 where
  pub max_resp_bulk_bytes : ℕ
  pub max_resp_container_len : ℕ
  pub max_resp_line_bytes : ℕ

pub data FrameKind : Type 0 where
  value array map_key map_value attribute : FrameKind

pub record Frame : Type 0 where
  pub state : FrameKind
  pub container_type : Kind
  pub expected : ℕ
  pub produced : ℕ
  pub node_index : ℕ
  pub pending_key : ℕ
  pub has_pending_key : Bool

abbrev pub value_frame : Frame
value_frame = record {
  state = FrameKind.value;
  container_type = Kind.null;
  expected = 0;
  produced = 0;
  node_index = 0;
  pending_key = 0;
  has_pending_key = false;
}

-- `pending_attributes`: links from `first` on wait for the next completed value.
pub record Pending : Type 0 where
  pub first : ℕ
  pub count : ℕ

abbrev pub no_pending : Pending
no_pending = record { first = 0; count = 0 }

-- The top of the stack is the head of the list.
pub record Parser : Type 0 where
  pub buf : Buffer
  pub tree : RawTree
  pub stack : List Frame
  pub failed : Bool
  pub tree_ready : Bool
  pub pending : Pending
  pub limits : Limits

-- `expected<std::optional<A>, protocol_errc>`
pub data Parsed (A : Type 0) : Type 0 where
  fails : ProtocolErrc → Parsed A
  more : Parsed A
  done : A → Parsed A

-- `step_index`: the index is that of the node produced.
pub data Step : Type 0 where
  continue_parsing : Step
  produced : ℕ → Step

abbrev pub u32 : ℕ → ℕ
u32 n = n % 2 ^ 32

unfoldable pub new_parser : Limits → ℕ → Parser
new_parser lims capacity = record {
  buf = Buffer.new_buffer capacity;
  tree = reset_tree;
  stack = [];
  failed = false;
  tree_ready = false;
  pending = no_pending;
  limits = lims;
}

abbrev pub push_link : RawTree → ℕ → RawTree
push_link t i = record t { links = t.links ++ (i ∷ []) }

unfoldable pub push_pending : Pending → RawTree → ℕ → RawTree × Pending
push_pending a t kv = (
  push_link t kv,
  record {
    first = if a.count == 0 then u32 (length t.links) else a.first;
    count = u32 (a.count + 1);
  },
)

unfoldable pub attach_pending : Pending → RawTree → ℕ → Option (RawTree × Pending)
attach_pending a t i = if a.count == 0 then some (t, a) else (do
  n ← get_elem? t.nodes i
  some (
    record t { nodes = set t.nodes i (record n { first_attr = a.first; attr_count = a.count }) },
    no_pending,
  ))

-- `nodes.push_back(n)`, then the pending attributes: how every completed value enters the tree.
unfoldable pub add_node : Parser → RawNode → Option (Parser × ℕ)
unfolding attach_pending
add_node p n = do
  let idx = u32 (length p.tree.nodes)
  (t, a) ← attach_pending p.pending (record p.tree { nodes = p.tree.nodes ++ (n ∷ []) }) idx
  some (record p { tree = t; pending = a }, idx)

-- The frame that drives a container replaces the value frame on top of the stack.
abbrev pub container_frame : Kind → ℕ → ℕ → Frame
container_frame Kind.map len idx = record value_frame {
  state = FrameKind.map_key;
  container_type = Kind.map;
  expected = len;
  node_index = idx;
}
container_frame k len idx = record value_frame {
  state = FrameKind.array;
  container_type = k;
  expected = len;
  node_index = idx;
}

abbrev pub open_frame : Parser → Kind → ℕ → ℕ → Option (Parser × Parsed Step)
open_frame p k len idx = elim p.stack [
  | [] ↦ none
  | f ∷ rest ↦ some (record p { stack = container_frame k len idx ∷ rest }, done continue_parsing)
]

unfoldable pub start_container : Parser → Kind → ℤ → Option (Parser × Parsed Step)
unfolding add_node is_representable_length
start_container p k len =
    if ltb_ℤ len (negsuc 0) || ltb_ℤ (pos p.limits.max_resp_container_len) len
    then some (p, fails ProtocolErrc.invalid_length)
    else elim len [
      | negsuc n ↦ (do
        (q, idx) ← add_node p (record (blank_node k) { i64 = negsuc 0 })
        some (q, done (produced idx)))
      | pos n ↦
          if is_representable_length k (pos n)
          then (do
            (q, idx) ←
                add_node p
                  (record (blank_node k) { i64 = pos n; first_child = u32 (length p.tree.links) })
            if n == 0 then some (q, done (produced idx)) else open_frame q k (u32 n) idx)
          else some (p, fails ProtocolErrc.invalid_length)
    ]

abbrev pub attribute_frame : ℕ → Frame
attribute_frame len = record value_frame {
  state = FrameKind.attribute;
  container_type = Kind.attribute;
  expected = len;
}

-- An attribute header that is accepted makes no node: its frame goes on top of the value frame.
unfoldable pub start_attribute : Parser → ℤ → Parser × Parsed Step
unfolding is_representable_length
start_attribute p (negsuc n) = (p, fails ProtocolErrc.invalid_length)
start_attribute p (pos n) =
    if ltb p.limits.max_resp_container_len n
    then (p, fails ProtocolErrc.invalid_length)
    else if n == 0
    then (p, done continue_parsing)
    else if is_representable_length Kind.attribute (pos n)
    then (record p { stack = attribute_frame (u32 n) ∷ p.stack }, done continue_parsing)
    else (p, fails ProtocolErrc.invalid_length)
