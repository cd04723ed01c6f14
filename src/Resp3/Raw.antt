-- ===== src/Resp3/Raw.antt =====
-- resp3/raw.hpp: the raw tree, nodes beside one array of links. Texts are views into the buffer.
use rediscoro.Prelude.{ℕ, Bool, false, List, [], ℤ, pos}
use rediscoro.Resp3.Kind.{Kind}
use rediscoro.Resp3.Buffer.{View, no_text}

-- `f64` is the bit pattern of a binary64.
pub record RawNode : Type 0 where
  pub kind : Kind
  pub text : View
  pub i64 : ℤ
  pub f64 : ℕ
  pub boolean : Bool
  pub first_child : ℕ
  pub child_count : ℕ
  pub first_attr : ℕ
  pub attr_count : ℕ

pub record RawTree : Type 0 where
  pub nodes : List RawNode
  pub links : List ℕ

-- A node with the members' default values.
abbrev pub blank_node : Kind → RawNode
blank_node k = record {
  kind = k;
  text = no_text;
  i64 = pos 0;
  f64 = 0;
  boolean = false;
  first_child = 0;
  child_count = 0;
  first_attr = 0;
  attr_count = 0;
}

abbrev pub reset_tree : RawTree
reset_tree = record { nodes = []; links = [] }
