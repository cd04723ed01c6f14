-- ===== src/Resp3/Builder/Keeps.antt =====
-- resp3/builder.hpp: what stays of a frame while messages enter it.
use rediscoro.Prelude.{
  ℕ, ◌+◌, ◌≡◌, refl, Bool, true, false, Option, none, some, ◌>>=◌, if◌then◌else◌, subst, not, ◌&&◌,
  ◌%◌, ◌==◌,
}
use rediscoro.Resp3.Kind.{Kind}
use rediscoro.Resp3.Buffer.{Buffer}
use rediscoro.Resp3.Raw.{RawNode}
use rediscoro.Resp3.Message.{Message, Value, Entries, array, set, push, map}
use rediscoro.Resp3.Builder.{
  BuildFrame, initialize, is_map_kind, starting_value, push_child, push_attr, append_entry,
}

abbrev pub next_child_of : BuildFrame → BuildFrame
next_child_of g = record g { next_child = g.next_child + 1 }

abbrev pub next_attr_of : BuildFrame → BuildFrame
next_attr_of g = record g { next_attr = g.next_attr + 1 }

some_eq {κ} : {A : Type κ} {x y : A} → some x ≡ some y → x ≡ y
some_eq e = cc

abbrev pub Keeps : BuildFrame → BuildFrame → Type 0
Keeps g g' =
    (g'.node ≡ g.node)
    × (g'.initialized ≡ g.initialized)
    × (g'.parent ≡ g.parent)
    × (g'.next_child ≡ g.next_child)

kept : (g g' x : BuildFrame) → some x ≡ some g' → Keeps g x → Keeps g g'
kept g g' x e k = subst (Keeps g) (some_eq e) k

map-Keeps :
    (g g' : BuildFrame) (es : Entries) (m : Message) (key : Option Message)
    → (key >>= λ k. some (record g { result = map (append_entry es k m); pending_map_key = none }))
      ≡ some g'
    → Keeps g g'
map-Keeps g g' es m none e = cc
map-Keeps g g' es m (some k) e = kept g g' _ e (refl, refl, refl, refl)

attr-Keeps :
    (g g' : BuildFrame) (m : Message) (key : Option Message)
    → (key >>= λ k. some (record g { attrs = append_entry g.attrs k m; pending_attr_key = none }))
      ≡ some g'
    → Keeps g g'
attr-Keeps g g' m none e = cc
attr-Keeps g g' m (some k) e = kept g g' _ e (refl, refl, refl, refl)

pub initialize_begins :
    (b : Buffer) (n : RawNode) (f g : BuildFrame)
    → initialize b n f ≡ some g
    → (g.node ≡ f.node) × (g.initialized ≡ true) × (g.parent ≡ f.parent)
unfolding initialize
initialize_begins b n f g e = go (starting_value b n) e
  where
    begun :
        (v : Value) (fine : Bool)
        → (if fine then some (record f { initialized = true; result = v }) else none) ≡ some g
        → (g.node ≡ f.node) × (g.initialized ≡ true) × (g.parent ≡ f.parent)
    begun v true e =
        subst (λ x. (x.node ≡ f.node) × (x.initialized ≡ true) × (x.parent ≡ f.parent)) (some_eq e)
          (refl, refl, refl)
    begun v false e = absurd cc

    go :
        (o : Option Value)
        → (o >>= λ v.
            (if n.attr_count % 2 == 0 && not (is_map_kind n.kind && not (n.child_count % 2 == 0))
              then some (record f { initialized = true; result = v })
              else none))
          ≡ some g
        → (g.node ≡ f.node) × (g.initialized ≡ true) × (g.parent ≡ f.parent)
    go none e = absurd cc
    go (some v) e = begun v _ e

pub push_child-Keeps :
    (k : Kind) (i : ℕ) (g g' : BuildFrame) (v : Value) (m : Message)
    → push_child k i g v m ≡ some g'
    → Keeps g g'
unfolding push_child
push_child-Keeps Kind.array i g g' (array ms) m e = kept g g' _ e (refl, refl, refl, refl)
push_child-Keeps Kind.set i g g' (set ms) m e = kept g g' _ e (refl, refl, refl, refl)
push_child-Keeps Kind.push i g g' (push ms) m e = kept g g' _ e (refl, refl, refl, refl)
push_child-Keeps Kind.map i g g' (map es) m e = go (i % 2 == 0) e
  where
    go :
        (even : Bool)
        → (if even
            then some (record g { pending_map_key = some m })
            else (g.pending_map_key >>= λ k.
                some (record g { result = map (append_entry es k m); pending_map_key = none })))
          ≡ some g'
        → Keeps g g'
    go true e = kept g g' _ e (refl, refl, refl, refl)
    go false e = map-Keeps g g' es m g.pending_map_key e
push_child-Keeps _ i g g' v m e = absurd cc

pub push_attr-Keeps :
    (i : ℕ) (g g' : BuildFrame) (m : Message) → push_attr i g m ≡ some g' → Keeps g g'
unfolding push_attr
push_attr-Keeps i g g' m e = go (i % 2 == 0) e
  where
    go :
        (even : Bool)
        → (if even
            then some (record g { pending_attr_key = some m })
            else (g.pending_attr_key >>= λ k.
                some (record g { attrs = append_entry g.attrs k m; pending_attr_key = none })))
          ≡ some g'
        → Keeps g g'
    go true e = kept g g' _ e (refl, refl, refl, refl)
    go false e = attr-Keeps g g' m g.pending_attr_key e
