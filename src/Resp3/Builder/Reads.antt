-- ===== src/Resp3/Builder/Reads.antt =====
-- resp3/builder.hpp: the loop of `build_message` against the reading of a tree by recursion.
use rediscoro.Prelude.{
  ℕ, suc, ◌+◌, ◌≡◌, refl, sym, ap, ◌∙◌, true, false, Option, none, some, List, [], ◌∷◌, ltb,
  get_elem?,
}
use rediscoro.Resp3.Buffer.{Buffer}
use rediscoro.Resp3.Raw.{RawNode, RawTree}
use rediscoro.Resp3.Parser.{u32}
use rediscoro.Resp3.Message.{Message}
use rediscoro.Resp3.Builder.{
  ParentSlot, child, attr, BuildFrame, new_frame, initialize, push_child, push_attr, finalize,
  going, built, give_to_parent, visit, build_step, build_loop, build_message,
}
use rediscoro.Resp3.Builder.Keeps.{
  next_child_of, next_attr_of, Keeps, initialize_begins, push_child-Keeps, push_attr-Keeps,
}

module _ (b : Buffer) (t : RawTree) where
  -- `Reads parent i m`: node `i` reads as the message `m`, by the messages of its children and then of its
  -- attributes, each entered into the node's frame in order.
  mutual
    pub data Reads : Option (ParentSlot × ℕ) → ℕ → Message → Type 0 where
      node :
          (parent : Option (ParentSlot × ℕ)) (i : ℕ) (n : RawNode) (g h k : BuildFrame)
          (m : Message)
          → get_elem? t.nodes i ≡ some n
          → initialize b n (new_frame i parent) ≡ some g
          → Children n g h
          → Attributes n h k
          → finalize n k ≡ some m
          → Reads parent i m

    pub data Children : RawNode → BuildFrame → BuildFrame → Type 0 where
      no_child :
          (n : RawNode) (g : BuildFrame) → ltb g.next_child n.child_count ≡ false → Children n g g
      next_child :
          (n : RawNode) (g g' h : BuildFrame) (c : ℕ) (m : Message)
          → ltb g.next_child n.child_count ≡ true
          → get_elem? t.links (u32 (n.first_child + g.next_child)) ≡ some c
          → Reads (some (child, g.next_child)) c m
          → push_child n.kind g.next_child (next_child_of g) g.result m ≡ some g'
          → Children n g' h
          → Children n g h

    pub data Attributes : RawNode → BuildFrame → BuildFrame → Type 0 where
      no_attr :
          (n : RawNode) (g : BuildFrame) → ltb g.next_attr n.attr_count ≡ false → Attributes n g g
      next_attr :
          (n : RawNode) (g g' h : BuildFrame) (a : ℕ) (m : Message)
          → ltb g.next_attr n.attr_count ≡ true
          → get_elem? t.links (u32 (n.first_attr + g.next_attr)) ≡ some a
          → Reads (some (attr, g.next_attr)) a m
          → push_attr g.next_attr (next_attr_of g) m ≡ some g'
          → Attributes n g' h
          → Attributes n g h

  data Runs : List BuildFrame → List BuildFrame → Type 0 where
    here : (fs : List BuildFrame) → Runs fs fs
    there :
        (fs gs hs : List BuildFrame) → build_step b t fs ≡ some (going gs) → Runs gs hs → Runs fs hs

  Runs-trans : (fs gs hs : List BuildFrame) → Runs fs gs → Runs gs hs → Runs fs hs
  Runs-trans fs gs hs (here x) r = r
  Runs-trans fs gs hs (there x ks y e q) r = there fs ks hs e (Runs-trans ks gs hs q r)

  -- The node of a frame that is being worked on, and the frame below which it stands.
  record Working (n : RawNode) (parent : Option (ParentSlot × ℕ)) (g : BuildFrame) : Type 0 where
    found : get_elem? t.nodes g.node ≡ some n
    begun : g.initialized ≡ true
    below : g.parent ≡ parent

  Keeps-Working :
      (n : RawNode) (parent : Option (ParentSlot × ℕ)) (g g' : BuildFrame)
      → Working n parent g
      → Keeps g g'
      → Working n parent g'
  Keeps-Working n parent g g' w k = record {
    found = ap (get_elem? t.nodes) k.0 ∙ w.found;
    begun = k.1 ∙ w.begun;
    below = k.2 ∙ w.below;
  }

  Working-step :
      (n : RawNode) (parent : Option (ParentSlot × ℕ)) (g : BuildFrame) (rest : List BuildFrame)
      → Working n parent g
      → build_step b t (g ∷ rest) ≡ visit t n g rest
  unfolding build_step
  Working-step n parent g rest w = rw (w.found, w.begun) refl

  begin_step :
      (i : ℕ) (parent : Option (ParentSlot × ℕ)) (n : RawNode) (g : BuildFrame)
      (rest : List BuildFrame)
      → get_elem? t.nodes i ≡ some n
      → initialize b n (new_frame i parent) ≡ some g
      → build_step b t (new_frame i parent ∷ rest) ≡ visit t n g rest
  unfolding build_step
  begin_step i parent n g rest e h = rw (e, h) refl

  -- `last` is where the frame is popped.
  record Finishes (fs : List BuildFrame) (parent : Option (ParentSlot × ℕ)) (rest : List BuildFrame)
      (m : Message) : Type 0 where
    last : List BuildFrame
    runs : Runs fs last
    pops : build_step b t last ≡ give_to_parent t parent rest m

  same_step :
      (fs gs rest : List BuildFrame) (parent : Option (ParentSlot × ℕ)) (m : Message)
      → build_step b t fs ≡ build_step b t gs
      → Finishes gs parent rest m
      → Finishes fs parent rest m
  same_step fs gs rest parent m e r = go gs r.last r.runs e r.pops
    where
      go :
          (gs last : List BuildFrame)
          → Runs gs last
          → build_step b t fs ≡ build_step b t gs
          → build_step b t last ≡ give_to_parent t parent rest m
          → Finishes fs parent rest m
      go gs last (here gs') e p = record { last = fs; runs = here fs; pops = e ∙ p }
      go gs last (there gs' ks last' s q) e p = record {
        last = last;
        runs = there fs ks last (e ∙ s) q;
        pops = p;
      }

  pop_step :
      (n : RawNode) (k : BuildFrame) (rest : List BuildFrame) (m : Message)
      → ltb k.next_child n.child_count ≡ false
      → ltb k.next_attr n.attr_count ≡ false
      → finalize n k ≡ some m
      → visit t n k rest ≡ give_to_parent t k.parent rest m
  unfolding visit
  pop_step n k rest m full done fin = rw (full, done, fin) refl

  child_step :
      (n : RawNode) (g : BuildFrame) (rest : List BuildFrame) (c : ℕ)
      → ltb g.next_child n.child_count ≡ true
      → get_elem? t.links (u32 (n.first_child + g.next_child)) ≡ some c
      → visit t n g rest
        ≡ some (going (new_frame c (some (child, g.next_child)) ∷ next_child_of g ∷ rest))
  unfolding visit
  child_step n g rest c more link = rw (more, link) refl

  attr_step :
      (n : RawNode) (g : BuildFrame) (rest : List BuildFrame) (a : ℕ)
      → ltb g.next_child n.child_count ≡ false
      → ltb g.next_attr n.attr_count ≡ true
      → get_elem? t.links (u32 (n.first_attr + g.next_attr)) ≡ some a
      → visit t n g rest
        ≡ some (going (new_frame a (some (attr, g.next_attr)) ∷ next_attr_of g ∷ rest))
  unfolding visit
  attr_step n g rest a full more link = rw (full, more, link) refl

  child_given :
      (n : RawNode) (i : ℕ) (q q' : BuildFrame) (rest : List BuildFrame) (m : Message)
      → get_elem? t.nodes q.node ≡ some n
      → push_child n.kind i q q.result m ≡ some q'
      → give_to_parent t (some (child, i)) (q ∷ rest) m ≡ some (going (q' ∷ rest))
  unfolding give_to_parent
  child_given n i q q' rest m found pushed = rw (found, pushed) refl

  attr_given :
      (n : RawNode) (i : ℕ) (q q' : BuildFrame) (rest : List BuildFrame) (m : Message)
      → get_elem? t.nodes q.node ≡ some n
      → push_attr i q m ≡ some q'
      → give_to_parent t (some (attr, i)) (q ∷ rest) m ≡ some (going (q' ∷ rest))
  unfolding give_to_parent
  attr_given n i q q' rest m found pushed = rw (found, pushed) refl

  advanced :
      (n : RawNode) (parent : Option (ParentSlot × ℕ)) (g : BuildFrame)
      → Working n parent g
      → Working n parent (next_child_of g) × Working n parent (next_attr_of g)
  advanced n parent g w = (
    record { found = w.found; begun = w.begun; below = w.below },
    record { found = w.found; begun = w.begun; below = w.below },
  )

  mutual
    Reads-run :
        (parent : Option (ParentSlot × ℕ)) (i : ℕ) (m : Message) (rest : List BuildFrame)
        → Reads parent i m
        → Finishes (new_frame i parent ∷ rest) parent rest m
    Reads-run parent i m rest (node parent' i' n g h k m' found begin cs as_ fin) =
        let (at_node, begun, below) = initialize_begins b n (new_frame i parent) g begin in
        let w : Working n parent g = record {
          found = ap (get_elem? t.nodes) at_node ∙ found;
          begun = begun;
          below = below;
        } in
        let (child_runs, w', none_left) = Children-run parent n g h rest w cs in
        let (attr_runs, w'', done_children, done_attrs) =
          Attributes-run parent n h k rest w' none_left as_ in
        same_step (new_frame i parent ∷ rest) (g ∷ rest) rest parent m
          (begin_step i parent n g rest found begin ∙ sym (Working-step n parent g rest w))
          (record {
            last = k ∷ rest;
            runs = Runs-trans _ _ _ child_runs attr_runs;
            pops =
                Working-step n parent k rest w''
                ∙ pop_step n k rest m done_children done_attrs fin
                ∙ ap (λ q. give_to_parent t q rest m) w''.below;
          })

    Children-run :
        (parent : Option (ParentSlot × ℕ)) (n : RawNode) (g h : BuildFrame) (rest : List BuildFrame)
        → Working n parent g
        → Children n g h
        → Runs (g ∷ rest) (h ∷ rest) × Working n parent h × (ltb h.next_child n.child_count ≡ false)
    Children-run parent n g h rest w (no_child n' g0 e) = (here (g ∷ rest), w, e)
    Children-run parent n g h rest w (next_child n' g0 g' h' c m more link reading pushed rest_of) =
        let ahead = (advanced n parent g w).0 in
        let sub = Reads-run (some (child, g.next_child)) c m (next_child_of g ∷ rest) reading in
        let after =
          sub.pops ∙ child_given n g.next_child (next_child_of g) g' rest m ahead.found pushed in
        let w' =
          Keeps-Working n parent (next_child_of g) g' ahead
            (push_child-Keeps n.kind g.next_child (next_child_of g) g' g.result m pushed) in
        let (more_runs, w'', full) = Children-run parent n g' h rest w' rest_of in
        (
          there _ _ _ (Working-step n parent g rest w ∙ child_step n g rest c more link)
              (Runs-trans _ _ _ sub.runs (there _ _ _ after more_runs)),
          w'',
          full,
        )

    Attributes-run :
        (parent : Option (ParentSlot × ℕ)) (n : RawNode) (g h : BuildFrame) (rest : List BuildFrame)
        → Working n parent g
        → ltb g.next_child n.child_count ≡ false
        → Attributes n g h
        → Runs (g ∷ rest) (h ∷ rest)
          × Working n parent h
          × (ltb h.next_child n.child_count ≡ false)
          × (ltb h.next_attr n.attr_count ≡ false)
    Attributes-run parent n g h rest w full (no_attr n' g0 e) = (here (g ∷ rest), w, full, e)
    Attributes-run parent n g h rest w full
          (next_attr n' g0 g' h' a m more link reading pushed rest_of) =
        let ahead = (advanced n parent g w).1 in
        let sub = Reads-run (some (attr, g.next_attr)) a m (next_attr_of g ∷ rest) reading in
        let after =
          sub.pops ∙ attr_given n g.next_attr (next_attr_of g) g' rest m ahead.found pushed in
        let keeps = push_attr-Keeps g.next_attr (next_attr_of g) g' m pushed in
        let w' = Keeps-Working n parent (next_attr_of g) g' ahead keeps in
        let full' = ap (λ j. ltb j n.child_count) keeps.3 ∙ full in
        let (more_runs, w'', full'', done) = Attributes-run parent n g' h rest w' full' rest_of in
        (
          there _ _ _ (Working-step n parent g rest w ∙ attr_step n g rest a full more link)
              (Runs-trans _ _ _ sub.runs (there _ _ _ after more_runs)),
          w'',
          full'',
          done,
        )

  loop_ends :
      (fs last : List BuildFrame) (m : Message)
      → Runs fs last
      → build_step b t last ≡ some (built m)
      → (fuel : ℕ) × (build_loop fuel b t fs ≡ some m)
  unfolding build_loop
  loop_ends fs last m (here x) e = (1, rw e refl)
  loop_ends fs last m (there x gs y s q) e =
      let (fuel, ends) = loop_ends gs last m q e in (suc fuel, rw s ends)

  -- Whatever message a node reads as by recursion over its children and its attributes, the loop of
  -- build_message with its explicit stack of frames returns for that root, with enough rounds, and faults
  -- nowhere.
  pub build_message-Reads :
      (root : ℕ) (m : Message)
      → Reads none root m
      → (fuel : ℕ) × (build_message fuel b t root ≡ some m)
  unfolding build_message give_to_parent
  build_message-Reads root m r =
      let f = Reads-run none root m [] r in
      loop_ends (new_frame root none ∷ []) f.last m f.runs f.pops
