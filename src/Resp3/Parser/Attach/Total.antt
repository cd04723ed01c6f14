-- ===== src/Resp3/Parser/Attach/Total.antt =====
-- resp3/impl/parser.ipp, `attach_to_parent`: on an orderly stack no assertion fails, no index is out of
-- range and no error is reported.
use rediscoro.Prelude.{
  ℕ, ◌+◌, ◌<◌, ◌≡◌, refl, ◌∙◌, inl, inr, true, false, some, List, [], ◌∷◌, ◌++◌, arith, Bool-cases,
  ◌==◌, get_elem?_lt, set, length, length-set, ◌*◌, if◌then◌else◌,
}
use rediscoro.Resp3.Raw.{RawTree}
use rediscoro.Resp3.Parser.{
  Frame, FrameKind, Pending, Parsed, fails, more, done, Step, continue_parsing, produced, u32,
}
use rediscoro.Resp3.Parser.Attach.{
  Work, add_children, attach_element, attach_key, attach_map_value, attach_attribute,
  attach_to_parent, Attached,
}
use rediscoro.Resp3.Parser.Invariant.{Fits, IsStack, wants_value}

pub add_children_total :
    (t : RawTree) (i : ℕ) (children : List ℕ) (k : ℕ)
    → i < length t.nodes
    → (t' : RawTree) × (add_children t i children k ≡ some t') × (length t'.nodes ≡ length t.nodes)
unfolding add_children
add_children_total t i children k h =
    let (n, e) = get_elem?_lt t.nodes i h in
    let first = if n.child_count == 0 then u32 (length t.links) else n.first_child in
    let n' = record n { first_child = first; child_count = k } in
    (
      record { nodes = set t.nodes i n'; links = t.links ++ children },
      rw e,
      length-set t.nodes i n',
    )

-- Another value is wanted, or the root is complete and the stack is empty.
abbrev pub AfterAttach : ℕ → Work → Parsed Step → Type 0
AfterAttach n w (fails e) = ⊥
AfterAttach n w more = ⊥
AfterAttach n w (done continue_parsing) = IsStack n true w.frames
AfterAttach n w (done (produced root)) = (w.frames ≡ []) × (root < n)

pub record AttachedOk (n : ℕ) (r : Attached) : Type 0 where
  pub work : Work
  pub result : Parsed Step
  pub gives : r ≡ some (work, result)
  pub same : length work.tree.nodes ≡ n
  pub after : AfterAttach n work result

module _ (n : ℕ) (f : Frame) (rest : List Frame) (t : RawTree) (a : Pending) (child : ℕ)
    (size : length t.nodes ≡ n) where
  element_total :
      (up : RawTree → Attached)
      → Fits n f FrameKind.array
      → IsStack n false rest
      → f.state ≡ FrameKind.array
      → ((t' : RawTree) → length t'.nodes ≡ n → AttachedOk n (up t'))
      → AttachedOk n (attach_element f rest t a child up)
  unfolding attach_element
  element_total up fits below st more_up =
      let (t', e, l) =
        add_children_total t f.node_index (child ∷ []) (u32 (f.produced + 1)) (omega arith) in
      elim (Bool-cases (u32 (f.produced + 1) == f.expected)) [
        | inl full ↦ rw (fits.0, e, full) (more_up t' (l ∙ size))
        | inr open_ ↦
            rw (fits.0, e, open_)
              (record {
                work = _;
                result = _;
                gives = refl;
                same = l ∙ size;
                after = (refl, rw st (fits, below));
              })
      ]

  key_total :
      Fits n f FrameKind.map_key → IsStack n false rest → AttachedOk n (attach_key f rest t a child)
  unfolding attach_key
  key_total fits below = rw fits.0 (record {
    work = _;
    result = _;
    gives = refl;
    same = size;
    after = (refl, ((fits.0, fits.1, refl), below));
  })

  map_value_total :
      (up : RawTree → Attached)
      → Fits n f FrameKind.map_value
      → IsStack n false rest
      → ((t' : RawTree) → length t'.nodes ≡ n → AttachedOk n (up t'))
      → AttachedOk n (attach_map_value f rest t a child up)
  unfolding attach_map_value
  map_value_total up fits below more_up =
      let count = u32 (f.produced + 1) in
      let (t', e, l) =
        add_children_total t f.node_index (f.pending_key ∷ child ∷ []) (u32 (count * 2))
          (omega arith) in
      elim (Bool-cases (count == f.expected)) [
        | inl full ↦ rw (fits.0, fits.2, e, full) (more_up t' (l ∙ size))
        | inr wanting ↦
            rw (fits.0, fits.2, e, wanting)
              (record {
                work = _;
                result = _;
                gives = refl;
                same = l ∙ size;
                after = (refl, ((fits.0, fits.1), below));
              })
      ]

  attribute_total :
      Fits n f FrameKind.attribute
      → IsStack n true rest
      → f.state ≡ FrameKind.attribute
      → AttachedOk n (attach_attribute f rest t a child)
  unfolding attach_attribute
  attribute_total fits below st = elim (Bool-cases f.has_pending_key) [
    | inr first ↦
        rw (fits, first)
          (record {
            work = _;
            result = _;
            gives = refl;
            same = size;
            after = (refl, rw st (fits, below));
          })
    | inl second ↦ elim (Bool-cases (u32 (f.produced + 1) == f.expected)) [
      | inl full ↦
          rw (fits, second, full)
            (record { work = _; result = _; gives = refl; same = size; after = below })
      | inr wanting ↦
          rw (fits, second, wanting)
            (record {
              work = _;
              result = _;
              gives = refl;
              same = size;
              after = (refl, rw st (fits, below));
            })
    ]
  ]

-- A completed node that is in the tree, on an orderly stack without a value frame on top, is attached with
-- no failed assertion and no index out of range; the number of nodes stays, and either another value is
-- wanted on an orderly stack, or the stack is empty and the root is a node of the tree.
pub attach_to_parent_total :
    (n : ℕ) (fs : List Frame) (t : RawTree) (a : Pending) (child : ℕ)
    → length t.nodes ≡ n
    → IsStack n false fs
    → child < n
    → AttachedOk n (attach_to_parent fs t a child)
unfolding attach_to_parent
attach_to_parent_total n [] t a child size s h = record {
  work = _;
  result = _;
  gives = refl;
  same = size;
  after = (refl, h);
}
attach_to_parent_total n (f ∷ rest) t a child size s h =
    go f.state refl s.0 s.1
      (λ t' e below lt. attach_to_parent_total n rest t' a f.node_index e below lt)
  where
    go :
        (k : FrameKind)
        → f.state ≡ k
        → Fits n f k
        → IsStack n (wants_value k) rest
        → ((t' : RawTree)
            → length t'.nodes ≡ n
            → IsStack n false rest
            → f.node_index < n
            → AttachedOk n (attach_to_parent rest t' a f.node_index))
        → AttachedOk n (attach_to_parent (f ∷ rest) t a child)
    go FrameKind.value e fits below ih = absurd fits
    go FrameKind.array e fits below ih =
        rw (e, attach_to_parent)
          (element_total n f rest t a child size _ fits below e (λ t' l. ih t' l below fits.1))
    go FrameKind.map_key e fits below ih =
        rw (e, attach_to_parent) (key_total n f rest t a child size fits below)
    go FrameKind.map_value e fits below ih =
        rw (e, attach_to_parent)
          (map_value_total n f rest t a child size _ fits below (λ t' l. ih t' l below fits.1))
    go FrameKind.attribute e fits below ih =
        rw (e, attach_to_parent) (attribute_total n f rest t a child size fits below e)
