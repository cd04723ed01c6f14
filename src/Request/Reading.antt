-- ===== src/Request/Reading.antt =====
-- request.hpp and resp3/impl/parser.ipp: an argument that a request writes becomes a node of the parser's tree.
use rediscoro.Prelude.{
  ==_iff, same_some, true, false, leb, if◌then◌else◌, pos, ℕ, ◌+◌, ◌-◌, ◌^◌, ◌≤◌, ◌<◌, ◌≡◌, refl,
  sym, ap, ◌∙◌, inl, inr, some, List, [], ◌∷◌, ◌++◌, length, arith, Bool-cases, ◌==◌, take, drop,
  take-take_le, take-drop, drop-drop, drop-append_eq, get_elem?, get_elem?-last, get_elem?-set_self,
  set, length-append,
}
use native.Mathlib.Nat.{mod-eq_of_lt}
use rediscoro.Resp3.Buffer.{Buffer, slice, contents, consume, readable, read_view}
use rediscoro.Resp3.Buffer.Laws.{IsValid, consume_eq, consume_lem, length-slice}
use rediscoro.Resp3.Kind.{Kind}
use rediscoro.Resp3.Raw.{RawNode, blank_node}
use rediscoro.Resp3.Parser.{Parser, done, produced, u32, add_node}
use rediscoro.Resp3.Parser.Value.{parse_bulk, produce, text_at}
use rediscoro.Resp3.Parser.Value.Nodes.{IsReady}
use rediscoro.Request.{header}
use rediscoro.Request.Headers.{bulk, length-bulk, bulk-produce}

-- The node stands at the end of the tree with its kind and its text.
pub record Stored (p q : Parser) (node : RawNode) : Type 0 where
  pub found : RawNode
  pub here : get_elem? q.tree.nodes (length p.tree.nodes) ≡ some found
  pub same_kind : found.kind ≡ node.kind
  pub same_text : found.text ≡ node.text
  pub same_buf : q.buf ≡ p.buf

add_node-Stored :
    (p : Parser) (node : RawNode)
    → length p.tree.nodes < 2 ^ 32
    → (q : Parser) × (add_node p node ≡ some (q, length p.tree.nodes)) × Stored p q node
unfolding add_node
add_node-Stored p node h = elim (Bool-cases (p.pending.count == 0)) [
  | inl no_attrs ↦ (
    record p { tree = record p.tree { nodes = p.tree.nodes ++ (node ∷ []) } },
    ground (arith, idx),
    record {
      found = node;
      here = get_elem?-last p.tree.nodes node;
      same_kind = refl;
      same_text = refl;
      same_buf = refl;
    },
  )
  | inr attrs ↦
      let n' = record node { first_attr = p.pending.first; attr_count = p.pending.count } in
      let nodes = p.tree.nodes ++ (node ∷ []) in
      (
        record p {
          tree = record p.tree { nodes = set nodes (length p.tree.nodes) n' };
          pending = record { first = 0; count = 0 };
        },
        rw (idx, attrs, get_elem?-last p.tree.nodes node),
        record {
          found = n';
          here =
              get_elem?-set_self nodes (length p.tree.nodes) n'
                (omega (arith, length-append p.tree.nodes (node ∷ [])));
          same_kind = refl;
          same_text = refl;
          same_buf = refl;
        },
      )
]
  where
    idx : u32 (length p.tree.nodes) ≡ length p.tree.nodes
    idx = mod-eq_of_lt h

-- The bytes that a view in the unread part sees.
slice-contents :
    (b : Buffer) (o n : ℕ)
    → o + n ≤ readable b
    → slice b.cells (b.read_pos + o) n ≡ take n (drop o (contents b))
slice-contents b o n h =
    sym (ap (take n) (drop-drop b.read_pos o b.cells))
    ∙ sym (take-take_le n (readable b - o) (drop o (drop b.read_pos b.cells)) (omega arith))
    ∙ ap (take n) (
        take-drop o (readable b - o) (drop b.read_pos b.cells)
        ∙ ap (λ k. drop o (take k (drop b.read_pos b.cells))) (omega arith))

produce-stores :
    (p : Parser) (n : ℕ) (node : RawNode) (b : Buffer) (q : Parser)
    → consume p.buf n ≡ some b
    → add_node (record p { buf = b }) node ≡ some (q, length p.tree.nodes)
    → produce p n node ≡ some (q, done (produced (length p.tree.nodes)))
unfolding produce
produce-stores p n node b q eats adds = rw (eats, adds) refl

-- A view made before the bytes are consumed still reads them.
text_at-read_view :
    (p : Parser) (b : Buffer) (o n : ℕ) (xs : List ℕ)
    → IsValid p.buf
    → o + n ≤ readable p.buf
    → take n (drop o (contents p.buf)) ≡ xs
    → (b.cells ≡ p.buf.cells) × (b.block ≡ p.buf.block)
    → read_view b (text_at p o n) ≡ some xs
unfolding read_view
text_at-read_view p b o n xs v h e same =
    rw (same.0, same.1)
      (elim (Bool-cases (n == 0)) [
        | inl empty ↦
            rw empty (
              ap some (ap (λ k. take k (drop o (contents p.buf))) (sym ((==_iff n 0).0 empty)) ∙ e))
        | inr full ↦ rw (full, inside) (ap some (slice-contents p.buf o n h ∙ e))
      ])
  where
    inside :
        (if p.buf.block == p.buf.block
          then leb (p.buf.read_pos + o + n) (length p.buf.cells)
          else false)
        ≡ true
    inside = ground (arith, v, h)

-- An argument that a request writes is what the parser reads: where the unread bytes of a parser that is
-- ready for a value are those written of the argument and any others, its length is within the bulk limit
-- and lines of 20 bytes are allowed, parse_bulk takes exactly the bytes of the argument and makes a node
-- for it at the end of the tree, a bulk string whose view reads as the argument.
pub bulk_read :
    (p : Parser) (sv tail : List ℕ)
    → IsReady p
    → contents p.buf ≡ bulk sv ++ tail
    → length sv ≤ p.limits.max_resp_bulk_bytes
    → 20 ≤ p.limits.max_resp_line_bytes
    → (q : Parser) × (node : RawNode) × (parse_bulk p Kind.bulk_string (contents p.buf)
        ≡ some (q, done (produced (length p.tree.nodes))))
      × (contents q.buf ≡ tail)
      × (get_elem? q.tree.nodes (length p.tree.nodes) ≡ some node)
      × (node.kind ≡ Kind.bulk_string)
      × (read_view q.buf node.text ≡ some sv)
bulk_read p sv tail v input few line =
    let (b, eats, ok, rest) = consume_lem p.buf (length (bulk sv)) v.buffer fits in
    let (q, adds, s) =
      add_node-Stored (record p { buf = b }) (made sv)
        (omega (arith, v.few, v.buffer, v.indices)) in
    let moved = s.same_buf ∙ same_some (sym eats ∙ consume_eq p.buf (length (bulk sv)) fits) in
    let (produces, text) =
      bulk-produce p sv tail (omega (arith, fits, v.indices, length-bulk sv)) few line in
    (
      q,
      s.found,
      ap (parse_bulk p Kind.bulk_string) input
          ∙ produces
          ∙ produce-stores p (length (bulk sv)) (made sv) b q eats adds,
      ap contents s.same_buf
          ∙ rest
          ∙ ap (drop (length (bulk sv))) input
          ∙ drop-append_eq (length (bulk sv)) (bulk sv) tail refl,
      s.here,
      s.same_kind,
      ap (read_view q.buf) s.same_text
          ∙ text_at-read_view p q.buf (length (header Kind.bulk_string (length sv))) (length sv) sv
              v.buffer (omega (arith, fits, length-bulk sv))
              (ap (λ ys. take (length sv) (drop (length (header Kind.bulk_string (length sv))) ys))
                  input
                ∙ text)
              (ap (λ x. x.cells) moved, ap (λ x. x.block) moved),
    )
  where
    fits : length (bulk sv) ≤ readable p.buf
    fits = omega (
      arith,
      length-slice p.buf.cells p.buf.read_pos (readable p.buf) (omega (arith, v.buffer)),
      ap length input,
      length-append (bulk sv) tail,
    )

    made : List ℕ → RawNode
    made xs = record (blank_node Kind.bulk_string) {
      text = text_at p (length (header Kind.bulk_string (length xs))) (length xs);
      i64 = pos (length xs);
    }
