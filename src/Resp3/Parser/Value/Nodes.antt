-- ===== src/Resp3/Parser/Value/Nodes.antt =====
-- resp3/impl/parser.ipp: what a call of `parse_value` promises, and how a completed value enters the tree.
use rediscoro.Prelude.{
  ℕ, ◌+◌, ◌^◌, ◌≤◌, ◌<◌, ◌≡◌, ◌≢◌, refl, sym, ap, subst, ◌∙◌, inl, inr, ◌⊎◌, Bool, true, false,
  some, [], ◌∷◌, ◌++◌, arith, Bool-cases, ◌==◌, get_elem?_lt, set, length, length-set,
  length-append,
}
use native.Mathlib.Nat.{mod-eq_of_lt}
use rediscoro.Resp3.Buffer.{readable}
use rediscoro.Resp3.Buffer.Laws.{IsValid, consume_eq}
use rediscoro.Resp3.Raw.{RawNode}
use rediscoro.Resp3.Parser.{
  Parser, Parsed, fails, more, done, Step, continue_parsing, produced, u32, add_node,
}
use rediscoro.Resp3.Parser.Invariant.{IsStack, IsStack-mono}
use rediscoro.Resp3.Parser.Value.{Turn, produce}
use rediscoro.Resp3.Parser.Value.Lines.{Reported}

-- A parser with a value frame on top of an orderly stack, and fewer nodes than indices.
pub record IsReady (p : Parser) : Type 0 where
  pub buffer : IsValid p.buf
  pub few : length p.tree.nodes ≤ p.buf.read_pos
  pub frames : IsStack (length p.tree.nodes) true p.stack
  pub indices : p.buf.write_pos < 2 ^ 32

-- `q` has consumed bytes of `p`, and is orderly over its own nodes.
pub record Consumed (p q : Parser) (want : Bool) : Type 0 where
  pub buffer : IsValid q.buf
  pub few : length q.tree.nodes ≤ q.buf.read_pos
  pub frames : IsStack (length q.tree.nodes) want q.stack
  pub less : readable q.buf < readable p.buf
  pub same_end : q.buf.write_pos ≡ p.buf.write_pos

abbrev pub AfterValue : Parser → Parser → Parsed Step → Type 0
AfterValue p q (fails e) = Reported e
AfterValue p q more = q ≡ p
AfterValue p q (done continue_parsing) = Consumed p q true ⊎ (Consumed p q false × (q.stack ≢ []))
AfterValue p q (done (produced i)) = Consumed p q true × (i < length q.tree.nodes)

pub record TurnOk (p : Parser) (t : Turn) : Type 0 where
  pub next : Parser
  pub result : Parsed Step
  pub gives : t ≡ some (next, result)
  pub after : AfterValue p next result

-- `q` is `p` with one more node.
pub record Added (p q : Parser) : Type 0 where
  pub one_more : length q.tree.nodes ≡ length p.tree.nodes + 1
  pub same_buf : q.buf ≡ p.buf
  pub same_stack : q.stack ≡ p.stack

pub add_node_total :
    (p : Parser) (node : RawNode)
    → length p.tree.nodes < 2 ^ 32
    → (q : Parser) × (add_node p node ≡ some (q, length p.tree.nodes)) × Added p q
unfolding add_node
add_node_total p node h = elim (Bool-cases (p.pending.count == 0)) [
  | inl no_attrs ↦ (
    record p { tree = record p.tree { nodes = p.tree.nodes ++ (node ∷ []) } },
    ground (arith, idx),
    record { one_more = longer; same_buf = refl; same_stack = refl },
  )
  | inr attrs ↦
      let (n, e) =
        get_elem?_lt (p.tree.nodes ++ (node ∷ [])) (length p.tree.nodes) (omega (arith, longer)) in
      let n' = record n { first_attr = p.pending.first; attr_count = p.pending.count } in
      (
        record p {
          tree = record p.tree {
            nodes = set (p.tree.nodes ++ (node ∷ [])) (length p.tree.nodes) n';
          };
          pending = record { first = 0; count = 0 };
        },
        rw (idx, attrs, e),
        record {
          one_more = length-set (p.tree.nodes ++ (node ∷ [])) (length p.tree.nodes) n' ∙ longer;
          same_buf = refl;
          same_stack = refl;
        },
      )
]
  where
    idx : u32 (length p.tree.nodes) ≡ length p.tree.nodes
    idx = mod-eq_of_lt h

    longer : length (p.tree.nodes ++ (node ∷ [])) ≡ length p.tree.nodes + 1
    longer = length-append p.tree.nodes (node ∷ [])

pub consumed_IsValid :
    (p q : Parser) (n : ℕ)
    → IsReady p
    → n ≤ readable p.buf
    → q.buf ≡ record p.buf { read_pos = p.buf.read_pos + n }
    → IsValid q.buf
consumed_IsValid p q n v h e = subst IsValid (sym e) (record {
  order = omega (arith, v.buffer);
  inside = v.buffer.inside;
  nonempty = v.buffer.nonempty;
})

-- With `n` bytes consumed and one node more, the stack unchanged.
pub added :
    (p q : Parser) (n : ℕ)
    → IsReady p
    → 0 < n
    → n ≤ readable p.buf
    → Added (record p { buf = record p.buf { read_pos = p.buf.read_pos + n } }) q
    → Consumed p q true
added p q n v pos_n h x = record {
  buffer = consumed_IsValid p q n v h x.same_buf;
  few = omega (arith, x.one_more, at_read, v.few);
  frames = subst (IsStack (length q.tree.nodes) true) (sym x.same_stack) (
      IsStack-mono (length p.tree.nodes) (length q.tree.nodes) true p.stack
        (omega (arith, x.one_more)) v.frames);
  less = omega (arith, at_read, at_write);
  same_end = at_write;
}
  where
    at_read : q.buf.read_pos ≡ p.buf.read_pos + n
    at_read = ap (λ b. b.read_pos) x.same_buf

    at_write : q.buf.write_pos ≡ p.buf.write_pos
    at_write = ap (λ b. b.write_pos) x.same_buf

-- A value of `n` bytes is consumed and becomes a node.
pub produce_total :
    (p : Parser) (n : ℕ) (node : RawNode)
    → IsReady p
    → 0 < n
    → n ≤ readable p.buf
    → TurnOk p (produce p n node)
unfolding produce
produce_total p n node v pos_n h =
    let b = record p.buf { read_pos = p.buf.read_pos + n } in
    let (q, e, x) =
      add_node_total (record p { buf = b }) node (omega (arith, v.few, v.indices, v.buffer)) in
    record {
      next = q;
      result = done (produced (length p.tree.nodes));
      gives = rw (consume_eq p.buf n h, e);
      after = (added p q n v pos_n h x, omega (arith, x.one_more));
    }
