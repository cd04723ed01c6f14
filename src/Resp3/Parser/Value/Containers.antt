-- ===== src/Resp3/Parser/Value/Containers.antt =====
-- resp3/impl/parser.ipp, `parse_value`: bulk values and containers keep the promise of a turn.
use rediscoro.Prelude.{
  ℕ, ◌+◌, ◌≤◌, ◌<◌, ◌≡◌, refl, inr, Bool, true, false, ◌||◌, List, [], ◌∷◌, arith, ◌==◌, length, ℤ,
  pos, negsuc, ltb_ℤ,
}
use rediscoro.Errors.{ProtocolErrc}
use rediscoro.Resp3.Kind.{Kind}
use rediscoro.Resp3.Buffer.{readable}
use rediscoro.Resp3.Buffer.Laws.{consume_eq}
use rediscoro.Resp3.Raw.{blank_node}
use rediscoro.Resp3.Scan.{is_representable_length, exceeds_i64_limit}
use rediscoro.Resp3.Parser.{
  Frame, Parser, Parsed, fails, more, done, continue_parsing, produced, u32, start_container,
  container_frame, open_frame,
}
use rediscoro.Resp3.Parser.Attach.{is_array_like}
use rediscoro.Resp3.Parser.Invariant.{IsStack}
use rediscoro.Resp3.Parser.Value.{
  LengthHeader, produce, parse_container, parse_payload, parse_bulk, parse_length_after_type,
}
use rediscoro.Resp3.Parser.Value.Lines.{HeaderOk, header_ok}
use rediscoro.Resp3.Parser.Value.Nodes.{
  IsReady, Consumed, TurnOk, add_node_total, produce_total, added,
}
use rediscoro.Resp3.Parser.Value.Forms.{failing, waiting, branch, payload_total}

abbrev pub is_container : Kind → Bool
is_container Kind.map = true
is_container k = is_array_like k

-- The frame of a container fits over a tree that has its node.
container-IsStack :
    (n : ℕ) (k : Kind) (len idx : ℕ) (rest : List Frame)
    → is_container k ≡ true
    → idx < n
    → IsStack n false rest
    → IsStack n false (container_frame k len idx ∷ rest)
container-IsStack n Kind.map len idx rest c h s = ((refl, h), s)
container-IsStack n Kind.array len idx rest c h s = ((refl, h), s)
container-IsStack n Kind.set len idx rest c h s = ((refl, h), s)
container-IsStack n Kind.push len idx rest c h s = ((refl, h), s)
container-IsStack n _ len idx rest c h s = cc

module _ (p : Parser) (v : IsReady p) where
  -- `p` with `n` bytes consumed.
  abbrev pub after_bytes : ℕ → Parser
  after_bytes n = record p { buf = record p.buf { read_pos = p.buf.read_pos + n } }

  pub bulk_total :
      (k : Kind) (input : List ℕ) → length input ≡ readable p.buf → TurnOk p (parse_bulk p k input)
  unfolding parse_bulk
  bulk_total k input l = go (parse_length_after_type p.limits input) refl (header_ok p.limits input)
    where
      payload :
          (h : LengthHeader) (n : ℤ)
          → h.length ≡ n
          → HeaderOk input (done h)
          → TurnOk p (elim n [
            | negsuc _ ↦ produce p h.header_bytes (record (blank_node k) { i64 = negsuc 0 })
            | pos len ↦ parse_payload p k input h.header_bytes len
          ])
      payload h (negsuc n) e ok = produce_total p h.header_bytes _ v ok.1 (omega arith)
      payload h (pos len) e ok =
          payload_total p k input h.header_bytes len v l ok.1 ok.0 (rw e at ok.2)

      go :
          (r : Parsed LengthHeader)
          → parse_length_after_type p.limits input ≡ r
          → HeaderOk input r
          → TurnOk p (parse_bulk p k input)
      go (fails e) q h = rw (q, parse_bulk) (failing p p e h)
      go more q h = rw (q, parse_bulk) (waiting p)
      go (done h) q ok =
          rw (q, parse_bulk)
            (branch p
              (ltb_ℤ h.length (negsuc 0) || exceeds_i64_limit h.length p.limits.max_resp_bulk_bytes)
              _ _ (λ bad. failing p p ProtocolErrc.invalid_length tt)
              λ good. payload h h.length refl ok)

  open_frame_total :
      (q : Parser) (k : Kind) (len idx : ℕ)
      → is_container k ≡ true
      → Consumed p q true
      → idx < length q.tree.nodes
      → TurnOk p (open_frame q k len idx)
  open_frame_total q k len idx c x h = go q.stack refl x.frames
    where
      go :
          (fs : List Frame)
          → q.stack ≡ fs
          → IsStack (length q.tree.nodes) true fs
          → TurnOk p (open_frame q k len idx)
      go [] e s = cc
      go (f ∷ rest) e s =
          rw (e, open_frame)
            (record {
              next = record q { stack = container_frame k len idx ∷ rest };
              result = done continue_parsing;
              gives = refl;
              after = inr (
                record {
                  buffer = x.buffer;
                  few = x.few;
                  frames = container-IsStack (length q.tree.nodes) k len idx rest c h s.1;
                  less = x.less;
                  same_end = x.same_end;
                },
                λ none_. cc,
              );
            })

  start_total :
      (n : ℕ) (k : Kind) (len : ℤ)
      → is_container k ≡ true
      → 0 < n
      → n ≤ readable p.buf
      → TurnOk p (start_container (after_bytes n) k len)
  unfolding start_container
  start_total n k (negsuc m) c pos_n h =
      branch p
        (ltb_ℤ (negsuc m) (negsuc 0) || ltb_ℤ (pos p.limits.max_resp_container_len) (negsuc m)) _ _
        (λ bad. failing p (after_bytes n) ProtocolErrc.invalid_length tt)
        λ good.
          let (q, e, x) =
            add_node_total (after_bytes n) (record (blank_node k) { i64 = negsuc 0 })
              (omega (arith, v.few, v.indices, v.buffer)) in
          record {
            next = q;
            result = done (produced (length p.tree.nodes));
            gives = rw e;
            after = (added p q n v pos_n h x, omega (arith, x.one_more));
          }
  start_total n k (pos m) c pos_n h =
      branch p (ltb_ℤ (pos m) (negsuc 0) || ltb_ℤ (pos p.limits.max_resp_container_len) (pos m)) _ _
        (λ bad. failing p (after_bytes n) ProtocolErrc.invalid_length tt)
        λ good.
          branch p (is_representable_length k (pos m)) _ _
            (λ fits.
              let (q, e, x) =
                add_node_total (after_bytes n)
                  (record (blank_node k) { i64 = pos m; first_child = u32 (length p.tree.links) })
                  (omega (arith, v.few, v.indices, v.buffer)) in
              let y = added p q n v pos_n h x in
              rw e (
                branch p (m == 0) _ _
                  (λ empty. record {
                    next = q;
                    result = done (produced (length p.tree.nodes));
                    gives = refl;
                    after = (y, omega (arith, x.one_more));
                  })
                  (λ some_.
                    open_frame_total q k (u32 m) (length p.tree.nodes) c y
                      (omega (arith, x.one_more)))))
            λ large. failing p (after_bytes n) ProtocolErrc.invalid_length tt

  pub container_total :
      (k : Kind) (input : List ℕ)
      → is_container k ≡ true
      → length input ≡ readable p.buf
      → TurnOk p (parse_container p k input)
  unfolding parse_container
  container_total k input c l =
      go (parse_length_after_type p.limits input) refl (header_ok p.limits input)
    where
      go :
          (r : Parsed LengthHeader)
          → parse_length_after_type p.limits input ≡ r
          → HeaderOk input r
          → TurnOk p (parse_container p k input)
      go (fails e) q h = rw (q, parse_container) (failing p p e h)
      go more q h = rw (q, parse_container) (waiting p)
      go (done h) q ok =
          rw (q, parse_container)
            (rw (consume_eq p.buf h.header_bytes (omega arith))
              (start_total h.header_bytes k h.length c ok.1 (omega arith)))
