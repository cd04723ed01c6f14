-- ===== src/Resp3/Parser/Value/Forms.antt =====
-- resp3/impl/parser.ipp, `parse_value`: in an orderly state no assertion fails, and what is consumed is
-- progress.
use rediscoro.Prelude.{
  ℕ, ◌+◌, ◌%◌, ◌^◌, ◌≤◌, ◌<◌, ◌≡◌, refl, Bool, true, false, not, ◌&&◌, some, List, [], ◌∷◌, arith,
  ltb, ◌==◌, get_or, length, take, drop, if◌then◌else◌,
}
use rediscoro.Errors.{ProtocolErrc}
use rediscoro.Resp3.Kind.{Kind}
use rediscoro.Resp3.Buffer.{readable, size_max}
use rediscoro.Resp3.Raw.{blank_node}
use rediscoro.Resp3.Scan.{is_valid_verbatim_payload, same_text, cr, lf}
use rediscoro.Resp3.Parser.{Parser, fails, more}
use rediscoro.Resp3.Parser.Value.{Turn, parse_null, parse_boolean, parse_payload, is_verbatim}
use rediscoro.Resp3.Parser.Value.Lines.{Reported}
use rediscoro.Resp3.Parser.Value.Nodes.{IsReady, TurnOk, produce_total}

pub failing : (p q : Parser) (e : ProtocolErrc) → Reported e → TurnOk p (some (q, fails e))
failing p q e r = record { next = q; result = fails e; gives = refl; after = r }

pub waiting : (p : Parser) → TurnOk p (some (p, more))
waiting p = record { next = p; result = more; gives = refl; after = refl }

-- Each branch of a test may use its outcome.
pub branch :
    (p : Parser) (b : Bool) (t u : Turn)
    → (b ≡ true → TurnOk p t)
    → (b ≡ false → TurnOk p u)
    → TurnOk p (if b then t else u)
branch p true t u f g = f refl
branch p false t u f g = g refl

pub null_total :
    (p : Parser) (input : List ℕ)
    → IsReady p
    → length input ≡ readable p.buf
    → TurnOk p (parse_null p input)
unfolding parse_null
null_total p input v l =
    branch p (ltb (length input) 3) _ _ (λ short. waiting p)
      λ long.
        branch p (not (get_or input 1 0 == cr && get_or input 2 0 == lf)) _ _
          (λ bad. failing p p ProtocolErrc.invalid_null tt)
          λ good. produce_total p 3 (blank_node Kind.null) v (omega arith) (ground arith)

pub boolean_total :
    (p : Parser) (input : List ℕ)
    → IsReady p
    → length input ≡ readable p.buf
    → TurnOk p (parse_boolean p input)
unfolding parse_boolean
boolean_total p input v l =
    branch p (ltb (length input) 4) _ _ (λ short. waiting p)
      λ long.
        branch p (not (get_or input 2 0 == cr && get_or input 3 0 == lf)) _ _
          (λ bad. failing p p ProtocolErrc.invalid_boolean tt)
          λ good.
            branch p (get_or input 1 0 == b't') _ _
              (λ t. produce_total p 4 _ v (omega arith) (ground arith))
              λ not_t.
                branch p (get_or input 1 0 == b'f') _ _
                  (λ f. produce_total p 4 _ v (omega arith) (ground arith))
                  λ not_f. failing p p ProtocolErrc.invalid_boolean tt

pub payload_total :
    (p : Parser) (k : Kind) (input : List ℕ) (header len : ℕ)
    → IsReady p
    → length input ≡ readable p.buf
    → 0 < header
    → header ≤ length input
    → len < 2 ^ 63
    → TurnOk p (parse_payload p k input header len)
unfolding parse_payload
payload_total p k input header len v l h hl hb =
    branch p (ltb size_max ((header + len + 2) % 2 ^ 64)) _ _
      (λ large. failing p p ProtocolErrc.invalid_length tt)
      λ fits.
        branch p (ltb (length input) ((header + len + 2) % 2 ^ 64)) _ _ (λ short. waiting p)
          λ long.
            branch p (not (same_text (take 2 (drop (header + len) input)) (cr ∷ lf ∷ []))) _ _
              (λ bad. failing p p ProtocolErrc.invalid_bulk_trailer tt)
              λ good.
                branch p
                  (is_verbatim k && not (is_valid_verbatim_payload (take len (drop header input))))
                  _ _ (λ bad. failing p p ProtocolErrc.invalid_verbatim tt)
                  λ valid.
                    produce_total p ((header + len + 2) % 2 ^ 64) _ v
                      (omega (arith, v.indices, v.buffer)) (ground arith)
