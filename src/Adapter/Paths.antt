-- ===== src/Adapter/Paths.antt =====
-- adapter/error.hpp and the adapters: where the path of an error leads.
use rediscoro.Prelude.{
  codes, ℕ, ℤ, arith, ◌≡◌, refl, sym, ap, ◌∙◌, subst, List, [], ◌∷◌, ◌++◌, get_elem?, ◌⊎◌, inl, inr,
  some, none, Bool, false, append_assoc, same_inr, inl≢inr,
}
use rediscoro.Errors.{AdapterErrc}
use rediscoro.Adapter.Error.{
  Error, PathElement, path_index, path_key, path_field, make_type_mismatch, make_unexpected_null,
  make_value_out_of_range,
}
use rediscoro.Adapter.Scalar.{
  Width, Scalar, ScalarValue, text, truth, signed, unsigned, floating, adapt_scalar, adapt_signed,
  adapt_unsigned,
}
use rediscoro.Adapter.Containers.{entries}
use rediscoro.Adapter.Dispatch.{
  Target, scalar, optional, sequence, std_array, map, Adapted, key_text, adapt,
}
use rediscoro.Adapter.Maps.{Earlier}
use rediscoro.Adapter.Sequences.{IsPlain, sequence_elements, array_elements}
use rediscoro.Resp3.Message.{Message, message, Value, integer, Entries, Attrs, is_null}

-- Asked for the first type of the first message, the path leads to the second type asked for of the second one.
pub data Leads : Target → Message → List PathElement → Target → Message → Type 0 where
  here : {t : Target} {m : Message} → Leads t m [] t m
  inside :
      {t u : Target} {m n : Message} {p : List PathElement}
      → is_null m ≡ false
      → Leads t m p u n
      → Leads (optional t) m p u n
  element :
      {t u : Target} {m n : Message} {p : List PathElement} {i : ℕ} {ms : List Message}
      {x : Message}
      → sequence_elements m ≡ some ms
      → get_elem? ms i ≡ some x
      → Leads t x p u n
      → Leads (sequence t) m (path_index i ∷ p) u n
  slot :
      {t u : Target} {m n : Message} {p : List PathElement} {k i : ℕ} {ms : List Message}
      {x : Message}
      → array_elements m ≡ some ms
      → get_elem? ms i ≡ some x
      → Leads t x p u n
      → Leads (std_array k t) m (path_index i ∷ p) u n
  key :
      {s : Scalar} {same : ScalarValue s → ScalarValue s → Bool} {t u : Target} {n : Message}
      {p : List PathElement} {es : Entries} {at : Attrs} {km vm : Message} (i : ℕ)
      → get_elem? (entries es) i ≡ some (km, vm)
      → Leads (scalar s) km p u n
      → Leads
          (map s same t)
          (message (Value.map es) at)
          (path_index i ∷ path_field (codes "key") ∷ p)
          u
          n
  named_value :
      {s : Scalar} {same : ScalarValue s → ScalarValue s → Bool} {t u : Target} {n : Message}
      {p : List PathElement} {es : Entries} {at : Attrs} {km vm : Message} {k : ScalarValue s}
      {name : List ℕ} (i : ℕ)
      → get_elem? (entries es) i ≡ some (km, vm)
      → adapt_scalar s km ≡ inl k
      → key_text s k ≡ some name
      → Leads t vm p u n
      → Leads (map s same t) (message (Value.map es) at) (path_key name ∷ p) u n
  value_at :
      {s : Scalar} {same : ScalarValue s → ScalarValue s → Bool} {t u : Target} {n : Message}
      {p : List PathElement} {es : Entries} {at : Attrs} {km vm : Message} {k : ScalarValue s}
      (i : ℕ)
      → get_elem? (entries es) i ≡ some (km, vm)
      → adapt_scalar s km ≡ inl k
      → key_text s k ≡ none
      → Leads t vm p u n
      → Leads
          (map s same t)
          (message (Value.map es) at)
          (path_index i ∷ path_field (codes "value") ∷ p)
          u
          n

-- The error with another path, and no text kept.
abbrev pub at_path : List PathElement → Error → Error
at_path p e = record e { path = p; cached_message = none }

-- How a map names a key of its own: by its text, or by the place of its entry.
abbrev pub key_place : (s : Scalar) → ℕ → ScalarValue s → List PathElement
key_place s i k = elim (key_text s k) [
  | some name ↦ path_key name ∷ []
  | none ↦ path_index i ∷ path_field (codes "key") ∷ []
]

-- The message is a map with an entry whose key an earlier entry has, and the path names this key.
pub data Repeated : Target → Message → List PathElement → Type 0 where
  repeated_at :
      {s : Scalar} {same : ScalarValue s → ScalarValue s → Bool} {t : Target} {es : Entries}
      {at : Attrs} {km vm : Message} {k : ScalarValue s} (i : ℕ)
      → get_elem? (entries es) i ≡ some (km, vm)
      → adapt_scalar s km ≡ inl k
      → Earlier {V = Adapted t} same (key_text s) (adapt_scalar s) (adapt t) k i (entries es)
      → Repeated (map s same t) (message (Value.map es) at) (key_place s i k)

-- The path of the error leads to where it arose. Only a repeated key is named by the map itself.
pub record Refusal (t : Target) (m : Message) (e : Error) : Type 0 where
  pub asked : Target
  pub place : Message
  pub outer : List PathElement
  pub inner : List PathElement
  pub leads : Leads t m outer asked place
  pub splits : e.path ≡ outer ++ inner
  pub refused : adapt asked place ≡ inr (at_path inner e)
  pub own : (inner ≡ []) ⊎ ((e.kind ≡ AdapterErrc.duplicate_key) × Repeated asked place inner)

at_path_self : (e : Error) → e.cached_message ≡ none → e ≡ at_path e.path e
at_path_self e c = ap (λ x. record e { cached_message = x }) c

-- An error that the adapter of the message itself gives.
pub plain-Refusal :
    (t : Target) (m : Message) (e : Error) → adapt t m ≡ inr e → IsPlain e → Refusal t m e
plain-Refusal t m e h plain = record {
  asked = t;
  place = m;
  outer = [];
  inner = [];
  leads = here;
  splits = plain.0;
  refused = h ∙ ap inr (at_path_self e plain.1 ∙ ap (λ p. at_path p e) plain.0);
  own = inl refl;
}

-- An error of an adapter inside, under a longer path.
pub deeper-Refusal :
    (t t' : Target) (m m' : Message) (p : List PathElement) (e e' : Error)
    → ((q : List PathElement) (u : Target) (n : Message)
        → Leads t m q u n
        → Leads t' m' (p ++ q) u n)
    → e' ≡ at_path (p ++ e.path) e
    → Refusal t m e
    → Refusal t' m' e'
deeper-Refusal t t' m m' p e e' longer same r =
    subst (λ x. Refusal t' m' x) (sym same)
      (record {
        asked = r.asked;
        place = r.place;
        outer = p ++ r.outer;
        inner = r.inner;
        leads = longer r.outer r.asked r.place r.leads;
        splits = ap (λ x. p ++ x) r.splits ∙ sym (append_assoc p r.outer r.inner);
        refused = r.refused;
        own = r.own;
      })

unsigned-IsPlain : (w : Width) (v : ℤ) (e : Error) → adapt_unsigned w v ≡ inr e → IsPlain e
unfolding adapt_unsigned make_value_out_of_range
unsigned-IsPlain w v e h = ground arith

signed-IsPlain : (w : Width) (v : ℤ) (e : Error) → adapt_signed w v ≡ inr e → IsPlain e
unfolding adapt_signed make_value_out_of_range
signed-IsPlain w v e h = ground arith

told {ℓ} :
    {A : Type ℓ} {e e' : Error} → ◌≡◌ {A = A ⊎ Error} (inr e') (inr e) → IsPlain e' → IsPlain e
told h plain = subst IsPlain (same_inr h) plain

pub scalar-IsPlain : (s : Scalar) (m : Message) (e : Error) → adapt_scalar s m ≡ inr e → IsPlain e
unfolding adapt_scalar make_type_mismatch make_unexpected_null
scalar-IsPlain text (message (Value.simple_string t) at) e h = absurd (inl≢inr h)
scalar-IsPlain text (message (Value.bulk_string t) at) e h = absurd (inl≢inr h)
scalar-IsPlain text (message (Value.verbatim_string k t) at) e h = absurd (inl≢inr h)
scalar-IsPlain text (message _ at) e h = told h (refl, refl)
scalar-IsPlain truth (message (Value.boolean b) at) e h = absurd (inl≢inr h)
scalar-IsPlain truth (message _ at) e h = told h (refl, refl)
scalar-IsPlain (unsigned w) (message (integer v) at) e h = unsigned-IsPlain w v e h
scalar-IsPlain (unsigned w) (message _ at) e h = told h (refl, refl)
scalar-IsPlain (signed w) (message (integer v) at) e h = signed-IsPlain w v e h
scalar-IsPlain (signed w) (message _ at) e h = told h (refl, refl)
scalar-IsPlain (floating cast) (message (Value.double_number d) at) e h = absurd (inl≢inr h)
scalar-IsPlain (floating cast) (message _ at) e h = told h (refl, refl)
