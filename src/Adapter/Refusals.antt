-- ===== src/Adapter/Refusals.antt =====
-- adapter/adapt.hpp: the path of every error leads to the place where it arose.
use rediscoro.Prelude.{
  codes, ℕ, arith, ◌+◌, ◌≡◌, refl, sym, ap, ◌∙◌, subst, List, [], ◌∷◌, ◌++◌, get_elem?, ◌⊎◌, inl,
  inr, some, none, Bool, false, Option-cases, same_inr, inl≢inr, true, true≢false,
}
use rediscoro.Errors.{AdapterErrc}
use rediscoro.Adapter.Error.{
  Error, path_index, path_key, path_field, prepend_path, make_type_mismatch, make_duplicate_key,
}
use rediscoro.Adapter.Scalar.{Scalar, ScalarValue, adapt_scalar}
use rediscoro.Adapter.Containers.{
  contains, entries, adapt_optional, optional_value, adapt_map, key_error, duplicate_key_error,
  value_error,
}
use rediscoro.Adapter.Dispatch.{
  Target, ignore, scalar, optional, sequence, std_array, map, Adapted, key_text, adapt,
}
use rediscoro.Adapter.Sequences.{
  IsPlain, adapt_sequence-loop, adapt_std_array-loop, element_loop-FirstRefused,
}
use rediscoro.Adapter.Maps.{
  Earlier, EntryFault, key_refused, key_repeated, value_refused, loop-FirstFault,
}
use rediscoro.Adapter.Paths.{
  Repeated, repeated_at, key_place, here, inside, element, slot, key, named_value, value_at,
  Refusal, at_path, plain-Refusal, deeper-Refusal, scalar-IsPlain,
}
use rediscoro.Resp3.Message.{Message, message, Value, null, Entries, Attrs, is_null}

optional_error {ℓ} : {V : Type ℓ} (r : V ⊎ Error) (e : Error) → optional_value r ≡ inr e → r ≡ inr e
optional_error (inl v) e h = absurd (inl≢inr h)
optional_error (inr e') e h = ap inr (same_inr h)

adapt_optional-error {ℓ} :
    {V : Type ℓ} (f : Message → V ⊎ Error) (m : Message) (e : Error)
    → adapt_optional f m ≡ inr e
    → (is_null m ≡ false) × (f m ≡ inr e)
unfolding adapt_optional is_null
adapt_optional-error f (message (null k) at) e h = absurd (inl≢inr h)
adapt_optional-error f (message v at) e h = (refl, optional_error (f (message v at)) e h)

under_index :
    (i : ℕ) (c e : Error)
    → e ≡ prepend_path (path_index (0 + i)) c
    → e ≡ at_path ((path_index i ∷ []) ++ c.path) c
unfolding prepend_path
under_index i c e h = h ∙ ap (λ k. prepend_path (path_index k) c) {x = 0 + i} {y = i} (omega arith)

module _ (t : Target) (sound : (m : Message) (e : Error) → adapt t m ≡ inr e → Refusal t m e) where
  sequence-Refusal :
      (m : Message) (e : Error) → adapt (sequence t) m ≡ inr e → Refusal (sequence t) m e
  unfolding adapt
  sequence-Refusal m e h = elim (adapt_sequence-loop (adapt t) m) [
    | inr (nothing, e', plain, same) ↦
        plain-Refusal (sequence t) m e h (subst IsPlain (same_inr (sym same ∙ h)) plain)
    | inl (ms, found, same) ↦
        let r = element_loop-FirstRefused (adapt t) 0 [] ms e (sym same ∙ h) in
        deeper-Refusal t (sequence t) r.element m (path_index r.index ∷ []) r.cause e
          (λ q u n l. element found r.here l) (under_index r.index r.cause e r.same_error)
          (sound r.element r.cause r.refused)
  ]

  array-Refusal :
      (k : ℕ) (m : Message) (e : Error)
      → adapt (std_array k t) m ≡ inr e
      → Refusal (std_array k t) m e
  unfolding adapt
  array-Refusal k m e h = elim (adapt_std_array-loop (adapt t) k m) [
    | inr (e', plain, same) ↦
        plain-Refusal (std_array k t) m e h (subst IsPlain (same_inr (sym same ∙ h)) plain)
    | inl (ms, found, same) ↦
        let r = element_loop-FirstRefused (adapt t) 0 [] ms e (sym same ∙ h) in
        deeper-Refusal t (std_array k t) r.element m (path_index r.index ∷ []) r.cause e
          (λ q u n l. slot found r.here l) (under_index r.index r.cause e r.same_error)
          (sound r.element r.cause r.refused)
  ]

-- A repeated key is an error of the map itself.
duplicate-cached :
    (s : Scalar) (i : ℕ) (k : ScalarValue s)
    → let e = duplicate_key_error (key_text s) i k in
      (e.cached_message ≡ none) × (e.kind ≡ AdapterErrc.duplicate_key) × (e.path ≡ key_place s i k)
unfolding prepend_path make_duplicate_key
duplicate-cached s i k = elim (Option-cases (key_text s k)) [
  | inl unnamed ↦ rw (unnamed, duplicate_key_error, key_place) (refl, refl, refl)
  | inr (name, named) ↦ rw (named, duplicate_key_error, key_place) (refl, refl, refl)
]

value_error_named :
    (s : Scalar) (i : ℕ) (k : ScalarValue s) (c : Error) (name : List ℕ)
    → key_text s k ≡ some name
    → value_error (key_text s) i k c ≡ at_path (path_key name ∷ c.path) c
unfolding prepend_path
value_error_named s i k c name h = rw (h, value_error) refl

value_error_at :
    (s : Scalar) (i : ℕ) (k : ScalarValue s) (c : Error)
    → key_text s k ≡ none
    → value_error (key_text s) i k c
      ≡ at_path (path_index i ∷ path_field (codes "value") ∷ c.path) c
unfolding prepend_path
value_error_at s i k c h = rw (h, value_error) refl

key_error_at :
    (i : ℕ) (c : Error)
    → key_error i c ≡ at_path (path_index i ∷ path_field (codes "key") ∷ c.path) c
unfolding prepend_path
key_error_at i c = refl

duplicate-Refusal :
    (t : Target) (m : Message) (e : Error)
    → adapt t m ≡ inr e
    → e.cached_message ≡ none
    → e.kind ≡ AdapterErrc.duplicate_key
    → Repeated t m e.path
    → Refusal t m e
duplicate-Refusal t m e h c d x = record {
  asked = t;
  place = m;
  outer = [];
  inner = e.path;
  leads = here;
  splits = refl;
  refused = h ∙ ap inr (ap (λ x. record e { cached_message = x }) c);
  own = inr (d, x);
}

module _ (s : Scalar) (same : ScalarValue s → ScalarValue s → Bool) (t : Target)
    (sound : (m : Message) (e : Error) → adapt t m ≡ inr e → Refusal t m e) where
  entry-Refusal :
      (es : Entries) (at : Attrs) (i : ℕ) (before : List (ScalarValue s × Adapted t))
      (km vm : Message) (e : Error)
      → adapt (map s same t) (message (Value.map es) at) ≡ inr e
      → get_elem? (entries es) i ≡ some (km, vm)
      → EntryFault same (key_text s) (adapt_scalar s) (adapt t) i before (km, vm) e
      → ((k : ScalarValue s)
          → contains same k before ≡ true
          → Earlier same (key_text s) (adapt_scalar s) (adapt t) k i (entries es))
      → Refusal (map s same t) (message (Value.map es) at) e
  unfolding adapt
  entry-Refusal es at i before km vm e h found (key_refused c bad e≡) seen =
      deeper-Refusal (scalar s) (map s same t) km (message (Value.map es) at)
        (path_index i ∷ path_field (codes "key") ∷ []) c e (λ q u n l. key i found l)
        (e≡ ∙ key_error_at i c) (plain-Refusal (scalar s) km c bad (scalar-IsPlain s km c bad))
  entry-Refusal es at i before km vm e h found (key_repeated k fits there e≡) seen =
      let (c, d, named) = duplicate-cached s i k in
      duplicate-Refusal (map s same t) (message (Value.map es) at) e h
        (ap (λ x. x.cached_message) e≡ ∙ c) (ap (λ x. x.kind) e≡ ∙ d)
        (subst (Repeated (map s same t) (message (Value.map es) at))
          (sym (ap (λ x. x.path) e≡ ∙ named)) (repeated_at i found fits (seen k there)))
  entry-Refusal es at i before km vm e h found (value_refused k c fits unused bad e≡) seen =
      elim (Option-cases (key_text s k)) [
        | inl unnamed ↦
            deeper-Refusal t (map s same t) vm (message (Value.map es) at)
              (path_index i ∷ path_field (codes "value") ∷ []) c e
              (λ q u n l. value_at i found fits unnamed l) (e≡ ∙ value_error_at s i k c unnamed)
              (sound vm c bad)
        | inr (name, named) ↦
            deeper-Refusal t (map s same t) vm (message (Value.map es) at) (path_key name ∷ []) c e
              (λ q u n l. named_value i found fits named l)
              (e≡ ∙ value_error_named s i k c name named) (sound vm c bad)
      ]

  map-Refusal :
      (m : Message) (e : Error) → adapt (map s same t) m ≡ inr e → Refusal (map s same t) m e
  unfolding adapt adapt_map make_type_mismatch contains
  map-Refusal (message (Value.map es) at) e h =
      let r = loop-FirstFault same (key_text s) (adapt_scalar s) (adapt t) 0 [] (entries es) e h in
      entry-Refusal es at (0 + r.index) r.before r.key_message r.value_message e h
        (ap (get_elem? (entries es)) {x = 0 + r.index} {y = r.index} (omega arith) ∙ r.here) r.why
        (λ k there. elim (r.seen k there) [
          | inl never ↦ absurd (true≢false (sym never))
          | inr sooner ↦
              subst (λ j. Earlier same (key_text s) (adapt_scalar s) (adapt t) k j (entries es))
                {x = r.index} {y = 0 + r.index} (omega arith) sooner
        ])
  map-Refusal (message v at) e h =
      plain-Refusal (map s same t) (message v at) e h (subst IsPlain (same_inr h) (refl, refl))

-- Whatever type is asked for, the path of an error of adapt leads, through elements, keys and values of
-- the message, to a place and the type asked for there, and adapting that place to that type gives the
-- same error with no path of its own. Only a repeated key is reported by the map that holds it: an earlier
-- entry of this map has the same key, and what is left of the path is the text of the key, or the index of
-- the later entry and the field key where the key has no text.
pub adapt-Refusal : (t : Target) (m : Message) (e : Error) → adapt t m ≡ inr e → Refusal t m e
unfolding adapt
adapt-Refusal ignore m e h = absurd (inl≢inr h)
adapt-Refusal (scalar s) m e h = plain-Refusal (scalar s) m e h (scalar-IsPlain s m e h)
adapt-Refusal (optional t) m e h =
    let (some_value, bad) = adapt_optional-error (adapt t) m e h in
    let r = adapt-Refusal t m e bad in
    record {
      asked = r.asked;
      place = r.place;
      outer = r.outer;
      inner = r.inner;
      leads = inside some_value r.leads;
      splits = r.splits;
      refused = r.refused;
      own = r.own;
    }
adapt-Refusal (sequence t) m e h = sequence-Refusal t (adapt-Refusal t) m e h
adapt-Refusal (std_array k t) m e h = array-Refusal t (adapt-Refusal t) k m e h
adapt-Refusal (map s same t) m e h = map-Refusal s same t (adapt-Refusal t) m e h
