-- ===== src/Adapter/Maps.antt =====
-- adapter/detail/adapt_map.hpp: what one entry does, and the loop over the entries on both of its ends.
use rediscoro.Prelude.{
  ℕ, suc, ◌+◌, ◌<◌, ◌||◌, ◌≡◌, refl, sym, ap, ◌∙◌, subst, List, [], ◌∷◌, ◌++◌, get_elem?, ◌⊎◌, inl,
  inr, ◌↔◌, Option, some, Bool, true, false, Sum-cases, Bool-cases, same_inl, same_inr, inl≢inr,
  append_assoc, append-nil, arith,
}
use rediscoro.Adapter.Error.{Error}
use rediscoro.Adapter.Containers.{
  entries, contains, emplace, key_error, duplicate_key_error, value_error, put_entry, entry_loop,
  adapt_map,
}
use rediscoro.Resp3.Message.{Message, message, map, Entries, Attrs}

module _ {ℓ κ} {K : Type ℓ} {V : Type κ} (same : K → K → Bool) where
  -- No key is the same as an earlier one of `out` or of the list itself.
  abbrev pub Fresh : List (K × V) → List (K × V) → Type 0
  Fresh out [] = Unit
  Fresh out ((k, v) ∷ es) = (contains same k out ≡ false) × Fresh (out ++ ((k, v) ∷ [])) es

module _ {ℓ κ} {K : Type ℓ} {V : Type κ} (same : K → K → Bool) (key_text : K → Option (List ℕ))
    (adapt_key : Message → K ⊎ Error) (adapt_value : Message → V ⊎ Error) where
  abbrev put : ℕ → List (K × V) → Message × Message → List (K × V) ⊎ Error
  put = put_entry same key_text adapt_key adapt_value

  abbrev loop : ℕ → List (K × V) → List (Message × Message) → List (K × V) ⊎ Error
  loop = entry_loop same key_text adapt_key adapt_value

  -- The entry has a key that is not there yet, and a value.
  pub record EntryTaken (out : List (K × V)) (en : Message × Message) (k : K) (v : V)
      : Type (ℓ ⊔ κ) where
    pub key_fits : adapt_key en.0 ≡ inl k
    pub unused : contains same k out ≡ false
    pub value_fits : adapt_value en.1 ≡ inl v

  pub data EntryFault (i : ℕ) (out : List (K × V)) (en : Message × Message) (e : Error)
      : Type (ℓ ⊔ κ) where
    key_refused : (c : Error) → adapt_key en.0 ≡ inr c → e ≡ key_error i c → EntryFault i out en e
    key_repeated :
        (k : K)
        → adapt_key en.0 ≡ inl k
        → contains same k out ≡ true
        → e ≡ duplicate_key_error key_text i k
        → EntryFault i out en e
    value_refused :
        (k : K) (c : Error)
        → adapt_key en.0 ≡ inl k
        → contains same k out ≡ false
        → adapt_value en.1 ≡ inr c
        → e ≡ value_error key_text i k c
        → EntryFault i out en e

  emplace_unused :
      (out : List (K × V)) (k : K) (v : V)
      → contains same k out ≡ false
      → emplace same out k v ≡ (out ++ ((k, v) ∷ []), true)
  unfolding emplace
  emplace_unused out k v h = rw h refl

  taken :
      (i : ℕ) (out : List (K × V)) (km vm : Message) (k : K) (v : V)
      → EntryTaken out (km, vm) k v
      → put i out (km, vm) ≡ inl (out ++ ((k, v) ∷ []))
  unfolding put_entry
  taken i out km vm k v t =
      rw (t.key_fits, put_entry, t.unused, t.value_fits, emplace_unused out k v t.unused) refl

  repeated :
      (i : ℕ) (out : List (K × V)) (km vm : Message) (k : K)
      → adapt_key km ≡ inl k
      → contains same k out ≡ true
      → put i out (km, vm) ≡ inr (duplicate_key_error key_text i k)
  unfolding put_entry
  repeated i out km vm k kf u = rw (kf, put_entry, u) refl

  bad_key :
      (i : ℕ) (out : List (K × V)) (km vm : Message) (c : Error)
      → adapt_key km ≡ inr c
      → put i out (km, vm) ≡ inr (key_error i c)
  unfolding put_entry
  bad_key i out km vm c kf = rw (kf, put_entry) refl

  bad_value :
      (i : ℕ) (out : List (K × V)) (km vm : Message) (k : K) (c : Error)
      → adapt_key km ≡ inl k
      → contains same k out ≡ false
      → adapt_value vm ≡ inr c
      → put i out (km, vm) ≡ inr (value_error key_text i k c)
  unfolding put_entry
  bad_value i out km vm k c kf u vf = rw (kf, put_entry, u, vf) refl

  put_cases :
      (i : ℕ) (out : List (K × V)) (km vm : Message)
      → ((k : K) × (v : V) × EntryTaken out (km, vm) k v)
        ⊎ ((e : Error) × (put i out (km, vm) ≡ inr e) × EntryFault i out (km, vm) e)
  put_cases i out km vm = elim (Sum-cases (adapt_key km)) [
    | inr (c, kf) ↦ inr (_, bad_key i out km vm c kf, key_refused c kf refl)
    | inl (k, kf) ↦ elim (Bool-cases (contains same k out)) [
      | inl u ↦ inr (_, repeated i out km vm k kf u, key_repeated k kf u refl)
      | inr u ↦ elim (Sum-cases (adapt_value vm)) [
        | inl (v, vf) ↦ inl (k, v, record { key_fits = kf; unused = u; value_fits = vf })
        | inr (c, vf) ↦ inr (_, bad_value i out km vm k c kf u vf, value_refused k c kf u vf refl)
      ]
    ]
  ]

  -- The entries of a message have these keys and values, in this order.
  abbrev pub EntriesYield : List (Message × Message) → List (K × V) → Type (ℓ ⊔ κ)
  EntriesYield [] [] = Unit
  EntriesYield ((km, vm) ∷ es) ((k, v) ∷ out) =
      (adapt_key km ≡ inl k) × (adapt_value vm ≡ inl v) × EntriesYield es out
  EntriesYield _ _ = ⊥ × Unit {ℓ ⊔ κ}

  loop_taken :
      (i : ℕ) (out : List (K × V)) (km vm : Message) (es : List (Message × Message)) (k : K) (v : V)
      → EntryTaken out (km, vm) k v
      → loop i out ((km, vm) ∷ es) ≡ loop (i + 1) (out ++ ((k, v) ∷ [])) es
  unfolding entry_loop
  loop_taken i out km vm es k v t = rw (taken i out km vm k v t, entry_loop) refl

  loop_fault :
      (i : ℕ) (out : List (K × V)) (en : Message × Message) (es : List (Message × Message))
      (e : Error)
      → put i out en ≡ inr e
      → loop i out (en ∷ es) ≡ inr e
  unfolding entry_loop
  loop_fault i out en es e h = rw (h, entry_loop) refl

  loop_yields :
      (i : ℕ) (out xs : List (K × V)) (es : List (Message × Message))
      → loop i out es ≡ inl xs
      → (ys : List (K × V)) × (xs ≡ out ++ ys) × EntriesYield es ys × Fresh same out ys
  unfolding entry_loop
  loop_yields i out xs [] h = ([], same_inl (sym h) ∙ sym (append-nil out), tt, tt)
  loop_yields i out xs ((km, vm) ∷ es) h = elim (put_cases i out km vm) [
    | inl (k, v, t) ↦
        let (ys, split, all, fresh) =
          loop_yields (i + 1) (out ++ ((k, v) ∷ [])) xs es
            (sym (loop_taken i out km vm es k v t) ∙ h) in
        (
          (k, v) ∷ ys,
          split ∙ append_assoc out ((k, v) ∷ []) ys,
          (t.key_fits, t.value_fits, all),
          (t.unused, fresh),
        )
    | inr (e, fault, why) ↦ absurd (inl≢inr (sym h ∙ loop_fault i out (km, vm) es e fault))
  ]

  yields_loop :
      (i : ℕ) (out ys : List (K × V)) (es : List (Message × Message))
      → EntriesYield es ys
      → Fresh same out ys
      → loop i out es ≡ inl (out ++ ys)
  unfolding entry_loop
  yields_loop i out [] [] h f = ap inl (sym (append-nil out))
  yields_loop i out (y ∷ ys) [] h f = absurd h.0
  yields_loop i out [] (en ∷ es) h f = absurd h.0
  yields_loop i out ((k, v) ∷ ys) ((km, vm) ∷ es) h f =
      loop_taken i out km vm es k v (record { key_fits = h.0; unused = f.0; value_fits = h.1 })
      ∙ yields_loop (i + 1) (out ++ ((k, v) ∷ [])) ys es h.2 f.1
      ∙ ap inl (append_assoc out ((k, v) ∷ []) ys)

  -- Among the first `n` entries, one has a key that is the same.
  pub record Earlier (k : K) (n : ℕ) (es : List (Message × Message)) : Type ℓ where
    pub index : ℕ
    pub key_message : Message
    pub value_message : Message
    pub key : K
    pub sooner : index < n
    pub here : get_elem? es index ≡ some (key_message, value_message)
    pub fits : adapt_key key_message ≡ inl key
    pub repeats : same key k ≡ true

  contains-append :
      (k k' : K) (v : V) (out : List (K × V))
      → contains same k (out ++ ((k', v) ∷ [])) ≡ true
      → (contains same k out ≡ true) ⊎ (same k' k ≡ true)
  unfolding contains
  contains-append k k' v [] h = inr (ground arith)
  contains-append k k' v ((k0, v0) ∷ out) h = elim (Bool-cases (same k0 k)) [
    | inl found ↦ inl (rw found refl)
    | inr unlike ↦
        elim (contains-append k k' v out
          (sym (ap (λ b. b || contains same k (out ++ ((k', v) ∷ []))) unlike) ∙ h)) [
            | inl later ↦ inl (ground arith)
            | inr last ↦ inr last
          ]
  ]

  later_on :
      (k : K) (n : ℕ) (en : Message × Message) (es : List (Message × Message))
      → Earlier k n es
      → Earlier k (suc n) (en ∷ es)
  later_on k n en es x = record {
    index = suc x.index;
    key_message = x.key_message;
    value_message = x.value_message;
    key = x.key;
    sooner = omega (arith, x.sooner);
    here = x.here;
    fits = x.fits;
    repeats = x.repeats;
  }

  -- The first entry at fault, behind those that are taken.
  pub record FirstFault (i : ℕ) (out : List (K × V)) (es : List (Message × Message)) (e : Error)
      : Type (ℓ ⊔ κ) where
    pub index : ℕ
    pub before : List (K × V)
    pub key_message : Message
    pub value_message : Message
    pub here : get_elem? es index ≡ some (key_message, value_message)
    pub why : EntryFault (i + index) before (key_message, value_message) e
    pub seen :
        (k : K) → contains same k before ≡ true → (contains same k out ≡ true) ⊎ Earlier k index es

  pub loop-FirstFault :
      (i : ℕ) (out : List (K × V)) (es : List (Message × Message)) (e : Error)
      → loop i out es ≡ inr e
      → FirstFault i out es e
  unfolding entry_loop
  loop-FirstFault i out [] e h = absurd (inl≢inr h)
  loop-FirstFault i out ((km, vm) ∷ es) e h = elim (put_cases i out km vm) [
    | inl (k, v, t) ↦
        let r =
          loop-FirstFault (i + 1) (out ++ ((k, v) ∷ [])) es e
            (sym (loop_taken i out km vm es k v t) ∙ h) in
        record {
          index = suc r.index;
          before = r.before;
          key_message = r.key_message;
          value_message = r.value_message;
          here = r.here;
          why =
              subst (λ j. EntryFault j r.before (r.key_message, r.value_message) e) (omega arith)
                r.why;
          seen = λ x h'. elim (r.seen x h') [
            | inl old ↦ elim (contains-append x k v out old) [
              | inl there ↦ inl there
              | inr repeats ↦ inr (record {
                index = 0;
                key_message = km;
                value_message = vm;
                key = k;
                sooner = omega arith;
                here = refl;
                fits = t.key_fits;
                repeats = repeats;
              })
            ]
            | inr sooner ↦ inr (later_on x r.index (km, vm) es sooner)
          ];
        }
    | inr (er, fault, why) ↦ record {
      index = 0;
      before = out;
      key_message = km;
      value_message = vm;
      here = refl;
      why =
          subst (λ j. EntryFault j out (km, vm) e) {x = i} {y = i + 0} (omega arith)
            (subst (λ x. EntryFault i out (km, vm) x)
              (same_inr (sym (loop_fault i out (km, vm) es er fault) ∙ h)) why);
      seen = λ x h'. inl h';
    }
  ]

  -- adapt_map of a map gives some entries exactly if they are what its keys and values adapt to, in order,
  -- and no key is the same as an earlier one.
  pub adapt_map_lem :
      (es : Entries) (at : Attrs) (xs : List (K × V))
      → (adapt_map same key_text adapt_key adapt_value (message (map es) at) ≡ inl xs)
        ↔ (EntriesYield (entries es) xs × Fresh same [] xs)
  unfolding adapt_map
  adapt_map_lem es at xs = (
    λ h.
        let (ys, split, all, fresh) = loop_yields 0 [] xs (entries es) h in
        subst (λ zs. EntriesYield (entries es) zs × Fresh same [] zs) (sym split) (all, fresh),
    λ (all, fresh). yields_loop 0 [] xs (entries es) all fresh,
  )
