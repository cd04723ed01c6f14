-- ===== src/Pipeline/Delivery.antt =====
-- impl/pipeline.ipp: which sink each reply goes to, and what is left of the sinks when the connection fails.
use rediscoro.Prelude.{
  ℕ, ◌-◌, ◌≡◌, ◌≢◌, refl, sym, ◌∙◌, inl, inr, some, List, [], ◌∷◌, ◌++◌, length, replicate, set,
  get_elem?, get_elem?-set_self, get_elem?-set_ne, ◌>>=◌, lt_of_get_elem?, Option-cases,
  >>=-eq-some,
}
use rediscoro.Errors.{ErrorInfo}
use rediscoro.Sink.{unexpected, Pending, fail_all}
use rediscoro.Sink.Laws.{IsOpen, completed, fail_all_lem}
use rediscoro.Pipeline.{Pipeline, write_sinks, read_sinks, fail_each, clear_all}

abbrev pub Fresh : ℕ → List ℕ → Type 0
Fresh j [] = Unit
Fresh j (i ∷ is) = (i ≢ j) × Fresh j is

-- Every sink that the pipeline holds, in the order in which `clear_all` comes to them.
abbrev pub held : Pipeline → List ℕ
held p = write_sinks p.pending_write ++ read_sinks p.awaiting_read

module _ {ℓ} {T : Type ℓ} where
  abbrev pub OpenAt : List (Pending T) → ℕ → Type ℓ
  OpenAt sinks i = (s : Pending T) × (get_elem? sinks i ≡ some s) × IsOpen s

  -- Every sink of the line is open, and no sink stands twice in it.
  abbrev pub Opens : List (Pending T) → List ℕ → Type ℓ
  Opens sinks [] = Unit
  Opens sinks (i ∷ is) = OpenAt sinks i × Fresh i is × Opens sinks is

  abbrev pub FailedAt : List (Pending T) → List (Pending T) → ErrorInfo → ℕ → Type ℓ
  FailedAt sinks after e i =
      (s : Pending T) × (get_elem? sinks i ≡ some s)
      × (get_elem? after i
          ≡ some (
              completed s (
                s.builder.results
                ++ replicate (s.builder.expected - length s.builder.results) (unexpected e))))

  abbrev pub AllFailed : List (Pending T) → List (Pending T) → ErrorInfo → List ℕ → Type ℓ
  AllFailed sinks after e [] = Unit
  AllFailed sinks after e (i ∷ is) = FailedAt sinks after e i × AllFailed sinks after e is

  pub Opens-set :
      (sinks : List (Pending T)) (i : ℕ) (s : Pending T) (is : List ℕ)
      → Fresh i is
      → Opens sinks is
      → Opens (set sinks i s) is
  Opens-set sinks i s [] f o = o
  Opens-set sinks i s (j ∷ is) (ne, f) ((t, e, ot), fr, os) =
      ((t, get_elem?-set_ne sinks s (λ h. ne (sym h)) ∙ e, ot), fr, Opens-set sinks i s is f os)

  AllFailed-set :
      (sinks after : List (Pending T)) (e : ErrorInfo) (i : ℕ) (s : Pending T) (is : List ℕ)
      → Fresh i is
      → AllFailed (set sinks i s) after e is
      → AllFailed sinks after e is
  AllFailed-set sinks after e i s [] f o = o
  AllFailed-set sinks after e i s (j ∷ is) (ne, f) ((t, at_j, gives), os) = (
    (t, sym (get_elem?-set_ne sinks s (λ h. ne (sym h))) ∙ at_j, gives),
    AllFailed-set sinks after e i s is f os,
  )

  fail_each_lem :
      (is : List ℕ) (sinks : List (Pending T)) (e : ErrorInfo)
      → Opens sinks is
      → (after : List (Pending T)) × (fail_each sinks is e ≡ some after)
        × AllFailed sinks after e is
        × ((j : ℕ) → Fresh j is → get_elem? after j ≡ get_elem? sinks j)
  unfolding fail_each
  fail_each_lem [] sinks e o = (sinks, refl, tt, λ j f. refl)
  fail_each_lem (i ∷ is) sinks e ((s, at_i, os), fresh, rest) =
      let (after, eq, failed, same) =
        fail_each_lem is (set sinks i failed_s) e (Opens-set sinks i failed_s is fresh rest) in
      (
        after,
        rw (at_i, fail_all_lem s e os) eq,
        (
          (
            s,
            at_i,
            same i fresh ∙ get_elem?-set_self sinks i failed_s (lt_of_get_elem? sinks i s at_i),
          ),
          AllFailed-set sinks after e i failed_s is fresh failed,
        ),
        λ j f. same j f.1 ∙ get_elem?-set_ne sinks failed_s f.0,
      )
    where
      failed_s : Pending T
      failed_s = completed s (
          s.builder.results
          ++ replicate (s.builder.expected - length s.builder.results) (unexpected e))

  fail_each-append :
      (xs ys : List ℕ) (sinks : List (Pending T)) (e : ErrorInfo)
      → fail_each sinks (xs ++ ys) e ≡ (fail_each sinks xs e >>= λ after. fail_each after ys e)
  unfolding fail_each
  fail_each-append [] ys sinks e = refl
  fail_each-append (x ∷ xs) ys sinks e = elim (Option-cases (get_elem? sinks x)) [
    | inl gone ↦ rw gone refl
    | inr (s, at_x) ↦ rw at_x (elim (Option-cases (fail_all s e)) [
      | inl stuck ↦ rw stuck refl
      | inr (s', ends) ↦ rw ends (fail_each-append xs ys (set sinks x s') e)
    ])
  ]

  -- Where every sink that the pipeline holds is open and stands in it once, clear_all ends with both
  -- queues empty and no byte pending, and every one of these sinks is complete: it keeps the replies that
  -- it has, and every other slot holds the error.
  pub clear_all_lem :
      (p : Pipeline) (sinks : List (Pending T)) (e : ErrorInfo)
      → Opens sinks (held p)
      → (after : List (Pending T)) × (clear_all p sinks e
          ≡ some
              (record p { pending_write = []; awaiting_read = []; pending_write_bytes = 0 }, after))
        × AllFailed sinks after e (held p)
  unfolding clear_all
  clear_all_lem p sinks e o =
      let (after, eq, failed, same) = fail_each_lem (held p) sinks e o in
      let (mid, writes, reads) =
        >>=-eq-some (fail_each sinks (write_sinks p.pending_write) e)
          (λ after. fail_each after (read_sinks p.awaiting_read) e)
          (sym (fail_each-append (write_sinks p.pending_write) (read_sinks p.awaiting_read) sinks e)
            ∙ eq) in
      (after, rw (writes, reads) refl, failed)
