-- ===== src/Intake/Effects.antt =====
-- impl/connection/core.ipp, `enqueue_impl`: what it leaves alone, whatever the sink is.
use rediscoro.Prelude.{
  ℕ, ◌≡◌, ◌≢◌, refl, sym, ap, ◌∙◌, subst, ◌⊎◌, inl, inr, Bool, true, false, Option, none, some,
  List, get_elem?, get_elem?-set_ne, >>=-eq-some, same_some, none≢some, Bool-cases, if_true,
  if_false, ◌>>=◌,
}
use rediscoro.Errors.{error_info, client, ClientErrc}
use rediscoro.Sink.{Pending, fail_all}
use rediscoro.Pipeline.{Pipeline, push}
use rediscoro.Intake.{
  ConnectionState, open_, Intake, gate, deadline_at, tracing, trace_start, reject, taken_by, pushed,
  enqueue_impl,
}

pub gate-open : (s : ConnectionState) → gate s ≡ none → s ≡ open_
unfolding gate
gate-open open_ h = refl
gate-open _ h = absurd (none≢some (sym h))

module _ {ℓ} {T : Type ℓ} where
  -- The state, and every sink but one.
  pub record Keeps (sink : ℕ) (c c' : Intake T) : Type ℓ where
    pub same_state : c'.state ≡ c.state
    pub elsewhere : (j : ℕ) → sink ≢ j → get_elem? c'.sinks j ≡ get_elem? c.sinks j

  trace_start_lem :
      (c : Intake T)
      → ((trace_start c).state ≡ c.state)
        × ((trace_start c).sinks ≡ c.sinks)
        × ((trace_start c).pipe ≡ c.pipe)
  unfolding trace_start
  trace_start_lem c = elim (Bool-cases (tracing c)) [
    | inl traced ↦
        subst (λ (d : Intake T). (d.state ≡ c.state) × (d.sinks ≡ c.sinks) × (d.pipe ≡ c.pipe))
          (sym (if_true _ _ traced)) (refl, refl, refl)
    | inr silent ↦
        subst (λ (d : Intake T). (d.state ≡ c.state) × (d.sinks ≡ c.sinks) × (d.pipe ≡ c.pipe))
          (sym (if_false _ _ silent)) (refl, refl, refl)
  ]

  reject-Keeps :
      (c c' : Intake T) (sink : ℕ) (s : Pending T) (e : ClientErrc)
      → reject c sink s e ≡ some c'
      → Keeps sink c c' × (c'.pipe ≡ c.pipe)
  unfolding reject
  reject-Keeps c c' sink s e h =
      let (s', fails, gives) = >>=-eq-some (fail_all s (error_info (client e))) _ h in
      subst (λ d. Keeps sink c d × (d.pipe ≡ c.pipe)) (same_some gives)
        (record { same_state = refl; elsewhere = λ j ne. get_elem?-set_ne c.sinks s' ne }, refl)

  taken_by-Keeps :
      (c : Intake T) (p : Pipeline) (sink : ℕ) (s : Pending T) → Keeps sink c (taken_by c p sink s)
  unfolding taken_by
  taken_by-Keeps c p sink s = record { same_state = refl; elsewhere = λ j ne. sinks_at j ne }
    where
      sinks_at : (j : ℕ) → sink ≢ j → get_elem? (taken_by c p sink s).sinks j ≡ get_elem? c.sinks j
      sinks_at j ne = elim (Bool-cases (tracing c)) [
        | inl traced ↦
            ap (λ ss. get_elem? ss j) (if_true _ _ traced) ∙ get_elem?-set_ne c.sinks _ ne
        | inr silent ↦ ap (λ ss. get_elem? ss j) (if_false _ _ silent)
      ]

  pushed-Keeps :
      (c c' : Intake T) (sink : ℕ) (s : Pending T) (r : Pipeline × Bool)
      → pushed c sink s r ≡ some c'
      → Keeps sink c c'
  unfolding pushed
  pushed-Keeps c c' sink s (p, true) h =
      subst (λ d. Keeps sink c d) (same_some h) (taken_by-Keeps c p sink s)
  pushed-Keeps c c' sink s (p, false) h = (reject-Keeps c c' sink s ClientErrc.queue_full h).0

  -- From the trace on: the state is kept, and without a queue so is the pipeline.
  decided_in :
      (o : Option ClientErrc) (c d c' : Intake T) (wire : List ℕ) (n sink now : ℕ) (s : Pending T)
      → (elim o as (λ _. Option (Intake T)) [
        | some e ↦ reject d sink s e
        | none ↦
            push c.pipe c.sinks wire n sink (deadline_at c.request_timeout now) >>= pushed d sink s
      ])
        ≡ some c'
      → Keeps sink d c' × ((o ≡ none) ⊎ (c'.pipe ≡ d.pipe))
  decided_in (some e) c d c' wire n sink now s h =
      let (k, p) = reject-Keeps d c' sink s e h in (k, inr p)
  decided_in none c d c' wire n sink now s h =
      let (r, pushes, gives) = >>=-eq-some (push c.pipe c.sinks wire n sink _) _ h in
      (pushed-Keeps d c' sink s r gives, inl refl)

  pub enqueue_impl-Keeps :
      (c c' : Intake T) (wire : List ℕ) (n sink now : ℕ)
      → enqueue_impl c wire n sink now ≡ some c'
      → Keeps sink c c' × ((c.state ≡ open_) ⊎ (c'.pipe ≡ c.pipe))
  unfolding enqueue_impl
  enqueue_impl-Keeps c c' wire n sink now h =
      let (s, found, rest) = >>=-eq-some (get_elem? c.sinks sink) _ h in
      let (k, p) = decided_in (gate c.state) c (trace_start c) c' wire n sink now s rest in
      let (st, ss, pp) = trace_start_lem c in
      (
        record {
          same_state = k.same_state ∙ st;
          elsewhere = λ j ne. k.elsewhere j ne ∙ ap (λ x. get_elem? x j) ss;
        },
        elim p [ inl o ↦ inl (gate-open c.state o) | inr q ↦ inr (q ∙ pp) ],
      )
