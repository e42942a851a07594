-- ===== src/Runs/Visible.antt =====
-- What `events` of src/adaptive_agent/controller.py shows of the evidence of a run.
use adaptive_agent.Prelude.{
  ℕ, ◌≤◌, ◌<◌, Bool, true, ◌&&◌, String, List, [], ◌∷◌, ◌≡◌, arith, ◌==◌, ltb, leb, select, inl,
  inr, Bool-cases, eq_iff,
}
use adaptive_agent.Runs.Tables.{EvidenceRow, Tables, insert_ordered, ordered, list_evidence}
use adaptive_agent.Runs.Control.{is_public, events}

abbrev pub Each : (EvidenceRow → Type 0) → List EvidenceRow → Type 0
Each P [] = Unit {0}
Each P (e ∷ es) = P e × Each P es

abbrev pub Ascending : List EvidenceRow → Type 0
Ascending [] = Unit {0}
Ascending (e ∷ es) = Each (λ d. e.sequence ≤ d.sequence) es × Ascending es

-- A row that may be shown: of the run, after the number, and not for the evaluator only.
pub record Shown (run_id : String) (n : ℕ) (e : EvidenceRow) : Type 0 where
  pub own : e.run_id ≡ run_id
  pub later : n < e.sequence
  pub public : is_public e.visibility ≡ true

module _ (P : EvidenceRow → Type 0) where
  insert-Each :
      (e : EvidenceRow) (es : List EvidenceRow) → P e → Each P es → Each P (insert_ordered e es)
  unfolding insert_ordered
  insert-Each e [] p u = (p, tt)
  insert-Each e (d ∷ ds) p (q, u) = elim (Bool-cases (leb e.sequence d.sequence)) [
    | inl t ↦ ground (arith, t)
    | inr f ↦ ground (arith, f, insert-Each e ds p u)
  ]

  ordered-Each : (es : List EvidenceRow) → Each P es → Each P (ordered es)
  unfolding ordered
  ordered-Each [] u = tt
  ordered-Each (e ∷ es) (p, u) = insert-Each e (ordered es) p (ordered-Each es u)

  select-Each :
      (test : EvidenceRow → Bool) (es : List EvidenceRow) → Each P es → Each P (select test es)
  select-Each test [] u = tt
  select-Each test (e ∷ es) (p, u) = elim (Bool-cases (test e)) [
    | inl t ↦ ground (arith, t, select-Each test es u)
    | inr f ↦ ground (arith, f, select-Each test es u)
  ]

-- What a test shows of the rows that it selects.
select_shown :
    (P Q : EvidenceRow → Type 0) (test : EvidenceRow → Bool)
    → ((e : EvidenceRow) → P e → test e ≡ true → Q e)
    → (es : List EvidenceRow) → Each P es
    → Each Q (select test es)
select_shown P Q test f [] u = tt
select_shown P Q test f (e ∷ es) (p, u) = elim (Bool-cases (test e)) [
  | inl t ↦ ground (arith, t, f e p t, select_shown P Q test f es u)
  | inr n ↦ ground (arith, n, select_shown P Q test f es u)
]

anything : (es : List EvidenceRow) → Each (λ e. Unit {0}) es
anything [] = tt
anything (e ∷ es) = (tt, anything es)

weaken :
    (a b : ℕ)
    → a ≤ b
    → (es : List EvidenceRow) → Each (λ d. b ≤ d.sequence) es
    → Each (λ d. a ≤ d.sequence) es
weaken a b h [] u = tt
weaken a b h (e ∷ es) (p, u) = (omega (arith, h, p), weaken a b h es u)

insert-Ascending :
    (e : EvidenceRow) (es : List EvidenceRow) → Ascending es → Ascending (insert_ordered e es)
unfolding insert_ordered
insert-Ascending e [] u = (tt, tt)
insert-Ascending e (d ∷ ds) (p, u) = elim (Bool-cases (leb e.sequence d.sequence)) [
  | inl t ↦
      let le : e.sequence ≤ d.sequence = ground (arith, t) in
      ground (arith, t, le, weaken e.sequence d.sequence le ds p, p, u)
  | inr f ↦
      let le : d.sequence ≤ e.sequence = ground (arith, f) in
      ground
        (arith, f, insert-Each (λ x. d.sequence ≤ x.sequence) e ds le p, insert-Ascending e ds u)
]

ordered-Ascending : (es : List EvidenceRow) → Ascending (ordered es)
unfolding ordered
ordered-Ascending [] = tt
ordered-Ascending (e ∷ es) = insert-Ascending e (ordered es) (ordered-Ascending es)

select-Ascending :
    (test : EvidenceRow → Bool) (es : List EvidenceRow) → Ascending es → Ascending (select test es)
select-Ascending test [] u = tt
select-Ascending test (e ∷ es) (p, u) = elim (Bool-cases (test e)) [
  | inl t ↦
      ground
        (arith, t, select-Each (λ x. e.sequence ≤ x.sequence) test es p, select-Ascending test es u)
  | inr f ↦ ground (arith, f, select-Ascending test es u)
]

pub record Projection (run_id : String) (n : ℕ) (es : List EvidenceRow) : Type 0 where
  pub shown : Each (Shown run_id n) es
  pub ascending : Ascending es

-- The events of a run after a number are rows of that run with larger numbers, in ascending order,
-- and none of them is for the evaluator only.
pub events-Projection :
    (t : Tables) (run_id : String) (n : ℕ) → Projection run_id n (events t run_id n)
unfolding events list_evidence
events-Projection t run_id n =
    let own : Each (λ e. e.run_id ≡ run_id) (select (λ e. e.run_id == run_id) t.evidence) =
      select_shown (λ e. Unit {0}) (λ e. e.run_id ≡ run_id) (λ e. e.run_id == run_id)
        (λ e _ h. (eq_iff e.run_id run_id).0 h) t.evidence (anything t.evidence) in
    let listed = ordered-Each (λ e. e.run_id ≡ run_id) _ own in
    record {
      shown =
          select_shown (λ e. e.run_id ≡ run_id) (Shown run_id n)
            (λ e. ltb n e.sequence && is_public e.visibility)
            (λ e p h. record { own = p; later = ground (arith, h); public = ground (arith, h) }) _
            listed;
      ascending =
          select-Ascending (λ e. ltb n e.sequence && is_public e.visibility) _
            (ordered-Ascending (select (λ e. e.run_id == run_id) t.evidence));
    }
