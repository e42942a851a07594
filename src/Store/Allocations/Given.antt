-- ===== src/Store/Allocations/Given.antt =====
-- What a history of reservations on the table evaluator_allocations of src/adaptive_agent/store.py
-- gives out, to several scopes and evaluators.
use adaptive_agent.Prelude.{
  ℕ, ℕ_discrete, Bool-cases, inl, inr, Bool, true, false, ◌&&◌, ◌||◌, String, List, [], ◌∷◌, ◌++◌,
  ◌≡◌, refl, arith, ◌==◌, eqb, any, eq_iff, eq_refl, sym, ap, ◌∙◌, subst,
}
use adaptive_agent.Store.Allocations.{
  Allocation, Reservation, reserved, nothing, value_error, index_error, integrity_error, named,
  takes, reserve_allocation,
}
use adaptive_agent.Store.Allocations.Laws.{
  Ending, refused, known, exhausted, served, reserve_allocation-Ending,
}
use adaptive_agent.Store.Allocations.History.{Request, run_reservations, any-append}

abbrev pub is_index : ℕ → Reservation → Bool
is_index i (reserved j) = eqb j i
is_index i nothing = false
is_index i value_error = false
is_index i index_error = false
is_index i integrity_error = false

-- Whether one of the requests was of the scope and was given the index.
abbrev pub gave : String → ℕ → List Request → List Reservation → Bool
gave scope i [] outs = false
gave scope i (q ∷ qs) [] = false
gave scope i (q ∷ qs) (out ∷ outs) = (q.scope_id == scope && is_index i out) || gave scope i qs outs

-- The row that a request was given the index by.
abbrev pub gives : Request → ℕ → Allocation → Bool
gives q i row = named q.allocation_id row && takes q.scope_id i row

-- What is given out: an index that was free before and that no later request of the scope is given,
-- under a row of the table at the end.
abbrev pub Given : List Request → List Reservation → List Allocation → List Allocation → Type 0
Given [] outs rows end = Unit {0}
Given (q ∷ qs) [] rows end = Unit {0}
Given (q ∷ qs) (out ∷ outs) rows end =
    ((i : ℕ)
      → out ≡ reserved i
      → (any (takes q.scope_id i) rows ≡ false)
        × (gave q.scope_id i qs outs ≡ false)
        × (any (gives q i) end ≡ true))
    × Given qs outs rows end

any-grown :
    (p : Allocation → Bool) (rows after : List Allocation) (row : Allocation)
    → after ≡ rows ++ row ∷ []
    → any p rows || p row ≡ true
    → any p after ≡ true
any-grown p rows after row e h =
    subst (λ all_rows. any p all_rows ≡ true) (sym e) (any-append p rows row ∙ h)

Ending-any :
    {scope id : String} {panels : List (List String)} {limit : ℕ} {rows : List Allocation}
    {out : Reservation × List Allocation} (p : Allocation → Bool)
    → any p rows ≡ true
    → Ending scope id panels limit rows out
    → any p out.1 ≡ true
Ending-any p h (refused v e) = ground (arith, h, e)
Ending-any p h (known v k e) = ground (arith, h, e)
Ending-any p h (exhausted v f t e) = ground (arith, h, e)
Ending-any {rows = rows} p h (served i v e s) = any-grown p rows _ _ s.added (ground (arith, h))

-- A row stays, whatever follows.
run_reservations-any :
    (p : Allocation → Bool) (qs : List Request) (rows : List Allocation)
    → any p rows ≡ true
    → any p (run_reservations qs rows).1 ≡ true
unfolding run_reservations
run_reservations-any p [] rows h = h
run_reservations-any p (q ∷ qs) rows h =
    run_reservations-any p qs _
      (Ending-any p h (reserve_allocation-Ending q.scope_id q.allocation_id q.panels q.limit rows))

Ending-is_index :
    {scope id : String} {panels : List (List String)} {limit : ℕ} {rows : List Allocation}
    {out : Reservation × List Allocation} (i : ℕ)
    → any (takes scope i) rows ≡ true
    → Ending scope id panels limit rows out
    → is_index i out.0 ≡ false
Ending-is_index i h (refused v e) = ground (arith, e)
Ending-is_index i h (known v k e) = ground (arith, e)
Ending-is_index i h (exhausted v f t e) = ground (arith, e)
Ending-is_index {scope} {rows = rows} i h (served j v e s) = elim (ℕ_discrete i j) [
  | yes p ↦ absurd (ground (arith, h, s.free, ap (λ k. any (takes scope k) rows) p))
  | no n ↦ ground (arith, e, n)
]

-- An index that is taken is not given out.
taken-gave :
    (scope : String) (i : ℕ) (qs : List Request) (rows : List Allocation)
    → any (takes scope i) rows ≡ true
    → gave scope i qs (run_reservations qs rows).0 ≡ false
unfolding run_reservations
taken-gave scope i [] rows h = refl
taken-gave scope i (q ∷ qs) rows h =
    let e = reserve_allocation-Ending q.scope_id q.allocation_id q.panels q.limit rows in
    let rest = taken-gave scope i qs _ (Ending-any (takes scope i) h e) in
    elim (Bool-cases (q.scope_id == scope)) [
      | inr f ↦ ground (arith, f, rest)
      | inl t ↦
          let own =
            Ending-is_index i
              (subst (λ o. any (takes o i) rows ≡ true) (sym ((eq_iff q.scope_id scope).0 t)) h)
              e in
          ground (arith, own, rest)
    ]

Ending-gives :
    (q : Request) (i : ℕ) {rows : List Allocation} {out : Reservation × List Allocation}
    → out.0 ≡ reserved i
    → Ending q.scope_id q.allocation_id q.panels q.limit rows out
    → (any (takes q.scope_id i) rows ≡ false) × (any (gives q i) out.1 ≡ true)
Ending-gives q i o (refused v e) = ground (arith, e, o)
Ending-gives q i o (known v k e) = ground (arith, e, o)
Ending-gives q i o (exhausted v f t e) = ground (arith, e, o)
Ending-gives q i {rows} o (served j v e s) =
    let p : j ≡ i = ground (arith, e, o) in
    (
      subst (λ k. any (takes q.scope_id k) rows ≡ false) p s.free,
      any-grown (gives q i) rows _ _ s.added
          (ground (arith, p, eq_refl q.scope_id, eq_refl q.allocation_id)),
    )

-- What is free at first is free before: a row stays.
earlier :
    (p : Allocation → Bool) {scope id : String} {panels : List (List String)} {limit : ℕ}
    {rows : List Allocation} {out : Reservation × List Allocation}
    → Ending scope id panels limit rows out
    → any p out.1 ≡ false
    → any p rows ≡ false
earlier p {rows = rows} e h = elim (Bool-cases (any p rows)) [
  | inl t ↦ ground (arith, h, Ending-any p t e)
  | inr f ↦ f
]

any-takes :
    (q : Request) (i : ℕ) (rows : List Allocation)
    → any (gives q i) rows ≡ true
    → any (takes q.scope_id i) rows ≡ true
any-takes q i [] h = cc
any-takes q i (row ∷ rows) h = ground (arith, h, any-takes q i rows)

Given-earlier :
    (rows rows' : List Allocation) (qs : List Request) (outs : List Reservation)
    (end : List Allocation)
    → ((p : Allocation → Bool) → any p rows' ≡ false → any p rows ≡ false)
    → Given qs outs rows' end
    → Given qs outs rows end
Given-earlier rows rows' [] outs end f g = tt
Given-earlier rows rows' (q ∷ qs) [] end f g = tt
Given-earlier rows rows' (q ∷ qs) (out ∷ outs) end f (g, gs) = (
  λ i e. let (free, other, row) = g i e in (f (takes q.scope_id i) free, other, row),
  Given-earlier rows rows' qs outs end f gs,
)

-- Whatever reservations follow one another: an index that a request is given was free in its scope
-- at first, is given to no later request of the scope, and stands in the table at the end with the
-- request's allocation id and scope.
pub run_reservations-Given :
    (qs : List Request) (rows : List Allocation)
    → Given qs (run_reservations qs rows).0 rows (run_reservations qs rows).1
unfolding run_reservations
run_reservations-Given [] rows = tt
run_reservations-Given (q ∷ qs) rows =
    let e = reserve_allocation-Ending q.scope_id q.allocation_id q.panels q.limit rows in
    let after = (reserve_allocation q.scope_id q.allocation_id q.panels q.limit rows).1 in
    (
      λ i o.
          let (free, row) = Ending-gives q i o e in
          (
            free,
            taken-gave q.scope_id i qs after (any-takes q i after row),
            run_reservations-any (gives q i) qs after row,
          ),
      Given-earlier rows after qs _ _ (λ p. earlier p e) (run_reservations-Given qs after),
    )
