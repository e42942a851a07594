-- ===== src/Store/Allocations/History.antt =====
-- Reservations that follow one another on the table evaluator_allocations of
-- src/adaptive_agent/store.py, of several scopes and evaluators.
use adaptive_agent.Prelude.{
  ℕ, ◌+◌, Bool, true, false, ◌||◌, String, List, [], ◌∷◌, ◌++◌, ◌≡◌, refl, arith, ◌==◌, ltb, length,
  any, ◌<◌, ◌≤◌, eq_iff, eq_refl, sym, ap, ◌∙◌, subst,
}
use adaptive_agent.Models.Refs.{is_empty}
use adaptive_agent.Store.Allocations.{
  Allocation, Reservation, reserved, named, takes, reserve_allocation,
}
use adaptive_agent.Store.Allocations.Laws.{
  refused, known, exhausted, served, reserve_allocation-Ending,
}

pub record Request : Type 0 where
  pub scope_id : String
  pub allocation_id : String
  pub panels : List (List String)
  pub limit : ℕ

unfoldable pub run_reservations :
    List Request → List Allocation → List Reservation × List Allocation
run_reservations [] rows = ([], rows)
run_reservations (q ∷ qs) rows =
    let (out, after) = reserve_allocation q.scope_id q.allocation_id q.panels q.limit rows in
    let (outs, end) = run_reservations qs after in (out ∷ outs, end)

pub any-append {ℓ} :
    {A : Type ℓ} (p : A → Bool) (xs : List A) (x : A) → any p (xs ++ x ∷ []) ≡ any p xs || p x
any-append p [] x = ground arith
any-append p (y ∷ xs) x = ground (arith, any-append p xs x)

-- Ids that are new to the table and differ from one another.
abbrev pub New : List String → List Allocation → Type 0
New [] rows = Unit {0}
New (id ∷ ids) rows =
    (any (named id) rows ≡ false) × (any (λ other. other == id) ids ≡ false) × New ids rows

abbrev pub requests : String → List (List String) → ℕ → List String → List Request
requests scope panels limit [] = []
requests scope panels limit (id ∷ ids) =
    record { scope_id = scope; allocation_id = id; panels = panels; limit = limit }
    ∷ requests scope panels limit ids

abbrev pub counted : ℕ → List String → List Reservation
counted k [] = []
counted k (id ∷ ids) = reserved k ∷ counted (k + 1) ids

-- The scope has taken the indices below k, and no other.
abbrev pub Filled : String → ℕ → List Allocation → Type 0
Filled scope k rows = (j : ℕ) → any (takes scope j) rows ≡ ltb j k

nonempty : (panels : List (List String)) (k : ℕ) → k < length panels → is_empty panels ≡ false
nonempty [] k h = ground arith
nonempty (p ∷ ps) k h = refl

-- What the next request of a filled scope leaves.
record Next (scope id : String) (k : ℕ) (rows : List Allocation)
    (out : Reservation × List Allocation) : Type 0 where
  result : out.0 ≡ reserved k
  row : Allocation
  added : out.1 ≡ rows ++ row ∷ []
  names : row.allocation_id ≡ id
  scoped : row.scope_id ≡ scope
  index : row.panel_index ≡ k

module _ (scope id : String) (panels : List (List String)) (limit k : ℕ) (rows : List Allocation)
    (filled : Filled scope k rows) where
  is_next :
      (i : ℕ)
      → any (takes scope i) rows ≡ false
      → ((j : ℕ) → j < i → any (takes scope j) rows ≡ true)
      → i ≡ k
  is_next i free least =
      let at_least : k ≤ i = ground (arith, filled i, free) in
      let at_most : ¬ (k < i) = λ h. ground (arith, filled k, least k h) in
      omega (arith, at_least, at_most)

  reserve-Next :
      k < limit
      → limit ≤ length panels
      → any (named id) rows ≡ false
      → Next scope id k rows (reserve_allocation scope id panels limit rows)
  reserve-Next b c f = elim (reserve_allocation-Ending scope id panels limit rows) [
    | refused v e ↦ ground (arith, v, nonempty panels k (omega (arith, b, c)), c)
    | known v t e ↦ ground (arith, t, f)
    | exhausted v f' t e ↦ ground (arith, filled k, t k b)
    | served i v e s ↦
        let p = is_next i s.free s.least in
        record {
          result = e ∙ ap reserved p;
          row = _;
          added = s.added;
          names = refl;
          scoped = refl;
          index = p;
        }
  ]

Next-Filled :
    {scope id : String} {k : ℕ} {rows : List Allocation} {out : Reservation × List Allocation}
    → Filled scope k rows
    → Next scope id k rows out
    → Filled scope (k + 1) out.1
Next-Filled {scope} {id} {k} {rows} filled n = subst (Filled scope (k + 1)) (sym n.added) (λ j.
    ground
      (arith, any-append (takes scope j) rows n.row, filled j, n.scoped, n.index, eq_refl scope))

Next-New :
    (ids : List String) {scope id : String} {k : ℕ} {rows : List Allocation}
    {out : Reservation × List Allocation}
    → any (λ other. other == id) ids ≡ false
    → New ids rows
    → Next scope id k rows out
    → New ids out.1
Next-New [] d new n = tt
Next-New (other ∷ ids) {scope} {id} {k} {rows} d (f, g, new) n = (
  subst (λ after. any (named other) after ≡ false) (sym n.added)
      (ground (
        arith,
        any-append (named other) rows n.row,
        n.names,
        f,
        d,
        eq_iff other id,
        eq_iff id other,
      )),
  g,
  Next-New ids (ground (arith, d)) new n,
)

-- When a scope has taken the first k panels, new requests under distinct ids that the limit leaves
-- room for are all served, with the panels k, k + 1 and so on in the order of the requests.
pub requests_served :
    (scope : String) (panels : List (List String)) (limit k : ℕ) (ids : List String)
    (rows : List Allocation)
    → Filled scope k rows
    → New ids rows
    → limit ≤ length panels
    → k + length ids ≤ limit
    → (run_reservations (requests scope panels limit ids) rows).0 ≡ counted k ids
unfolding run_reservations
requests_served scope panels limit k [] rows filled new c room = refl
requests_served scope panels limit k (id ∷ ids) rows filled (f, d, new) c room =
    let n = reserve-Next scope id panels limit k rows filled (omega (arith, room)) c f in
    let rest =
      requests_served scope panels limit (k + 1) ids _ (Next-Filled filled n) (Next-New ids d new n)
        c (omega (arith, room)) in
    ground (arith, n.result, rest)
