-- ===== src/Store/Allocations/Laws.antt =====
-- What `reserve_allocation` of src/adaptive_agent/store.py gives, in every case.
use adaptive_agent.Prelude.{
  ℕ, zero, suc, ◌+◌, true, false, ◌||◌, String, none, some, List, [], ◌∷◌, ◌++◌, ◌≡◌, refl, arith,
  eqb, ltb, length, any, ◌<◌, ◌≤◌, inl, inr, Option-cases, Bool-cases, ℕ_discrete, subst, sym, ap,
  ◌∙◌,
}
use adaptive_agent.Models.Refs.{is_empty}
use adaptive_agent.Store.Allocations.{
  Allocation, Reservation, reserved, nothing, value_error, named, takes, used_in, next_free, nth,
  conflicts, insert_allocation, reserve_allocation,
}

pub used_in-takes :
    (scope : String) (i : ℕ) (rows : List Allocation)
    → any (λ j. eqb j i) (used_in scope rows) ≡ any (takes scope i) rows
used_in-takes scope i [] = refl
used_in-takes scope i (r ∷ rows) = ground (arith, used_in-takes scope i rows)

-- What the search finds: an index in the range, free, with none free below it.
pub record Free (used : List ℕ) (i n k : ℕ) : Type 0 where
  pub from : i ≤ k
  pub below : k < i + n
  pub free : any (λ j. eqb j k) used ≡ false
  pub least : (j : ℕ) → i ≤ j → j < k → any (λ m. eqb m j) used ≡ true

least_step :
    (used : List ℕ) (i k : ℕ)
    → any (λ m. eqb m i) used ≡ true
    → ((j : ℕ) → suc i ≤ j → j < k → any (λ m. eqb m j) used ≡ true)
    → (j : ℕ) → i ≤ j
    → j < k
    → any (λ m. eqb m j) used ≡ true
least_step used i k t rest j a b = elim (ℕ_discrete i j) [
  | yes p ↦ subst (λ m. any (λ l. eqb l m) used ≡ true) p t
  | no p ↦ rest j (omega (arith, a, p)) b
]

Free-skip :
    {used : List ℕ} {i n k : ℕ}
    → any (λ m. eqb m i) used ≡ true
    → Free used (suc i) n k
    → Free used i (suc n) k
Free-skip {used} {i} {n} {k} t f = record {
  from = omega (arith, f.from);
  below = omega (arith, f.below);
  free = f.free;
  least = least_step used i k t f.least;
}

pub next_free-Free : (used : List ℕ) (i n k : ℕ) → next_free used i n ≡ some k → Free used i n k
unfolding next_free
next_free-Free used i zero k e = ground arith
next_free-Free used i (suc n) k e = elim (Bool-cases (any (λ j. eqb j i) used)) [
  | inl t ↦ Free-skip t (next_free-Free used (suc i) n k (ground (arith, t, e)))
  | inr f ↦
      let p : i ≡ k = ground (arith, f, e) in
      record {
        from = omega (arith, p);
        below = omega (arith, p);
        free = subst (λ m. any (λ l. eqb l m) used ≡ false) p f;
        least = λ j a b. absurd (omega (arith, p, a, b));
      }
]

pub next_free-none :
    (used : List ℕ) (i n : ℕ)
    → next_free used i n ≡ none
    → (j : ℕ) → i ≤ j
    → j < i + n
    → any (λ m. eqb m j) used ≡ true
unfolding next_free
next_free-none used i zero e = λ j a b. absurd (omega (arith, a, b))
next_free-none used i (suc n) e = elim (Bool-cases (any (λ j. eqb j i) used)) [
  | inl t ↦ λ j a b.
      least_step used i (i + suc n) t
        (λ m c d. next_free-none used (suc i) n (ground (arith, t, e)) m c (omega (arith, d))) j a b
  | inr f ↦ ground (arith, f, e)
]

pub nth_below {ℓ} :
    {A : Type ℓ} (xs : List A) (i : ℕ) → i < length xs → (x : A) × (nth xs i ≡ some x)
unfolding nth
nth_below [] i h = ground arith
nth_below (x ∷ xs) zero h = (x, refl)
nth_below (x ∷ xs) (suc i) h = nth_below xs i (omega (arith, h))

-- A reservation that is served: the least index of the scope that is free, a panel for it, and
-- the row that is added.
pub record Served (scope id : String) (panels : List (List String)) (limit : ℕ)
    (rows : List Allocation) (i : ℕ) (after : List Allocation) : Type 0 where
  pub bound : i < limit
  pub fresh : any (named id) rows ≡ false
  pub free : any (takes scope i) rows ≡ false
  pub least : (j : ℕ) → j < i → any (takes scope j) rows ≡ true
  pub task_ids : List String
  pub panel : nth panels i ≡ some task_ids
  pub added :
      after
      ≡ rows
        ++ record { scope_id = scope; allocation_id = id; panel_index = i; task_ids = task_ids }
          ∷ []

-- The four ways a reservation ends, which exclude one another.
pub data Ending (scope id : String) (panels : List (List String)) (limit : ℕ)
    (rows : List Allocation) (out : Reservation × List Allocation) : Type 0 where
  refused :
      is_empty panels || ltb (length panels) limit ≡ true
      → out ≡ (value_error, rows)
      → Ending scope id panels limit rows out
  known :
      is_empty panels || ltb (length panels) limit ≡ false
      → any (named id) rows ≡ true
      → out ≡ (nothing, rows)
      → Ending scope id panels limit rows out
  exhausted :
      is_empty panels || ltb (length panels) limit ≡ false
      → any (named id) rows ≡ false
      → ((j : ℕ) → j < limit → any (takes scope j) rows ≡ true)
      → out ≡ (nothing, rows)
      → Ending scope id panels limit rows out
  served :
      (i : ℕ)
      → is_empty panels || ltb (length panels) limit ≡ false
      → out.0 ≡ reserved i
      → Served scope id panels limit rows i out.1
      → Ending scope id panels limit rows out

module _ (scope id : String) (panels : List (List String)) (limit : ℕ)
    (rows : List Allocation) where
  insert_free :
      (r : Allocation)
      → any (named r.allocation_id) rows ≡ false
      → any (takes r.scope_id r.panel_index) rows ≡ false
      → insert_allocation r rows ≡ (reserved r.panel_index, rows ++ r ∷ [])
  unfolding insert_allocation conflicts
  insert_free r a b = ground (arith, a, b)

  covered : is_empty panels || ltb (length panels) limit ≡ false → limit ≤ length panels
  covered v = ground (arith, v)

  taken :
      next_free (used_in scope rows) 0 limit ≡ none
      → (j : ℕ) → j < limit
      → any (takes scope j) rows ≡ true
  taken e j h =
      sym (used_in-takes scope j rows)
      ∙ next_free-none (used_in scope rows) 0 limit e j (omega arith) (omega (arith, h))

  Ending-free :
      (i : ℕ)
      → is_empty panels || ltb (length panels) limit ≡ false
      → any (named id) rows ≡ false
      → next_free (used_in scope rows) 0 limit ≡ some i
      → Ending scope id panels limit rows (reserve_allocation scope id panels limit rows)
  unfolding reserve_allocation
  Ending-free i v f e =
      let found = next_free-Free (used_in scope rows) 0 limit i e in
      let free = sym (used_in-takes scope i rows) ∙ found.free in
      let below : i < limit = omega (arith, found.below) in
      let (ids, p) = nth_below panels i (omega (arith, below, covered v)) in
      let r : Allocation = record {
        scope_id = scope;
        allocation_id = id;
        panel_index = i;
        task_ids = ids;
      } in
      let out : reserve_allocation scope id panels limit rows ≡ (reserved i, rows ++ r ∷ []) =
        ground (arith, v, f, e, p, insert_free r f free) in
      served i v (ap (λ o. o.0) out) (record {
        bound = below;
        fresh = f;
        free = free;
        least = λ j h. sym (used_in-takes scope j rows) ∙ found.least j (omega arith) h;
        task_ids = ids;
        panel = p;
        added = ap (λ o. o.1) out;
      })

  -- A reservation raises ValueError just when there are no panels or fewer than the limit. Otherwise
  -- it returns None when the allocation id exists or when all indices below the limit are taken, and
  -- leaves the table; or else it returns the least free index and adds a row that names it with
  -- its panel.
  pub reserve_allocation-Ending :
      Ending scope id panels limit rows (reserve_allocation scope id panels limit rows)
  unfolding reserve_allocation
  reserve_allocation-Ending = elim (Bool-cases (is_empty panels || ltb (length panels) limit)) [
    | inl v ↦ refused v (ground (arith, v))
    | inr v ↦ elim (Bool-cases (any (named id) rows)) [
      | inl k ↦ known v k (ground (arith, v, k))
      | inr f ↦ elim (Option-cases (next_free (used_in scope rows) 0 limit)) [
        | inl e ↦ exhausted v f (taken e) (ground (arith, v, f, e))
        | inr (i, e) ↦ Ending-free i v f e
      ]
    ]
  ]
