-- ===== src/Retrieval/Distinct.antt =====
-- The sorted run keys of `AccessFilteredRetriever.search` in src/adaptive_agent/retrieval.py differ
-- from one another.
use adaptive_agent.Prelude.{
  Bool, String, List, [], ◌∷◌, ◌≡◌, refl, arith, ◌==◌, select, member, false, not, inl, inr,
  Bool-cases, eq_iff, ◌∙◌,
}
use adaptive_agent.Gate.Checks.{strings}
use adaptive_agent.Gate.Reasons.{dedup}
use adaptive_agent.Retrieval.Search.{insert, sorted}

-- No text of the list stands again behind itself.
abbrev pub Distinct : List String → Type 0
Distinct [] = Unit {0}
Distinct (x ∷ xs) = (member x xs ≡ false) × Distinct xs

member-select :
    (x : String) (test : String → Bool) (xs : List String)
    → member x xs ≡ false
    → member x (select test xs) ≡ false
member-select x test [] h = refl
member-select x test (y ∷ ys) h = elim (Bool-cases (test y)) [
  | inl t ↦ ground (arith, h, t, member-select x test ys)
  | inr f ↦ ground (arith, h, f, member-select x test ys)
]

select-Distinct :
    (test : String → Bool) (xs : List String) → Distinct xs → Distinct (select test xs)
select-Distinct test [] u = tt
select-Distinct test (x ∷ xs) (h, u) = elim (Bool-cases (test x)) [
  | inl t ↦ ground (arith, t, member-select x test xs h, select-Distinct test xs u)
  | inr f ↦ ground (arith, f, select-Distinct test xs u)
]

member-removed : (x : String) (xs : List String) → member x (select (λ y. not (x == y)) xs) ≡ false
member-removed x [] = refl
member-removed x (y ∷ ys) = elim (Bool-cases (x == y)) [
  | inl t ↦ ground (arith, t, member-removed x ys)
  | inr f ↦ ground (arith, f, member-removed x ys, eq_iff x y, eq_iff y x)
]

pub strings-Distinct : (xs : List String) → Distinct (strings xs)
unfolding strings dedup
strings-Distinct [] = tt
strings-Distinct (x ∷ xs) = (
  member-removed x (strings xs),
  select-Distinct (λ y. not (x == y)) (strings xs) (strings-Distinct xs),
)

member-insert :
    (before : String → String → Bool) (x y : String) (xs : List String)
    → member x (insert before y xs) ≡ member x (y ∷ xs)
unfolding insert
member-insert before x y [] = refl
member-insert before x y (z ∷ zs) = elim (Bool-cases (before y z)) [
  | inl t ↦ ground (arith, t)
  | inr f ↦ ground (arith, f, member-insert before x y zs)
]

member-sorted :
    (before : String → String → Bool) (x : String) (xs : List String)
    → member x (sorted before xs) ≡ member x xs
unfolding sorted
member-sorted before x [] = refl
member-sorted before x (y ∷ ys) =
    ground (arith, member-insert before x y (sorted before ys), member-sorted before x ys)

insert-Distinct :
    (before : String → String → Bool) (y : String) (xs : List String)
    → member y xs ≡ false
    → Distinct xs
    → Distinct (insert before y xs)
unfolding insert
insert-Distinct before y [] h u = (refl, tt)
insert-Distinct before y (z ∷ zs) h (k, u) = elim (Bool-cases (before y z)) [
  | inl t ↦ ground (arith, t, h, k, u)
  | inr f ↦
      let rest = insert-Distinct before y zs (ground (arith, h)) u in
      let other : member z (insert before y zs) ≡ false =
        ground (arith, member-insert before z y zs, h, k, eq_iff y z, eq_iff z y) in
      ground (arith, f, other, rest)
]

pub sorted-Distinct :
    (before : String → String → Bool) (xs : List String) → Distinct xs → Distinct (sorted before xs)
unfolding sorted
sorted-Distinct before [] u = tt
sorted-Distinct before (x ∷ xs) (h, u) =
    insert-Distinct before x (sorted before xs) (member-sorted before x xs ∙ h)
      (sorted-Distinct before xs u)
