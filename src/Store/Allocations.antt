-- ===== src/Store/Allocations.antt =====
-- The table evaluator_allocations of src/adaptive_agent/store.py: `Store.reserve_allocation`. The
-- digest of the task ids and the time of a row are left out. A negative limit does what zero does.
pub mod Laws
pub mod History
pub mod Given
use adaptive_agent.Prelude.{
  ℕ, zero, suc, Bool, not, ◌&&◌, ◌||◌, String, Option, none, some, List, [], ◌∷◌, ◌++◌, map, ◌==◌,
  eqb, ltb, length, any, select, find_first, if◌then◌else◌,
}
use adaptive_agent.Models.Refs.{is_empty}

pub record Allocation : Type 0 where
  pub scope_id : String
  pub allocation_id : String
  pub panel_index : ℕ
  pub task_ids : List String

-- `reserved i` and `nothing` are the two results, an index and None; the others are exceptions.
pub data Reservation : Type 0 where
  reserved : ℕ → Reservation
  nothing value_error index_error integrity_error : Reservation

abbrev pub named : String → Allocation → Bool
named id row = row.allocation_id == id

abbrev pub takes : String → ℕ → Allocation → Bool
takes scope i row = row.scope_id == scope && eqb row.panel_index i

-- The set `used`.
abbrev pub used_in : String → List Allocation → List ℕ
used_in scope rows = map (λ row. row.panel_index) (select (λ row. row.scope_id == scope) rows)

-- The first of the n candidates from i that is not in `used`.
unfoldable pub next_free : List ℕ → ℕ → ℕ → Option ℕ
next_free used i zero = none
next_free used i (suc n) = if any (λ j. eqb j i) used then next_free used (suc i) n else some i

unfoldable pub nth {ℓ} : {A : Type ℓ} → List A → ℕ → Option A
nth [] i = none
nth (x ∷ xs) zero = some x
nth (x ∷ xs) (suc i) = nth xs i

-- PRIMARY KEY (allocation_id), UNIQUE (scope_id, panel_index)
unfoldable pub conflicts : Allocation → List Allocation → Bool
conflicts r rows = any (named r.allocation_id) rows || any (takes r.scope_id r.panel_index) rows

unfoldable pub insert_allocation : Allocation → List Allocation → Reservation × List Allocation
unfolding conflicts
insert_allocation r rows =
    if conflicts r rows then (integrity_error, rows) else (reserved r.panel_index, rows ++ r ∷ [])

unfoldable pub reserve_allocation :
    String → String → List (List String) → ℕ → List Allocation → Reservation × List Allocation
unfolding next_free nth insert_allocation
reserve_allocation scope id panels limit rows =
    if is_empty panels || ltb (length panels) limit
    then (value_error, rows)
    else if any (named id) rows
    then (nothing, rows)
    else elim (next_free (used_in scope rows) 0 limit) [
      | none ↦ (nothing, rows)
      | some index ↦ elim (nth panels index) [
        | none ↦ (index_error, rows)
        | some task_ids ↦
            insert_allocation
              (record {
                scope_id = scope;
                allocation_id = id;
                panel_index = index;
                task_ids = task_ids;
              })
              rows
      ]
    ]

unfoldable pub get_allocation : List Allocation → String → Option Allocation
get_allocation rows id = find_first (named id) rows
