-- ===== src/Json.antt =====
-- The values that `json.loads` returns and that the program passes about as `Any`, with the tests
-- of Python that the source makes on them: `isinstance`, `==`, `in`, and the JSON text as a value.
pub mod Number
pub mod Canonical
pub mod Equality
use adaptive_agent.Prelude.{
  ℕ, zero, suc, ◌+◌, Bool, true, false, ◌&&◌, ◌||◌, String, Option, none, some, List, [], ◌∷◌, ◌≡◌,
  ℕ_discrete, eqb, String-discrete, ◌==◌, if◌then◌else◌, refl, ◌↔◌,
}
use Number.{ℤ, pos, negsuc, Float, from_int, same}

mutual
  pub data Json : Type 0 where
    null : Json
    boolean : Bool → Json
    int : ℤ → Json
    float : Float → Json
    str : String → Json
    arr : Items → Json
    obj : Fields → Json

  pub data Items : Type 0 where
    nil : Items
    cons : Json → Items → Items

  pub data Fields : Type 0 where
    end : Fields
    field : String → Json → Fields → Fields

-- d.get(k): the keys of a `dict` are distinct, so the first one is the one.
unfoldable pub get : String → Fields → Option Json
get k end = none
get k (field j v fs) = if j == k then some v else get k fs

-- k in d
unfoldable pub has : String → Fields → Bool
has k end = false
has k (field j v fs) = j == k || has k fs

unfoldable pub keys : Fields → List String
keys end = []
keys (field j v fs) = j ∷ keys fs

unfoldable pub size : Fields → ℕ
size end = 0
size (field j v fs) = suc (size fs)

unfoldable pub count : Items → ℕ
count nil = 0
count (cons v vs) = suc (count vs)

-- A number, as the comparisons read it; `bool` is a subclass of `int`.
unfoldable pub as_number : Json → Option Float
as_number (boolean b) = some (from_int (pos (if b then 1 else 0)))
as_number (int n) = some (from_int n)
as_number (float x) = some x
as_number null = none
as_number (str s) = none
as_number (arr vs) = none
as_number (obj fs) = none

-- Two texts of `json.dumps(_, sort_keys=True)` are equal just when the sorted values are, so the
-- columns that hold such texts hold the values here, compared by this test.
pub Json-discrete : Discrete Json
Json-discrete = hlevel (ℕ_discrete, String-discrete)

pub same_text : Json → Json → Bool
same_text a b = elim (Json-discrete a b) [ yes p ↦ true | no p ↦ false ]

pub same_text_iff : (a b : Json) → (same_text a b ≡ true) ↔ (a ≡ b)
unfolding same_text
same_text_iff a b =
    elim (Json-discrete a b) as (λ d. (elim d [ yes p ↦ true | no p ↦ false ] ≡ true) ↔ (a ≡ b)) [
      | yes p ↦ (λ _. p, λ _. refl)
      | no p ↦ (λ h. cc, λ q. absurd (p q))
    ]

pub same_text_refl : (a : Json) → same_text a a ≡ true
same_text_refl a = (same_text_iff a a).1 refl
