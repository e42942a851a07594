-- ===== src/Json/Equality.antt =====
-- Python's `==` on JSON values, on which `in` rests: numbers are equal across `bool`, `int` and
-- `float`, and two `dict`s are equal whatever the order of their keys.
use adaptive_agent.Prelude.{Bool, true, false, ◌&&◌, ◌||◌, String, none, some, eqb, ◌==◌}
use adaptive_agent.Json.{
  Json, null, boolean, int, float, str, arr, obj, Items, nil, cons, Fields, end, field, get, size,
  as_number,
}
use adaptive_agent.Json.Number.{same}

equal_number : Json → Json → Bool
equal_number a b = elim (as_number a) [
  | none ↦ false
  | some x ↦ elim (as_number b) [ none ↦ false | some y ↦ same x y ]
]

equal_null : Json → Bool
equal_null null = true
equal_null _ = false

equal_str : String → Json → Bool
equal_str s (str t) = s == t
equal_str s _ = false

unfoldable mutual
  unfolding equal_number equal_null equal_str

  pub equal : Json → Json → Bool
  equal null b = equal_null b
  equal (boolean x) b = equal_number (boolean x) b
  equal (int n) b = equal_number (int n) b
  equal (float x) b = equal_number (float x) b
  equal (str s) b = equal_str s b
  equal (arr xs) b = elim b [ arr ys ↦ equal_items xs ys | _ ↦ false ]
  equal (obj fs) b = elim b [ obj gs ↦ eqb (size fs) (size gs) && equal_fields fs gs | _ ↦ false ]

  pub equal_items : Items → Items → Bool
  equal_items nil nil = true
  equal_items nil (cons y ys) = false
  equal_items (cons x xs) nil = false
  equal_items (cons x xs) (cons y ys) = equal x y && equal_items xs ys

  pub equal_fields : Fields → Fields → Bool
  equal_fields end gs = true
  equal_fields (field k v fs) gs = elim (get k gs) [
    | none ↦ false
    | some w ↦ equal v w && equal_fields fs gs
  ]

-- x in xs, for a list
unfoldable pub in_items : Json → Items → Bool
in_items x nil = false
in_items x (cons y ys) = equal x y || in_items x ys
