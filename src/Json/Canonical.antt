-- ===== src/Json/Canonical.antt =====
-- `json.dumps(value, sort_keys=True)`, as the value with the keys of every `dict` sorted. Python
-- orders strings by code point, as the order of UTF-8 texts does.
use Prim.Native.Nat.{Ordering}
use Prim.Native.String.{compare}
use adaptive_agent.Prelude.{String}
use adaptive_agent.Json.{
  Json, null, boolean, int, float, str, arr, obj, Items, nil, cons, Fields, end, field,
}

unfoldable pub insert_key : String → Json → Fields → Fields
insert_key k v end = field k v end
insert_key k v (field j w fs) = elim (compare k j) [
  | Ordering.gt ↦ field j w (insert_key k v fs)
  | _ ↦ field k v (field j w fs)
]

unfoldable mutual
  unfolding insert_key

  pub sort_keys : Json → Json
  sort_keys null = null
  sort_keys (boolean b) = boolean b
  sort_keys (int n) = int n
  sort_keys (float x) = float x
  sort_keys (str s) = str s
  sort_keys (arr xs) = arr (sort_items xs)
  sort_keys (obj fs) = obj (sort_fields fs)

  pub sort_items : Items → Items
  sort_items nil = nil
  sort_items (cons x xs) = cons (sort_keys x) (sort_items xs)

  pub sort_fields : Fields → Fields
  sort_fields end = end
  sort_fields (field k v fs) = insert_key k (sort_keys v) (sort_fields fs)
