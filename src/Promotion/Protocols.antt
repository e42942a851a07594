-- ===== src/Promotion/Protocols.antt =====
-- `freeze_protocol` and `_load_frozen_gate` of src/adaptive_agent/candidate.py over the table
-- frozen_protocols of src/adaptive_agent/store.py. `gate_hash` stands for the digest of a gate's
-- fields. The registered refs by phase are only stored, and left out. The lists of the protocol inputs
-- are lists or absent.
pub mod Frozen
mod Tests
use adaptive_agent.Prelude.{
  Bool, true, false, not, ◌&&◌, ◌||◌, String, Option, none, some, List, [], ◌∷◌, ◌++◌, map, ◌==◌,
  all, any, find_first, member, if◌then◌else◌,
}
use adaptive_agent.Json.{Json, null, str, arr, obj, Items, nil, cons, Fields, end, field, get}
use adaptive_agent.Json.Equality.{equal}
use adaptive_agent.Models.Refs.{is_empty}
use adaptive_agent.Gate.Values.{GateConfig, or_null}

abbrev pub track1_protocol_hash : String
track1_protocol_hash = "d208150dd3a0b9b6be6edc88292b7832b0893078dae8ced487ef875b09601ec8"

abbrev pub track1_fixture_hashes : Fields
track1_fixture_hashes =
    field "finance" (str "65cd6f5e4f1c8a37faa90e1e3a1b8ed5aac5b89e409b57237a57134f3c5b8c20") (
      field "support" (str "976a7c2cee5c0d589db914068d8b1be9042d0c4eb5042fc4514e4bfc2d714db6") (
        field "it" (str "26595f414b83412afc0cef8ba3d73f934c85c2a1173e55d25eb92df18f6fb6dd") (
          field "lab" (str "1d26c077503588e80a40b76713728034407b467d2c95254e9ff83c453281e8a2")
            (end))))

pub record FrozenProtocol : Type 0 where
  pub protocol_hash : String
  pub gate : GateConfig
  pub evaluator_id : String
  pub evaluator_refs : List String
  pub fixture_hashes : Fields
  pub partition_hashes : Fields
  pub protocol_inputs : Fields
  pub active : Bool

abbrev pub hashed_as : String → FrozenProtocol → Bool
hashed_as hash row = row.protocol_hash == hash

-- INSERT: a hash that is there is an IntegrityError, `none`.
unfoldable pub save_frozen_protocol :
    FrozenProtocol → List FrozenProtocol → Option (List FrozenProtocol)
save_frozen_protocol p rows =
    if any (hashed_as p.protocol_hash) rows then none else some (rows ++ p ∷ [])

unfoldable pub get_frozen_protocol : List FrozenProtocol → String → Option FrozenProtocol
get_frozen_protocol rows hash = elim (find_first (hashed_as hash) rows) [
  | none ↦ none
  | some row ↦ if row.active then some row else none
]

abbrev pub inactive : String → FrozenProtocol → FrozenProtocol
inactive hash row = if row.protocol_hash == hash then record row { active = false } else row

unfoldable pub deactivate_protocol : String → List FrozenProtocol → List FrozenProtocol
deactivate_protocol hash rows = map (inactive hash) rows

-- What `freeze_protocol` registers; the hash of the gate may be empty.
pub record Freeze : Type 0 where
  pub gate_hash : String
  pub gate : GateConfig
  pub evaluator_id : String
  pub evaluator_refs : List String
  pub fixture_hashes : Option Fields
  pub partition_hashes : Fields
  pub protocol_inputs : Fields

abbrev pub or_empty : Option Fields → Fields
or_empty none = end
or_empty (some fs) = fs

abbrev pub frozen_row : String → Freeze → FrozenProtocol
frozen_row hash f = record {
  protocol_hash = hash;
  gate = f.gate;
  evaluator_id = f.evaluator_id;
  evaluator_refs = f.evaluator_refs;
  fixture_hashes = or_empty f.fixture_hashes;
  partition_hashes = f.partition_hashes;
  protocol_inputs = f.protocol_inputs;
  active = true;
}

-- The canonical protocol with fixture hashes that are not the official ones.
unfoldable pub wrong_fixtures : String → Option Fields → Bool
wrong_fixtures hash none = false
wrong_fixtures hash (some fs) =
    hash == track1_protocol_hash && not (equal (obj fs) (obj track1_fixture_hashes))

module _ (gate_hash : GateConfig → String) where
  -- The hash, or an exception.
  unfoldable pub freeze_protocol :
      Freeze → List FrozenProtocol → Option String × List FrozenProtocol
  unfolding wrong_fixtures save_frozen_protocol
  freeze_protocol f rows =
      let hash = if f.gate_hash == "" then gate_hash f.gate else f.gate_hash in
      if wrong_fixtures hash f.fixture_hashes
      then (none, rows)
      else elim (save_frozen_protocol (frozen_row hash f) rows) [
        | none ↦ (none, rows)
        | some rows' ↦ (some hash, rows')
      ]

-- What the loading reads of the view of a report, whose lists are of strings.
pub record Report : Type 0 where
  pub protocol_hash : String
  pub provenance : String
  pub evaluator_refs : List String
  pub partition_hashes : Fields
  pub comparison : Json
  pub serialized_contract : Bool
  pub required_environments : List String
  pub required_safety_case_ids : List String

-- tuple(texts) == tuple(values), with None for no values.
unfoldable pub same_texts : List String → Items → Bool
same_texts [] nil = true
same_texts [] (cons v vs) = false
same_texts (s ∷ ss) nil = false
same_texts (s ∷ ss) (cons v vs) = equal (str s) v && same_texts ss vs

unfoldable pub items_of : Json → Items
items_of (arr vs) = vs
items_of _ = nil

unfoldable pub and_last : Items → Json → Items
and_last nil v = cons v nil
and_last (cons w ws) v = cons w (and_last ws v)

-- A validation whose inputs name no environments is a TypeError, and so refused.
unfoldable pub expected_environments : Fields → Json → Option Items
unfolding items_of and_last
expected_environments inputs comparison =
    if equal comparison (str "validation")
    then elim (or_null (get "knownEnvironments" inputs)) [ arr vs ↦ some vs | _ ↦ none ]
    else some (
        and_last (items_of (or_null (get "knownEnvironments" inputs)))
          (or_null (get "sealedEnvironment" inputs)))

unfoldable pub allocation_ok : FrozenProtocol → Report → Bool
unfolding same_texts items_of expected_environments
allocation_ok row v = elim (expected_environments row.protocol_inputs v.comparison) [
  | none ↦ false
  | some environments ↦
      same_texts v.required_environments environments
      && same_texts v.required_safety_case_ids
          (items_of (or_null (get "safetyCaseIds" row.protocol_inputs)))
]

abbrev pub same_names : List String → List String → Bool
same_names xs ys = all (λ x. member x ys) xs && all (λ y. member y xs) ys

abbrev pub no_fields : Fields → Bool
no_fields end = true
no_fields (field k v fs) = false

abbrev pub is_there {ℓ} : {A : Type ℓ} → Option A → Bool
is_there none = false
is_there (some a) = true

-- The refs match if any are registered, and the identity is that of the refs or the provenance.
unfoldable pub identity_ok : FrozenProtocol → Report → Bool
identity_ok row v =
    if is_empty row.evaluator_refs
    then v.provenance == row.evaluator_id
    else not (is_empty v.evaluator_refs) && same_names v.evaluator_refs row.evaluator_refs

-- A report without partition hashes passes.
unfoldable pub partitions_ok : FrozenProtocol → Report → Bool
partitions_ok row v =
    no_fields row.partition_hashes
    || no_fields v.partition_hashes
    || equal (obj v.partition_hashes) (obj row.partition_hashes)

-- `none` is a PromotionError.
unfoldable pub load_frozen_gate : List FrozenProtocol → Report → Option GateConfig
unfolding get_frozen_protocol identity_ok partitions_ok allocation_ok
load_frozen_gate rows v =
    if is_there (get_frozen_protocol rows track1_protocol_hash)
      && not (v.protocol_hash == track1_protocol_hash)
    then none
    else elim (get_frozen_protocol rows v.protocol_hash) [
      | none ↦ none
      | some row ↦
          if identity_ok row v
            && partitions_ok row v
            && (not v.serialized_contract || allocation_ok row v)
          then some row.gate
          else none
    ]
