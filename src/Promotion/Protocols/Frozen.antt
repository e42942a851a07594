-- ===== src/Promotion/Protocols/Frozen.antt =====
-- A protocol of src/adaptive_agent/candidate.py stays as it was frozen.
use adaptive_agent.Prelude.{
  true, false, String, some, List, [], ◌∷◌, ◌++◌, ◌≡◌, refl, arith, ◌==◌, any, find_first, inl, inr,
  Bool-cases, if◌then◌else◌, sym, subst, eq_refl, ◌⊎◌,
}
use adaptive_agent.Gate.Values.{GateConfig}
use adaptive_agent.Store.ToolCalls.Laws.{
  find_first-append_some, find_first-append_none, find_first-map, find_first-none_of_any,
}
use adaptive_agent.Promotion.Protocols.{
  FrozenProtocol, hashed_as, save_frozen_protocol, get_frozen_protocol, inactive,
  deactivate_protocol, Freeze, frozen_row, wrong_fixtures, freeze_protocol, Report, allocation_ok,
  identity_ok, partitions_ok, load_frozen_gate,
}

pub data Operation : Type 0 where
  freeze : Freeze → Operation
  deactivate : String → Operation

unfoldable pub perform_all :
    (GateConfig → String) → List Operation → List FrozenProtocol → List FrozenProtocol
perform_all h [] rows = rows
perform_all h (freeze f ∷ os) rows = perform_all h os (freeze_protocol h f rows).1
perform_all h (deactivate hash ∷ os) rows = perform_all h os (deactivate_protocol hash rows)

-- The row under the hash is the given one, or that one deactivated.
record Stays (hash : String) (first : FrozenProtocol) (rows : List FrozenProtocol) : Type 0 where
  row : FrozenProtocol
  found : find_first (hashed_as hash) rows ≡ some row
  same : (row ≡ first) ⊎ (row ≡ record first { active = false })

inactive_same :
    (hash : String) (row first : FrozenProtocol)
    → (row ≡ first) ⊎ (row ≡ record first { active = false })
    → (inactive hash row ≡ first) ⊎ (inactive hash row ≡ record first { active = false })
inactive_same hash row first (inl e) = elim (Bool-cases (row.protocol_hash == hash)) [
  | inl t ↦ inr (ground (arith, e, t))
  | inr f ↦ inl (ground (arith, e, f))
]
inactive_same hash row first (inr e) = inr (ground (arith, e))

deactivate-Stays :
    (hash other : String) (first : FrozenProtocol) (rows : List FrozenProtocol)
    → Stays hash first rows
    → Stays hash first (deactivate_protocol other rows)
unfolding deactivate_protocol
deactivate-Stays hash other first rows s = record {
  row = inactive other s.row;
  found = find_first-map (hashed_as hash) (inactive other) (λ r. ground arith) rows s.row s.found;
  same = inactive_same other s.row first s.same;
}

freeze-Stays :
    (h : GateConfig → String) (hash : String) (f : Freeze) (first : FrozenProtocol)
    (rows : List FrozenProtocol)
    → Stays hash first rows
    → Stays hash first (freeze_protocol h f rows).1
unfolding freeze_protocol save_frozen_protocol
freeze-Stays h hash f first rows s =
    let own = if f.gate_hash == "" then h f.gate else f.gate_hash in
    elim (Bool-cases (wrong_fixtures own f.fixture_hashes)) [
      | inl w ↦ subst (Stays hash first) (ground (arith, w)) s
      | inr w ↦ elim (Bool-cases (any (hashed_as own) rows)) [
        | inl t ↦ subst (Stays hash first) (ground (arith, w, t)) s
        | inr n ↦ subst (Stays hash first) (ground (arith, w, n)) (record {
          row = s.row;
          found =
              find_first-append_some (hashed_as hash) rows (frozen_row own f ∷ []) s.row s.found;
          same = s.same;
        })
      ]
    ]

perform_all-Stays :
    (h : GateConfig → String) (hash : String) (os : List Operation) (first : FrozenProtocol)
    (rows : List FrozenProtocol)
    → Stays hash first rows
    → Stays hash first (perform_all h os rows)
unfolding perform_all
perform_all-Stays h hash [] first rows s = s
perform_all-Stays h hash (freeze f ∷ os) first rows s =
    perform_all-Stays h hash os first (freeze_protocol h f rows).1
      (freeze-Stays h hash f first rows s)
perform_all-Stays h hash (deactivate other ∷ os) first rows s =
    perform_all-Stays h hash os first (deactivate_protocol other rows)
      (deactivate-Stays hash other first rows s)

-- A freeze that returns a hash stored its row under it.
freeze_protocol-Stays :
    (h : GateConfig → String) (f : Freeze) (hash : String) (rows : List FrozenProtocol)
    → (freeze_protocol h f rows).0 ≡ some hash
    → Stays hash (frozen_row hash f) (freeze_protocol h f rows).1
unfolding freeze_protocol save_frozen_protocol
freeze_protocol-Stays h f hash rows e =
    let own = if f.gate_hash == "" then h f.gate else f.gate_hash in
    elim (Bool-cases (wrong_fixtures own f.fixture_hashes)) [
      | inl w ↦ ground (arith, w, e)
      | inr w ↦ elim (Bool-cases (any (hashed_as own) rows)) [
        | inl t ↦ ground (arith, w, t, e)
        | inr n ↦
            let q : own ≡ hash = ground (arith, w, n, e) in
            let stored : (freeze_protocol h f rows).1 ≡ rows ++ frozen_row own f ∷ [] =
              ground (arith, w, n) in
            subst (λ k. Stays k (frozen_row k f) (freeze_protocol h f rows).1) q
              (record {
                row = frozen_row own f;
                found =
                    subst (λ rs. find_first (hashed_as own) rs ≡ some (frozen_row own f))
                      (sym stored)
                      (find_first-append_none (hashed_as own) rows (frozen_row own f)
                        (find_first-none_of_any (hashed_as own) rows n) (eq_refl own));
                same = inl refl;
              })
      ]
    ]

-- The gate that is loaded is the one that was frozen, and the report fits the frozen row.
pub record LoadedAsFrozen (row : FrozenProtocol) (v : Report) (gate : GateConfig) : Type 0 where
  pub as_frozen : gate ≡ row.gate
  pub identity : identity_ok row v ≡ true
  pub partitions : partitions_ok row v ≡ true
  pub allocation : v.serialized_contract ≡ true → allocation_ok row v ≡ true

loaded :
    (hash : String) (first : FrozenProtocol) (rows : List FrozenProtocol) (v : Report)
    (gate : GateConfig)
    → Stays hash first rows
    → v.protocol_hash ≡ hash
    → load_frozen_gate rows v ≡ some gate
    → LoadedAsFrozen first v gate
unfolding load_frozen_gate get_frozen_protocol
loaded hash first rows v gate s q h =
    let found = subst (λ k. find_first (hashed_as k) rows ≡ some s.row) (sym q) s.found in
    elim s.same [
      | inr e ↦ ground (arith, found, e, h)
      | inl e ↦
          let found' = subst (λ r. find_first (hashed_as v.protocol_hash) rows ≡ some r) e found in
          record {
            as_frozen = ground (arith, found', h);
            identity = ground (arith, found', h);
            partitions = ground (arith, found', h);
            allocation = λ c. ground (arith, found', h, c);
          }
    ]

-- When a protocol was frozen under a hash, and whatever freezes and deactivations follow, a gate that
-- is loaded for a report under that hash is the gate that was frozen; the report's identity, its
-- partition hashes if it has any, and the allocation of a serialized report are those registered then.
pub freeze_protocol-LoadedAsFrozen :
    (h : GateConfig → String) (f : Freeze) (hash : String) (os : List Operation)
    (rows : List FrozenProtocol) (v : Report) (gate : GateConfig)
    → (freeze_protocol h f rows).0 ≡ some hash
    → v.protocol_hash ≡ hash
    → load_frozen_gate (perform_all h os (freeze_protocol h f rows).1) v ≡ some gate
    → LoadedAsFrozen (frozen_row hash f) v gate
freeze_protocol-LoadedAsFrozen h f hash os rows v gate e q l =
    loaded hash (frozen_row hash f) (perform_all h os (freeze_protocol h f rows).1) v gate
      (perform_all-Stays h hash os (frozen_row hash f) (freeze_protocol h f rows).1
        (freeze_protocol-Stays h f hash rows e))
      q l
