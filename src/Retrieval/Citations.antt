-- ===== src/Retrieval/Citations.antt =====
-- The evidence that a learner may cite, in src/adaptive_agent/retrieval.py.
use adaptive_agent.Prelude.{
  false, ◌&&◌, String, none, some, List, [], ◌∷◌, map, ◌≡◌, refl, arith, ◌==◌, eqb, length, inl,
  inr, Bool-cases, Option-cases, eq_iff, subst,
}
use adaptive_agent.Gate.Checks.{strings}
use adaptive_agent.Retrieval.Sources.{live_evidence, SourceRecord}
use adaptive_agent.Retrieval.Search.{
  Scope, allowed, is_evidence, available, collect, require_development_evidence,
}
use adaptive_agent.Retrieval.Admitted.{Admitted, allowed-Admitted}
use adaptive_agent.Retrieval.Admission.{Each, select_both}

-- A source that may be cited.
pub record Citable (scope : Scope) (s : SourceRecord) : Type 0 where
  pub evidence : s.kind ≡ live_evidence
  pub admitted : Admitted scope s

available-Each :
    (P : SourceRecord → Type 0) (sources : List SourceRecord) (id : String) (s : SourceRecord)
    → Each P sources
    → available sources id ≡ some s
    → P s × (s.source_id ≡ id)
unfolding available
available-Each P [] id s u e = ground (arith, e)
available-Each P (d ∷ ds) id s (p, u) e = elim (Option-cases (available ds id)) [
  | inr (x, f) ↦ available-Each P ds id s u (ground (arith, e, f))
  | inl n ↦ elim (Bool-cases (d.source_id == id)) [
    | inl t ↦
        let q : d ≡ s = ground (arith, e, n, t) in
        subst (λ x. P x × (x.source_id ≡ id)) q (p, (eq_iff d.source_id id).0 t)
    | inr f ↦ ground (arith, e, n, f)
  ]
]

collect-Each :
    (P : SourceRecord → Type 0) (sources : List SourceRecord) (ids : List String)
    (out : List SourceRecord)
    → Each P sources
    → collect sources ids ≡ some out
    → Each P out × (map (λ (s : SourceRecord). s.source_id) out ≡ ids)
unfolding collect
collect-Each P sources [] out u e =
    let q : [] ≡ out = ground (arith, e) in
    subst (λ o. Each P o × (map (λ (s : SourceRecord). s.source_id) o ≡ [])) q (tt, refl)
collect-Each P sources (id ∷ ids) out u e = elim (Option-cases (available sources id)) [
  | inl n ↦ ground (arith, e, n)
  | inr (s, f) ↦ elim (Option-cases (collect sources ids)) [
    | inl n ↦ ground (arith, e, f, n)
    | inr (rest, g) ↦
        let q : s ∷ rest ≡ out = ground (arith, e, f, g) in
        let (p, same) = available-Each P sources id s u f in
        let (ps, names) = collect-Each P sources ids rest u g in
        subst (λ o. Each P o × (map (λ (x : SourceRecord). x.source_id) o ≡ id ∷ ids)) q
          ((p, ps), ground (arith, same, names))
  ]
]

anything : (sources : List SourceRecord) → Each (λ s. Unit {0}) sources
anything [] = tt
anything (s ∷ ss) = (tt, anything ss)

pub record Cited (scope : Scope) (ids : List String) (out : List SourceRecord) : Type 0 where
  pub citable : Each (Citable scope) out
  pub named : map (λ (s : SourceRecord). s.source_id) out ≡ strings ids
  pub some_cited : eqb (length (strings ids)) 0 ≡ false

abbrev open_skills : Scope → Scope
open_skills scope = record scope { skill_ids = none }

-- When citations are accepted, there is at least one; the sources returned are those cited, each
-- once and in their order, and all are evidence of the development partition, of a trusted class, and
-- of a run and an environment that the scope admits.
pub require_development_evidence-Cited :
    (scope : Scope) (ids : List String) (sources out : List SourceRecord)
    → require_development_evidence scope ids sources ≡ some out
    → Cited (open_skills scope) ids out
unfolding require_development_evidence
require_development_evidence-Cited scope ids sources out h =
    let citable =
      select_both (λ s. Unit {0}) (Citable (open_skills scope))
        (λ (s : SourceRecord). is_evidence s.kind && allowed (open_skills scope) s)
        (λ s _ t. record {
          evidence = ground (arith, t);
          admitted = allowed-Admitted (open_skills scope) s (ground (arith, t));
        })
        sources (anything sources) in
    elim (Bool-cases (eqb (length (strings ids)) 0)) [
      | inl z ↦ ground (arith, h, z)
      | inr z ↦
          let (all_of, names) =
            collect-Each (Citable (open_skills scope)) _ (strings ids) out citable
              (ground (arith, h, z)) in
          record { citable = all_of; named = names; some_cited = z }
    ]
