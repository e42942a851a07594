-- ===== src/Runs/Evidence.antt =====
-- The evidence that src/adaptive_agent/controller.py appends: it is numbered by the counter of its
-- run, and no row of it is replaced.
use mathlib.Core.List.{append_assoc, append-nil}
use mathlib.Core.Path.{fun_ext}
use adaptive_agent.Prelude.{
  ℕ, suc, ◌<◌, Bool, ◌||◌, false, not, String, some, List, [], ◌∷◌, ◌++◌, ◌≡◌, refl, arith, ◌==◌,
  any, select, inl, inr, Bool-cases, sym, ap, ◌∙◌, subst, eq_iff,
}
use adaptive_agent.Runs.Tables.{
  RunRow, EvidenceRow, Tables, same_place, save_run, store_claim_run, next_event_sequence,
  evidence_replaced, append_evidence, draw_evidence_id, save_step, update_step_status,
}
use adaptive_agent.Runs.Control.{set_run_status}
use adaptive_agent.Runs.History.{
  Write, add, settle, claim, number, record_evidence, record_step, update_step, Writes, nothing,
  after,
}
use adaptive_agent.Runs.Operations.{Operation, perform_all, AllFresh, perform_all-Writes}
use adaptive_agent.Runs.Numbering.{
  Counts, Grows, set_run_status-Grows, store_claim_run-Grows, add-Grows, next_event_sequence-Grows,
  next_event_sequence-Drawn, evidence-next_event_sequence, evidence_ids-next_event_sequence,
}

-- The number of each row is within the counter of its run, and no two rows of a run share one.
abbrev pub Numbered : List RunRow → List EvidenceRow → Type 0
Numbered runs [] = Unit {0}
Numbered runs (e ∷ es) =
    Counts runs e.run_id e.sequence
    × (any (same_place e.run_id e.sequence) es ≡ false)
    × Numbered runs es

Numbered-Grows :
    (rows rows' : List RunRow) (es : List EvidenceRow)
    → Grows rows rows'
    → Numbered rows es
    → Numbered rows' es
unfolding Grows
Numbered-Grows rows rows' [] g u = tt
Numbered-Grows rows rows' (e ∷ es) g (c, d, u) =
    (g e.run_id e.sequence c, d, Numbered-Grows rows rows' es g u)

-- No row of the run has the number, when all counted numbers of the run are below it.
none_at :
    (runs : List RunRow) (id : String) (n : ℕ) (es : List EvidenceRow)
    → ((m : ℕ) → Counts runs id m → m < n)
    → Numbered runs es
    → any (same_place id n) es ≡ false
none_at runs id n [] above u = refl
none_at runs id n (e ∷ es) above (c, d, u) = elim (Bool-cases (e.run_id == id)) [
  | inr f ↦ ground (arith, f, none_at runs id n es above u)
  | inl t ↦
      let at : Counts runs id e.sequence =
        subst (λ i. Counts runs i e.sequence) ((eq_iff e.run_id id).0 t) c in
      let less = above e.sequence at in ground (arith, less, none_at runs id n es above u)
]

select_all {ℓ} :
    {A : Type ℓ} (p : A → Bool) (xs : List A) → any p xs ≡ false → select (λ x. not (p x)) xs ≡ xs
select_all p [] h = refl
select_all p (x ∷ xs) h = ground (arith, select_all p xs)

any-append_last :
    (e d : EvidenceRow) (es : List EvidenceRow)
    → any (same_place e.run_id e.sequence) es ≡ false
    → same_place e.run_id e.sequence d ≡ false
    → any (same_place e.run_id e.sequence) (es ++ d ∷ []) ≡ false
any-append_last e d [] h k = ground arith
any-append_last e d (x ∷ es) h k = ground (arith, any-append_last e d es)

append-Numbered :
    (runs : List RunRow) (d : EvidenceRow) (es : List EvidenceRow)
    → Counts runs d.run_id d.sequence
    → any (same_place d.run_id d.sequence) es ≡ false
    → Numbered runs es
    → Numbered runs (es ++ d ∷ [])
append-Numbered runs d [] c h u = (c, refl, tt)
append-Numbered runs d (e ∷ es) c h (k, a, u) = (
  k,
  any-append_last e d es a (ground (arith, h, eq_iff e.run_id d.run_id, eq_iff d.run_id e.run_id)),
  append-Numbered runs d es c (ground (arith, h)) u,
)

abbrev pub with_id : String → EvidenceRow → Bool
with_id id e = e.evidence_id == id

-- The ids that are drawn next differ from one another and from those of the rows.
pub record FreshIds (ids : ℕ → String) (es : List EvidenceRow) : Type 0 where
  pub unused : (n : ℕ) → any (with_id (ids n)) es ≡ false
  pub apart : (m n : ℕ) → m < n → (ids m == ids n) ≡ false

abbrev pub NumberedTables : Tables → Type 0
NumberedTables t = Numbered t.runs t.evidence

-- The tables that a write leaves: numbered, with the evidence that was there and what is new.
pub record Kept (t t' : Tables) : Type 0 where
  pub numbered : NumberedTables t'
  pub fresh : FreshIds t'.evidence_ids t'.evidence
  pub new : List EvidenceRow
  pub grown : t'.evidence ≡ t.evidence ++ new

unchanged :
    (t t' : Tables)
    → Grows t.runs t'.runs
    → t'.evidence ≡ t.evidence
    → t'.evidence_ids ≡ t.evidence_ids
    → NumberedTables t
    → FreshIds t.evidence_ids t.evidence
    → Kept t t'
unchanged t t' g e i u f = record {
  numbered = subst (Numbered t'.runs) (sym e) (Numbered-Grows t.runs t'.runs t.evidence g u);
  fresh =
      subst (λ ids. FreshIds ids t'.evidence) (sym i) (subst (FreshIds t.evidence_ids) (sym e) f);
  new = [];
  grown = e ∙ sym (append-nil t.evidence);
}

any-replaced :
    (e : EvidenceRow) (es : List EvidenceRow)
    → any (with_id e.evidence_id) es ≡ false
    → any (same_place e.run_id e.sequence) es ≡ false
    → any (evidence_replaced e) es ≡ false
any-replaced e [] h k = refl
any-replaced e (d ∷ es) h k = ground (arith, h, k, any-replaced e es)

any-last :
    {A : Type 0} (p : A → Bool) (xs : List A) (x : A) → any p (xs ++ x ∷ []) ≡ any p xs || p x
any-last p [] x = ground arith
any-last p (y ∷ xs) x = ground (arith, any-last p xs x)

-- The first id is drawn for the row that is appended.
FreshIds-drawn :
    (ids : ℕ → String) (es : List EvidenceRow) (e : EvidenceRow)
    → e.evidence_id ≡ ids 0
    → FreshIds ids es
    → FreshIds (λ n. ids (suc n)) (es ++ e ∷ [])
FreshIds-drawn ids es e i f = record {
  unused = λ n.
      any-last (with_id (ids (suc n))) es e
      ∙ ground (arith, f.unused (suc n), f.apart 0 (suc n) (omega arith), i);
  apart = λ m n h. f.apart (suc m) (suc n) (omega (arith, h));
}

appended :
    (e : EvidenceRow) (t : Tables)
    → (next_event_sequence e.run_id t).0 ≡ some e.sequence
    → e.evidence_id ≡ (next_event_sequence e.run_id t).1.evidence_ids 0
    → NumberedTables t
    → FreshIds t.evidence_ids t.evidence
    → Kept t (append_evidence e (draw_evidence_id (next_event_sequence e.run_id t).1))
unfolding append_evidence
appended e t h i u f =
    let d = next_event_sequence-Drawn e.run_id e.sequence t h in
    let t1 = (next_event_sequence e.run_id t).1 in
    let same = evidence-next_event_sequence e.run_id t in
    let ids = evidence_ids-next_event_sequence e.run_id t in
    let own : e.evidence_id ≡ t.evidence_ids 0 = i ∙ ap (λ draw. draw 0) ids in
    let free =
      any-replaced e t.evidence
        (subst (λ id. any (with_id id) t.evidence ≡ false) (sym own) (f.unused 0))
        (none_at t.runs e.run_id e.sequence t.evidence d.above u) in
    let kept : select (λ x. not (evidence_replaced e x)) t1.evidence ≡ t.evidence =
      ap (select (λ x. not (evidence_replaced e x))) same
      ∙ select_all (evidence_replaced e) t.evidence free in
    let result = ap (λ es. es ++ e ∷ []) kept in
    let moved = Numbered-Grows t.runs t1.runs t.evidence (next_event_sequence-Grows e.run_id t) u in
    let place = none_at t.runs e.run_id e.sequence t.evidence d.above u in
    record {
      numbered =
          subst (Numbered t1.runs) (sym result)
            (append-Numbered t1.runs e t.evidence d.counts place moved);
      fresh =
          subst
            (λ draw.
              FreshIds (λ n. draw (suc n))
                (select (λ x. not (evidence_replaced e x)) t1.evidence ++ e ∷ []))
            (sym ids)
            (subst (FreshIds (λ n. t.evidence_ids (suc n))) (sym result)
              (FreshIds-drawn t.evidence_ids t.evidence e own f));
      new = e ∷ [];
      grown = result;
    }

Write-Kept :
    {t t' : Tables} → Write t t' → NumberedTables t → FreshIds t.evidence_ids t.evidence → Kept t t'
unfolding save_run set_run_status store_claim_run save_step update_step_status Grows
Write-Kept {t} (add row f g) u i = unchanged t _ (add-Grows row t f) refl refl u i
Write-Kept {t} (settle now id status s) u i =
    unchanged t _ (set_run_status-Grows now id status t) (ground arith)
      (fun_ext (λ n. ground arith)) u i
Write-Kept {t} (claim id) u i =
    unchanged t _ (store_claim_run-Grows id t) (ground arith) (fun_ext (λ n. ground arith)) u i
Write-Kept {t} (number id) u i =
    unchanged t _ (next_event_sequence-Grows id t) (evidence-next_event_sequence id t)
      (evidence_ids-next_event_sequence id t) u i
Write-Kept {t} (record_evidence e h own) u i = appended e t h own u i
Write-Kept {t} (record_step s h) u i =
    unchanged t _ (next_event_sequence-Grows s.run_id t) (evidence-next_event_sequence s.run_id t)
      (evidence_ids-next_event_sequence s.run_id t) u i
Write-Kept {t} (update_step id status) u i = unchanged t _ (λ i n c. c) refl refl u i

Writes-Kept :
    {t t' : Tables}
    → Writes t t'
    → NumberedTables t
    → FreshIds t.evidence_ids t.evidence
    → Kept t t'
Writes-Kept {t} nothing u i = record {
  numbered = u;
  fresh = i;
  new = [];
  grown = sym (append-nil t.evidence);
}
Writes-Kept {t} (after ws w) u i =
    let first = Writes-Kept ws u i in
    let second = Write-Kept w first.numbered first.fresh in
    record {
      numbered = second.numbered;
      fresh = second.fresh;
      new = first.new ++ second.new;
      grown =
          second.grown
          ∙ ap (λ es. es ++ second.new) first.grown
          ∙ append_assoc t.evidence first.new second.new;
    }

-- Whatever operations on runs, steps and events follow one another, if the ids of new runs are
-- fresh, and if the evidence ids that are drawn differ from one another and from those of the rows:
-- no evidence is changed, replaced or removed, what is new is appended, no two rows of a run share a
-- sequence number, and each number is within the counter of its run, if this held before.
pub perform_all-Kept :
    (os : List Operation) (t : Tables)
    → AllFresh os t
    → NumberedTables t
    → FreshIds t.evidence_ids t.evidence
    → Kept t (perform_all os t)
perform_all-Kept os t f u i = Writes-Kept (perform_all-Writes os t f) u i
