-- ===== src/Retrieval/Tests.antt =====
-- Runs of src/adaptive_agent/retrieval.py on small inputs.
use adaptive_agent.Prelude.{true, String, none, some, List, [], ◌∷◌, ◌≡◌, refl}
use adaptive_agent.Json.{Json, boolean, str, obj, end, field, get}
use adaptive_agent.Gate.Checks.{strings}
use adaptive_agent.Gate.Reasons.{dedup}
use adaptive_agent.Retrieval.Sources.{
  live_evidence, SourceRecord, one_of, authority_ok, kind_ok, kind_of, either_key, as_string,
  as_bool, as_id, as_strings, string_items, as_fields, ◌>>=◌, is_valid, construct, from_mapping,
  is_string,
}
use adaptive_agent.Retrieval.Search.{
  Scope, allowed, kind_allowed, no_other, same_id, collect, available, require_development_evidence,
  search, tokens, kept, relevant, item_of, is_refuted, bucket, sorted, insert, take, evidence_of,
}
use adaptive_agent.Retrieval.Sound.{ReadFrom, from_mapping-ReadFrom}
use adaptive_agent.Retrieval.Admission.{AllShown, search-AllShown}
use adaptive_agent.Retrieval.Citations.{Cited, require_development_evidence-Cited}

abbrev digest : String → String
digest text = "hash"

abbrev words : String → List String
words text = text ∷ []

abbrev value : Json
value = obj (
    field "kind" (str "live_evidence") (
      field "content" (str "refund") (
        field "contentHash" (str "hash") (
          field "verified" (boolean true) (
            field "sourceId" (str "e1") (
              field "runId" (str "r") (
                field "trustClass" (str "broker") (field "partition" (str "development") end))))))))

abbrev source : SourceRecord
source = record {
  source_id = "e1";
  kind = live_evidence;
  content = "refund";
  content_hash = "hash";
  environment_id = none;
  run_id = some "r";
  partition = str "development";
  visibility = "learner";
  trust_class = "broker";
  verified = true;
  active = true;
  citations = [];
  metadata = end;
}

read_value : from_mapping digest value ≡ some source
unfolding from_mapping ◌>>=◌ as_fields get kind_of as_string either_key as_bool as_strings
    string_items as_id construct is_valid authority_ok kind_ok one_of
read_value = refl

from_mapping-ReadFrom_example : ReadFrom digest value source
from_mapping-ReadFrom_example = from_mapping-ReadFrom digest value source read_value

abbrev scope : Scope
scope = record { environment_id = "env"; run_id = "r"; skill_ids = none; source_runs = none }

abbrev hidden : SourceRecord
hidden = record source { source_id = "e2"; partition = str "final" }

abbrev all_sources : List SourceRecord
all_sources = source ∷ hidden ∷ []

cites_one : require_development_evidence scope ("e1" ∷ "e1" ∷ []) all_sources ≡ some (source ∷ [])
unfolding require_development_evidence strings dedup allowed kind_allowed no_other same_id is_string
    collect available
cites_one = refl

cites_hidden : require_development_evidence scope ("e2" ∷ []) all_sources ≡ none
unfolding require_development_evidence strings dedup allowed kind_allowed no_other same_id is_string
    collect available
cites_hidden = refl

require_development_evidence-Cited_example : Cited scope ("e1" ∷ "e1" ∷ []) (source ∷ [])
require_development_evidence-Cited_example =
    require_development_evidence-Cited scope ("e1" ∷ "e1" ∷ []) all_sources (source ∷ []) cites_one

finds_one :
    (search words 8 scope "refund" all_sources).evidence ≡ item_of words ("refund" ∷ []) source ∷ []
unfolding search tokens strings dedup kept allowed kind_allowed no_other same_id is_string relevant
    item_of is_refuted get bucket sorted insert take evidence_of
finds_one = refl

search-AllShown_example :
    AllShown words
      (λ s. s.verified ≡ true)
      scope
      (tokens words "refund")
      (search words 8 scope "refund" all_sources)
search-AllShown_example =
    search-AllShown words (λ s. s.verified ≡ true) 8 scope "refund" all_sources (refl, (refl, tt))
