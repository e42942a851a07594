-- ===== src/Models/Tests.antt =====
-- Runs of `canonical_usage` of src/adaptive_agent/models.py.
use adaptive_agent.Prelude.{none, some, ◌≡◌, refl}
use adaptive_agent.Json.{int, obj, Fields, end, field, get}
use adaptive_agent.Json.Number.{pos, negsuc}
use adaptive_agent.Models.Usage.{
  Usage, canonical_usage, usage_object, first_count, count_of, with_input, with_output, with_total,
  input_keys, output_keys, total_keys,
}
use adaptive_agent.Models.Usage.Laws.{Agrees, canonical_usage-Agrees, canonical_usage-usage_object}

abbrev snake : Fields
snake = field "prompt_tokens" (int (pos 5)) (field "total_tokens" (int (pos 12)) end)

abbrev normal : Usage
normal = record { input_tokens = 5; output_tokens = 7; total_tokens = 12 }

usage_derived : canonical_usage (obj snake) ≡ some normal
unfolding canonical_usage first_count count_of get with_input with_output with_total
usage_derived = refl

usage_too_small :
    canonical_usage (obj (field "input" (int (pos 5)) (field "total_tokens" (int (pos 3)) end)))
    ≡ none
unfolding canonical_usage first_count count_of get with_input with_output with_total
usage_too_small = refl

usage_negative : canonical_usage (obj (field "output" (int (negsuc 0)) end)) ≡ none
unfolding canonical_usage first_count count_of get with_input with_output with_total
usage_negative = refl

canonical_usage-Agrees_example :
    Agrees
      (first_count snake input_keys)
      (first_count snake output_keys)
      (first_count snake total_keys)
      normal
canonical_usage-Agrees_example = canonical_usage-Agrees snake normal usage_derived

canonical_usage-usage_object_example : canonical_usage (usage_object normal) ≡ some normal
canonical_usage-usage_object_example = canonical_usage-usage_object (obj snake) normal usage_derived
