-- ===== src/Environment/Schema/Keywords.antt =====
-- The groups of keywords of `_validate` in src/adaptive_agent/environment.py.
mod Verdicts
mod Scalars
mod Containers
unfoldable pub use Verdicts.*
unfoldable pub use Scalars.{typed, const_check, enum_check, numeric, textual}
unfoldable pub use Containers.{all_of, any_of, one_of, negated, sequence, mapping}
pub use Containers.{Listed, mapping-closed, mapping-required}
