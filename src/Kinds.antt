-- ===== src/Kinds.antt =====
-- internal/verify/kinds.go: what planning, execution and reporting ask of a check kind.
mod Table
pub mod Laws
mod Examples
use levenshtein.Base.{
  ℕ, zero, suc, ◌+◌, ◌-◌, ◌≤◌, ◌<◌, Char, code, String, ◌≡◌, refl, sym, ap, ◌∙◌, ◌≢◌, ◌↔◌, ◌⊎◌, inl,
  inr, Bool, true, false, not, ◌&&◌, ◌||◌, Option, none, some, List, [], ◌∷◌, ◌++◌, map, arith,
  ◌==◌, eq_iff, eq_refl, ltb, leb, eqb, if◌then◌else◌, Bool-cases, Option-cases, is_some, length,
  is_empty, any, all, keep, count_if, All, any_char, all_char, cut_prefix, has_prefix, cut_last,
  split, str_leb, Dict, lookup, sorted_keys, contains, join,
}
use levenshtein.Config.{CheckKind}
unfoldable pub use Table.{no_spec, describe_kinds}
pub use Table.{
  Validator, validate_shared_go_check, validate_command_check, validate_semantic_lint, RerunReady,
  always_ready, command_rerun_ready, Runner, NativeKind, KindSpec, default_gates,
}

find_spec : CheckKind → List KindSpec → KindSpec
find_spec kind [] = no_spec
find_spec kind (spec ∷ specs) =
    let rest = find_spec kind specs in if spec.kind == kind then spec else rest

-- specOf
unfoldable pub spec_of : CheckKind → KindSpec
unfolding find_spec
spec_of kind = find_spec kind describe_kinds

unfoldable pub dagger_function : CheckKind → String
dagger_function kind = (spec_of kind).dagger

unfoldable pub native_kind_of : CheckKind → Option NativeKind
native_kind_of kind = (spec_of kind).native

unfoldable pub shared_go_check : CheckKind → Bool
shared_go_check kind = not ((spec_of kind).dagger == "") && is_some (spec_of kind).native

unfoldable pub always_fresh_reason : CheckKind → String
always_fresh_reason kind = (spec_of kind).always_fresh

unfoldable pub base_dependent_reason : CheckKind → String
base_dependent_reason kind = (spec_of kind).base_dependent

unfoldable pub baseline_kind : CheckKind → Bool
baseline_kind kind = (spec_of kind).baseline

unfoldable pub located_kind : CheckKind → Bool
located_kind kind = (spec_of kind).located

unfoldable pub reports_on_pass : CheckKind → Bool
reports_on_pass kind = (spec_of kind).reporting

unfoldable pub reads_go_toolchain : CheckKind → Bool
reads_go_toolchain kind = (spec_of kind).go_toolchain

unfoldable pub runs_repository_code : CheckKind → Bool
runs_repository_code kind = (spec_of kind).runs_repository_code

unfoldable pub root_only : CheckKind → Bool
root_only kind = (spec_of kind).root_only

unfoldable pub read_only_workspace : CheckKind → Bool
read_only_workspace kind = not (spec_of kind).writes_workspace
