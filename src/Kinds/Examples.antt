-- ===== src/Kinds/Examples.antt =====
-- A kind that a baseline can hold, and the kind that writes the working tree.
use levenshtein.Base.{String, ◌≡◌, refl, ◌≢◌, true, false}
use levenshtein.Kinds.{
  baseline_kind, located_kind, always_fresh_reason, base_dependent_reason, dagger_function,
  read_only_workspace, spec_of,
}
use levenshtein.Kinds.Laws.{baseline_kind_recordable, writers_are_commands}

lint_is_recorded : baseline_kind "go-lint" ≡ true
unfolding baseline_kind spec_of levenshtein.Kinds.describe_kinds
lint_is_recorded = refl

baseline_kind_recordable_example :
    (located_kind "go-lint" ≡ true)
    × (always_fresh_reason "go-lint" ≡ "")
    × (base_dependent_reason "go-lint" ≡ "")
    × (dagger_function "go-lint" ≢ "")
baseline_kind_recordable_example = baseline_kind_recordable "go-lint" lint_is_recorded

command_writes : read_only_workspace "command" ≡ false
unfolding read_only_workspace spec_of levenshtein.Kinds.describe_kinds
command_writes = refl

writers_are_commands_example :
    (◌≡◌ {A = String} "command" "command") × (dagger_function "command" ≡ "")
writers_are_commands_example = writers_are_commands "command" command_writes
