-- ===== src/Config/Options.antt =====
-- The methods of `Check` in internal/verify/config.go: which options a check carries, with their
-- defaults.
use levenshtein.Base.{
  String, Bool, true, false, not, Option, none, some, List, [], ◌==◌, eqb, if◌then◌else◌, keep,
  any_char, Dict,
}
use levenshtein.Config.{
  Check, ApidiffCheck, SemanticCheck, MutationCheck, LintCheck, at_least_zero, go_lint,
  scope_changed,
}

-- A multi-target check bound to one of its targets.
unfoldable pub at : Check → String → Check
at check target = record check { target = target; targets = [] }

unfoldable pub apidiff_options : Check → ApidiffCheck
apidiff_options check = elim check.apidiff [ none ↦ record { base = "" } | some options ↦ options ]

unfoldable pub artifacts : Check → List String
artifacts check = elim check.command [ none ↦ [] | some command ↦ command.artifacts ]

unfoldable pub env : Check → Dict String
env check = elim check.command [ none ↦ [] | some command ↦ command.env ]

unfoldable pub cacheable : Check → Bool
cacheable check = elim check.command [ none ↦ false | some command ↦ command.cache ]

unfoldable pub semantic_options : Check → SemanticCheck
semantic_options check = elim check.semantic [
  | none ↦ record {
    base = "";
    model = "";
    timeout = "";
    max_requests = at_least_zero 0;
    max_input_chars = at_least_zero 0;
  }
  | some options ↦ options
]

unfoldable pub lint_checks : Check → List String
lint_checks check = elim check.lint [ none ↦ [] | some lint ↦ lint.checks ]

-- rulemodules.go: a pattern with an underscore is a community pattern.
unfoldable pub is_community_pattern : String → Bool
is_community_pattern pattern_ = any_char (λ c. eqb c b'_') pattern_

unfoldable pub core_lint_checks : Check → List String
unfolding is_community_pattern lint_checks
core_lint_checks check = keep (λ p. not (is_community_pattern p)) (lint_checks check)

unfoldable pub community_lint_checks : Check → List String
unfolding is_community_pattern lint_checks
community_lint_checks check = keep is_community_pattern (lint_checks check)

uses_modules : Option LintCheck → Bool
uses_modules none = true
uses_modules (some lint) = elim lint.rule_modules [ none ↦ true | some on ↦ on ]

unfoldable pub uses_rule_modules : Check → Bool
unfolding uses_modules
uses_rule_modules check = if check.kind == go_lint then uses_modules check.lint else false

abbrev default_accepted : String
default_accepted = ".levenshtein/mutation-accepted.json"

-- The options that a go-mutation check declares, before the defaults.
abbrev declared_mutation : Option MutationCheck → MutationCheck
declared_mutation none = record { base = ""; scope = ""; accepted = ""; tags = ""; timeout = "" }
declared_mutation (some options) = options

unfoldable pub mutation_options : Check → MutationCheck
mutation_options check =
    let options = declared_mutation check.mutation in
    record options {
      scope = if options.scope == "" then scope_changed else options.scope;
      accepted = if options.accepted == "" then default_accepted else options.accepted;
    }
