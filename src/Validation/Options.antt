-- ===== src/Validation/Options.antt =====
-- internal/verify/validation.go and gocheck.go: the options of Dagger and shared kinds. Each range
-- loop is `for_each`, each early return a `refuse`. `time.ParseDuration` is a parameter.
use levenshtein.Base.{
  ℕ, ◌+◌, String, Bool, false, not, ◌&&◌, ◌||◌, Option, none, some, List, [], ◌∷◌, ◌++◌, ◌==◌, ltb,
  leb, eqb, if◌then◌else◌, is_some, is_empty, all_char,
}
use levenshtein.Result.{
  Result, ok, ◌>>◌, refuse, for_each, invalid_base, bad_mutation_scope, base_without_effect,
  bad_accepted_file, bad_tags, empty_lint_options, bad_community_pattern, bad_core_pattern,
  empty_rules, bad_import_rule, bad_timeout,
}
use levenshtein.Config.{
  MutationCheck, scope_changed, scope_module, LintCheck, ImportRule, ImportsCheck, Check,
}
use levenshtein.Config.Options.{is_community_pattern}
use levenshtein.Words.{
  is_lint_pattern, is_community_shape, has_blank, is_git_ref, import_path_pattern,
  local_import_pattern, private_source_path,
}
use levenshtein.Paths.{relative}

-- A parsed duration in nanoseconds; `negative` is any below zero.
pub data Duration : Type 0 where
  nanoseconds : ℕ → Duration
  negative : ℕ → Duration

abbrev is_positive : Option Duration → Bool
is_positive none = false
is_positive (some (nanoseconds n)) = ltb 0 n
is_positive (some (negative n)) = false

-- `strings.TrimSpace(s) == ""`
abbrev is_space : ℕ → Bool
is_space c =
    (leb 9 c && leb c 13)
    || (eqb c 32
        || (eqb c 0x85
            || (eqb c 0xa0
                || (eqb c 0x1680
                    || ((leb 0x2000 c && leb c 0x200a)
                        || (eqb c 0x2028
                            || (eqb c 0x2029
                                || (eqb c 0x202f || (eqb c 0x205f || eqb c 0x3000)))))))))

unfoldable pub blank : String → Bool
blank s = all_char is_space s

-- validateLintChecks
validate_lint_pattern : String → Result (Unit {0})
validate_lint_pattern pattern_ =
    if is_community_pattern pattern_
    then refuse (not (is_community_shape pattern_)) (bad_community_pattern pattern_)
    else refuse (not (is_lint_pattern pattern_)) (bad_core_pattern pattern_)

unfoldable pub validate_lint_checks : LintCheck → Result (Unit {0})
unfolding validate_lint_pattern
validate_lint_checks options = do
  refuse (is_empty options.checks && not (is_some options.rule_modules)) empty_lint_options
  for_each validate_lint_pattern options.checks

-- validateImportRules: `number` counts the rules from 1.
validate_import_rule : ℕ → ImportRule → Result (Unit {0})
validate_import_rule number rule = do
  refuse (is_empty rule.packages) (bad_import_rule number "packages")
  for_each (λ entry. refuse (not (local_import_pattern entry)) (bad_import_rule number entry))
      rule.packages
  refuse (is_empty rule.deny && is_empty rule.allow) (bad_import_rule number "deny")
  for_each
      (λ entry.
        refuse
          (not (entry == "std")
            && (not (local_import_pattern entry) && not (import_path_pattern entry)))
          (bad_import_rule number entry))
      (rule.deny ++ rule.allow)
  refuse
      (not (rule.tests == "") && (not (rule.tests == "include") && not (rule.tests == "exclude")))
      (bad_import_rule number "tests")
  refuse (blank rule.reason) (bad_import_rule number "reason")

validate_numbered : ℕ → List ImportRule → Result (Unit {0})
unfolding validate_import_rule
validate_numbered number [] = ok tt
validate_numbered number (rule ∷ rules) =
    let rest = validate_numbered (number + 1) rules in validate_import_rule number rule >> rest

unfoldable pub validate_import_rules : ImportsCheck → Result (Unit {0})
unfolding validate_numbered
validate_import_rules config = do
  refuse (is_empty config.rules) empty_rules
  validate_numbered 1 config.rules

module _ (parse_duration : String → Option Duration) where
  unfoldable pub validate_duration : String → Result (Unit {0})
  validate_duration value =
      if value == ""
      then ok tt
      else refuse (not (is_positive (parse_duration value))) (bad_timeout value)

  -- The options that a go-mutation check declares.
  mutation_declared : MutationCheck → Result (Unit {0})
  mutation_declared options = do
    refuse
        (not (options.scope == "")
          && (not (options.scope == scope_changed) && not (options.scope == scope_module)))
        bad_mutation_scope
    refuse (not (options.base == "") && not (is_git_ref options.base)) (invalid_base options.base)
    refuse (not (options.base == "") && options.scope == scope_module) base_without_effect
    refuse
        (not (options.accepted == "")
          && (not (relative options.accepted) || private_source_path options.accepted))
        bad_accepted_file
    refuse (has_blank options.tags) bad_tags
    validate_duration options.timeout

  unfoldable pub validate_go_mutation : Check → Result (Unit {0})
  unfolding mutation_declared
  validate_go_mutation check = elim check.mutation [
    | none ↦ ok tt
    | some options ↦ mutation_declared options
  ]
