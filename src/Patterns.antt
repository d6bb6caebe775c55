-- ===== src/Patterns.antt =====
-- internal/checktool/lint.go, its copy in runner/lint/cmd/levenshtein-lint/selection.go, and the
-- community selection of internal/verify/rulemodules.go. Texts are compared in lower case, as lists of
-- code points; `strings.ToLower` and `unicode.IsNumber` are read on ASCII, where rule codes live.
pub mod LastWins
pub mod Namespace
mod Examples
use levenshtein.Base.{
  ℕ, zero, suc, ◌+◌, ◌-◌, ◌≤◌, ◌<◌, Char, code, String, ◌≡◌, refl, sym, ap, ◌∙◌, ◌≢◌, ◌↔◌, ◌⊎◌, inl,
  inr, Bool, true, false, not, ◌&&◌, ◌||◌, Option, none, some, List, [], ◌∷◌, ◌++◌, map, arith,
  ◌==◌, eq_iff, eq_refl, ltb, leb, eqb, if◌then◌else◌, Bool-cases, Option-cases, is_some, length,
  is_empty, any, all, keep, count_if, All, any_char, all_char, cut_prefix, has_prefix, cut_last,
  split, str_leb, Dict, lookup, sorted_keys, contains, join,
}
use levenshtein.Result.{
  Error, Result, ok, err, ◌>>=◌, ◌>>◌, refuse, for_each, wrap, found, is_ok, >>=-eq-ok, >>-eq-ok,
  wrap-eq-ok, found-eq-ok, refuse-eq-ok, for_each-refuse, options_of_another_kind, invalid_base,
  imports_missing, no_native_stage_options, native_options_on_dagger, unsupported_executor,
  not_native, unknown_dagger_check, bad_mutation_scope, base_without_effect, bad_accepted_file,
  bad_tags, empty_lint_options, bad_community_pattern, bad_core_pattern, empty_rules,
  bad_import_rule, shared_options, semantic_on_command, args_missing, cache_needs_identity,
  empty_rerun_args, bad_artifact, command_on_semantic, unpinned_model, bad_limits,
  committed_credential, bad_env_name, bad_env_entry, bad_timeout, incomplete_tool, unknown_stage,
  incomplete_stage, bad_stage_path, rerun_args_missing, empty_run, bad_baseline_path,
  duplicate_check, unknown_check, one_target_only, unknown_target_of, target_count,
  duplicate_target, unknown_target, unknown_environment, community_needs_dagger, root_target_only,
  path_unavailable, not_a_directory, inputs_missing, bad_input, bad_exclude, unknown_discovery,
  misspelled, bad_dagger_input, bad_rule_modules, in_check,
}
use levenshtein.Config.{
  CheckKind, Status, passed, failed, error, cancelled, incomplete, invalid, is_passed, is_failed,
  ExecutorKind, dagger, native, unknown, is_dagger, is_native, DiscoveryKind, unset, git,
  filesystem, unlisted, RuleModule, Target, Tool, Environment, Preparation, CommandCheck, Limit,
  at_least_zero, below_zero, SemanticCheck, MutationCheck, scope_changed, scope_module, LintCheck,
  ImportRule, ImportsCheck, ApidiffCheck, Check, Run, Config, go_lint, go_mutation, go_imports,
  go_apidiff, semantic_lint,
}
use levenshtein.Config.Options.{
  at, artifacts, env, cacheable, lint_checks, is_community_pattern, core_lint_checks,
  community_lint_checks, uses_rule_modules, mutation_options,
}
use levenshtein.Words.{
  trim_minus, is_lint_pattern, is_community_shape, is_community_code, has_blank, is_git_ref,
  is_env_name, is_pinned_model, import_path_pattern, local_import_pattern, has_pattern_meta,
  private_source_path, is_letter, is_digit,
}
use levenshtein.Paths.{relative}

pub lower : ℕ → ℕ
lower c = if leb b'A' c && leb c b'Z' then c + 32 else c

-- strings.ToLower
unfoldable pub lowered : String → List ℕ
unfolding lower
lowered String.[] = []
lowered (String.◌∷◌ c s) = lower (code c) ∷ lowered s

-- The code points of a text, as they stand.
abbrev pub codes : String → List ℕ
codes String.[] = []
codes (String.◌∷◌ c s) = code c ∷ codes s

abbrev pub same : List ℕ → List ℕ → Bool
same [] [] = true
same [] (d ∷ ds) = false
same (c ∷ cs) [] = false
same (c ∷ cs) (d ∷ ds) = eqb c d && same cs ds

-- strings.HasPrefix, the prefix first
abbrev pub prefix_of : List ℕ → List ℕ → Bool
prefix_of [] ds = true
prefix_of (c ∷ cs) [] = false
prefix_of (c ∷ cs) (d ∷ ds) = eqb c d && prefix_of cs ds

-- strings.CutSuffix(s, "*")
unfoldable pub cut_star : List ℕ → Option (List ℕ)
cut_star [] = none
cut_star (c ∷ []) = if eqb c b'*' then some [] else none
cut_star (c ∷ d ∷ cs) = elim (cut_star (d ∷ cs)) [ none ↦ none | some r ↦ some (c ∷ r) ]

-- code[:digit], or the whole code without one
abbrev category : List ℕ → List ℕ
category [] = []
category (c ∷ cs) = let rest = category cs in if is_digit c then [] else c ∷ rest

-- Selects
unfoldable pub selects : String → String → Bool
unfolding lowered cut_star
selects pattern_ rule =
    let p = lowered pattern_ in
    let c = lowered rule in
    if same p (lowered "*") || same p (lowered "all") then true else elim (cut_star p) [
      | none ↦ same p c
      | some prefix ↦ if any is_digit prefix then prefix_of prefix c else same (category c) prefix
    ]

-- A pattern longer than one character that starts with `-` turns its codes off.
abbrev pub enables : String → Bool
enables String.[] = true
enables (String.◌∷◌ c String.[]) = true
enables (String.◌∷◌ c (String.◌∷◌ d s)) = not (eqb (code c) b'-')

abbrev pub body : String → String
body String.[] = ""
body (String.◌∷◌ c String.[]) = String.◌∷◌ c ""
body (String.◌∷◌ c (String.◌∷◌ d s)) =
    if eqb (code c) b'-' then String.◌∷◌ d s else String.◌∷◌ c (String.◌∷◌ d s)

-- The loop of Allowed, from a selection so far.
unfoldable pub allowed_from : Bool → List String → String → Bool
allowed_from selected [] rule = selected
allowed_from selected (check ∷ checks) rule =
    allowed_from (if selects (body check) rule then enables check else selected) checks rule

-- Allowed
unfoldable pub allowed : List String → String → Bool
unfolding allowed_from
allowed checks rule = allowed_from false checks rule

-- Registered: every pattern, without its minus, selects a rule of the linter's listing.
unfoldable pub registered : List String → List String → Bool
registered names patterns = all (λ p. any (λ name. selects (trim_minus p) name) names) patterns

-- A pattern without its minus against a rule, both in lower case
abbrev pub matched : List ℕ → List ℕ → Bool
matched b rule = elim (cut_star b) [ none ↦ same b rule | some prefix ↦ prefix_of prefix rule ]

-- communityAllowed, one pattern and the loop
unfoldable pub community_selects : String → String → Bool
unfolding lowered cut_star
community_selects pattern_ rule = matched (lowered (trim_minus pattern_)) (lowered rule)

abbrev pub disables : String → Bool
disables String.[] = false
disables (String.◌∷◌ c s) = eqb (code c) b'-'

unfoldable pub community_allowed_from : Bool → List String → String → Bool
community_allowed_from selected [] rule = selected
community_allowed_from selected (p ∷ ps) rule =
    community_allowed_from (if community_selects p rule then not (disables p) else selected) ps rule

unfoldable pub community_allowed : List String → String → Bool
unfolding community_allowed_from
community_allowed patterns rule = community_allowed_from false patterns rule

abbrev before_underscore : List ℕ → List ℕ
before_underscore [] = []
before_underscore (c ∷ cs) = let rest = before_underscore cs in if eqb c b'_' then [] else c ∷ rest

-- patternNamespace
unfoldable pub pattern_namespace : String → List ℕ
unfolding lowered trim_minus
pattern_namespace p = before_underscore (lowered (trim_minus p))

tests :
    (allowed ("all" ∷ "-SA5001" ∷ []) "SA5001" ≡ false)
    × (allowed ("-SA5001" ∷ "all" ∷ []) "SA5001" ≡ true)
    × (allowed ("S*" ∷ []) "S1002" ≡ true)
    × (allowed ("S*" ∷ []) "SA5001" ≡ false)
    × (allowed ("SA5*" ∷ []) "sa5001" ≡ true)
    × (allowed ("gocognit" ∷ []) "gocognit" ≡ true)
    × (community_allowed ("errs_*" ∷ "-errs_nopanic" ∷ []) "errs_nopanic" ≡ false)
    × (community_allowed ("errs_no*" ∷ []) "ERRS_nopanic" ≡ true)
    × (registered ("gocognit" ∷ "SA1000" ∷ []) ("-unparam" ∷ []) ≡ false)
unfolding allowed selects community_allowed community_selects trim_minus registered
tests = (refl, refl, refl, refl, refl, refl, refl, refl, refl)
