-- ===== src/Validation.antt =====
-- internal/verify/validation.go: validateCheck, which accepts a check for the environment that it
-- names, and resolveStage.
mod Options
mod Native
pub mod Accepted
pub mod Protected
mod Examples
use levenshtein.Base.{
  ℕ, zero, suc, ◌+◌, ◌-◌, ◌≤◌, ◌<◌, Char, code, String, ◌≡◌, refl, sym, ap, ◌∙◌, ◌≢◌, ◌↔◌, ◌⊎◌, inl,
  inr, Bool, true, false, not, ◌&&◌, ◌||◌, Option, none, some, List, [], ◌∷◌, ◌++◌, map, arith,
  ◌==◌, eq_iff, eq_refl, ltb, leb, eqb, if◌then◌else◌, Bool-cases, Option-cases, is_some, length,
  is_empty, any, all, keep, count_if, All, any_char, all_char, cut_prefix, has_prefix, cut_last,
  split, str_leb, Dict, lookup, sorted_keys, contains, join,
}
use levenshtein.Result.{
  Error, Result, ok, err, ◌>>=◌, ◌>>◌, refuse, for_each, wrap, found, is_ok, >>=-eq-ok, >>-eq-ok,
  wrap-eq-ok, found-eq-ok, refuse-eq-ok, options_of_another_kind, invalid_base, imports_missing,
  no_native_stage_options, native_options_on_dagger, unsupported_executor, not_native,
  unknown_dagger_check, bad_mutation_scope, base_without_effect, bad_accepted_file, bad_tags,
  empty_lint_options, bad_community_pattern, bad_core_pattern, empty_rules, bad_import_rule,
  shared_options, semantic_on_command, args_missing, cache_needs_identity, empty_rerun_args,
  bad_artifact, command_on_semantic, unpinned_model, bad_limits, committed_credential, bad_env_name,
  bad_env_entry, bad_timeout, incomplete_tool, unknown_stage, incomplete_stage, bad_stage_path,
  rerun_args_missing, empty_run, bad_baseline_path, duplicate_check, unknown_check, one_target_only,
  unknown_target_of, target_count, duplicate_target, unknown_target, unknown_environment,
  community_needs_dagger, root_target_only, path_unavailable, not_a_directory, inputs_missing,
  bad_input, bad_exclude, unknown_discovery, misspelled, bad_dagger_input, bad_rule_modules,
  in_check,
}
use levenshtein.Config.{
  CheckKind, Status, passed, failed, error, cancelled, incomplete, invalid, is_passed, is_failed,
  ExecutorKind, dagger, native, unknown, is_dagger, is_native, DiscoveryKind, unset, git,
  filesystem, unlisted, RuleModule, Target, Tool, Environment, Preparation, CommandCheck, Limit,
  at_least_zero, below_zero, SemanticCheck, MutationCheck, scope_changed, scope_module, LintCheck,
  ImportRule, ImportsCheck, ApidiffCheck, Check, Run, Config, go_lint, go_mutation, go_imports,
  go_apidiff, semantic_lint,
}
use levenshtein.Config.Options.{
  at, artifacts, env, cacheable, lint_checks, is_community_pattern, core_lint_checks,
  community_lint_checks, uses_rule_modules, mutation_options,
}
use levenshtein.Words.{
  trim_minus, is_lint_pattern, is_community_shape, is_community_code, has_blank, is_git_ref,
  is_env_name, is_pinned_model, import_path_pattern, local_import_pattern, has_pattern_meta,
  private_source_path, is_letter, is_digit,
}
use levenshtein.Paths.{relative}
use levenshtein.Kinds.{dagger_function, native_kind_of, NativeKind}
unfoldable pub use Options.{
  blank, validate_lint_checks, validate_import_rules, validate_duration, validate_go_mutation,
}
pub use Options.{Duration, nanoseconds, negative}
pub use Native.{api_key_env, base_url_env, host_owned}
unfoldable pub use Native.{
  command_declared, validate_env, validate_environment, run_shared_go,
  validate_semantic_credentials, run_command_check, run_semantic_lint, run_validator,
  run_rerun_ready,
}

-- Options that belong to one kind: `present` says whether they stand on the check.
abbrev only_for : Bool → Check → CheckKind → Result (Unit {0})
only_for present check kind =
    refuse (present && not (check.kind == kind)) (options_of_another_kind kind)

abbrev when_some {ℓ} : {A : Type ℓ} → Option A → (A → Result (Unit {0})) → Result (Unit {0})
when_some none f = ok tt
when_some (some a) f = f a

module _ (parse_duration : String → Option Duration) where
  unfoldable pub validate_dagger_check : Check → Environment → Result (Unit {0})
  validate_dagger_check check e = do
    refuse (dagger_function check.kind == "") (unknown_dagger_check check.kind)
    refuse (is_some check.command || is_some check.semantic) no_native_stage_options
    refuse
        (not (e.identity == "")
          || (not (is_empty e.env) || (not (is_empty e.pass_env) || not (is_empty e.tools))))
        native_options_on_dagger
    if check.kind == go_mutation then validate_go_mutation parse_duration check else ok tt

  unfoldable pub validate_native_check : Check → Environment → Result (Unit {0})
  validate_native_check check e = do
    kind ← found (native_kind_of check.kind) (not_native check.kind)
    validate_environment e
    run_validator parse_duration kind.validate check e

  -- The options objects, before the executor is looked at.
  unfoldable pub validate_options : Check → Result (Unit {0})
  validate_options check = do
    only_for (is_some check.mutation) check go_mutation
    only_for (is_some check.lint) check go_lint
    when_some check.lint validate_lint_checks
    only_for (is_some check.imports) check go_imports
    only_for (is_some check.apidiff) check go_apidiff
    when_some check.apidiff λ options.
        refuse (not (options.base == "") && not (is_git_ref options.base))
          (invalid_base options.base)
    if check.kind == go_imports
        then elim check.imports [
          | none ↦ err imports_missing
          | some rules ↦ validate_import_rules rules
        ]
        else ok tt

  unfoldable pub by_executor : ExecutorKind → Check → Environment → Result (Unit {0})
  by_executor dagger check e = validate_dagger_check check e
  by_executor native check e = validate_native_check check e
  by_executor (unknown name) check e = err unsupported_executor

  unfoldable pub validate_check : Check → Environment → Result (Unit {0})
  validate_check check e = do validate_options check; by_executor e.executor check e

  stage_complete : Preparation → String → Result (Unit {0})
  stage_complete stage kind = do
    refuse (is_empty stage.command || (is_empty stage.inputs || is_empty stage.outputs))
        (incomplete_stage kind)
    validate_duration parse_duration stage.timeout
    validate_env stage.env
    for_each (λ path. refuse (not (relative path)) (bad_stage_path path))
        (stage.inputs ++ stage.outputs)

  unfoldable pub resolve_stage : Dict Preparation → String → String → Result (Option Preparation)
  unfolding stage_complete
  resolve_stage stages kind name = if name == "" then ok none else do
    stage ← found (lookup name stages) (unknown_stage name)
    stage_complete stage kind
    ok (some stage)
