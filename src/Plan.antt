-- ===== src/Plan.antt =====
-- internal/verify/plan.go and source.go: a run of the configuration, resolved to planned checks. The
-- file system and the tests of foreign modules are the fields of `Host`.
pub mod Targets
pub mod Unique
pub mod Sound
mod Examples
use levenshtein.Base.{
  ℕ, zero, suc, ◌+◌, ◌-◌, ◌≤◌, ◌<◌, Char, code, String, ◌≡◌, refl, sym, ap, ◌∙◌, ◌≢◌, ◌↔◌, ◌⊎◌, inl,
  inr, Bool, true, false, not, ◌&&◌, ◌||◌, Option, none, some, List, [], ◌∷◌, ◌++◌, map, arith,
  ◌==◌, eq_iff, eq_refl, ltb, leb, eqb, if◌then◌else◌, Bool-cases, Option-cases, is_some, length,
  is_empty, any, all, keep, count_if, All, any_char, all_char, cut_prefix, has_prefix, cut_last,
  split, str_leb, Dict, lookup, sorted_keys, contains, join, concat,
}
use levenshtein.Result.{
  Error, Result, ok, err, ◌>>=◌, ◌>>◌, refuse, for_each, wrap, found, is_ok, >>=-eq-ok, >>-eq-ok,
  wrap-eq-ok, found-eq-ok, refuse-eq-ok, for_each-refuse, discard, options_of_another_kind,
  invalid_base, imports_missing, no_native_stage_options, native_options_on_dagger,
  unsupported_executor, not_native, unknown_dagger_check, bad_mutation_scope, base_without_effect,
  bad_accepted_file, bad_tags, empty_lint_options, bad_community_pattern, bad_core_pattern,
  empty_rules, bad_import_rule, shared_options, semantic_on_command, args_missing,
  cache_needs_identity, empty_rerun_args, bad_artifact, command_on_semantic, unpinned_model,
  bad_limits, committed_credential, bad_env_name, bad_env_entry, bad_timeout, incomplete_tool,
  unknown_stage, incomplete_stage, bad_stage_path, rerun_args_missing, empty_run, bad_baseline_path,
  duplicate_check, unknown_check, one_target_only, unknown_target_of, target_count,
  duplicate_target, unknown_target, unknown_environment, community_needs_dagger, root_target_only,
  path_unavailable, not_a_directory, inputs_missing, bad_input, bad_exclude, unknown_discovery,
  misspelled, bad_dagger_input, bad_rule_modules, in_check,
}
use levenshtein.Config.{
  CheckKind, Status, passed, failed, error, cancelled, incomplete, invalid, is_passed, is_failed,
  ExecutorKind, dagger, native, unknown, is_dagger, is_native, DiscoveryKind, unset, git,
  filesystem, unlisted, RuleModule, Target, Tool, Environment, Preparation, CommandCheck, Limit,
  at_least_zero, below_zero, SemanticCheck, MutationCheck, scope_changed, scope_module, LintCheck,
  ImportRule, ImportsCheck, ApidiffCheck, Check, Run, Config, go_lint, go_mutation, go_imports,
  go_apidiff, semantic_lint,
}
use levenshtein.Config.Options.{
  at, artifacts, env, cacheable, lint_checks, is_community_pattern, core_lint_checks,
  community_lint_checks, uses_rule_modules, mutation_options,
}
use levenshtein.Words.{
  trim_minus, is_lint_pattern, is_community_shape, is_community_code, has_blank, is_git_ref,
  is_env_name, is_pinned_model, import_path_pattern, local_import_pattern, has_pattern_meta,
  private_source_path, is_letter, is_digit,
}
use levenshtein.Paths.{relative}
use levenshtein.Kinds.{native_kind_of, root_only, NativeKind}
use levenshtein.Validation.{Duration, validate_check, resolve_stage, run_rerun_ready}
use levenshtein.RuleModules.{PlannedRuleModule, planned_rule_modules, validate_rule_modules}
pub use Targets.{Selection}
unfoldable pub use Targets.{
  selections, validate_targets, literal_path, dagger_includes, with_defaults, valid_baseline_path,
  discovery_known,
}

-- What the code asks of the host. `stat` follows a path below the source root: `none` where it is
-- unavailable or escapes, otherwise whether it is a directory.
pub record Host : Type 0 where
  pub resolve : String → Result String
  pub stat : String → String → Option Bool
  pub spelled_as_on_disk : String → String → Bool
  pub parse_duration : String → Option Duration
  pub is_module_path : String → Bool
  pub is_pinned_version : String → String → Bool

pub record PlannedCheck : Type 0 where
  pub id : String
  pub check : Check
  pub target : Target
  pub environment : Environment
  pub preparation : Option Preparation
  pub build : Option Preparation
  pub rule_modules : List PlannedRuleModule

pub record Plan : Type 0 where
  pub version : ℕ
  pub run : String
  pub rerun_checks : Bool
  pub source : String
  pub baseline : String
  pub checks : List PlannedCheck

-- The names of a check's stages; only a command check has any.
abbrev stage_names : Option CommandCheck → String × String
stage_names none = ("", "")
stage_names (some command) = (command.preparation, command.build)

abbrev is_two : ℕ → Bool
is_two n = eqb n 2

-- The freshness of a native check, which has to say how it runs afresh.
unfoldable pub check_rerun : Bool → Check → Environment → Result (Unit {0})
check_rerun rerun check e =
    if rerun && is_native e.executor
    then elim (native_kind_of check.kind) [
      | none ↦ ok tt
      | some kind ↦ run_rerun_ready kind.rerun_ready check
    ]
    else ok tt

module _ (host : Host) where
  -- contained, and the test for a directory
  unfoldable pub check_directory : String → String → Result (Unit {0})
  check_directory source path = do
    refuse (not (relative path)) (path_unavailable path)
    directory ← found (host.stat source path) (path_unavailable path)
    refuse (not directory) (not_a_directory path)

  -- The paths that a target declares.
  unfoldable pub check_target : String → Check → Environment → Target → Result (Unit {0})
  unfolding check_directory
  check_target source check e target = do
    for_each (check_directory source) (target.dir ∷ target.workspace ∷ [])
    refuse (is_empty target.inputs) (inputs_missing check.target)
    for_each (λ path. refuse (not (relative path)) (bad_input path)) target.inputs
    for_each (λ path. refuse (not (literal_path path) || path == ".") (bad_exclude path))
        target.exclude
    refuse (not (discovery_known target.discovery)) (unknown_discovery check.target)
    for_each (λ path. refuse (not (host.spelled_as_on_disk source path)) (misspelled path))
        (target.inputs ++ target.exclude)
    if is_dagger e.executor then discard (dagger_includes target.inputs) else ok tt

module _ (host : Host) (cfg : Config) where
  -- The tests of planCheck before it looks at the target.
  unfoldable pub check_kind : Bool → Check → Environment → Target → Result (Unit {0})
  unfolding check_rerun
  check_kind rerun check e target = do
    validate_check host.parse_duration check e
    refuse
        (is_two cfg.version
          && (is_native e.executor && not (is_empty (planned_rule_modules cfg check))))
        community_needs_dagger
    check_rerun rerun check e
    refuse (root_only check.kind && not (target.dir == ".")) root_target_only

  -- planCheck. An error of these tests names the check; one of the paths does not.
  unfoldable pub plan_check : String → Selection → Bool → Result PlannedCheck
  plan_check source selected rerun = do
    let check = selected.check
    declared ←
        wrap (in_check selected.id)
          (found (lookup check.target cfg.targets) (unknown_target check.target))
    e ←
        wrap (in_check selected.id) (
          found (lookup check.environment cfg.environments) (unknown_environment check.environment))
    wrap (in_check selected.id) (check_kind rerun check e declared)
    let target = with_defaults declared
    check_target host source check e target
    preparation ←
        resolve_stage host.parse_duration cfg.preparations "preparation"
          (stage_names check.command).0
    build ← resolve_stage host.parse_duration cfg.builds "build" (stage_names check.command).1
    ok (record {
      id = selected.id;
      check = check;
      target = target;
      environment = e;
      preparation = preparation;
      build = build;
      rule_modules = planned_rule_modules cfg check;
    })

  -- The inner loop: the checks of one reference, after those already planned.
  unfoldable pub plan_selected :
      String → Bool → List PlannedCheck → List Selection → Result (List PlannedCheck)
  plan_selected source rerun planned [] = ok planned
  plan_selected source rerun planned (selected ∷ rest) = do
    refuse (any (λ (p : PlannedCheck). p.id == selected.id) planned) (duplicate_check selected.id)
    next ← plan_check source selected rerun
    plan_selected source rerun (planned ++ next ∷ []) rest

  -- The outer loop, over the references of the run.
  unfoldable pub plan_references :
      String → Bool → List PlannedCheck → List String → Result (List PlannedCheck)
  plan_references source rerun planned [] = ok planned
  plan_references source rerun planned (reference ∷ references) = do
    selected ← selections cfg reference
    planned' ← plan_selected source rerun planned selected
    plan_references source rerun planned' references

  -- Config.Plan
  unfoldable pub plan : String → String → Result Plan
  plan source name = do
    root ← host.resolve source
    run ← found (lookup name cfg.runs) (empty_run name)
    refuse (is_empty run.checks) (empty_run name)
    validate_rule_modules host.is_module_path host.is_pinned_version cfg
    refuse (not (cfg.baseline == "") && not (valid_baseline_path cfg.baseline))
        (bad_baseline_path cfg.baseline)
    checks ← plan_references root run.rerun_checks [] run.checks
    ok (record {
      version = 1;
      run = name;
      rerun_checks = run.rerun_checks;
      source = root;
      baseline = cfg.baseline;
      checks = checks;
    })
