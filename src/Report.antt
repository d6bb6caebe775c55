-- ===== src/Report.antt =====
-- internal/verify/run.go, report.go, findings.go, status.go and render.go: results, reports and the findings that a
-- result carries. `details` is the JSON that an executor attached, read the two ways the code reads it.
pub mod Verdict
mod Examples
use levenshtein.Base.{
  ℕ, zero, suc, ◌+◌, ◌-◌, ◌≤◌, ◌<◌, Char, code, String, ◌≡◌, refl, sym, ap, ◌∙◌, ◌≢◌, ◌↔◌, ◌⊎◌, inl,
  inr, Bool, true, false, not, ◌&&◌, ◌||◌, Option, none, some, List, [], ◌∷◌, ◌++◌, map, arith,
  ◌==◌, eq_iff, eq_refl, ltb, leb, eqb, if◌then◌else◌, Bool-cases, Option-cases, is_some, length,
  is_empty, any, all, keep, count_if, All, All-append, any_char, all_char, cut_prefix, has_prefix,
  cut_last, split, str_leb, min, max, Dict, lookup, sorted_keys, contains, join, concat,
}
use levenshtein.Result.{
  Error, Result, ok, err, ◌>>=◌, ◌>>◌, refuse, for_each, wrap, found, is_ok, >>=-eq-ok, >>-eq-ok,
  wrap-eq-ok, found-eq-ok, refuse-eq-ok, for_each-refuse, discard, Result-cases,
  options_of_another_kind, invalid_base, imports_missing, no_native_stage_options,
  native_options_on_dagger, unsupported_executor, not_native, unknown_dagger_check,
  bad_mutation_scope, base_without_effect, bad_accepted_file, bad_tags, empty_lint_options,
  bad_community_pattern, bad_core_pattern, empty_rules, bad_import_rule, shared_options,
  semantic_on_command, args_missing, cache_needs_identity, empty_rerun_args, bad_artifact,
  command_on_semantic, unpinned_model, bad_limits, committed_credential, bad_env_name,
  bad_env_entry, bad_timeout, incomplete_tool, unknown_stage, incomplete_stage, bad_stage_path,
  rerun_args_missing, empty_run, bad_baseline_path, duplicate_check, unknown_check, one_target_only,
  unknown_target_of, target_count, duplicate_target, unknown_target, unknown_environment,
  community_needs_dagger, root_target_only, path_unavailable, not_a_directory, inputs_missing,
  bad_input, bad_exclude, unknown_discovery, misspelled, bad_dagger_input, bad_rule_modules,
  in_check,
}
use levenshtein.Config.{
  CheckKind, Status, passed, failed, error, cancelled, incomplete, invalid, is_passed, is_failed,
  ExecutorKind, dagger, native, unknown, is_dagger, is_native, DiscoveryKind, unset, git,
  filesystem, unlisted, RuleModule, Target, Tool, Environment, Preparation, CommandCheck, Limit,
  at_least_zero, below_zero, SemanticCheck, MutationCheck, scope_changed, scope_module, LintCheck,
  ImportRule, ImportsCheck, ApidiffCheck, Check, Run, Config, go_lint, go_mutation, go_imports,
  go_apidiff, semantic_lint,
}
use levenshtein.Config.Options.{
  at, artifacts, env, cacheable, lint_checks, is_community_pattern, core_lint_checks,
  community_lint_checks, uses_rule_modules, mutation_options,
}
use levenshtein.Words.{
  trim_minus, is_lint_pattern, is_community_shape, is_community_code, has_blank, is_git_ref,
  is_env_name, is_pinned_model, import_path_pattern, local_import_pattern, has_pattern_meta,
  private_source_path, is_letter, is_digit,
}
use levenshtein.Paths.{relative}
use levenshtein.Kinds.{default_gates}
use levenshtein.Plan.{PlannedCheck, Plan}

-- checktool.Location
pub record Location : Type 0 where
  pub file : String
  pub line : ℕ
  pub column : ℕ

-- finding
pub record Finding : Type 0 where
  pub code : String
  pub message : String
  pub location : Location
  pub source : String
  pub url : String
  pub advisory : Bool
  pub hint : String
  pub baselined : Bool

-- fails
abbrev pub fails : Finding → Bool
fails f = not f.advisory && not f.baselined

-- json.RawMessage: none, null, what is no object, or an object with its findings, if it has them in the
-- shared shape, and its other fields.
pub data Details : Type 0 where
  absent null : Details
  scalar : String → Details
  object : Option (List Finding) → Dict String → Details

unfoldable pub detail_findings : Details → List Finding
detail_findings absent = []
detail_findings null = []
detail_findings (scalar raw) = []
detail_findings (object none fields) = []
detail_findings (object (some findings) fields) = findings

unfoldable pub replace_findings : Details → List Finding → Details
replace_findings absent findings = object (some findings) []
replace_findings null findings = object (some findings) []
replace_findings (scalar raw) findings = scalar raw
replace_findings (object old fields) findings = object (some findings) fields

pub data WarningKind : Type 0 where
  rule_modules_skipped rule_module_deprecated rule_module_retracted rule_renamed rule_deprecated
        detached_output output_truncated :
      WarningKind

pub record Warning : Type 0 where
  pub kind : WarningKind
  pub message : String

-- `unstated` is the zero value, of a result that says nothing of the cache.
pub data CacheStatus : Type 0 where
  unstated disabled unavailable miss hit fresh : CacheStatus

pub record CacheInfo : Type 0 where
  pub status : CacheStatus
  pub key : String
  pub reason : String
  pub lookup_ms : ℕ

-- StageResult, with its kind as text
pub record StageResult : Type 0 where
  pub kind : String
  pub key : String
  pub reused : Bool
  pub duration_ms : ℕ

-- Result. `verified_at` is `none` for the zero time.
pub record CheckResult : Type 0 where
  pub id : String
  pub implementation : Option String
  pub toolchain : Option String
  pub status : Status
  pub duration_ms : ℕ
  pub verified_at : Option ℕ
  pub stdout : String
  pub stderr : String
  pub error : String
  pub cache : CacheInfo
  pub execution_ms : ℕ
  pub stages : List StageResult
  pub details : Details
  pub warnings : List Warning

unfoldable pub with_outcome : CheckResult → Status → String → CheckResult
with_outcome r status message = record r { status = status; error = message }

unfoldable pub with_details : CheckResult → Details → CheckResult
with_details r details = record r { details = details }

unfoldable pub with_cache : CheckResult → CacheInfo → CheckResult
with_cache r cache = record r { cache = cache }

-- reportStatus
unfoldable pub report_status : List CheckResult → Status
report_status [] = incomplete
report_status (r ∷ rs) =
    if any (λ (x : CheckResult). not (is_passed x.status)) (r ∷ rs) then failed else passed

-- Report.planned: the map keeps the last check of an identifier.
unfoldable pub planned_check : List PlannedCheck → String → Option PlannedCheck
planned_check [] id = none
planned_check (p ∷ ps) id =
    let rest = planned_check ps id in
    elim rest [ some q ↦ some q | none ↦ if p.id == id then some p else none ]

-- sharedShape
unfoldable pub shared_shape : CheckKind → Bool
shared_shape kind = not (kind == semantic_lint)

-- mapFindings, on one result
rewrite_result :
    (PlannedCheck → List Finding → List Finding) → CheckResult → Option PlannedCheck → CheckResult
rewrite_result rewrite result none = result
rewrite_result rewrite result (some check) =
    let findings = detail_findings result.details in
    if shared_shape check.check.kind && not (is_empty findings)
    then with_details result (replace_findings result.details (rewrite check findings))
    else result

unfoldable pub map_findings :
    (PlannedCheck → List Finding → List Finding)
    → List PlannedCheck
    → List CheckResult
    → List CheckResult
unfolding rewrite_result
map_findings rewrite checks results =
    map (λ (r : CheckResult). rewrite_result rewrite r (planned_check checks r.id)) results

-- checkParallelism; `procs` is runtime.GOMAXPROCS(0).
abbrev max_check_parallelism : ℕ
max_check_parallelism = 4

unfoldable pub check_parallelism : ℕ → ℕ → ℕ → ℕ
check_parallelism procs n jobs =
    if leb n 1
    then 1
    else (let limit = max (if ltb 0 jobs then jobs else min procs max_check_parallelism) 1 in
        if ltb n limit then n else limit)

-- The last part of executeCheck: a status that is none of the five is an error.
unfoldable pub settle : CheckResult → CheckResult
settle result = elim result.status [
  | invalid text ↦ with_outcome result error "executor returned an invalid status"
  | _ ↦ result
]
