-- ===== src/Plan/Examples.antt =====
-- A configuration with one lint check on two targets, and its plan.
use levenshtein.Base.{
  String, ◌≡◌, refl, true, false, none, some, [], ◌∷◌, All, lookup, contains, concat,
}
use levenshtein.Result.{ok}
use levenshtein.Config.{dagger, unset, git, filesystem, Target, Environment, Check, Config}
use levenshtein.Config.Options.{
  at, artifacts, env, is_community_pattern, community_lint_checks, uses_rule_modules,
}
use levenshtein.Words.{is_lint_pattern, has_blank, has_pattern_meta}
use levenshtein.Paths.{relative}
use levenshtein.Paths.{relative}
use levenshtein.Kinds.{native_kind_of, root_only, shared_go_check, dagger_function}
use levenshtein.Words.{has_blank, has_pattern_meta}
use levenshtein.Validation.{
  validate_check, validate_options, by_executor, validate_dagger_check, validate_lint_checks,
  validate_environment, validate_env, resolve_stage, nanoseconds,
}
use levenshtein.RuleModules.{validate_rule_modules, validate_advisory, planned_rule_modules}
use levenshtein.Plan.{
  Host, PlannedCheck, Plan, plan, plan_references, plan_selected, plan_check, check_kind,
  check_target, check_directory, check_rerun, selections, validate_targets, with_defaults,
  discovery_known, literal_path, dagger_includes, valid_baseline_path,
}
use levenshtein.Plan.Targets.{Selection}
use levenshtein.Plan.Targets.Bound.{Bound, selections-Bound}
use levenshtein.Plan.Unique.{Distinct, plan-Distinct}
use levenshtein.Plan.Sound.{IsRunnable, plan-IsRunnable}

-- A host on which every path exists and is spelled as written.
abbrev open_host : Host
open_host = record {
  resolve = λ source. ok source;
  stat = λ source path. some true;
  spelled_as_on_disk = λ source path. true;
  parse_duration = λ text. some (nanoseconds 1);
  is_module_path = λ path. true;
  is_pinned_version = λ path version. true;
}

abbrev root_target : Target
root_target = record {
  dir = ".";
  workspace = "";
  inputs = "." ∷ [];
  exclude = "docs" ∷ [];
  discovery = unset;
}

abbrev api_target : Target
api_target = record {
  dir = "api";
  workspace = "api";
  inputs = "api" ∷ [];
  exclude = [];
  discovery = filesystem;
}

abbrev go_environment : Environment
go_environment = record { executor = dagger; identity = ""; env = []; pass_env = []; tools = [] }

abbrev lint_all : Check
lint_all = record {
  kind = "go-lint";
  target = "";
  targets = "root" ∷ "api" ∷ [];
  environment = "go";
  command = none;
  semantic = none;
  mutation = none;
  lint = some (record { checks = "-SA5001" ∷ []; rule_modules = none });
  imports = none;
  apidiff = none;
}

abbrev lint_config : Config
lint_config = record {
  version = 1;
  targets = ("root", root_target) ∷ ("api", api_target) ∷ [];
  environments = ("go", go_environment) ∷ [];
  checks = ("lint", lint_all) ∷ [];
  runs = ("main", record { checks = "lint" ∷ []; rerun_checks = false }) ∷ [];
  preparations = [];
  builds = [];
  baseline = "";
  rule_modules = [];
}

abbrev planned_lint : String → Target → PlannedCheck
planned_lint name target = record {
  id = concat "lint/" name;
  check = record lint_all { target = name; targets = [] };
  target = target;
  environment = go_environment;
  preparation = none;
  build = none;
  rule_modules = [];
}

abbrev lint_plan : Plan
lint_plan = record {
  version = 1;
  run = "main";
  rerun_checks = false;
  source = "/src";
  baseline = "";
  checks =
      planned_lint "root" (record root_target { workspace = "."; discovery = git })
      ∷ planned_lint "api" api_target
      ∷ [];
}

lint_planned : plan open_host lint_config "/src" "main" ≡ ok lint_plan
unfolding plan plan_references plan_selected plan_check check_kind check_target check_directory
    check_rerun selections validate_targets with_defaults discovery_known literal_path
    dagger_includes valid_baseline_path validate_rule_modules validate_advisory planned_rule_modules
    validate_check validate_options by_executor validate_dagger_check validate_lint_checks
    validate_environment validate_env resolve_stage relative native_kind_of root_only
    shared_go_check dagger_function has_blank has_pattern_meta lookup at is_lint_pattern
    is_community_pattern artifacts env contains community_lint_checks levenshtein.Kinds.spec_of
    levenshtein.Kinds.describe_kinds uses_rule_modules
lint_planned = refl

plan-Distinct_example : Distinct lint_plan.checks
plan-Distinct_example = plan-Distinct open_host lint_config "/src" "main" lint_plan lint_planned

plan-IsRunnable_example :
    All (IsRunnable open_host lint_plan.source lint_plan.rerun_checks) lint_plan.checks
plan-IsRunnable_example = plan-IsRunnable open_host lint_config "/src" "main" lint_plan lint_planned

abbrev api_selection : Selection
api_selection = record { id = "lint/api"; check = record lint_all { target = "api"; targets = [] } }

api_selected : selections lint_config "lint/api" ≡ ok (api_selection ∷ [])
unfolding selections validate_targets lookup at contains
api_selected = refl

selections-Bound_example : All Bound (api_selection ∷ [])
selections-Bound_example = selections-Bound lint_config "lint/api" (api_selection ∷ []) api_selected
