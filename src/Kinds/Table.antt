-- ===== src/Kinds/Table.antt =====
-- internal/verify/kinds.go: the table of check kinds. The methods that a row names (`validate`,
-- `rerunReady`, `execute`) are the constructors of three data types; Validation runs the first two.
use levenshtein.Base.{String, Bool, true, false, Option, none, some, List, [], ◌∷◌}
use levenshtein.Config.{CheckKind}

pub data Validator : Type 0 where
  validate_shared_go_check validate_command_check validate_semantic_lint : Validator

pub data RerunReady : Type 0 where
  always_ready command_rerun_ready : RerunReady

-- `execute` starts a tool: the method of `Native` that runs.
pub data Runner : Type 0 where
  shared : String → Runner
  run_command semantic_lint apidiff : Runner

pub record NativeKind : Type 0 where
  pub validate : Validator
  pub rerun_ready : RerunReady
  pub execute : Runner

-- Every field of a row but its `summary`, which only the documentation shows.
pub record KindSpec : Type 0 where
  pub kind : CheckKind
  pub dagger : String
  pub native : Option NativeKind
  pub always_fresh : String
  pub base_dependent : String
  pub baseline : Bool
  pub located : Bool
  pub reporting : Bool
  pub root_only : Bool
  pub writes_workspace : Bool
  pub runs_repository_code : Bool
  pub go_toolchain : Bool
  pub default_check : Bool
  pub default_runs : List String

-- `kindSpec{}`: what an unknown kind has, and what a row leaves out.
unfoldable pub no_spec : KindSpec
no_spec = record {
  kind = "";
  dagger = "";
  native = none;
  always_fresh = "";
  base_dependent = "";
  baseline = false;
  located = false;
  reporting = false;
  root_only = false;
  writes_workspace = false;
  runs_repository_code = false;
  go_toolchain = false;
  default_check = false;
  default_runs = [];
}

abbrev pub default_gates : List String
default_gates = "branch" ∷ "pre-merge" ∷ "main" ∷ []

abbrev advisory_reason : String
advisory_reason = "vulnerability scans always query current advisory data"

abbrev module_reason : String
module_reason = "go mod verify always checks the current module cache"

abbrev mutation_reason : String
mutation_reason = "the mutated files depend on the base branch; Dagger reuses identical runs"

abbrev apidiff_reason : String
apidiff_reason =
    "the comparison depends on where the base branch points; Dagger reuses identical runs"

-- sharedNative
abbrev shared_native : String → Option NativeKind
shared_native run = some (record {
  validate = validate_shared_go_check;
  rerun_ready = always_ready;
  execute = shared run;
})

unfoldable pub describe_kinds : List KindSpec
unfolding no_spec
describe_kinds =
    record no_spec {
      kind = "go-lint";
      go_toolchain = true;
      dagger = "goLintReport";
      native = shared_native "goLint";
      baseline = true;
      located = true;
      reporting = true;
      default_check = true;
      default_runs = default_gates;
    }
    ∷ record no_spec {
      kind = "go-vet";
      go_toolchain = true;
      dagger = "sharedCheck";
      native = shared_native "goVet";
      default_check = true;
      default_runs = default_gates;
    }
    ∷ record no_spec {
      kind = "go-mod";
      go_toolchain = true;
      dagger = "sharedCheck";
      native = shared_native "goMod";
      always_fresh = module_reason;
      default_check = true;
      default_runs = default_gates;
    }
    ∷ record no_spec {
      kind = "go-test";
      go_toolchain = true;
      dagger = "sharedCheck";
      native = shared_native "goTest";
      runs_repository_code = true;
      default_check = true;
    }
    ∷ record no_spec {
      kind = "go-http";
      go_toolchain = true;
      dagger = "sharedCheck";
      baseline = true;
      located = true;
      default_check = true;
    }
    ∷ record no_spec {
      kind = "go-sql";
      go_toolchain = true;
      dagger = "sharedCheck";
      baseline = true;
      located = true;
      default_check = true;
    }
    ∷ record no_spec {
      kind = "go-vuln";
      go_toolchain = true;
      dagger = "sharedCheck";
      native = shared_native "goVuln";
      always_fresh = advisory_reason;
      default_check = true;
      default_runs = "main" ∷ [];
    }
    ∷ record no_spec {
      kind = "workflow-lint";
      dagger = "sharedCheck";
      native = shared_native "workflowLint";
      root_only = true;
      default_check = true;
    }
    ∷ record no_spec {
      kind = "workflow-security";
      dagger = "sharedCheck";
      native = shared_native "workflowSecurity";
      root_only = true;
      default_check = true;
    }
    ∷ record no_spec {
      kind = "shell-lint";
      dagger = "sharedCheck";
      native = shared_native "shellLint";
      baseline = true;
      located = true;
      root_only = true;
      default_check = true;
    }
    ∷ record no_spec {
      kind = "secrets";
      dagger = "sharedCheck";
      native = shared_native "secrets";
      located = true;
      root_only = true;
      default_check = true;
    }
    ∷ record no_spec {
      kind = "deps-vuln";
      dagger = "sharedCheck";
      native = shared_native "depsVuln";
      always_fresh = advisory_reason;
      located = true;
      root_only = true;
      default_check = true;
    }
    ∷ record no_spec { kind = "self-test"; dagger = "selfTest" }
    ∷ record no_spec {
      kind = "command";
      native = some (record {
        validate = validate_command_check;
        rerun_ready = command_rerun_ready;
        execute = run_command;
      });
      writes_workspace = true;
    }
    ∷ record no_spec {
      kind = "semantic-lint";
      native = some (record {
        validate = validate_semantic_lint;
        rerun_ready = always_ready;
        execute = semantic_lint;
      });
    }
    ∷ record no_spec {
      kind = "go-mutation";
      go_toolchain = true;
      dagger = "goMutation";
      base_dependent = mutation_reason;
      located = true;
      reporting = true;
      runs_repository_code = true;
    }
    ∷ record no_spec {
      kind = "go-imports";
      go_toolchain = true;
      dagger = "goImports";
      native = shared_native "goImports";
      baseline = true;
      located = true;
    }
    ∷ record no_spec {
      kind = "go-generate";
      go_toolchain = true;
      dagger = "goGenerate";
      native = shared_native "goGenerate";
      located = true;
      runs_repository_code = true;
      default_check = true;
    }
    ∷ record no_spec {
      kind = "go-apidiff";
      go_toolchain = true;
      dagger = "goApidiff";
      native = some (record {
        validate = validate_shared_go_check;
        rerun_ready = always_ready;
        execute = apidiff;
      });
      base_dependent = apidiff_reason;
      located = true;
      default_check = true;
    }
    ∷ []
