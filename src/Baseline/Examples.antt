-- ===== src/Baseline/Examples.antt =====
-- A run whose lint check reports one finding twice, of which a baseline records one.
use levenshtein.Base.{
  ℕ, ◌≤◌, ◌≡◌, refl, ◌≢◌, ◌↔◌, ◌⊎◌, true, false, none, some, List, [], ◌∷◌, arith, any, all, min,
}
use levenshtein.Config.{passed, failed, is_passed, dagger, git, Config}
use levenshtein.Plan.{PlannedCheck}
use levenshtein.Report.{Finding, CheckResult, object, disabled, detail_findings}
use levenshtein.Baseline.Entry.{BaselineEntry, BaselineKey, finding_key}
use levenshtein.Baseline.Mark.{Counts, mark}
use levenshtein.Baseline.Messages.{Baseline, stale_finding}
use levenshtein.Baseline.Apply.{Report, judged, apply, orphaned, failing}
use levenshtein.Baseline.Marked.{occurrences, marked, marked-mark}
use levenshtein.Baseline.Verdict.{judged-status, apply-status}
use levenshtein.Baseline.Allowance.{mark-failing}

abbrev pub empty_config : Config
empty_config = record {
  version = 1;
  targets = [];
  environments = [];
  checks = [];
  runs = [];
  preparations = [];
  builds = [];
  baseline = "lint-baseline.json";
  rule_modules = [];
}

abbrev pub lint_check : PlannedCheck
lint_check = record {
  id = "lint";
  check = record {
    kind = "go-lint";
    target = "root";
    targets = [];
    environment = "go";
    command = none;
    semantic = none;
    mutation = none;
    lint = none;
    imports = none;
    apidiff = none;
  };
  target = record { dir = "."; workspace = "."; inputs = "." ∷ []; exclude = []; discovery = git };
  environment = record { executor = dagger; identity = ""; env = []; pass_env = []; tools = [] };
  preparation = none;
  build = none;
  rule_modules = [];
}

abbrev finding_on : ℕ → Finding
finding_on line = record {
  code = "errorlint";
  message = "declared at a.go:7:2";
  location = record { file = "a.go"; line = line; column = 1 };
  source = "";
  url = "";
  advisory = false;
  hint = "";
  baselined = false;
}

abbrev two_findings : List Finding
two_findings = finding_on 3 ∷ finding_on 9 ∷ []

abbrev pub lint_result : CheckResult
lint_result = record {
  id = "lint";
  implementation = none;
  toolchain = none;
  status = failed;
  duration_ms = 12;
  verified_at = none;
  stdout = "";
  stderr = "";
  error = "";
  cache = record { status = disabled; key = ""; reason = ""; lookup_ms = 0 };
  stages = [];
  execution_ms = 10;
  details = object (some two_findings) [];
  warnings = [];
}

abbrev pub lint_entry : BaselineEntry
lint_entry = record {
  kind = "go-lint";
  dir = ".";
  file = "a.go";
  code = "errorlint";
  message = "declared at a.go";
  count = 1;
}

abbrev pub lint_baseline : Baseline
lint_baseline = record { path = "lint-baseline.json"; entries = (4, lint_entry) ∷ [] }

abbrev pub lint_report : Report
lint_report = record {
  status = failed;
  plan = record {
    version = 1;
    run = "main";
    rerun_checks = false;
    source = "/src";
    baseline = "lint-baseline.json";
    checks = lint_check ∷ [];
  };
  results = lint_result ∷ [];
  baseline = none;
}

abbrev lint_key : BaselineKey
lint_key = finding_key lint_check (finding_on 3)

abbrev one_each : Counts
one_each key = 1

abbrev two_each : Counts
two_each key = 2

marked-mark_example :
    marked lint_check lint_key (mark lint_check one_each two_findings).0
    ≡ min (one_each lint_key) (occurrences lint_check lint_key two_findings)
marked-mark_example = marked-mark lint_check lint_key one_each two_findings (refl, (refl, tt))

apply-status_example : ((apply lint_baseline lint_report empty_config).status ≡ passed) ↔ (
    ((apply lint_baseline lint_report empty_config).results ≢ [])
    × (all
          (λ (r : CheckResult). is_passed r.status)
          (apply lint_baseline lint_report empty_config).results
        ≡ true)
    × (orphaned lint_baseline lint_report empty_config ≡ []))
apply-status_example = apply-status lint_baseline lint_report empty_config

judged-status_example :
    (((judged lint_result (stale_finding lint_baseline (4, lint_entry) 1 ∷ [])).status ≡ passed) ↔ (
      (any failing (detail_findings lint_result.details) ≡ false)
      × (stale_finding lint_baseline (4, lint_entry) 1 ∷ [] ≡ [])))
    × (((judged lint_result (stale_finding lint_baseline (4, lint_entry) 1 ∷ [])).status ≡ passed)
        ⊎ ((judged lint_result (stale_finding lint_baseline (4, lint_entry) 1 ∷ [])).status
            ≡ failed))
judged-status_example =
    judged-status lint_result (stale_finding lint_baseline (4, lint_entry) 1 ∷ [])

twice_at_most : (key : BaselineKey) → occurrences lint_check key two_findings ≤ two_each key
unfolding occurrences
twice_at_most key = ground arith

mark-failing_example : any failing (mark lint_check two_each two_findings).0 ≡ false
mark-failing_example = mark-failing lint_check two_each two_findings twice_at_most
