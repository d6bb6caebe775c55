-- ===== src/Report/Examples.antt =====
-- A run of two checks.
use levenshtein.Base.{
  ◌≤◌, String, ◌≡◌, ◌≢◌, ◌↔◌, true, false, none, some, List, [], ◌∷◌, ltb, if◌then◌else◌, all, max,
}
use levenshtein.Config.{Status, passed, failed, incomplete, is_passed}
use levenshtein.Report.{Finding, CheckResult, object, disabled, report_status, check_parallelism}
use levenshtein.Report.Verdict.{report_status_passed, check_parallelism_bounds}

abbrev result_of : String → Status → List Finding → CheckResult
result_of id status findings = record {
  id = id;
  implementation = none;
  toolchain = none;
  status = status;
  duration_ms = 12;
  verified_at = none;
  stdout = "";
  stderr = "";
  error = "";
  cache = record { status = disabled; key = ""; reason = ""; lookup_ms = 0 };
  stages = [];
  execution_ms = 10;
  details = object (some findings) [];
  warnings = [];
}

abbrev unwrapped : Finding
unwrapped = record {
  code = "errorlint";
  message = "use errors.Is";
  location = record { file = "a.go"; line = 3; column = 1 };
  source = "";
  url = "";
  advisory = false;
  hint = "";
  baselined = false;
}

abbrev two_results : List CheckResult
two_results = result_of "vet" passed [] ∷ result_of "lint" failed (unwrapped ∷ []) ∷ []

report_status_passed_example :
    ((report_status two_results ≡ passed)
      ↔ ((two_results ≢ []) × (all (λ (r : CheckResult). is_passed r.status) two_results ≡ true)))
    × ((report_status two_results ≡ incomplete) ↔ (two_results ≡ []))
report_status_passed_example = report_status_passed two_results

check_parallelism_bounds_example :
    (1 ≤ check_parallelism 8 3 0)
    × (check_parallelism 8 3 0 ≤ max 3 1)
    × (check_parallelism 8 3 0 ≤ (if ltb 0 0 then 0 else 4))
check_parallelism_bounds_example = check_parallelism_bounds 8 3 0
