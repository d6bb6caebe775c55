-- ===== src/Report/Verdict.antt =====
-- internal/verify/report.go and run.go: the verdict of a run, and the number of its workers.
use mathlib.Core.Path.{ap₂}
use levenshtein.Base.{
  ℕ, ◌≤◌, ◌≡◌, refl, ap, ◌≢◌, ◌↔◌, Bool, true, not, ◌||◌, Option, none, some, List, [], ◌∷◌, arith,
  ltb, if◌then◌else◌, any, all, max,
}
use levenshtein.Config.{Status, passed, failed, incomplete, is_passed}
use levenshtein.Plan.{PlannedCheck}
use levenshtein.Report.{
  CheckResult, Finding, report_status, check_parallelism, rewrite_result, planned_check,
  map_findings, with_details,
}

any-not {ℓ} : {A : Type ℓ} (p : A → Bool) (xs : List A) → any (λ x. not (p x)) xs ≡ not (all p xs)
any-not p [] = refl
any-not p (x ∷ xs) = ground (arith, any-not p xs)

-- A run passes exactly when it has a result and every result passed; it is incomplete exactly when it
-- has none.
pub report_status_passed :
    (results : List CheckResult)
    → ((report_status results ≡ passed)
        ↔ ((results ≢ []) × (all (λ (r : CheckResult). is_passed r.status) results ≡ true)))
      × ((report_status results ≡ incomplete) ↔ (results ≡ []))
unfolding report_status
report_status_passed [] = ((λ h. cc h, λ h. absurd (h.0 refl)), (λ h. refl, λ h. refl))
report_status_passed (r ∷ rs) =
    let e = any-not (λ (x : CheckResult). is_passed x.status) (r ∷ rs) in
    ((λ h. (λ n. cc n, ground arith), λ h. ground arith), (λ h. ground arith, λ h. cc h))

-- The number of workers is at least one, at most the number of checks if there is one, and at most the
-- caller's bound, or four without one.
pub check_parallelism_bounds :
    (procs n jobs : ℕ)
    → (1 ≤ check_parallelism procs n jobs)
      × (check_parallelism procs n jobs ≤ max n 1)
      × (check_parallelism procs n jobs ≤ (if ltb 0 jobs then jobs else 4))
unfolding check_parallelism
check_parallelism_bounds procs n jobs = (ground arith, ground arith, ground arith)

rewrite_result-status :
    (rewrite : PlannedCheck → List Finding → List Finding) (r : CheckResult)
    (o : Option PlannedCheck)
    → (rewrite_result rewrite r o).status ≡ r.status
unfolding rewrite_result with_details
rewrite_result-status rewrite r none = refl
rewrite_result-status rewrite r (some check) = ground arith

any_status :
    (rewrite : PlannedCheck → List Finding → List Finding) (checks : List PlannedCheck)
    (rs : List CheckResult)
    → any (λ (x : CheckResult). not (is_passed x.status)) (map_findings rewrite checks rs)
      ≡ any (λ (x : CheckResult). not (is_passed x.status)) rs
unfolding map_findings
any_status rewrite checks [] = refl
any_status rewrite checks (r ∷ rs) =
    ap₂ (λ (s : Status) (b : Bool). not (is_passed s) || b)
      (rewrite_result-status rewrite r (planned_check checks r.id)) (any_status rewrite checks rs)

-- Rewriting the findings of a report, as hints do, leaves its verdict as it was.
report_status-map_findings :
    (rewrite : PlannedCheck → List Finding → List Finding) (checks : List PlannedCheck)
    (results : List CheckResult)
    → report_status (map_findings rewrite checks results) ≡ report_status results
unfolding report_status map_findings
report_status-map_findings rewrite checks [] = refl
report_status-map_findings rewrite checks (r ∷ rs) =
    ap (λ (b : Bool). if b then failed else passed) (any_status rewrite checks (r ∷ rs))
