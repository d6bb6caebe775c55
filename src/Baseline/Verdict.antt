-- ===== src/Baseline/Verdict.antt =====
-- What Apply concludes: of one result, and of the report.
use mathlib.Core.List.{append-nil}
use levenshtein.Base.{◌≡◌, refl, ◌≢◌, ◌↔◌, ◌⊎◌, true, false, none, List, [], ◌∷◌, arith, any, all}
use levenshtein.Config.{passed, failed, is_passed, Config}
use levenshtein.Plan.{PlannedCheck}
use levenshtein.Report.{
  Finding, detail_findings, CheckResult, with_outcome, with_details, report_status,
}
use levenshtein.Baseline.Entry.{BaselineEntry}
use levenshtein.Baseline.Messages.{Baseline}
use levenshtein.Baseline.Apply.{
  Report, judging, mark_step, mark_result, failing, judged, judge_steps, orphaned, steps_of, apply,
  sort_findings, status_with,
}
use levenshtein.Report.Verdict.{report_status_passed}

-- A judged result passes exactly when none of its findings fails on its own account and no entry is
-- stale; otherwise it fails.
pub judged-status :
    (result : CheckResult) (stale : List Finding)
    → (((judged result stale).status ≡ passed)
        ↔ ((any failing (detail_findings result.details) ≡ false) × (stale ≡ [])))
      × (((judged result stale).status ≡ passed) ⊎ ((judged result stale).status ≡ failed))
unfolding judged with_outcome with_details sort_findings
judged-status result [] =
    let same = append-nil (detail_findings result.details) in
    ((λ h. (ground (arith, same), refl), λ h. ground (arith, same)), ground (arith, same))
judged-status result (f ∷ fs) = ((λ h. ground arith, λ h. cc h.1), ground arith)

status_with-passed {ℓ} :
    {A : Type ℓ} (results : List CheckResult) (orphans : List A)
    → (status_with results orphans ≡ passed) ↔ ((report_status results ≡ passed) × (orphans ≡ []))
unfolding status_with
status_with-passed results [] = (λ h. (h, refl), λ h. h.0)
status_with-passed results (o ∷ os) = (λ h. ground arith, λ h. cc h.1)

-- The report passes after Apply exactly when it has a result, every result passes and no entry is an
-- orphan.
pub apply-status :
    (b : Baseline) (report : Report) (cfg : Config)
    → ((apply b report cfg).status ≡ passed) ↔ (
        ((apply b report cfg).results ≢ [])
        × (all (λ (r : CheckResult). is_passed r.status) (apply b report cfg).results ≡ true)
        × (orphaned b report cfg ≡ []))
unfolding apply
apply-status b report cfg =
    let results = judge_steps b (steps_of b report) [] (steps_of b report) in
    let split = status_with-passed results (orphaned b report cfg) in
    let run = (report_status_passed results).0 in
    (
      λ h. let (p, o) = split.0 h in ((run.0 p).0, (run.0 p).1, o),
      λ h. split.1 (run.1 (h.0, h.1), h.2),
    )

-- Apply leaves the result of a check that it does not judge as it was.
pub mark_step-unjudged :
    (checks : List PlannedCheck) (entries : List BaselineEntry) (result : CheckResult)
    → judging checks result ≡ none
    → (mark_step checks entries result).result ≡ result
unfolding mark_step mark_result
mark_step-unjudged checks entries result h = ground arith
