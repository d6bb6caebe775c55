-- ===== src/Baseline/Apply.antt =====
-- internal/verify/baseline.go: Apply, which judges a finished report against the baseline.
use levenshtein.Base.{
  ℕ, ◌+◌, String, Bool, false, not, ◌&&◌, ◌||◌, Option, none, some, List, [], ◌∷◌, ◌++◌, map, ◌==◌,
  ltb, eqb, if◌then◌else◌, is_some, length, is_empty, any, keep, count_if, str_leb, min,
}
use levenshtein.Config.{Status, passed, failed, is_passed, Config}
use levenshtein.Kinds.{baseline_kind}
use levenshtein.Plan.{PlannedCheck, Plan}
use levenshtein.Report.{
  Finding, fails, detail_findings, replace_findings, CheckResult, with_outcome, with_details,
  report_status, planned_check,
}
use levenshtein.Baseline.Entry.{BaselineEntry, entry_key}
use levenshtein.Baseline.Messages.{Baseline, judged_entries, stale_finding, orphan_finding}
use levenshtein.Baseline.Configured.{configured_checks}
use levenshtein.Baseline.Mark.{
  Counts, baseline_stale_code, completed, covers, produces, allowance, mark,
}

pub record BaselineSummary : Type 0 where
  pub file : String
  pub baselined : ℕ
  pub stale : ℕ
  pub orphaned : List Finding

pub record Report : Type 0 where
  pub status : Status
  pub plan : Plan
  pub results : List CheckResult
  pub baseline : Option BaselineSummary

-- A check whose result Apply touches.
unfoldable pub judging : List PlannedCheck → CheckResult → Option PlannedCheck
judging checks result = elim (planned_check checks result.id) [
  | none ↦ none
  | some check ↦ if baseline_kind check.check.kind && completed result then some check else none
]

-- What the first loop leaves of one result.
pub record Step : Type 0 where
  pub result : CheckResult
  pub judge : Option PlannedCheck
  pub covering : BaselineEntry → Bool
  pub left : Counts
  pub baselined : ℕ

unfoldable pub mark_result : List BaselineEntry → CheckResult → Option PlannedCheck → Step
mark_result entries result none = record {
  result = result;
  judge = none;
  covering = λ _. false;
  left = λ _. 0;
  baselined = 0;
}
mark_result entries result (some check) =
    let old = detail_findings result.details in
    let (findings, left, n) = mark check (allowance check result entries) old in
    record {
      result =
          if is_empty old
          then result
          else with_details result (replace_findings result.details findings);
      judge = some check;
      covering = covers check result;
      left = left;
      baselined = n;
    }

unfoldable pub mark_step : List PlannedCheck → List BaselineEntry → CheckResult → Step
mark_step checks entries result = mark_result entries result (judging checks result)

-- unused[index]: what each step that covers an entry left of it
unfoldable pub unused : List Step → BaselineEntry → List ℕ
unused [] e = []
unused (s ∷ ss) e =
    let rest = unused ss e in if s.covering e then s.left (entry_key e) ∷ rest else rest

-- slices.Min, or 0 for an entry that no step covers
unfoldable pub missing : List ℕ → ℕ
missing [] = 0
missing (n ∷ []) = n
missing (n ∷ m ∷ ns) = min n (missing (m ∷ ns))

-- firstCover[index] is this step: it covers the entry, and no earlier one does.
abbrev first_covers : List Step → Step → BaselineEntry → Bool
first_covers earlier s e = s.covering e && not (any (λ (x : Step). x.covering e) earlier)

-- stale[i] of the step: the entries that it is the first to cover and that no step uses up.
unfoldable pub stale_of :
    Baseline → List Step → List Step → Step → List (ℕ × BaselineEntry) → List Finding
stale_of b steps earlier s [] = []
stale_of b steps earlier s (e ∷ es) =
    let rest = stale_of b steps earlier s es in
    let n = missing (unused steps e.1) in
    if first_covers earlier s e.1 && ltb 0 n then stale_finding b e n ∷ rest else rest

-- slices.SortFunc by line, then by message
abbrev finding_leb : Finding → Finding → Bool
finding_leb f g =
    ltb f.location.line g.location.line
    || (eqb f.location.line g.location.line && str_leb f.message g.message)

unfoldable pub insert_finding : Finding → List Finding → List Finding
insert_finding f [] = f ∷ []
insert_finding f (g ∷ gs) =
    let rest = insert_finding f gs in if finding_leb f g then f ∷ g ∷ gs else g ∷ rest

unfoldable pub sort_findings : List Finding → List Finding
sort_findings [] = []
sort_findings (f ∷ fs) = insert_finding f (sort_findings fs)

-- A finding that fails its check on its own account.
abbrev pub failing : Finding → Bool
failing f = fails f && not (f.code == baseline_stale_code)

unfoldable pub judged : CheckResult → List Finding → CheckResult
judged result stale =
    let findings = detail_findings result.details ++ sort_findings stale in
    let shown =
      if is_empty stale
      then result
      else with_details result (replace_findings result.details findings) in
    if any failing findings
    then with_outcome shown failed result.error
    else if not (is_empty stale)
    then with_outcome shown failed "baseline entries no longer match; remove them"
    else with_outcome shown passed ""

-- The second loop, with the steps already judged.
unfoldable pub judge_steps : Baseline → List Step → List Step → List Step → List CheckResult
judge_steps b steps earlier [] = []
judge_steps b steps earlier (s ∷ ss) =
    (if is_some s.judge then judged s.result (stale_of b steps earlier s b.entries) else s.result)
    ∷ judge_steps b steps (earlier ++ s ∷ []) ss

-- Whether a result of the run is of a check that covers the entry.
unfoldable pub run_covers : List PlannedCheck → List CheckResult → BaselineEntry → Bool
run_covers checks results e =
    any
      (λ (r : CheckResult). elim (planned_check checks r.id) [
        | none ↦ false
        | some check ↦ covers check r e
      ])
      results

-- orphaned: no configured check can report the entry, and none of the run covers it.
unfoldable pub is_orphan : Report → Config → BaselineEntry → Bool
is_orphan report cfg e =
    not (any (λ (check : PlannedCheck). produces check e) (configured_checks cfg))
    && not (run_covers report.plan.checks report.results e)

unfoldable pub orphaned : Baseline → Report → Config → List (ℕ × BaselineEntry)
orphaned b report cfg = keep (λ (e : ℕ × BaselineEntry). is_orphan report cfg e.1) b.entries

unfoldable pub sum_baselined : List Step → ℕ
sum_baselined [] = 0
sum_baselined (s ∷ ss) = s.baselined + sum_baselined ss

-- staleCount: the entries that some step covers and none uses up
unfoldable pub stale_count : List Step → List (ℕ × BaselineEntry) → ℕ
stale_count steps es = count_if (λ (e : ℕ × BaselineEntry). ltb 0 (missing (unused steps e.1))) es

unfoldable pub steps_of : Baseline → Report → List Step
steps_of b report = map (mark_step report.plan.checks (judged_entries b)) report.results

-- Orphaned entries fail a run that would pass.
unfoldable pub status_with {ℓ} : {A : Type ℓ} → List CheckResult → List A → Status
status_with results orphans =
    let status = report_status results in
    if not (is_empty orphans) && is_passed status then failed else status

-- Apply
unfoldable pub apply : Baseline → Report → Config → Report
apply b report cfg =
    let steps = steps_of b report in
    let results = judge_steps b steps [] steps in
    let orphans = orphaned b report cfg in
    record report {
      results = results;
      status = status_with results orphans;
      baseline = some (record {
        file = b.path;
        baselined = sum_baselined steps;
        stale = stale_count steps b.entries + length orphans;
        orphaned = map (orphan_finding b report.plan.run) orphans;
      });
    }
