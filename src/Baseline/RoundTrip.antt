-- ===== src/Baseline/RoundTrip.antt =====
-- internal/verify/baseline.go: Record, and Apply with the baseline that it writes.
use mathlib.Core.Path.{subst}
use levenshtein.Base.{
  ℕ, ◌≤◌, ◌<◌, ◌≡◌, refl, sym, ap, ◌∙◌, inl, inr, true, false, not, ◌||◌, Option, none, some, List,
  [], ◌∷◌, map, arith, Bool-cases, any, all, is_empty, ltb, All, All-each, All-both, All-weaken,
}
use levenshtein.Config.{Config}
use levenshtein.Plan.{PlannedCheck}
use levenshtein.Report.{
  Finding, CheckResult, detail_findings, with_details, replace_findings, Details, absent, null,
  scalar, object,
}
use levenshtein.Baseline.Entry.{BaselineEntry, BaselineKey}
use levenshtein.Baseline.Mark.{covers, allowance, mark, completed}
use levenshtein.Baseline.Messages.{Baseline, judged_entries}
use levenshtein.Baseline.Apply.{Report, failing, mark_result}
use levenshtein.Baseline.Record.{
  Tally, tally_of, judges, judge_counts, covered_by, retain, entry_of, sort_entries, final_counts,
  record_run, BaselineChange,
}
use levenshtein.Baseline.Marked.{occurrences}
use levenshtein.Baseline.Allowance.{mark-failing}
use levenshtein.Baseline.Tallies.{Unique}
use levenshtein.Baseline.Sorted.{All-sort_entries}
use levenshtein.Baseline.Covering.{occurrences-covers, covers-covered_by}
use levenshtein.Baseline.Counted.{
  judge_counts-Unique, judge_counts_reaches, retain-Unique, retain-tally_of,
}
use levenshtein.Baseline.Recorded.{Stable, recorded_allowance}

-- The findings of a judged result after the first loop of Apply.
abbrev pub Settled : List BaselineEntry → PlannedCheck × CheckResult → Type 0
Settled entries j =
    any failing (detail_findings (mark_result entries j.1 (some j.0)).result.details) ≡ false

-- Replacing the findings of details that have some.
replaced :
    (d : Details) (fs : List Finding)
    → is_empty (detail_findings d) ≡ false
    → any failing fs ≡ false
    → any failing (detail_findings (replace_findings d fs)) ≡ false
unfolding detail_findings replace_findings
replaced absent fs e k = cc
replaced null fs e k = cc
replaced (scalar raw) fs e k = cc
replaced (object old fields) fs e k = k

marked_details :
    (check : PlannedCheck) (result : CheckResult) (entries : List BaselineEntry)
    → any failing (mark check (allowance check result entries) (detail_findings result.details)).0
      ≡ false
    → Settled entries (check, result)
unfolding mark_result with_details
marked_details check result entries h =
    elim (Bool-cases (is_empty (detail_findings result.details))) [
      | inl none_ ↦ ground arith
      | inr some_ ↦ rw some_ (
          replaced result.details
            (mark check (allowance check result entries) (detail_findings result.details)).0 some_
            h)
    ]

module _ (report : Report) (cfg : Config) (old : List BaselineEntry)
    (js : List (PlannedCheck × CheckResult)) where
  abbrev counts : Tally
  counts = retain report cfg js (judge_counts [] js) old

  -- What the counts say about one of the judges.
  abbrev Counted : PlannedCheck × CheckResult → Type 0
  Counted j =
      ((e : BaselineEntry) → covers j.0 j.1 e ≡ true → covered_by js e ≡ true)
      × ((key : BaselineKey)
          → occurrences j.0 key (detail_findings j.1.details) ≤ tally_of key (judge_counts [] js))

  judges-Counted : All Counted js
  judges-Counted =
      All-both
        (λ (j : PlannedCheck × CheckResult).
          (e : BaselineEntry) → covers j.0 j.1 e ≡ true → covered_by js e ≡ true)
        (λ (j : PlannedCheck × CheckResult).
          (key : BaselineKey)
          → occurrences j.0 key (detail_findings j.1.details) ≤ tally_of key (judge_counts [] js))
        Counted js (λ j c r. (c, r)) (covers-covered_by js)
        (All-each
          (λ (key : BaselineKey) (j : PlannedCheck × CheckResult).
            occurrences j.0 key (detail_findings j.1.details) ≤ tally_of key (judge_counts [] js))
          js (λ key. judge_counts_reaches key [] js))

  Counted-reach :
      (j : PlannedCheck × CheckResult) (key : BaselineKey)
      → Counted j
      → 0 < occurrences j.0 key (detail_findings j.1.details)
      → occurrences j.0 key (detail_findings j.1.details) ≤ tally_of key counts
  Counted-reach j key c some_ =
      let kept : tally_of key counts ≡ tally_of key (judge_counts [] js) =
        retain-tally_of report cfg js key (judge_counts [] js) old (λ e same_key. c.0 e (
          occurrences-covers j.0 j.1 e (
            subst (λ k. 0 < occurrences j.0 k (detail_findings j.1.details)) (sym same_key)
              some_))) in
      omega (arith, c.1 key, kept)

  judges-Settled :
      All Stable (map entry_of counts) → All (Settled (sort_entries (map entry_of counts))) js
  judges-Settled stable =
      let unique : Unique counts =
        retain-Unique report cfg js (judge_counts [] js) old (judge_counts-Unique [] js tt) in
      All-weaken Counted (Settled (sort_entries (map entry_of counts))) js
        (λ j c. marked_details j.0 j.1 (sort_entries (map entry_of counts)) (
          mark-failing j.0 (allowance j.0 j.1 (sort_entries (map entry_of counts)))
            (detail_findings j.1.details)
            (λ key. recorded_allowance j.0 j.1 counts stable unique key (Counted-reach j key c))))
        judges-Counted

recorded_entries : Option (Baseline × BaselineChange) → List BaselineEntry
recorded_entries none = []
recorded_entries (some (b, change)) = judged_entries b

lines_dropped :
    (es : List BaselineEntry)
    → map (λ (e : ℕ × BaselineEntry). e.1) (map (λ (e : BaselineEntry). (1, e)) es) ≡ es
lines_dropped [] = refl
lines_dropped (e ∷ es) = ap (λ rest. e ∷ rest) (lines_dropped es)

-- The entries that Record writes.
record_run-entries :
    (b b' : Baseline) (report : Report) (cfg : Config) (change : BaselineChange)
    → record_run b report cfg ≡ some (b', change)
    → judged_entries b' ≡ sort_entries (map entry_of (final_counts b report cfg))
unfolding record_run recorded_entries
record_run-entries b b' report cfg change h =
    elim (Bool-cases (not (all completed report.results) || is_empty report.results)) [
      | inl refused ↦ absurd (cc (rw refused at h))
      | inr done ↦
          sym (ap recorded_entries (rw done at h))
          ∙ lines_dropped (sort_entries (map entry_of (final_counts b report cfg)))
    ]

-- If every message that Record writes has no position left in it, then the baseline that it writes
-- leaves no finding of the run that fails a check whose findings it records.
pub record_run-Settled :
    (b b' : Baseline) (report : Report) (cfg : Config) (change : BaselineChange)
    → record_run b report cfg ≡ some (b', change)
    → All Stable (judged_entries b')
    → All (Settled (judged_entries b')) (judges report.plan.checks report.results)
record_run-Settled b b' report cfg change h stable =
    let js = judges report.plan.checks report.results in
    let written = record_run-entries b b' report cfg change h in
    let all_stable : All Stable (map entry_of (final_counts b report cfg)) =
      All-sort_entries Stable (map entry_of (final_counts b report cfg))
        (subst (All Stable) written stable) in
    subst (λ es. All (Settled es) js) (sym written)
      (judges-Settled report cfg (judged_entries b) js all_stable)

-- For every check of the run whose findings Record records, and for every key, the counts that Record writes hold
-- the key at least as often as that check reported recordable findings with it, whatever older entries are kept.
pub final_counts_reaches :
    (b : Baseline) (report : Report) (cfg : Config) (key : BaselineKey)
    → All
        (λ (j : PlannedCheck × CheckResult).
          occurrences j.0 key (detail_findings j.1.details)
          ≤ tally_of key (final_counts b report cfg))
        (judges report.plan.checks report.results)
final_counts_reaches b report cfg key =
    let js = judges report.plan.checks report.results in
    All-weaken (Counted report cfg (judged_entries b) js)
      (λ (j : PlannedCheck × CheckResult).
        occurrences j.0 key (detail_findings j.1.details)
        ≤ tally_of key (final_counts b report cfg))
      js
      (λ j c. elim (Bool-cases (ltb 0 (occurrences j.0 key (detail_findings j.1.details)))) [
        | inl some_ ↦ Counted-reach report cfg (judged_entries b) js j key c (ground (arith, some_))
        | inr none_ ↦ ground (arith, none_)
      ])
      (judges-Counted report cfg (judged_entries b) js)
