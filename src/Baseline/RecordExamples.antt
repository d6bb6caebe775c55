-- ===== src/Baseline/RecordExamples.antt =====
-- The run of Baseline/Examples, recorded by a repository that has no entry yet.
use levenshtein.Base.{◌≡◌, refl, [], ◌∷◌, some, All}
use levenshtein.Paths.{relative}
use levenshtein.Baseline.Entry.{
  BaselineEntry, BaselineKey, entry_key, parse_entries, validate_entry,
}
use levenshtein.Baseline.Mark.{covers, allowance}
use levenshtein.Baseline.Parsed.{allowance-own}
use levenshtein.Baseline.Examples.{lint_check, lint_result}
use levenshtein.Base.{true, List, ◌≤◌}
use levenshtein.Plan.{PlannedCheck}
use levenshtein.Baseline.Marked.{occurrences}
use levenshtein.Kinds.{baseline_kind}
use levenshtein.Report.{CheckResult, detail_findings, planned_check}
use levenshtein.Baseline.Entry.{normalize_message, finding_key, key_eq}
use levenshtein.Baseline.Mark.{completed}
use levenshtein.Baseline.Messages.{Baseline, judged_entries}
use levenshtein.Baseline.Record.{
  BaselineChange, record_run, judges, judge_counts, local_tally, raise_all, upsert, retain,
  final_counts, before_tally, entry_of, sort_entries, excess, unrecorded, tally_of,
}
use levenshtein.Baseline.Recorded.{Stable}
use levenshtein.Baseline.RoundTrip.{Settled, record_run-Settled, final_counts_reaches}
use levenshtein.Baseline.Examples.{empty_config, lint_report, lint_entry}

abbrev no_entries : Baseline
no_entries = record { path = "lint-baseline.json"; entries = [] }

abbrev one_entry : Baseline
one_entry = record {
  path = "lint-baseline.json";
  entries = (1, record lint_entry { count = 2 }) ∷ [];
}

abbrev two_added : BaselineChange
two_added = record { added = 2; removed = 0; unrecorded = [] }

both_recorded : record_run no_entries lint_report empty_config ≡ some (one_entry, two_added)
unfolding record_run judges judge_counts local_tally raise_all upsert retain before_tally entry_of
    sort_entries excess unrecorded tally_of completed detail_findings planned_check baseline_kind
    finding_key normalize_message key_eq levenshtein.Kinds.spec_of levenshtein.Kinds.describe_kinds
    levenshtein.Baseline.Record.insert_entry
both_recorded = refl

one_entry-Stable : All Stable (judged_entries one_entry)
unfolding normalize_message
one_entry-Stable = (refl, tt)

record_run-Settled_example :
    All (Settled (judged_entries one_entry)) (judges lint_report.plan.checks lint_report.results)
record_run-Settled_example =
    record_run-Settled no_entries one_entry lint_report empty_config two_added both_recorded
      one_entry-Stable

abbrev two_entries : List BaselineEntry
two_entries = lint_entry ∷ record lint_entry { file = "b.go"; count = 3 } ∷ []

two_entries_parsed : parse_entries [] two_entries ≡ true
unfolding parse_entries validate_entry entry_key normalize_message key_eq baseline_kind relative
    levenshtein.Kinds.spec_of levenshtein.Kinds.describe_kinds
two_entries_parsed = refl

allowance-own_example :
    All
      (λ (e : BaselineEntry).
        covers lint_check lint_result e ≡ true
        → allowance lint_check lint_result two_entries (entry_key e) ≡ e.count)
      two_entries
allowance-own_example = allowance-own lint_check lint_result two_entries two_entries_parsed

abbrev lint_key : BaselineKey
lint_key = entry_key lint_entry

final_counts_reaches_example :
    All
      (λ (j : PlannedCheck × CheckResult).
        occurrences j.0 lint_key (detail_findings j.1.details)
        ≤ tally_of lint_key (final_counts no_entries lint_report empty_config))
      (judges lint_report.plan.checks lint_report.results)
final_counts_reaches_example = final_counts_reaches no_entries lint_report empty_config lint_key
