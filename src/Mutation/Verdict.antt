-- ===== src/Mutation/Verdict.antt =====
-- runner/mutation.go: decideMutation, from one run of gremlins to a verdict.
use levenshtein.Base.{
  ℕ, ◌+◌, ◌*◌, String, ◌⊎◌, inl, inr, Bool, false, not, ◌&&◌, ◌||◌, Option, none, some, List, [],
  ◌++◌, map, ltb, leb, eqb, if◌then◌else◌, length, keep, Dict, sorted_keys, concat, has_infix,
}
use levenshtein.Mutation.{GremlinsFile, AcceptedEntry, MutationMutant, MutationInput}
use levenshtein.Mutation.Index.{
  new_source_index, source_line, mutated_lines, EntryMatch, match_entry,
}
use levenshtein.Baseline.Messages.{decimal}
use levenshtein.Report.{Finding}
use levenshtein.Mutation.Tally.{
  MutationError, exited, no_report, invalid_report, MutationTally, no_tally, number_of, count_files,
}
use levenshtein.Mutation.Decide.{
  GoTools, MutationRun, MutationVerdict, mutant_time_floor, time_limit, trusted, sorted_mutants,
  module_file, mutation_finding, survivor_finding, Fate, fate, is_accepted, is_unchanged,
  is_failing, entry_findings,
}

abbrev min_timeouts_for_incomplete : ℕ
min_timeouts_for_incomplete = 3

abbrev min_timeouts_for_warning : ℕ
min_timeouts_for_warning = 2

abbrev shown_limit : GoTools → Option ℕ → String
shown_limit go limit = go.show_duration (elim limit [ none ↦ 0 | some l ↦ l ])

abbrev timeout_warning : GoTools → Dict ℕ → Dict ℕ → Option ℕ → String → String
timeout_warning go covered timed_out limit dir = concat (decimal (number_of dir timed_out)) (
    concat " of " (
      concat (decimal (number_of dir covered)) (
        concat " covered mutants in " (
          concat dir (
            concat " timed out under a " (
              concat (shown_limit go limit)
                " limit; they count as caught, so check that its tests finish well within that limit"))))))

unfoldable pub timeout_warnings : GoTools → Dict ℕ → Dict ℕ → Option ℕ → List String
timeout_warnings go covered timed_out limit = map (timeout_warning go covered timed_out limit) (
    keep
      (λ dir. not (
        ltb (number_of dir timed_out) min_timeouts_for_warning
        || ltb (2 * number_of dir timed_out) (number_of dir covered)))
      (sorted_keys timed_out))

abbrev pub timeout_reason : GoTools → Bool → Option ℕ → String
timeout_reason go short limit =
    if not short then "like every other covered mutant" else elim limit [
      | none ↦ "under a limit gremlins did not report"
      | some l ↦ concat "under a " (
          concat (go.show_duration l) (
            concat " limit, shorter than the "
              (concat (go.show_duration mutant_time_floor) " floor")))
    ]

unfoldable pub timeout_finding : GoTools → MutationInput → String → MutationMutant → Finding
timeout_finding go input reason m =
    mutation_finding "go-mutation-timeout"
      (concat m.mutator (
        concat " mutant timed out " (
          concat reason
            (concat ", so the run gave no verdict: " (source_line input.sources m.file m.line)))))
      (module_file input.module_path m.file) m.line m.column

-- The verdict on a counted report
unfoldable pub judge_tally :
    GoTools → MutationInput → Option ℕ → List GremlinsFile → MutationTally → MutationVerdict
unfolding new_source_index match_entry sorted_mutants timeout_finding timeout_warnings
judge_tally go input limit report t =
    let index = new_source_index go.enclosing input.sources in
    let pairs : List (AcceptedEntry × EntryMatch) =
      map (λ e. (e, match_entry report index e (trusted limit))) input.accepted in
    let lived = sorted_mutants t.survivors in
    let of_fate : (Fate → Bool) → List MutationMutant =
      λ p. keep (λ m. p (fate input pairs index m)) lived in
    let judged =
      map (survivor_finding input) (of_fate is_failing)
      ++ entry_findings go input t.mutated [] pairs in
    let short = ltb 0 t.timed_out && not (trusted limit) in
    let survivors =
      length (of_fate is_failing) + length (of_fate is_unchanged) + length (of_fate is_accepted) in
    let incomplete =
      short
      || (leb min_timeouts_for_incomplete t.timed_out && (eqb t.killed 0 && eqb survivors 0)) in
    record {
      findings =
          if incomplete
          then judged
            ++ map (timeout_finding go input (timeout_reason go short limit))
                (sorted_mutants t.timed_out_mutants)
          else judged;
      incomplete = incomplete;
      summary = record {
        killed = t.killed;
        lived = length (of_fate is_failing);
        unchanged = length (of_fate is_unchanged);
        accepted = length (of_fate is_accepted);
        not_covered = t.not_covered;
        timed_out = t.timed_out;
        not_viable = t.not_viable;
        skipped = t.skipped;
        uncovered = sorted_mutants t.uncovered;
        unchanged_list = sorted_mutants (of_fate is_unchanged);
        timed_out_mutants = sorted_mutants t.timed_out_mutants;
        warnings = if incomplete then [] else timeout_warnings go t.covered_in t.timed_out_in limit;
        files = input.files;
      };
    }

abbrev pub empty_verdict : List String → MutationVerdict
empty_verdict files = record {
  findings = [];
  incomplete = false;
  summary = record {
    killed = 0;
    lived = 0;
    unchanged = 0;
    accepted = 0;
    not_covered = 0;
    timed_out = 0;
    not_viable = 0;
    skipped = 0;
    uncovered = [];
    unchanged_list = [];
    timed_out_mutants = [];
    warnings = [];
    files = files;
  };
}

unfoldable pub decide_mutation :
    GoTools → MutationRun → MutationInput → MutationError ⊎ MutationVerdict
unfolding judge_tally time_limit count_files mutated_lines
decide_mutation go run input =
    if not (eqb run.exit_code 0) || has_infix "ERROR:" run.stderr
    then inl (exited run.exit_code)
    else if not run.reported
    then (if has_infix "No results to report." run.stdout
        then inr (empty_verdict input.files)
        else inl no_report)
    else elim (go.parse_report run.report) [
      | none ↦ inl invalid_report
      | some report ↦
          elim (count_files input.files (mutated_lines go.enclosing input) report no_tally) [
            | inl e ↦ inl e
            | inr t ↦ inr (judge_tally go input (time_limit go run) report t)
          ]
    ]
