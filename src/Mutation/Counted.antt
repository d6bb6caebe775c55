-- ===== src/Mutation/Counted.antt =====
-- runner/mutation.go: the counts of decideMutation beside the mutants of the report.
use levenshtein.Base.{
  ℕ, suc, ◌+◌, String, ◌≡◌, refl, sym, ap, ◌∙◌, inl, inr, true, not, Option, some, List, [], ◌∷◌,
  map, arith, Bool-cases, Option-cases, length, keep, All, contains,
}
use levenshtein.Mutation.{
  MutationStatus, mutation_killed, mutation_lived, mutation_not_covered, mutation_timed_out,
  mutation_not_viable, mutation_skipped, mutation_runnable, mutation_unknown, GremlinsMutation,
  GremlinsFile, AcceptedEntry, MutationMutant, MutationInput, Lines, on_lines,
}
use levenshtein.Mutation.Index.{new_source_index, mutated_lines, EntryMatch, mutant_of, match_entry}
use levenshtein.Mutation.Tally.{
  MutationTally, no_tally, count_files, count_mutant, count_mutations, was_skipped,
}
use levenshtein.Mutation.Decide.{
  GoTools, MutationRun, MutationSummary, MutationVerdict, time_limit, trusted, sorted_mutants,
  mutant_leb, Fate, fate, is_accepted, is_unchanged, is_failing,
}
use levenshtein.Mutation.Verdict.{judge_tally, decide_mutation}
use levenshtein.Base.{length-sort_by, sum_cases}

-- The mutants of a tally
abbrev tallied : MutationTally → ℕ
tallied t = t.killed + t.not_covered + t.timed_out + t.not_viable + t.skipped + length t.survivors

-- The mutants of a report
abbrev pub mutant_count : List GremlinsFile → ℕ
mutant_count [] = 0
mutant_count (f ∷ fs) = length f.mutations + mutant_count fs

count_mutant-tallied :
    (m : MutationMutant) (s : MutationStatus) (t t' : MutationTally)
    → count_mutant m s t ≡ inr t'
    → tallied t' ≡ suc (tallied t)
unfolding count_mutant
count_mutant-tallied m mutation_killed t t' h = ground arith
count_mutant-tallied m mutation_lived t t' h = ground arith
count_mutant-tallied m mutation_not_covered t t' h = ground arith
count_mutant-tallied m mutation_timed_out t t' h = ground arith
count_mutant-tallied m mutation_not_viable t t' h = ground arith
count_mutant-tallied m mutation_skipped t t' h = ground arith
count_mutant-tallied m mutation_runnable t t' h = ground arith
count_mutant-tallied m (mutation_unknown s) t t' h = ground arith

-- What counting the mutants of one file comes to: each is counted, and was run exactly if its line was to be run.
abbrev Agrees : Lines → String → List GremlinsMutation → Type 0
Agrees lines file =
    All (λ (m : GremlinsMutation). was_skipped m.status ≡ not (on_lines lines file m.line))

count_mutations-tallied :
    (lines : Lines) (file : String) (ms : List GremlinsMutation) (t t' : MutationTally)
    → count_mutations lines file ms t ≡ inr t'
    → (tallied t' ≡ length ms + tallied t) × Agrees lines file ms
unfolding count_mutations
count_mutations-tallied lines file [] t t' h = (ground arith, tt)
count_mutations-tallied lines file (m ∷ ms) t t' h =
    elim (sum_cases (count_mutant (mutant_of file m) m.status t)) [
      | inl (e, lost) ↦ absurd (ground arith)
      | inr (next, counted) ↦
          let split_ : was_skipped m.status ≡ not (on_lines lines file m.line) = ground arith in
          let rest = count_mutations-tallied lines file ms next t' (ground arith) in
          (
            ground (arith, rest.0, count_mutant-tallied (mutant_of file m) m.status t next counted),
            (split_, rest.1),
          )
    ]

-- Every file of the report was selected, and its mutants were run as they were to be.
abbrev pub Faithful : List String → Lines → List GremlinsFile → Type 0
Faithful selected lines = All (λ (f : GremlinsFile).
    (contains f.file_name selected ≡ true) × Agrees lines f.file_name f.mutations)

count_files-tallied :
    (selected : List String) (lines : Lines) (fs : List GremlinsFile) (t t' : MutationTally)
    → count_files selected lines fs t ≡ inr t'
    → (tallied t' ≡ mutant_count fs + tallied t) × Faithful selected lines fs
unfolding count_files
count_files-tallied selected lines [] t t' h = (ground arith, tt)
count_files-tallied selected lines (f ∷ fs) t t' h =
    elim (Bool-cases (contains f.file_name selected)) [
      | inr other ↦ absurd (ground arith)
      | inl chosen ↦
          let start : MutationTally = record t { mutated = f.file_name ∷ t.mutated } in
          elim (sum_cases (count_mutations lines f.file_name f.mutations start)) [
            | inl (e, lost) ↦ absurd (ground arith)
            | inr (next, counted) ↦
                let own =
                  count_mutations-tallied lines f.file_name f.mutations start next counted in
                let rest = count_files-tallied selected lines fs next t' (ground arith) in
                (ground (arith, rest.0, own.0), ((chosen, own.1), rest.1))
          ]
    ]

-- The counts of a summary
abbrev pub total : MutationSummary → ℕ
total s =
    s.killed + s.lived + s.unchanged + s.accepted + s.not_covered + s.timed_out + s.not_viable
    + s.skipped

fates_partition :
    (f : MutationMutant → Fate) (ms : List MutationMutant)
    → length (keep (λ m. is_failing (f m)) ms)
        + length (keep (λ m. is_unchanged (f m)) ms)
        + length (keep (λ m. is_accepted (f m)) ms)
      ≡ length ms
fates_partition f [] = refl
fates_partition f (m ∷ ms) = ground (arith, fates_partition f ms)

pub length-sorted_mutants : (ms : List MutationMutant) → length (sorted_mutants ms) ≡ length ms
unfolding sorted_mutants
length-sorted_mutants ms = length-sort_by mutant_leb ms

judge_tally-total :
    (go : GoTools) (input : MutationInput) (limit : Option ℕ) (report : List GremlinsFile)
    (t : MutationTally)
    → total (judge_tally go input limit report t).summary ≡ tallied t
unfolding judge_tally
judge_tally-total go input limit report t =
    let index = new_source_index go.enclosing input.sources in
    let pairs : List (AcceptedEntry × EntryMatch) =
      map (λ e. (e, match_entry report index e (trusted limit))) input.accepted in
    omega (
      arith,
      fates_partition (fate input pairs index) (sorted_mutants t.survivors),
      length-sorted_mutants t.survivors,
    )

-- A verdict on a report counts each of its mutants once; its files were selected, and gremlins ran exactly the
-- mutants on the lines it was given.
pub decide_mutation-total :
    (go : GoTools) (run : MutationRun) (input : MutationInput) (v : MutationVerdict)
    → decide_mutation go run input ≡ inr v
    → run.reported ≡ true
    → (report : List GremlinsFile) × (go.parse_report run.report ≡ some report)
      × (total v.summary ≡ mutant_count report)
      × Faithful input.files (mutated_lines go.enclosing input) report
unfolding decide_mutation
decide_mutation-total go run input v h told = elim (Option-cases (go.parse_report run.report)) [
  | inl lost ↦ absurd (ground arith)
  | inr (report, parsed) ↦
      elim (sum_cases
        (count_files input.files (mutated_lines go.enclosing input) report no_tally)) [
          | inl (e, refused) ↦ absurd (ground arith)
          | inr (t, counted) ↦
              let (all_, faithful) =
                count_files-tallied input.files (mutated_lines go.enclosing input) report no_tally t
                  counted in
              let it : judge_tally go input (time_limit go run) report t ≡ v = ground arith in
              (
                report,
                parsed,
                ap (λ x. total x.summary) (sym it)
                    ∙ judge_tally-total go input (time_limit go run) report t
                    ∙ ground (arith, all_),
                faithful,
              )
        ]
]
