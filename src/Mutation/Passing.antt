-- ===== src/Mutation/Passing.antt =====
-- runner/mutation.go: what a run without findings says.
use mathlib.Core.Path.{subst}
use levenshtein.Base.{
  ℕ, suc, ◌+◌, String, ◌≡◌, refl, sym, ap, ◌∙◌, ◌⊎◌, inl, inr, Bool, true, false, not, ◌&&◌, ◌||◌,
  Option, List, [], ◌∷◌, ◌++◌, map, arith, ltb, leb, eqb, if◌then◌else◌, Bool-cases, Option-cases,
  sum_cases, length, keep,
}
use levenshtein.Mutation.{
  MutationStatus, mutation_killed, mutation_lived, mutation_not_covered, mutation_timed_out,
  mutation_not_viable, mutation_skipped, mutation_runnable, mutation_unknown, GremlinsMutation,
  GremlinsFile, AcceptedEntry, MutationMutant, MutationInput, Lines,
}
use levenshtein.Mutation.Index.{new_source_index, mutated_lines, EntryMatch, mutant_of, match_entry}
use levenshtein.Mutation.Tally.{MutationTally, no_tally, count_files, count_mutant, count_mutations}
use levenshtein.Mutation.Decide.{
  GoTools, MutationRun, MutationVerdict, time_limit, trusted, sorted_mutants, survivor_finding,
  fate, is_failing, entry_findings,
}
use levenshtein.Mutation.Verdict.{
  judge_tally, decide_mutation, empty_verdict, timeout_finding, timeout_reason,
}
use levenshtein.Report.{Finding}
use levenshtein.Mutation.Counted.{length-sorted_mutants}

-- The timed-out mutants are counted and listed.
abbrev pub Listed : MutationTally → Type 0
Listed t = t.timed_out ≡ length t.timed_out_mutants

count_mutant-Listed :
    (m : MutationMutant) (s : MutationStatus) (t t' : MutationTally)
    → Listed t
    → count_mutant m s t ≡ inr t'
    → Listed t'
unfolding count_mutant
count_mutant-Listed m mutation_killed t t' l h = ground arith
count_mutant-Listed m mutation_lived t t' l h = ground arith
count_mutant-Listed m mutation_not_covered t t' l h = ground arith
count_mutant-Listed m mutation_timed_out t t' l h = ground arith
count_mutant-Listed m mutation_not_viable t t' l h = ground arith
count_mutant-Listed m mutation_skipped t t' l h = ground arith
count_mutant-Listed m mutation_runnable t t' l h = ground arith
count_mutant-Listed m (mutation_unknown s) t t' l h = ground arith

count_mutations-Listed :
    (lines : Lines) (file : String) (ms : List GremlinsMutation) (t t' : MutationTally)
    → Listed t
    → count_mutations lines file ms t ≡ inr t'
    → Listed t'
unfolding count_mutations
count_mutations-Listed lines file [] t t' l h = ground arith
count_mutations-Listed lines file (m ∷ ms) t t' l h =
    elim (sum_cases (count_mutant (mutant_of file m) m.status t)) [
      | inl (e, lost) ↦ absurd (ground arith)
      | inr (next, counted) ↦
          count_mutations-Listed lines file ms next t'
            (count_mutant-Listed (mutant_of file m) m.status t next l counted) (ground arith)
    ]

count_files-Listed :
    (selected : List String) (lines : Lines) (fs : List GremlinsFile) (t t' : MutationTally)
    → Listed t
    → count_files selected lines fs t ≡ inr t'
    → Listed t'
unfolding count_files
count_files-Listed selected lines [] t t' l h = ground arith
count_files-Listed selected lines (f ∷ fs) t t' l h =
    let start : MutationTally = record t { mutated = f.file_name ∷ t.mutated } in
    elim (sum_cases (count_mutations lines f.file_name f.mutations start)) [
      | inl (e, lost) ↦ absurd (ground arith)
      | inr (next, counted) ↦
          count_files-Listed selected lines fs next t'
            (count_mutations-Listed lines f.file_name f.mutations start next l counted)
            (ground arith)
    ]

length-map {ℓ κ} :
    {A : Type ℓ} {B : Type κ} (f : A → B) (xs : List A) → length (map f xs) ≡ length xs
length-map f [] = refl
length-map f (x ∷ xs) = ap suc (length-map f xs)

-- A run that passes: no survivor fails it, it is complete, and timeouts counted under a trusted limit.
abbrev pub Passes : Option ℕ → MutationVerdict → Type 0
Passes limit v =
    (v.summary.lived ≡ 0)
    × (v.incomplete ≡ false)
    × ((v.summary.timed_out ≡ 0) ⊎ (trusted limit ≡ true))

no_map {ℓ κ} :
    {A : Type ℓ} {B : Type κ} (f : A → B) (xs : List A) (ys : List B)
    → map f xs ++ ys ≡ []
    → length xs ≡ 0
no_map f [] ys h = refl
no_map f (x ∷ xs) ys h = cc h

no_front {ℓ} : {A : Type ℓ} (xs ys : List A) → xs ++ ys ≡ [] → (xs ≡ []) × (length ys ≡ 0)
no_front [] ys h = (refl, ap length h)
no_front (x ∷ xs) ys h = cc h

-- The findings are all there when none is: one for each failing survivor, one for each timeout that gave no verdict.
silent :
    (failing : List MutationMutant) (f : MutationMutant → Finding) (entries timeouts : List Finding)
    (timed_out : ℕ) (good quiet : Bool)
    → length timeouts ≡ timed_out
    → (if (ltb 0 timed_out && not good) || (leb 3 timed_out && quiet)
        then (map f failing ++ entries) ++ timeouts
        else (map f failing ++ entries))
      ≡ []
    → (length failing ≡ 0)
      × (((ltb 0 timed_out && not good) || (leb 3 timed_out && quiet)) ≡ false)
      × ((timed_out ≡ 0) ⊎ (good ≡ true))
silent failing f entries timeouts timed_out good quiet counted h =
    elim (Bool-cases ((ltb 0 timed_out && not good) || (leb 3 timed_out && quiet))) [
      | inl stopped ↦
          let k = no_front (map f failing ++ entries) timeouts (ground (arith, stopped)) in
          let zero_ : timed_out ≡ 0 = sym counted ∙ k.1 in absurd (ground (arith, zero_, stopped))
      | inr whole ↦ (
        no_map f failing entries (ground (arith, whole)),
        whole,
        elim (Bool-cases good) [
          | inl fine ↦ inr fine
          | inr short ↦ inl (ground (arith, short, whole))
        ],
      )
    ]

judge_tally-Passes :
    (go : GoTools) (input : MutationInput) (limit : Option ℕ) (report : List GremlinsFile)
    (t : MutationTally)
    → Listed t
    → (judge_tally go input limit report t).findings ≡ []
    → Passes limit (judge_tally go input limit report t)
unfolding judge_tally
judge_tally-Passes go input limit report t l h =
    let index = new_source_index go.enclosing input.sources in
    let pairs : List (AcceptedEntry × EntryMatch) =
      map (λ e. (e, match_entry report index e (trusted limit))) input.accepted in
    let v : MutationVerdict = judge_tally go input limit report t in
    let reason : String = timeout_reason go (ltb 0 t.timed_out && not (trusted limit)) limit in
    silent (keep (λ m. is_failing (fate input pairs index m)) (sorted_mutants t.survivors))
      (survivor_finding input) (entry_findings go input t.mutated [] pairs)
      (map (timeout_finding go input reason) (sorted_mutants t.timed_out_mutants)) t.timed_out
      (trusted limit)
      (eqb t.killed 0 && eqb (v.summary.lived + v.summary.unchanged + v.summary.accepted) 0)
      (length-map (timeout_finding go input reason) (sorted_mutants t.timed_out_mutants)
        ∙ length-sorted_mutants t.timed_out_mutants
        ∙ sym l)
      h

-- A run without findings is complete, no survivor fails it, and if a mutant timed out the limit was trusted.
pub decide_mutation-Passes :
    (go : GoTools) (run : MutationRun) (input : MutationInput) (v : MutationVerdict)
    → decide_mutation go run input ≡ inr v
    → v.findings ≡ []
    → Passes (time_limit go run) v
unfolding decide_mutation
decide_mutation-Passes go run input v h none_ = elim (Bool-cases run.reported) [
  | inr silent_ ↦
      let it : empty_verdict input.files ≡ v = ground arith in
      subst (Passes (time_limit go run)) it (refl, refl, inl refl)
  | inl told ↦ elim (Option-cases (go.parse_report run.report)) [
    | inl lost ↦ absurd (ground arith)
    | inr (report, parsed) ↦
        elim (sum_cases
          (count_files input.files (mutated_lines go.enclosing input) report no_tally)) [
            | inl (e, refused) ↦ absurd (ground arith)
            | inr (t, counted) ↦
                let it : judge_tally go input (time_limit go run) report t ≡ v = ground arith in
                subst (Passes (time_limit go run)) it (
                  judge_tally-Passes go input (time_limit go run) report t
                    (count_files-Listed input.files (mutated_lines go.enclosing input) report
                      no_tally t refl counted)
                    (ap (λ x. x.findings) it ∙ none_))
          ]
  ]
]
