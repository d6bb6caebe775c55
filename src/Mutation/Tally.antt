-- ===== src/Mutation/Tally.antt =====
-- runner/mutation.go: the first loop of decideMutation, which counts the mutants of a report by status.
use levenshtein.Base.{
  ℕ, suc, code, String, ◌⊎◌, inl, inr, Bool, true, false, not, Option, none, some, List, [], ◌∷◌,
  eqb, if◌then◌else◌, Dict, lookup, contains,
}
use levenshtein.Mutation.{
  MutationStatus, mutation_killed, mutation_lived, mutation_not_covered, mutation_timed_out,
  mutation_not_viable, mutation_skipped, mutation_runnable, mutation_unknown, GremlinsMutation,
  GremlinsFile, MutationMutant, Lines, on_lines,
}
use levenshtein.Mutation.Index.{mutant_of}

pub data MutationError : Type 0 where
  exited : ℕ → MutationError
  no_report invalid_report dry_run_only : MutationError
  not_selected : String → MutationError
  against_lines : Bool → MutationMutant → MutationError
  unknown_status : String → String → ℕ → MutationError

-- mutationSummary while it is counted, the mutants that lived and timed out, and the counts by directory
pub record MutationTally : Type 0 where
  pub killed : ℕ
  pub not_covered : ℕ
  pub timed_out : ℕ
  pub not_viable : ℕ
  pub skipped : ℕ
  pub survivors : List MutationMutant
  pub uncovered : List MutationMutant
  pub timed_out_mutants : List MutationMutant
  pub mutated : List String
  pub covered_in : Dict ℕ
  pub timed_out_in : Dict ℕ

abbrev pub no_tally : MutationTally
no_tally = record {
  killed = 0;
  not_covered = 0;
  timed_out = 0;
  not_viable = 0;
  skipped = 0;
  survivors = [];
  uncovered = [];
  timed_out_mutants = [];
  mutated = [];
  covered_in = [];
  timed_out_in = [];
}

-- A map of numbers, where a missing key counts 0
unfoldable pub number_of : String → Dict ℕ → ℕ
number_of k d = elim (lookup k d) [ none ↦ 0 | some n ↦ n ]

-- `d[k]++`
unfoldable pub bump : String → Dict ℕ → Dict ℕ
unfolding number_of
bump k d = (k, suc (number_of k d)) ∷ d

-- What precedes the last slash, if there is one
abbrev pub before_slash : String → Option String
before_slash String.[] = none
before_slash (String.◌∷◌ c s) = elim (before_slash s) [
  | some d ↦ some (String.◌∷◌ c d)
  | none ↦ if eqb (code c) b'/' then some "" else none
]

-- path.Dir of a clean relative path
unfoldable pub path_dir : String → String
path_dir p = elim (before_slash p) [ none ↦ "." | some d ↦ d ]

abbrev pub was_skipped : MutationStatus → Bool
was_skipped mutation_skipped = true
was_skipped _ = false

-- The switch on the status of one mutant
unfoldable pub count_mutant :
    MutationMutant → MutationStatus → MutationTally → MutationError ⊎ MutationTally
unfolding bump path_dir
count_mutant mutant mutation_killed t =
    inr (record t { killed = suc t.killed; covered_in = bump (path_dir mutant.file) t.covered_in })
count_mutant mutant mutation_lived t = inr (record t {
  survivors = mutant ∷ t.survivors;
  covered_in = bump (path_dir mutant.file) t.covered_in;
})
count_mutant mutant mutation_not_covered t =
    inr (record t { not_covered = suc t.not_covered; uncovered = mutant ∷ t.uncovered })
count_mutant mutant mutation_timed_out t = inr (record t {
  timed_out = suc t.timed_out;
  covered_in = bump (path_dir mutant.file) t.covered_in;
  timed_out_in = bump (path_dir mutant.file) t.timed_out_in;
  timed_out_mutants = mutant ∷ t.timed_out_mutants;
})
count_mutant mutant mutation_not_viable t = inr (record t { not_viable = suc t.not_viable })
count_mutant mutant mutation_skipped t = inr (record t { skipped = suc t.skipped })
count_mutant mutant mutation_runnable t = inl dry_run_only
count_mutant mutant (mutation_unknown s) t = inl (unknown_status s mutant.file mutant.line)

abbrev same : Bool → Bool → Bool
same true b = b
same false b = not b

unfoldable pub count_mutations :
    Lines → String → List GremlinsMutation → MutationTally → MutationError ⊎ MutationTally
count_mutations lines file [] t = inr t
count_mutations lines file (m ∷ ms) t =
    if same (on_lines lines file m.line) (was_skipped m.status)
    then inl (against_lines (was_skipped m.status) (mutant_of file m))
    else elim (count_mutant (mutant_of file m) m.status t) [
      | inl e ↦ inl e
      | inr t' ↦ count_mutations lines file ms t'
    ]

-- The loop over the files of the report
unfoldable pub count_files :
    List String → Lines → List GremlinsFile → MutationTally → MutationError ⊎ MutationTally
count_files selected lines [] t = inr t
count_files selected lines (f ∷ fs) t =
    if not (contains f.file_name selected)
    then inl (not_selected f.file_name)
    else elim (count_mutations lines f.file_name f.mutations
        (record t { mutated = f.file_name ∷ t.mutated })) [
          | inl e ↦ inl e
          | inr t' ↦ count_files selected lines fs t'
        ]
