-- ===== src/Mutation/Examples.antt =====
-- A run that mutates one file: a killed mutant, a survivor that an entry accepts, and a mutant on another line.
use levenshtein.Base.{
  ℕ, zero, suc, ◌+◌, ◌-◌, ◌*◌, ◌≤◌, ◌<◌, Char, code, String, ◌≡◌, refl, sym, ap, ◌∙◌, ◌≢◌, ◌↔◌, ◌⊎◌,
  inl, inr, Bool, true, false, not, ◌&&◌, ◌||◌, Option, none, some, List, [], ◌∷◌, ◌++◌, map, arith,
  ◌==◌, eq_iff, eq_refl, ltb, leb, eqb, if◌then◌else◌, Bool-cases, Option-cases, Bool-ext,
  any-count_if, is_some, length, is_empty, any, all, keep, count_if, All, All-append, All-weaken,
  All-each, All-both, any_char, all_char, cut_prefix, has_prefix, cut_last, split, str_leb, min,
  max, Dict, lookup, sorted_keys, contains, join, concat, sort_by, trim_space, has_infix,
  has_suffix,
}
use levenshtein.Mutation.{
  MutationStatus, mutation_killed, mutation_lived, mutation_timed_out, mutation_skipped,
  GremlinsMutation, GremlinsFile, AcceptedEntry, LineRange, MutationInput, merge_ranges, on_lines,
  in_ranges, merge_into,
}
use levenshtein.Mutation.Index.{new_source_index, values, names, matches, mutated_lines, accepts}
use levenshtein.Mutation.Tally.{MutationError, count_mutant, count_mutations}
use levenshtein.Mutation.Decide.{
  GoTools, MutationRun, MutationVerdict, mutant_time_floor, time_limit, trusted, longer_coefficient,
  fate, entry_findings,
}
use levenshtein.Mutation.Verdict.{decide_mutation, empty_verdict}
use levenshtein.Base.{Sorted}
use levenshtein.Mutation.{parse_lines}
use levenshtein.Mutation.Ranges.{apart, merge_ranges-in_ranges}
use levenshtein.Mutation.Limited.{own_lines, within, mutated_lines-on_lines}
use levenshtein.Mutation.Counted.{total, mutant_count, Faithful, decide_mutation-total}
use levenshtein.Mutation.Passing.{Passes, decide_mutation-Passes}
use levenshtein.Mutation.Retry.{
  longer_coefficient-clears, mutate, DecidesOn, mutate-DecidesOn, mutate-trusted,
}
use levenshtein.Mutation.Tally.{path_dir}
use levenshtein.Base.{contains, not, ◌≢◌}
use levenshtein.Mutation.Files.{path_base, exclusions, others_of, is_mutable, valid_mutation_files}
use levenshtein.Mutation.Excluded.{any-exclusions}
use levenshtein.Mutation.Dirs.{go_file_in}
use levenshtein.Base.{
  code, eqb, sorted_keys, cut_prefix, has_suffix, join, sort_by, ◌==◌, if◌then◌else◌,
}
use levenshtein.Mutation.Selected.{increasing, valid_mutation_files-increasing}
use levenshtein.Mutation.Parsed.{Usable, parse_lines-Usable}

abbrev outside : String → List String → List String
outside file lines = map (λ s. "") lines

abbrev a_file : List String
a_file = "package a" ∷ "if x < 1 {" ∷ "return 2" ∷ []

abbrev changed : Dict (List LineRange)
changed = ("a.go", record { start = 2; stop = 2 } ∷ []) ∷ []

abbrev boundary : AcceptedEntry
boundary = record {
  file = "a.go";
  mutator = "CONDITIONALS_BOUNDARY";
  line = "if x < 1 {";
  function = "";
  occurrence = 0;
  reason = "x is never 1";
}

abbrev input : MutationInput
input = record {
  module_path = ".";
  files = "a.go" ∷ [];
  lines = some changed;
  sources = ("a.go", a_file) ∷ [];
  accepted = boundary ∷ [];
  accepted_path = ".levenshtein/mutation-accepted.json";
  accepted_text = "";
}

abbrev mutation_on : ℕ → MutationStatus → String → GremlinsMutation
mutation_on line status mutator = record {
  mutator = mutator;
  status = status;
  line = line;
  column = 6;
}

abbrev report : List GremlinsFile
report =
    record {
      file_name = "a.go";
      mutations =
          mutation_on 2 mutation_killed "CONDITIONALS_NEGATION"
          ∷ mutation_on 2 mutation_lived "CONDITIONALS_BOUNDARY"
          ∷ mutation_on 3 mutation_skipped "ARITHMETIC_BASE"
          ∷ [];
    }
    ∷ []

-- gremlins with a coverage run of the length
abbrev tools : ℕ → List GremlinsFile → GoTools
tools elapsed found = record {
  coverage_time = λ s. some elapsed;
  parse_report = λ s. some found;
  enclosing = outside;
  quote = λ s. s;
  show_duration = λ n. "12s";
  encode = λ s. s;
}

abbrev mutation_run : MutationRun
mutation_run = record {
  exit_code = 0;
  stdout = "";
  stderr = "";
  report = "{}";
  reported = true;
  coefficient = 10;
}

abbrev verdict_of : MutationError ⊎ MutationVerdict → MutationVerdict
verdict_of (inl e) = empty_verdict []
verdict_of (inr v) = v

abbrev decided : MutationVerdict
decided = verdict_of (decide_mutation (tools 1200000000 report) mutation_run input)

decided_answers : decide_mutation (tools 1200000000 report) mutation_run input ≡ inr decided
unfolding decide_mutation has_infix contains count_mutations on_lines lookup merge_ranges sort_by
    levenshtein.Base.insert_by values names trim_space merge_into count_mutant
decided_answers = refl

merge_ranges-in_ranges_example :
    ((line : ℕ)
      → in_ranges
          (merge_ranges (record { start = 4; stop = 6 } ∷ record { start = 1; stop = 3 } ∷ []))
          line
        ≡ in_ranges (record { start = 4; stop = 6 } ∷ record { start = 1; stop = 3 } ∷ []) line)
    × Sorted apart
        (merge_ranges (record { start = 4; stop = 6 } ∷ record { start = 1; stop = 3 } ∷ []))
merge_ranges-in_ranges_example =
    merge_ranges-in_ranges (record { start = 4; stop = 6 } ∷ record { start = 1; stop = 3 } ∷ [])

mutated_lines-on_lines_example : on_lines (mutated_lines outside input) "a.go" 2 ≡ (
    own_lines (length (values "a.go" input.sources)) 2 (lookup "a.go" changed)
    || (within (length (values "a.go" input.sources)) 2
        && any (λ e. names (new_source_index outside input.sources) e "a.go" 2) input.accepted))
unfolding contains
mutated_lines-on_lines_example = mutated_lines-on_lines outside input changed "a.go" 2 refl refl

decide_mutation-total_example :
    (found : List GremlinsFile) × (some report ≡ some found)
    × (total decided.summary ≡ mutant_count found)
    × Faithful input.files (mutated_lines outside input) found
decide_mutation-total_example =
    decide_mutation-total (tools 1200000000 report) mutation_run input decided decided_answers refl

decide_mutation-Passes_example : Passes (time_limit (tools 1200000000 report) mutation_run) decided
unfolding decide_mutation has_infix contains count_mutations on_lines lookup merge_ranges sort_by
    levenshtein.Base.insert_by values names trim_space merge_into count_mutant fate accepts matches
    entry_findings
decide_mutation-Passes_example =
    decide_mutation-Passes (tools 1200000000 report) mutation_run input decided decided_answers refl

abbrev hanging : List GremlinsFile
hanging =
    record {
      file_name = "a.go";
      mutations = mutation_on 2 mutation_timed_out "INVERT_LOOPCTRL" ∷ [];
    }
    ∷ []

abbrev raised_run : MutationRun
raised_run = record mutation_run { coefficient = 50 }

longer_coefficient-clears_example :
    (2 * mutant_time_floor ≤ 50 * max 400000000 1000000)
    × (50 * max 400000000 1000000 < 2 * mutant_time_floor + max 400000000 1000000)
    × (trusted (time_limit (tools 400000000 hanging) raised_run) ≡ true)
unfolding longer_coefficient
longer_coefficient-clears_example =
    longer_coefficient-clears (tools 400000000 hanging) mutation_run raised_run 50 400000000
      400000000 refl refl refl refl (omega arith)

parse_lines-Usable_example :
    (parse_lines (λ s. some (some changed)) "{}" ("a.go" ∷ []) ≡ inr (some changed)) ↔ (
      (◌≢◌ {A = String} "{}" "")
      × (some (some changed) ≡ some (some changed))
      × Usable ("a.go" ∷ []) changed)
parse_lines-Usable_example =
    parse_lines-Usable (λ s. some (some changed)) "{}" ("a.go" ∷ []) changed

abbrev always_runs : ℕ → Option MutationRun
always_runs coefficient = some (record mutation_run { coefficient = coefficient })

mutate-DecidesOn_example :
    (last : MutationRun) × DecidesOn (tools 400000000 hanging) always_runs 2 10 last
    × (mutate (tools 400000000 hanging) always_runs input
        ≡ some (decide_mutation (tools 400000000 hanging) last input))
mutate-DecidesOn_example =
    mutate-DecidesOn (tools 400000000 hanging) always_runs input
      (λ c. (record mutation_run { coefficient = c }, refl))

mutate-trusted_example :
    ((first : MutationRun) × (always_runs 10 ≡ some first)
      × (longer_coefficient (tools 400000000 hanging) first ≡ none)
      × (mutate (tools 400000000 hanging) always_runs input
          ≡ some (decide_mutation (tools 400000000 hanging) first input)))
    ⊎ ((first : MutationRun) × (longer : ℕ) × (second : MutationRun) × (always_runs 10 ≡ some first)
        × (longer_coefficient (tools 400000000 hanging) first ≡ some longer)
        × (always_runs longer ≡ some second)
        × (trusted (time_limit (tools 400000000 hanging) second) ≡ true)
        × (mutate (tools 400000000 hanging) always_runs input
            ≡ some (decide_mutation (tools 400000000 hanging) second input)))
mutate-trusted_example =
    mutate-trusted (tools 400000000 hanging) always_runs input (λ c. 400000000)
      (λ c. (record mutation_run { coefficient = c }, refl, refl, refl)) (λ c d. omega arith)

abbrev module_files : List String
module_files = "a.go" ∷ "b.go" ∷ "lib/c.go" ∷ []

-- regexp.QuoteMeta on the names below, and regexp on the texts that the directories of the module may have
abbrev quoted : String → String
quoted String.[] = ""
quoted (String.◌∷◌ c s) =
    if eqb (code c) b'.' then String.◌∷◌ "\\" (String.◌∷◌ c (quoted s)) else String.◌∷◌ c (quoted s)

abbrev matches_text : String → String → Bool
matches_text pattern file =
    if pattern == "^(?:b\\.go)$"
    then file == "b.go"
    else if pattern == "^lib/(?:c\\.go)$"
    then file == "lib/c.go"
    else if pattern == "^[^/]+\\.go$"
    then go_file_in "" file
    else if pattern == "^lib/[^/]+\\.go$"
    then go_file_in "lib/" file
    else false

any-exclusions_example :
    any (λ p. matches_text p "b.go") (exclusions quoted module_files ("a.go" ∷ []))
    ≡ not (contains "b.go" ("a.go" ∷ []))
unfolding contains path_dir path_base others_of sorted_keys sort_by join values lookup
    levenshtein.Base.insert_by go_file_in cut_prefix has_suffix
any-exclusions_example =
    any-exclusions quoted matches_text module_files ("a.go" ∷ []) "b.go" refl (refl, (refl, tt))
      (refl, (refl, tt)) refl refl

valid_mutation_files-increasing_example : (valid_mutation_files module_files ≡ none) ↔ (
    (module_files ≢ []) × (all is_mutable module_files ≡ true) × (increasing module_files ≡ true))
valid_mutation_files-increasing_example = valid_mutation_files-increasing module_files
