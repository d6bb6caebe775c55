-- ===== src/Mutation/Decide.antt =====
-- runner/mutation.go: the verdict of a run, and the coefficient to run gremlins with again.
use Prim.Native.Nat.{◌/◌}
use levenshtein.Base.{
  ℕ, zero, suc, ◌+◌, ◌-◌, ◌*◌, code, String, Bool, true, false, not, ◌&&◌, ◌||◌, Option, none, some,
  List, [], ◌∷◌, ◌++◌, map, ◌==◌, ltb, leb, eqb, if◌then◌else◌, length, any, count_if, split,
  str_leb, max, contains, join, concat, sort_by, trim_space, has_infix,
}
use levenshtein.Mutation.{
  mutation_timed_out, GremlinsMutation, GremlinsFile, AcceptedEntry, MutationMutant, MutationInput,
  on_lines,
}
use levenshtein.Mutation.Index.{SourceIndex, source_line, EntryMatch, accepts}
use levenshtein.Baseline.Messages.{decimal}
use levenshtein.Report.{Finding}

-- What the verdict asks of regexp, time, encoding/json, fmt and go/parser. A duration is a number of
-- nanoseconds, and no run takes the 292 years at which it would overflow.
pub record GoTools : Type 0 where
  pub coverage_time : String → Option ℕ
  pub parse_report : String → Option (List GremlinsFile)
  pub enclosing : String → List String → List String
  pub quote : String → String
  pub show_duration : ℕ → String
  pub encode : String → String

pub record MutationRun : Type 0 where
  pub exit_code : ℕ
  pub stdout : String
  pub stderr : String
  pub report : String
  pub reported : Bool
  pub coefficient : ℕ

pub record MutationSummary : Type 0 where
  pub killed : ℕ
  pub lived : ℕ
  pub unchanged : ℕ
  pub accepted : ℕ
  pub not_covered : ℕ
  pub timed_out : ℕ
  pub not_viable : ℕ
  pub skipped : ℕ
  pub uncovered : List MutationMutant
  pub unchanged_list : List MutationMutant
  pub timed_out_mutants : List MutationMutant
  pub warnings : List String
  pub files : List String

pub record MutationVerdict : Type 0 where
  pub findings : List Finding
  pub incomplete : Bool
  pub summary : MutationSummary

-- mutantTimeFloor, in nanoseconds
abbrev pub mutant_time_floor : ℕ
mutant_time_floor = 10000000000

abbrev millisecond : ℕ
millisecond = 1000000

-- mutationRun.limit
unfoldable pub time_limit : GoTools → MutationRun → Option ℕ
time_limit go run = elim (go.coverage_time run.stdout) [
  | none ↦ none
  | some elapsed ↦ if ltb run.coefficient 1 then none else some (elapsed * run.coefficient)
]

abbrev is_timed_out : GremlinsMutation → Bool
is_timed_out m = elim m.status [ mutation_timed_out ↦ true | _ ↦ false ]

abbrev pub trusted : Option ℕ → Bool
trusted limit = elim limit [ none ↦ false | some l ↦ leb mutant_time_floor l ]

-- longerCoefficient
unfoldable pub longer_coefficient : GoTools → MutationRun → Option ℕ
unfolding time_limit
longer_coefficient go run = elim (go.parse_report run.report) [
  | none ↦ none
  | some report ↦ elim (go.coverage_time run.stdout) [
    | none ↦ none
    | some elapsed ↦
        if not (eqb run.exit_code 0) || not run.reported
        then none
        else if not (any (λ (f : GremlinsFile). any is_timed_out f.mutations) report)
            || trusted (time_limit go run)
        then none
        else (let longest = max elapsed millisecond in
            some ((2 * mutant_time_floor + longest - 1) / longest))
  ]
]

-- The order of sortedMutants
unfoldable pub mutant_leb : MutationMutant → MutationMutant → Bool
mutant_leb a b =
    if not (a.file == b.file)
    then str_leb a.file b.file
    else if not (eqb a.line b.line)
    then ltb a.line b.line
    else if not (eqb a.column b.column)
    then ltb a.column b.column
    else str_leb a.mutator b.mutator

unfoldable pub sorted_mutants : List MutationMutant → List MutationMutant
unfolding mutant_leb
sorted_mutants = sort_by mutant_leb

-- path.Join of a clean module path and a clean path of a file
unfoldable pub module_file : String → String → String
module_file module_path file =
    if module_path == "." then file else concat module_path (concat "/" file)

abbrev pub mutation_finding : String → String → String → ℕ → ℕ → Finding
mutation_finding code message file line column = record {
  code = code;
  message = message;
  location = record { file = file; line = line; column = column };
  source = "";
  url = "";
  advisory = false;
  hint = "";
  baselined = false;
}

-- A survivor that fails the run
unfoldable pub survivor_finding : MutationInput → MutationMutant → Finding
unfolding module_file
survivor_finding input m =
    mutation_finding "go-mutation"
      (concat m.mutator (
        concat " mutant survived: no test fails when this line is mutated: "
          (source_line input.sources m.file m.line)))
      (module_file input.module_path m.file) m.line m.column

-- What becomes of a survivor: accepted, on a line the change did not write, or failing.
pub data Fate : Type 0 where
  fate_accepted fate_unchanged fate_failing : Fate

unfoldable pub fate :
    MutationInput → List (AcceptedEntry × EntryMatch) → SourceIndex → MutationMutant → Fate
fate input pairs index m =
    if accepts pairs index m
    then fate_accepted
    else if not (on_lines input.lines m.file m.line)
    then fate_unchanged
    else fate_failing

abbrev pub is_accepted : Fate → Bool
is_accepted fate_accepted = true
is_accepted _ = false

abbrev pub is_unchanged : Fate → Bool
is_unchanged fate_unchanged = true
is_unchanged _ = false

abbrev pub is_failing : Fate → Bool
is_failing fate_failing = true
is_failing _ = false

-- joinLines
abbrev join_lines : List ℕ → String
join_lines lines = join ", " (map decimal lines)

-- entryLine: the first line of the text that holds the encoded line, past one for each earlier entry with it
abbrev skip_lines : String → ℕ → ℕ → List String → ℕ
skip_lines quoted skip n [] = 1
skip_lines quoted zero n (s ∷ ss) =
    let rest = skip_lines quoted 0 (suc n) ss in if has_infix quoted s then suc n else rest
skip_lines quoted (suc skip) n (s ∷ ss) =
    let found = skip_lines quoted skip (suc n) ss in
    let rest = skip_lines quoted (suc skip) (suc n) ss in if has_infix quoted s then found else rest

unfoldable pub entry_line : GoTools → String → List AcceptedEntry → AcceptedEntry → ℕ
entry_line go text earlier entry =
    skip_lines (trim_space (go.encode entry.line))
      (count_if (λ (e : AcceptedEntry). e.line == entry.line) earlier) 0 (split b'\n' text)

abbrev described : GoTools → AcceptedEntry → String
described go e =
    concat "accepted survivor for "
      (concat e.file (concat " (" (concat e.mutator (concat ", " (concat (go.quote e.line) ")")))))

-- What the second loop says of one entry; nothing where it fits one survivor, or waits for a verdict.
unfoldable pub entry_finding :
    GoTools
    → MutationInput
    → List String
    → List AcceptedEntry
    → AcceptedEntry × EntryMatch
    → Option Finding
unfolding entry_line
entry_finding go input mutated earlier (entry, match_) =
    let at_ : String → String → Option Finding = λ code message. some (
      mutation_finding code message input.accepted_path
        (entry_line go input.accepted_text earlier entry) 0) in
    if not (contains entry.file mutated)
    then none
    else if eqb (length match_.survivors) 1 || (eqb (length match_.survivors) 0 && match_.pending)
    then none
    else if ltb 1 (length match_.survivors)
    then at_ "go-mutation-ambiguous" (
        concat (described go entry) (
          concat " matches survivors on lines " (
            concat (join_lines match_.survivors)
              "; add \"function\" or \"occurrence\" to name one")))
    else if match_.caught
    then at_ "go-mutation-stale" (concat (described go entry) " is now caught by a test; remove it")
    else at_ "go-mutation-stale"
        (concat (described go entry) " no longer matches a mutant; remove it")

unfoldable pub entry_findings :
    GoTools
    → MutationInput
    → List String
    → List AcceptedEntry
    → List (AcceptedEntry × EntryMatch)
    → List Finding
unfolding entry_finding
entry_findings go input mutated earlier [] = []
entry_findings go input mutated earlier (p ∷ ps) =
    let rest = entry_findings go input mutated (earlier ++ (p.0 ∷ [])) ps in
    elim (entry_finding go input mutated earlier p) [ none ↦ rest | some f ↦ f ∷ rest ]
