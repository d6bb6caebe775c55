-- ===== src/Mutation/Index.antt =====
-- runner/mutation.go: what an accepted entry means, by the text of a line and its function.
use levenshtein.Base.{
  ℕ, zero, suc, String, Bool, true, false, not, ◌&&◌, ◌||◌, none, some, List, [], ◌∷◌, ◌++◌, map,
  ◌==◌, leb, eqb, if◌then◌else◌, length, any, max, Dict, lookup, sort_by, trim_space,
}
use levenshtein.Mutation.{
  MutationStatus, mutation_killed, mutation_lived, mutation_timed_out, mutation_unknown,
  GremlinsMutation, GremlinsFile, AcceptedEntry, LineRange, MutationMutant, MutationInput, Lines,
  merge_ranges,
}

-- sourceIndex: the lines of each file, and the function around each of them
pub record SourceIndex : Type 0 where
  pub sources : Dict (List String)
  pub functions : Dict (List String)

-- newSourceIndex; `enclosing` is enclosingFunctions, which asks go/parser.
unfoldable pub new_source_index :
    (String → List String → List String) → Dict (List String) → SourceIndex
new_source_index enclosing sources = record {
  sources = sources;
  functions = map (λ (f : String × List String). (f.0, enclosing f.0 f.1)) sources;
}

-- A map's value, nil where the key is missing
unfoldable pub values : String → Dict (List String) → List String
values file d = elim (lookup file d) [ none ↦ [] | some lines ↦ lines ]

-- The element with the number n, from 1; "" out of range
unfoldable pub nth_line : ℕ → List String → String
nth_line n [] = ""
nth_line zero (s ∷ ss) = ""
nth_line (suc zero) (s ∷ ss) = s
nth_line (suc (suc n)) (s ∷ ss) = nth_line (suc n) ss

unfoldable pub source_line : Dict (List String) → String → ℕ → String
unfolding values nth_line
source_line sources file line = trim_space (nth_line line (values file sources))

unfoldable pub function_at : SourceIndex → String → ℕ → String
unfolding values nth_line
function_at index file line = nth_line line (values file index.functions)

-- The loop of occurrence, over the lines up to n
occurrence_to : SourceIndex → String → ℕ → Bool → ℕ → ℕ
unfolding source_line function_at
occurrence_to index file line scoped zero = 0
occurrence_to index file line scoped (suc n) =
    let rest = occurrence_to index file line scoped n in
    if source_line index.sources file (suc n) == source_line index.sources file line
      && (not scoped || function_at index file (suc n) == function_at index file line)
    then suc rest
    else rest

unfoldable pub occurrence : SourceIndex → String → ℕ → Bool → ℕ
unfolding occurrence_to
occurrence index file line scoped = occurrence_to index file line scoped line

unfoldable pub names : SourceIndex → AcceptedEntry → String → ℕ → Bool
unfolding source_line function_at occurrence
names index entry file line =
    if not (entry.file == file)
      || not (trim_space entry.line == source_line index.sources file line)
    then false
    else if not (entry.function == "") && not (function_at index file line == entry.function)
    then false
    else eqb entry.occurrence 0
      || eqb (occurrence index file line (not (entry.function == ""))) entry.occurrence

unfoldable pub matches : SourceIndex → AcceptedEntry → MutationMutant → Bool
matches index entry mutant =
    entry.mutator == mutant.mutator && names index entry mutant.file mutant.line

-- The lines 1 to n that an entry names, the last first
abbrev pub named_lines : SourceIndex → AcceptedEntry → String → ℕ → List LineRange
named_lines index entry file zero = []
named_lines index entry file (suc n) =
    let rest = named_lines index entry file n in
    if names index entry file (suc n)
    then rest ++ (record { start = suc n; stop = suc n } ∷ [])
    else rest

abbrev pub accepted_lines : SourceIndex → List AcceptedEntry → String → ℕ → List LineRange
accepted_lines index [] file n = []
accepted_lines index (entry ∷ entries) file n =
    let rest = accepted_lines index entries file n in
    if entry.file == file then named_lines index entry file n ++ rest else rest

-- The ranges of one file in mutatedLines, before they are merged
abbrev pub file_ranges :
    SourceIndex → MutationInput → Dict (List LineRange) → String → List LineRange
file_ranges index input lines file =
    let n = length (values file input.sources) in
    (elim (lookup file lines) [ none ↦ record { start = 1; stop = max n 1 } ∷ [] | some rs ↦ rs ])
    ++ accepted_lines index input.accepted file n

-- mutatedLines
unfoldable pub mutated_lines : (String → List String → List String) → MutationInput → Lines
unfolding new_source_index
mutated_lines enclosing input = elim input.lines [
  | none ↦ none
  | some lines ↦ some (
      map
        (λ (file : String). (
          file,
          merge_ranges (file_ranges (new_source_index enclosing input.sources) input lines file),
        ))
        input.files)
]

pub record EntryMatch : Type 0 where
  pub survivors : List ℕ
  pub caught : Bool
  pub pending : Bool

abbrev pub mutant_of : String → GremlinsMutation → MutationMutant
mutant_of file m = record { file = file; line = m.line; column = m.column; mutator = m.mutator }

-- One turn of the switch of matchEntry
abbrev match_status : Bool → MutationStatus → ℕ → EntryMatch → EntryMatch
match_status trusted mutation_lived line m = record m { survivors = line ∷ m.survivors }
match_status trusted mutation_killed line m = record m { caught = true }
match_status trusted mutation_timed_out line m = record m {
  caught = m.caught || trusted;
  pending = m.pending || not trusted;
}
match_status trusted (mutation_unknown s) line m = m
match_status trusted other line m = record m { pending = true }

abbrev match_mutations :
    SourceIndex → AcceptedEntry → Bool → String → List GremlinsMutation → EntryMatch → EntryMatch
match_mutations index entry trusted file [] m = m
match_mutations index entry trusted file (x ∷ xs) m =
    let rest = match_mutations index entry trusted file xs m in
    if matches index entry (mutant_of file x)
    then match_status trusted x.status x.line rest
    else rest

abbrev match_files : SourceIndex → AcceptedEntry → Bool → List GremlinsFile → EntryMatch
match_files index entry trusted [] = record { survivors = []; caught = false; pending = false }
match_files index entry trusted (f ∷ fs) =
    let rest = match_files index entry trusted fs in
    if f.file_name == entry.file
    then match_mutations index entry trusted f.file_name f.mutations rest
    else rest

-- slices.Compact of sorted lines
abbrev compact : List ℕ → List ℕ
compact [] = []
compact (x ∷ []) = x ∷ []
compact (x ∷ y ∷ ys) = let rest = compact (y ∷ ys) in if eqb x y then rest else x ∷ rest

unfoldable pub match_entry : List GremlinsFile → SourceIndex → AcceptedEntry → Bool → EntryMatch
match_entry report index entry trusted =
    let m = match_files index entry trusted report in
    record m { survivors = compact (sort_by leb m.survivors) }

-- accepts, over the entries beside what each of them fits
unfoldable pub accepts : List (AcceptedEntry × EntryMatch) → SourceIndex → MutationMutant → Bool
accepts pairs index mutant =
    any
      (λ (p : AcceptedEntry × EntryMatch). eqb (length p.1.survivors) 1 && matches index p.0 mutant)
      pairs
