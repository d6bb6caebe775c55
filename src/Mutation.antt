-- ===== src/Mutation.antt =====
-- runner/mutation.go: the lines that a mutation run is limited to, and the report of gremlins.
pub mod Index
pub mod Tally
pub mod Decide
pub mod Verdict
pub mod Ranges
pub mod Limited
pub mod Counted
pub mod Passing
pub mod Retry
pub mod Parsed
pub mod Files
pub mod Dirs
pub mod Others
pub mod Excluded
pub mod Selected
mod Examples
use levenshtein.Base.{
  ℕ, zero, suc, ◌+◌, ◌-◌, ◌*◌, ◌≤◌, ◌<◌, Char, code, String, ◌≡◌, refl, sym, ap, ◌∙◌, ◌≢◌, ◌↔◌, ◌⊎◌,
  inl, inr, Bool, true, false, not, ◌&&◌, ◌||◌, Option, none, some, List, [], ◌∷◌, ◌++◌, map, arith,
  ◌==◌, eq_iff, eq_refl, ltb, leb, eqb, if◌then◌else◌, Bool-cases, Option-cases, Bool-ext,
  any-count_if, is_some, length, is_empty, any, all, keep, count_if, All, All-append, All-weaken,
  All-each, All-both, any_char, all_char, cut_prefix, has_prefix, cut_last, split, str_leb, min,
  max, Dict, lookup, sorted_keys, contains, join, concat, sort_by, trim_space, has_infix,
  has_suffix,
}
use levenshtein.Baseline.Messages.{decimal}
use levenshtein.Report.{Finding}

-- mutationStatus: the spellings of gremlins, and any other
pub data MutationStatus : Type 0 where
  mutation_killed mutation_lived mutation_not_covered mutation_timed_out : MutationStatus
  mutation_not_viable mutation_skipped mutation_runnable : MutationStatus
  mutation_unknown : String → MutationStatus

-- gremlinsMutation, with the name of its type
pub record GremlinsMutation : Type 0 where
  pub mutator : String
  pub status : MutationStatus
  pub line : ℕ
  pub column : ℕ

pub record GremlinsFile : Type 0 where
  pub file_name : String
  pub mutations : List GremlinsMutation

pub record AcceptedEntry : Type 0 where
  pub file : String
  pub mutator : String
  pub line : String
  pub function : String
  pub occurrence : ℕ
  pub reason : String

-- lineRange, inclusive
pub record LineRange : Type 0 where
  pub start : ℕ
  pub stop : ℕ

pub record MutationMutant : Type 0 where
  pub file : String
  pub line : ℕ
  pub column : ℕ
  pub mutator : String

-- The changed lines of files; a nil map counts every line.
abbrev pub Lines : Type 0
Lines = Option (Dict (List LineRange))

pub record MutationInput : Type 0 where
  pub module_path : String
  pub files : List String
  pub lines : Lines
  pub sources : Dict (List String)
  pub accepted : List AcceptedEntry
  pub accepted_path : String
  pub accepted_text : String

abbrev pub in_range : ℕ → LineRange → Bool
in_range line r = leb r.start line && leb line r.stop

unfoldable pub in_ranges : List LineRange → ℕ → Bool
in_ranges rs line = any (in_range line) rs

-- onLines, by the file and the line of the mutant
unfoldable pub on_lines : Lines → String → ℕ → Bool
unfolding in_ranges
on_lines none file line = true
on_lines (some lines) file line = elim (lookup file lines) [
  | none ↦ true
  | some rs ↦ in_ranges rs line
]

abbrev pub starts_before : LineRange → LineRange → Bool
starts_before a b = leb a.start b.start

-- The loop of mergeRanges, with the range that it extends
unfoldable pub merge_into : LineRange → List LineRange → List LineRange
merge_into last [] = last ∷ []
merge_into last (r ∷ rs) =
    let joined = merge_into (record { start = last.start; stop = max last.stop r.stop }) rs in
    let apart = merge_into r rs in if leb r.start (suc last.stop) then joined else last ∷ apart

abbrev pub merged : List LineRange → List LineRange
merged [] = []
merged (r ∷ rs) = merge_into r rs

unfoldable pub merge_ranges : List LineRange → List LineRange
merge_ranges rs = merged (sort_by starts_before rs)

-- parseLines: why the argument is refused
pub data LinesError : Type 0 where
  not_json not_an_object : LinesError
  unselected_file : String → LinesError
  bad_range : LineRange → String → LinesError

unfoldable pub bad_line_range : LineRange → Bool
bad_line_range r = ltb r.start 1 || ltb r.stop r.start

unfoldable pub first_bad : List LineRange → Option LineRange
unfolding bad_line_range
first_bad [] = none
first_bad (r ∷ rs) = let rest = first_bad rs in if bad_line_range r then some r else rest

-- Go visits the map in any order, so which of several errors is met is not determined; here it is the first.
unfoldable pub lines_error : List String → Dict (List LineRange) → Option LinesError
unfolding first_bad
lines_error files [] = none
lines_error files ((file, rs) ∷ lines) =
    let rest = lines_error files lines in
    if not (contains file files)
    then some (unselected_file file)
    else elim (first_bad rs) [ some r ↦ some (bad_range r file) | none ↦ rest ]

-- parseLines; `decode` is json.Unmarshal, which gives no value for `null`.
unfoldable pub parse_lines : (String → Option Lines) → String → List String → LinesError ⊎ Lines
unfolding lines_error
parse_lines decode raw files = if raw == "" then inr none else elim (decode raw) [
  | none ↦ inl not_json
  | some none ↦ inl not_an_object
  | some (some lines) ↦ elim (lines_error files lines) [ some e ↦ inl e | none ↦ inr (some lines) ]
]
