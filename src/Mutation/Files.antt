-- ===== src/Mutation/Files.antt =====
-- runner/mutation.go: the files that gremlins is told to leave out, and the accepted survivors.
use levenshtein.Base.{
  ℕ, suc, code, String, ◌⊎◌, inl, inr, Bool, true, not, ◌&&◌, ◌||◌, Option, none, some, List, [],
  ◌∷◌, ◌++◌, map, ◌==◌, eqb, if◌then◌else◌, is_some, length, is_empty, any, any_char, str_leb, Dict,
  sorted_keys, contains, join, concat, sort_by, trim_space, has_suffix,
}
use levenshtein.Baseline.Messages.{decimal}
use levenshtein.Paths.{clean, is_local}
use levenshtein.Mutation.{AcceptedEntry}
use levenshtein.Mutation.Index.{values}
use levenshtein.Mutation.Tally.{path_dir}

-- path.Base of a clean relative path
abbrev pub after_slash : String → Option String
after_slash String.[] = none
after_slash (String.◌∷◌ c s) =
    let rest = after_slash s in
    if is_some rest then rest else if eqb (code c) b'/' then some s else none

unfoldable pub path_base : String → String
path_base p = elim (after_slash p) [ none ↦ p | some b ↦ b ]

-- others[dir] = append(others[dir], name)
unfoldable pub add_name : String → String → Dict (List String) → Dict (List String)
add_name dir name [] = (dir, name ∷ []) ∷ []
add_name dir name ((j, names) ∷ d) =
    let rest = add_name dir name d in if j == dir then (j, name ∷ names) ∷ d else (j, names) ∷ rest

-- The files that were not selected, by directory; the names are sorted later.
unfoldable pub others_of : List String → List String → Dict (List String)
unfolding add_name
others_of selected [] = []
others_of selected (f ∷ fs) =
    let rest = others_of selected fs in
    if contains f selected then rest else add_name (path_dir f) (path_base f) rest

unfoldable pub touched : List String → List String → String → Bool
touched selected files dir = any (λ f. contains f selected && path_dir f == dir) files

-- others[dir], sorted
abbrev pub other_names : List String → List String → String → List String
other_names selected files dir = sort_by str_leb (values dir (others_of selected files))

-- The text of the pattern of one directory; `quote` is regexp.QuoteMeta.
unfoldable pub exclusion_of : (String → String) → List String → List String → String → String
exclusion_of quote selected files dir =
    let prefix = if dir == "." then "" else quote (concat dir "/") in
    if not (touched selected files dir)
    then concat "^" (concat prefix "[^/]+\\.go$")
    else concat "^" (
        concat prefix
          (concat "(?:" (concat (join "|" (map quote (other_names selected files dir))) ")$")))

-- exclusions, all the files first
unfoldable pub exclusions : (String → String) → List String → List String → List String
unfolding others_of exclusion_of
exclusions quote files selected =
    map (exclusion_of quote selected files) (sorted_keys (others_of selected files))

-- validMutationFiles: why a selection is refused
pub data FilesError : Type 0 where
  no_files files_not_sorted : FilesError
  invalid_file : String → FilesError

abbrev pub is_mutable : String → Bool
is_mutable file =
    is_local file
    && (clean file == file
        && (not (any_char (λ c. eqb c b'\\') file)
            && (has_suffix ".go" file && not (has_suffix "_test.go" file))))

unfoldable pub first_invalid : List String → Option String
first_invalid [] = none
first_invalid (f ∷ fs) = let rest = first_invalid fs in if is_mutable f then rest else some f

abbrev pub is_sorted : List String → Bool
is_sorted [] = true
is_sorted (s ∷ []) = true
is_sorted (s ∷ t ∷ ts) = str_leb s t && is_sorted (t ∷ ts)

-- slices.Compact
abbrev pub compact_texts : List String → List String
compact_texts [] = []
compact_texts (s ∷ []) = s ∷ []
compact_texts (s ∷ t ∷ ts) = let rest = compact_texts (t ∷ ts) in if s == t then rest else s ∷ rest

unfoldable pub valid_mutation_files : List String → Option FilesError
valid_mutation_files files = if is_empty files then some no_files else elim (first_invalid files) [
  | some f ↦ some (invalid_file f)
  | none ↦
      if not (is_sorted files) || not (eqb (length (compact_texts files)) (length files))
      then some files_not_sorted
      else none
]

-- parseAccepted on the decoded file: why an entry is refused, with its number
pub data AcceptedError : Type 0 where
  not_decoded : AcceptedError
  bad_version : ℕ → AcceptedError
  entry_incomplete reason_missing : ℕ → AcceptedError

abbrev bad_entry : ℕ → List AcceptedEntry → Option AcceptedError
bad_entry n [] = none
bad_entry n (e ∷ es) =
    let rest = bad_entry (suc n) es in
    if e.file == "" || (e.mutator == "" || trim_space e.line == "")
    then some (entry_incomplete n)
    else if trim_space e.reason == ""
    then some (reason_missing n)
    else rest

-- parseAccepted; `decode` gives the version and the entries, whose occurrences a natural number cannot make negative.
unfoldable pub parse_accepted :
    (String → Option (ℕ × List AcceptedEntry)) → String → Bool → AcceptedError ⊎ List AcceptedEntry
parse_accepted decode text present = if not present then inr [] else elim (decode text) [
  | none ↦ inl not_decoded
  | some (version, entries) ↦
      if not (eqb version 1)
      then inl (bad_version version)
      else elim (bad_entry 1 entries) [ some e ↦ inl e | none ↦ inr entries ]
]

-- gremlinsCommand
unfoldable pub gremlins_command : ℕ → String → List String → Bool → List String
gremlins_command coefficient tags patterns limited =
    ("gremlins"
      ∷ "unleash"
      ∷ "."
      ∷ "--workers"
      ∷ "2"
      ∷ "--timeout-coefficient"
      ∷ decimal coefficient
      ∷ "--output"
      ∷ "/report/out.json"
      ∷ [])
    ++ ((if limited then "--diff" ∷ "levenshtein-changed-lines" ∷ [] else [])
        ++ ((if tags == "" then [] else "--tags" ∷ tags ∷ []) ++ flags patterns))
  where
    flags : List String → List String
    flags [] = []
    flags (p ∷ ps) = "-E" ∷ p ∷ flags ps
