-- ===== src/Mutation/Limited.antt =====
-- runner/mutation.go: the lines that mutatedLines has gremlins run mutants on.
use levenshtein.Base.{
  ℕ, zero, suc, String, ◌≡◌, refl, ap, ◌∙◌, inl, inr, Bool, true, false, ◌&&◌, ◌||◌, Option, none,
  some, List, [], ◌∷◌, ◌++◌, map, arith, ◌==◌, eq_iff, leb, eqb, if◌then◌else◌, Bool-cases, length,
  any, max, Dict, lookup, contains,
}
use levenshtein.Mutation.{
  AcceptedEntry, LineRange, MutationInput, merge_ranges, on_lines, in_ranges,
}
use levenshtein.Mutation.Index.{
  SourceIndex, new_source_index, values, names, named_lines, accepted_lines, file_ranges,
  mutated_lines,
}
use levenshtein.Mutation.Ranges.{merge_ranges-in_ranges}

in_ranges-append :
    (xs ys : List LineRange) (line : ℕ)
    → in_ranges (xs ++ ys) line ≡ (in_ranges xs line || in_ranges ys line)
unfolding in_ranges
in_ranges-append [] ys line = refl
in_ranges-append (x ∷ xs) ys line = ground (arith, in_ranges-append xs ys line)

-- A line of a file of n lines
abbrev pub within : ℕ → ℕ → Bool
within n line = leb 1 line && leb line n

step_within :
    (n line : ℕ) (p : ℕ → Bool)
    → ((within n line && p line) || (p (suc n) && eqb line (suc n)))
      ≡ (within (suc n) line && p line)
step_within n line p = elim (Bool-cases (eqb line (suc n))) [
  | inl last ↦ let it : line ≡ suc n = ground arith in ground (arith, ap p it, last)
  | inr other ↦ ground (arith, other)
]

one_more :
    (b : Bool) (xs : List LineRange) (n line : ℕ)
    → in_ranges (if b then xs ++ (record { start = n; stop = n } ∷ []) else xs) line
      ≡ (in_ranges xs line || (b && eqb line n))
unfolding in_ranges
one_more true xs n line =
    ground (arith, in_ranges-append xs (record { start = n; stop = n } ∷ []) line)
one_more false xs n line = ground arith

named_lines-in_ranges :
    (index : SourceIndex) (e : AcceptedEntry) (file : String) (n line : ℕ)
    → in_ranges (named_lines index e file n) line ≡ (within n line && names index e file line)
unfolding in_ranges
named_lines-in_ranges index e file zero line = ground arith
named_lines-in_ranges index e file (suc n) line =
    one_more (names index e file (suc n)) (named_lines index e file n) (suc n) line
    ∙ ap (λ b. b || (names index e file (suc n) && eqb line (suc n)))
        (named_lines-in_ranges index e file n line)
    ∙ step_within n line (names index e file)

names-file :
    (index : SourceIndex) (e : AcceptedEntry) (file : String) (line : ℕ)
    → e.file == file ≡ false
    → names index e file line ≡ false
unfolding names
names-file index e file line h = ground (arith, h)

accepted_lines-in_ranges :
    (index : SourceIndex) (es : List AcceptedEntry) (file : String) (n line : ℕ)
    → in_ranges (accepted_lines index es file n) line
      ≡ (within n line && any (λ e. names index e file line) es)
unfolding in_ranges
accepted_lines-in_ranges index [] file n line = ground arith
accepted_lines-in_ranges index (e ∷ es) file n line = elim (Bool-cases (e.file == file)) [
  | inl own ↦ ground (
    arith,
    own,
    in_ranges-append (named_lines index e file n) (accepted_lines index es file n) line,
    named_lines-in_ranges index e file n line,
    accepted_lines-in_ranges index es file n line,
  )
  | inr other ↦ ground (
    arith,
    other,
    names-file index e file line other,
    accepted_lines-in_ranges index es file n line,
  )
]

lookup-map {ℓ} :
    {V : Type ℓ} (g : String → V) (file : String) (files : List String)
    → contains file files ≡ true
    → lookup file (map (λ f. (f, g f)) files) ≡ some (g file)
unfolding lookup contains
lookup-map g file [] h = cc h
lookup-map g file (f ∷ fs) h = elim (Bool-cases (f == file)) [
  | inl here ↦ rw (here, lookup) (ap (λ k. some (g k)) ((eq_iff f file).0 here))
  | inr later ↦ rw (later, lookup) (lookup-map g file fs (ground (arith, later)))
]

-- The lines of a file that the change wrote, all n of them where it has no entry
abbrev pub own_lines : ℕ → ℕ → Option (List LineRange) → Bool
own_lines n line none = within (max n 1) line
own_lines n line (some rs) = in_ranges rs line

own_ranges :
    (n line : ℕ) (o : Option (List LineRange))
    → in_ranges (elim o [ none ↦ record { start = 1; stop = max n 1 } ∷ [] | some rs ↦ rs ]) line
      ≡ own_lines n line o
unfolding in_ranges
own_ranges n line none = ground arith
own_ranges n line (some rs) = refl

-- A mutant of a selected file is run exactly if its line is one the change wrote, where the file has an entry,
-- or one of the file's lines, where it has none, or one that an accepted entry names.
pub mutated_lines-on_lines :
    (enclosing : String → List String → List String) (input : MutationInput)
    (lines : Dict (List LineRange)) (file : String) (line : ℕ)
    → input.lines ≡ some lines
    → contains file input.files ≡ true
    → on_lines (mutated_lines enclosing input) file line ≡ (
        own_lines (length (values file input.sources)) line (lookup file lines)
        || (within (length (values file input.sources)) line
            && any
                (λ e. names (new_source_index enclosing input.sources) e file line)
                input.accepted))
unfolding mutated_lines on_lines in_ranges
mutated_lines-on_lines enclosing input lines file line h k =
    let index = new_source_index enclosing input.sources in
    let n = length (values file input.sources) in
    let found =
      lookup-map (λ file. merge_ranges (file_ranges index input lines file)) file input.files k in
    let own : List LineRange = elim (lookup file lines) [
      | none ↦ record { start = 1; stop = max n 1 } ∷ []
      | some rs ↦ rs
    ] in
    let more = accepted_lines index input.accepted file n in
    rw (h, found, mutated_lines, on_lines)
      ((merge_ranges-in_ranges (own ++ more)).0 line
        ∙ in_ranges-append own more line
        ∙ ap (λ b. b || in_ranges more line) (own_ranges n line (lookup file lines))
        ∙ ap (λ b. own_lines n line (lookup file lines) || b)
            (accepted_lines-in_ranges index input.accepted file n line))
