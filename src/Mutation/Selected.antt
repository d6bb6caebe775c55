-- ===== src/Mutation/Selected.antt =====
-- runner/mutation.go: the selections of files that GoMutation accepts.
use levenshtein.Base.{
  ◌≤◌, String, ◌≡◌, refl, sym, ◌∙◌, ◌≢◌, ◌↔◌, inl, inr, Bool, true, not, ◌&&◌, none, List, [], ◌∷◌,
  arith, ◌==◌, eqb, Bool-cases, Option-cases, length, all, str_leb,
}
use levenshtein.Mutation.Files.{
  is_mutable, first_invalid, is_sorted, compact_texts, valid_mutation_files,
}

compact_texts_shorter : (ts : List String) → length (compact_texts ts) ≤ length ts
compact_texts_shorter [] = omega arith
compact_texts_shorter (s ∷ []) = omega arith
compact_texts_shorter (s ∷ t ∷ ts) = ground (arith, compact_texts_shorter (t ∷ ts))

-- Each text stands before the next in the order of bytes.
abbrev pub increasing : List String → Bool
increasing [] = true
increasing (s ∷ []) = true
increasing (s ∷ t ∷ ts) = (str_leb s t && not (s == t)) && increasing (t ∷ ts)

sorted_unique :
    (ts : List String)
    → (is_sorted ts && eqb (length (compact_texts ts)) (length ts)) ≡ increasing ts
sorted_unique [] = refl
sorted_unique (s ∷ []) = refl
sorted_unique (s ∷ t ∷ ts) = elim (Bool-cases (s == t)) [
  | inl same ↦ ground (arith, same, compact_texts_shorter (t ∷ ts))
  | inr other ↦ ground (arith, other, sorted_unique (t ∷ ts))
]

first_invalid-is_mutable :
    (files : List String) → (first_invalid files ≡ none) ↔ (all is_mutable files ≡ true)
unfolding first_invalid
first_invalid-is_mutable [] = ((λ h. refl), λ h. refl)
first_invalid-is_mutable (f ∷ fs) =
    let (to, from) = first_invalid-is_mutable fs in
    elim (Bool-cases (is_mutable f)) [
      | inl good ↦ (
        (λ h. ground (arith, good, to (ground (arith, good)))),
        λ h. ground (arith, good, from (ground (arith, good))),
      )
      | inr bad ↦ ((λ h. absurd (cc (rw bad at h))), λ h. absurd (cc (rw bad at h)))
    ]

-- A selection is accepted exactly if it has a file, each is a clean local path of a Go file that is no test,
-- and they are in order without repetition.
pub valid_mutation_files-increasing :
    (files : List String)
    → (valid_mutation_files files ≡ none)
      ↔ ((files ≢ []) × (all is_mutable files ≡ true) × (increasing files ≡ true))
unfolding valid_mutation_files
valid_mutation_files-increasing [] = ((λ h. absurd (cc h)), λ h. absurd (h.0 refl))
valid_mutation_files-increasing (f ∷ fs) =
    let (to, from) = first_invalid-is_mutable (f ∷ fs) in
    let order = sorted_unique (f ∷ fs) in
    (
      (λ h. elim (Option-cases (first_invalid (f ∷ fs))) [
        | inr (wrong, e) ↦ absurd (ground (arith, e))
        | inl fine ↦
            elim (Bool-cases
              (is_sorted (f ∷ fs) && eqb (length (compact_texts (f ∷ fs))) (length (f ∷ fs)))) [
                | inl ordered ↦ ((λ e. cc e), to fine, sym order ∙ ordered)
                | inr unordered ↦ absurd (ground (arith, fine, unordered))
              ]
      ]),
      λ h.
          let ordered : (is_sorted (f ∷ fs)
                && eqb (length (compact_texts (f ∷ fs))) (length (f ∷ fs)))
              ≡ true =
            order ∙ h.2 in
          ground (arith, from h.1, ordered),
    )
