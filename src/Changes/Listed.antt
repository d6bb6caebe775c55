-- ===== src/Changes/Listed.antt =====
-- internal/gitchange/gitchange.go: which paths a change lists, and which of them have lines of their own.
use levenshtein.Base.{
  ℕ, String, ◌≡◌, refl, ap, ◌∙◌, inl, inr, Bool, true, false, ◌||◌, none, some, List, [], ◌∷◌, ◌++◌,
  arith, ◌==◌, eq_iff, Bool-cases, Option-cases, is_some, any, str_leb, Dict, lookup, contains,
  sort_by,
}
use levenshtein.Base.{any-sort_by}
use levenshtein.Mutation.{LineRange, on_lines}
use levenshtein.Mutation.Files.{compact_texts}
use levenshtein.Mutation.Others.{contains-any}
use levenshtein.Changes.{under, all_under, lines_of, changed_paths}

any-append_texts :
    (q : String → Bool) (xs ys : List String) → any q (xs ++ ys) ≡ (any q xs || any q ys)
any-append_texts q [] ys = refl
any-append_texts q (x ∷ xs) ys = ground (arith, any-append_texts q xs ys)

any-compact_texts : (q : String → Bool) (ts : List String) → any q (compact_texts ts) ≡ any q ts
any-compact_texts q [] = refl
any-compact_texts q (s ∷ []) = refl
any-compact_texts q (s ∷ t ∷ ts) = elim (Bool-cases (s == t)) [
  | inl same ↦ ground (arith, same, ap q ((eq_iff s t).0 same), any-compact_texts q (t ∷ ts))
  | inr other ↦ ground (arith, other, any-compact_texts q (t ∷ ts))
]

-- Whether a path of the work tree is the path rel of the source
abbrev pub is_at : String → String → String → Bool
is_at prefix rel path = elim (under prefix path) [ none ↦ false | some r ↦ r == rel ]

any-all_under :
    (prefix rel : String) (ps : List String)
    → any (λ t. t == rel) (all_under prefix ps) ≡ any (is_at prefix rel) ps
unfolding all_under
any-all_under prefix rel [] = refl
any-all_under prefix rel (p ∷ ps) = elim (Option-cases (under prefix p)) [
  | inl outside ↦ rw (outside, all_under, is_at) (any-all_under prefix rel ps)
  | inr (r, e) ↦ rw (e, all_under, is_at) (ap (λ b. r == rel || b) (any-all_under prefix rel ps))
]

lookup-lines_of :
    (prefix rel : String) (parsed : Dict (List LineRange)) (ps : List String)
    → is_some (lookup rel (lines_of prefix parsed ps)) ≡ any (is_at prefix rel) ps
unfolding lines_of lookup
lookup-lines_of prefix rel parsed [] = refl
lookup-lines_of prefix rel parsed (p ∷ ps) = elim (Option-cases (under prefix p)) [
  | inl outside ↦ rw (outside, lines_of, is_at) (lookup-lines_of prefix rel parsed ps)
  | inr (r, e) ↦ elim (Bool-cases (r == rel)) [
    | inl here ↦ rw (e, lines_of, is_at, here) refl
    | inr other ↦ rw (e, lines_of, is_at, other) (lookup-lines_of prefix rel parsed ps)
  ]
]

-- A change lists exactly the paths below the source that the diff names or that are untracked; those that the
-- diff names have an entry of lines, and every line of any other counts as new.
pub changed_paths-on_lines :
    (prefix rel : String) (parsed : Dict (List LineRange)) (diffed untracked : List String)
    (line : ℕ)
    → (contains rel (changed_paths prefix parsed diffed untracked).paths
        ≡ (any (is_at prefix rel) diffed || any (is_at prefix rel) untracked))
      × (is_some (lookup rel (changed_paths prefix parsed diffed untracked).lines)
          ≡ any (is_at prefix rel) diffed)
      × ((any (is_at prefix rel) diffed
            || on_lines (some (changed_paths prefix parsed diffed untracked).lines) rel line)
          ≡ true)
unfolding changed_paths on_lines
changed_paths-on_lines prefix rel parsed diffed untracked line =
    let both = all_under prefix diffed ++ all_under prefix untracked in
    let is : String → Bool = λ t. t == rel in
    let entry = lookup-lines_of prefix rel parsed diffed in
    (
      contains-any rel (compact_texts (sort_by str_leb both))
          ∙ any-compact_texts is (sort_by str_leb both)
          ∙ any-sort_by str_leb is both
          ∙ any-append_texts is (all_under prefix diffed) (all_under prefix untracked)
          ∙ ground (arith, any-all_under prefix rel diffed, any-all_under prefix rel untracked),
      entry,
      elim (Option-cases (lookup rel (lines_of prefix parsed diffed))) [
        | inl missing ↦ ground (arith, missing)
        | inr (rs, found) ↦ ground (arith, entry, found)
      ],
    )
