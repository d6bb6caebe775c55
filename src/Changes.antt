-- ===== src/Changes.antt =====
-- internal/gitchange/gitchange.go: the base that a change is measured against, and the paths that it changed.
pub mod Listed
mod Examples
use levenshtein.Base.{
  ℕ, zero, suc, ◌+◌, ◌-◌, ◌*◌, ◌≤◌, ◌<◌, Char, code, String, ◌≡◌, refl, sym, ap, ◌∙◌, ◌≢◌, ◌↔◌, ◌⊎◌,
  inl, inr, Bool, true, false, not, ◌&&◌, ◌||◌, Option, none, some, List, [], ◌∷◌, ◌++◌, map, arith,
  ◌==◌, eq_iff, eq_refl, ltb, leb, eqb, if◌then◌else◌, Bool-cases, Option-cases, sum_cases,
  Bool-ext, any-count_if, is_some, length, is_empty, any, all, keep, count_if, All, All-append,
  All-weaken, All-each, All-both, any_char, all_char, cut_prefix, has_prefix, cut_last, split,
  str_leb, min, max, Dict, lookup, sorted_keys, contains, join, concat, sort_by, trim_space,
  has_infix, has_suffix,
}
use levenshtein.Mutation.{LineRange}
use levenshtein.Mutation.Files.{compact_texts}

-- What git and the context answer: whether commits exist, whether the remote is an ancestor of the local branch,
-- whether the checkout is shallow, and whether the run was cancelled after either question.
pub record Git : Type 0 where
  pub commit_exists : String → Bool
  pub is_ancestor : String → String → Bool
  pub shallow : Bool
  pub cancelled_after : Bool

pub data BaseError : Type 0 where
  base_cancelled : BaseError
  base_in_shallow base_not_found : String → BaseError

-- baseRef
unfoldable pub base_ref : Git → String → BaseError ⊎ String
base_ref git base =
    let remote = concat "origin/" base in
    if git.commit_exists base && git.commit_exists remote
    then (if git.is_ancestor remote base
        then inr base
        else if git.cancelled_after
        then inl base_cancelled
        else inr remote)
    else if git.commit_exists remote
    then inr remote
    else if git.commit_exists base
    then inr base
    else if git.cancelled_after
    then inl base_cancelled
    else if git.shallow
    then inl (base_in_shallow base)
    else inl (base_not_found base)

-- A path of the work tree relative to the source, if it is below it
unfoldable pub under : String → String → Option String
under prefix path = elim (cut_prefix prefix path) [
  | none ↦ none
  | some rel ↦ if rel == "" then none else some rel
]

unfoldable pub all_under : String → List String → List String
unfolding under
all_under prefix [] = []
all_under prefix (p ∷ ps) =
    let rest = all_under prefix ps in elim (under prefix p) [ none ↦ rest | some rel ↦ rel ∷ rest ]

-- lines[rel] for each path of the diff; a path whose hunks were not read changed no lines.
unfoldable pub lines_of : String → Dict (List LineRange) → List String → Dict (List LineRange)
unfolding under
lines_of prefix parsed [] = []
lines_of prefix parsed (p ∷ ps) =
    let rest = lines_of prefix parsed ps in
    elim (under prefix p) [
      | none ↦ rest
      | some rel ↦ (rel, elim (lookup p parsed) [ none ↦ [] | some rs ↦ rs ]) ∷ rest
    ]

-- Paths, without the base
pub record ChangedPaths : Type 0 where
  pub paths : List String
  pub lines : Dict (List LineRange)

-- The end of Changed: `parsed` is what changedLines read, by the paths of the work tree.
unfoldable pub changed_paths :
    String → Dict (List LineRange) → List String → List String → ChangedPaths
unfolding all_under lines_of
changed_paths prefix parsed diffed untracked = record {
  paths = compact_texts (sort_by str_leb (all_under prefix diffed ++ all_under prefix untracked));
  lines = lines_of prefix parsed diffed;
}
