-- ===== src/Changes/Examples.antt =====
-- A change to one file beside a new one.
use levenshtein.Base.{◌≡◌, true, ◌||◌, some, List, [], ◌∷◌, is_some, any, Dict, lookup, contains}
use levenshtein.Mutation.{LineRange, on_lines}
use levenshtein.Changes.{changed_paths}
use levenshtein.Changes.Listed.{is_at, changed_paths-on_lines}

abbrev hunks : Dict (List LineRange)
hunks = ("src/a.go", record { start = 2; stop = 3 } ∷ []) ∷ []

changed_paths-on_lines_example :
    (contains "b.go" (changed_paths "src/" hunks ("src/a.go" ∷ []) ("src/b.go" ∷ [])).paths ≡ (
      any (is_at "src/" "b.go") ("src/a.go" ∷ []) || any (is_at "src/" "b.go") ("src/b.go" ∷ [])))
    × (is_some
          (lookup "b.go" (changed_paths "src/" hunks ("src/a.go" ∷ []) ("src/b.go" ∷ [])).lines)
        ≡ any (is_at "src/" "b.go") ("src/a.go" ∷ []))
    × ((any (is_at "src/" "b.go") ("src/a.go" ∷ [])
          || on_lines
              (some (changed_paths "src/" hunks ("src/a.go" ∷ []) ("src/b.go" ∷ [])).lines)
              "b.go"
              7)
        ≡ true)
changed_paths-on_lines_example =
    changed_paths-on_lines "src/" "b.go" hunks ("src/a.go" ∷ []) ("src/b.go" ∷ []) 7
