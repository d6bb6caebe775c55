-- ===== src/Mutation/Parsed.antt =====
-- runner/mutation.go: the changed lines that parseLines accepts.
use mathlib.Core.Path.{subst}
use levenshtein.Base.{
  ◌≤◌, String, ◌≡◌, refl, ap, ◌∙◌, ◌≢◌, ◌↔◌, inl, inr, true, false, Option, none, some, List, [],
  ◌∷◌, arith, ◌==◌, eq_iff, Bool-cases, Option-cases, All, Dict, contains,
}
use levenshtein.Mutation.{Lines, LineRange, parse_lines, lines_error, first_bad, bad_line_range}

-- A range of lines that are there
abbrev Proper : LineRange → Type 0
Proper r = (1 ≤ r.start) × (r.start ≤ r.stop)

-- The files are selected, and their ranges proper.
abbrev pub Usable : List String → Dict (List LineRange) → Type 0
Usable files = All (λ (f : String × List LineRange). (contains f.0 files ≡ true) × All Proper f.1)

first_bad-Proper : (rs : List LineRange) → (first_bad rs ≡ none) ↔ All Proper rs
unfolding first_bad bad_line_range
first_bad-Proper [] = ((λ h. tt), λ h. refl)
first_bad-Proper (r ∷ rs) =
    let (to, from) = first_bad-Proper rs in
    (
      (λ h. ((ground arith, ground arith), to (ground arith))),
      λ h. ground (arith, h.0.0, h.0.1, from h.1),
    )

lines_error-Usable :
    (files : List String) (lines : Dict (List LineRange))
    → (lines_error files lines ≡ none) ↔ Usable files lines
unfolding lines_error
lines_error-Usable files [] = ((λ h. tt), λ h. refl)
lines_error-Usable files ((file, rs) ∷ lines) =
    let (to, from) = lines_error-Usable files lines in
    let (proper, good) = first_bad-Proper rs in
    (
      (λ h. elim (Option-cases (first_bad rs)) [
        | inl fine ↦ ((ground arith, proper fine), to (ground arith))
        | inr (r, bad) ↦ absurd (ground arith)
      ]),
      λ h. ground (arith, h.0.0, good h.0.1, from h.1),
    )

found_lines :
    (decode : String → Option Lines) (raw : String) (files : List String)
    (found lines : Dict (List LineRange))
    → raw == "" ≡ false
    → decode raw ≡ some (some found)
    → lines_error files found ≡ none
    → parse_lines decode raw files ≡ inr (some lines)
    → found ≡ lines
unfolding parse_lines
found_lines decode raw files found lines given e fine h = cc (rw (given, e, fine, parse_lines) at h)

accepted_lines :
    (decode : String → Option Lines) (raw : String) (files : List String)
    (lines : Dict (List LineRange))
    → (raw ≢ "") × (decode raw ≡ some (some lines)) × Usable files lines
    → parse_lines decode raw files ≡ inr (some lines)
unfolding parse_lines
accepted_lines decode raw files lines (given, e, good) =
    let named : raw == "" ≡ false = elim (Bool-cases (raw == "")) [
      | inl blank ↦ absurd (given ((eq_iff raw "").0 blank))
      | inr b ↦ b
    ] in
    rw (named, e, (lines_error-Usable files lines).1 good, parse_lines) refl

-- A map of changed lines is accepted exactly if it is what the argument decodes to, every file in it is selected
-- and every range is proper.
pub parse_lines-Usable :
    (decode : String → Option Lines) (raw : String) (files : List String)
    (lines : Dict (List LineRange))
    → (parse_lines decode raw files ≡ inr (some lines))
      ↔ ((raw ≢ "") × (decode raw ≡ some (some lines)) × Usable files lines)
unfolding parse_lines
parse_lines-Usable decode raw files lines = (
  (λ h. elim (Bool-cases (raw == "")) [
    | inl blank ↦ absurd (ground (arith, blank))
    | inr given ↦ elim (Option-cases (decode raw)) [
      | inl lost ↦ absurd (ground (arith, given))
      | inr (none, e) ↦ absurd (ground (arith, given))
      | inr (some found, e) ↦ elim (Option-cases (lines_error files found)) [
        | inr (wrong, bad) ↦ absurd (ground (arith, given))
        | inl fine ↦
            let it : found ≡ lines = found_lines decode raw files found lines given e fine h in
            (
              (λ z. cc (given, (eq_iff raw "").1 z)),
              e ∙ ap (λ x. some (some x)) it,
              subst (Usable files) it ((lines_error-Usable files found).0 fine),
            )
      ]
    ]
  ]),
  λ h. accepted_lines decode raw files lines h,
)
