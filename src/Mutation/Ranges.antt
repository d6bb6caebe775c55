-- ===== src/Mutation/Ranges.antt =====
-- runner/mutation.go: the lines and the order of the ranges of mergeRanges.
use levenshtein.Base.{
  ℕ, suc, ◌≡◌, refl, ◌∙◌, inl, inr, Bool, true, false, ◌||◌, List, [], ◌∷◌, arith, ltb, leb,
  Bool-cases, max, sort_by,
}
use levenshtein.Mutation.{
  LineRange, merge_ranges, in_ranges, starts_before, merge_into, in_range, merged,
}
use levenshtein.Base.{Sorted, sort_by-Sorted, any-sort_by}

starts_before-total : (a b : LineRange) → starts_before a b ≡ false → starts_before b a ≡ true
starts_before-total a b h = ground arith

joined : LineRange → LineRange → LineRange
joined last r = record { start = last.start; stop = max last.stop r.stop }

Sorted-joined :
    (last r : LineRange) (rs : List LineRange)
    → Sorted starts_before (last ∷ r ∷ rs)
    → Sorted starts_before (joined last r ∷ rs)
unfolding Sorted joined
Sorted-joined last r [] h = tt
Sorted-joined last r (next ∷ rs) h = (ground (arith, h.0, h.1.0), h.1.1)

in_range-joined :
    (last r : LineRange) (line : ℕ)
    → leb last.start r.start ≡ true
    → leb r.start (suc last.stop) ≡ true
    → in_range line (joined last r) ≡ (in_range line last || in_range line r)
unfolding joined
in_range-joined last r line sorted_ touches = ground arith

merge_into-in_ranges :
    (last : LineRange) (rs : List LineRange) (line : ℕ)
    → Sorted starts_before (last ∷ rs)
    → in_ranges (merge_into last rs) line ≡ (in_range line last || in_ranges rs line)
unfolding merge_into in_ranges Sorted joined
merge_into-in_ranges last [] line h = refl
merge_into-in_ranges last (r ∷ rs) line h = elim (Bool-cases (leb r.start (suc last.stop))) [
  | inl touches ↦
      rw (touches, merge_into)
        (merge_into-in_ranges (joined last r) rs line (Sorted-joined last r rs h)
          ∙ ground (arith, in_range-joined last r line h.0 touches))
  | inr apart ↦ rw (apart, merge_into) (ground (arith, merge_into-in_ranges r rs line h.1))
]

merged-in_ranges :
    (rs : List LineRange) (line : ℕ)
    → Sorted starts_before rs
    → in_ranges (merged rs) line ≡ in_ranges rs line
unfolding in_ranges
merged-in_ranges [] line h = refl
merged-in_ranges (r ∷ rs) line h = merge_into-in_ranges r rs line h

-- The next range starts past the line after the last one's end.
abbrev pub apart : LineRange → LineRange → Bool
apart a b = ltb (suc a.stop) b.start

merge_into-apart :
    (x last : LineRange) (rs : List LineRange)
    → apart x last ≡ true
    → Sorted apart (merge_into last rs)
    → Sorted apart (x ∷ merge_into last rs)
unfolding merge_into Sorted joined
merge_into-apart x last [] far h = (far, tt)
merge_into-apart x last (r ∷ rs) far h = elim (Bool-cases (leb r.start (suc last.stop))) [
  | inl touches ↦
      rw (touches, merge_into)
        (merge_into-apart x (joined last r) rs far (rw (touches, merge_into) at h))
  | inr further ↦ rw (further, merge_into) (far, rw (further, merge_into) at h)
]

merge_into-Sorted : (last : LineRange) (rs : List LineRange) → Sorted apart (merge_into last rs)
unfolding merge_into Sorted joined
merge_into-Sorted last [] = tt
merge_into-Sorted last (r ∷ rs) = elim (Bool-cases (leb r.start (suc last.stop))) [
  | inl touches ↦ rw (touches, merge_into) (merge_into-Sorted (joined last r) rs)
  | inr further ↦
      rw (further, merge_into)
        (merge_into-apart last r rs (ground (arith, further)) (merge_into-Sorted r rs))
]

merged-Sorted : (rs : List LineRange) → Sorted apart (merged rs)
unfolding Sorted
merged-Sorted [] = tt
merged-Sorted (r ∷ rs) = merge_into-Sorted r rs

-- Merging keeps the lines that the ranges hold, and leaves a line between any range and the next.
pub merge_ranges-in_ranges :
    (rs : List LineRange)
    → ((line : ℕ) → in_ranges (merge_ranges rs) line ≡ in_ranges rs line)
      × Sorted apart (merge_ranges rs)
unfolding merge_ranges in_ranges
merge_ranges-in_ranges rs = (
  (λ line.
      merged-in_ranges (sort_by starts_before rs) line
        (sort_by-Sorted starts_before starts_before-total rs)
      ∙ any-sort_by starts_before (in_range line) rs),
  merged-Sorted (sort_by starts_before rs),
)
