-- ===== src/Baseline/Marked.antt =====
-- How many findings of each key the baseline excuses, and which.
use levenshtein.Base.{
  ℕ, ◌-◌, ◌≡◌, refl, ap, ◌↔◌, inl, inr, Bool, true, false, ◌&&◌, List, [], ◌∷◌, arith, eq_iff,
  eq_refl, ltb, if◌then◌else◌, Bool-cases, count_if, All, min,
}
use levenshtein.Plan.{PlannedCheck}
use levenshtein.Report.{Finding}
use levenshtein.Baseline.Entry.{BaselineKey, key_eq, finding_key}
use levenshtein.Baseline.Mark.{Counts, set_count, excused, spend, recordable, with_baselined, mark}

pub key_eq_iff : (a b : BaselineKey) → (key_eq a b ≡ true) ↔ (a ≡ b)
unfolding key_eq
key_eq_iff a b = (
  λ h. ground (
    arith,
    eq_iff a.kind b.kind,
    eq_iff a.dir b.dir,
    eq_iff a.file b.file,
    eq_iff a.code b.code,
    eq_iff a.message b.message,
  ),
  λ h.
      ground (
        arith,
        h,
        eq_refl a.kind,
        eq_refl a.dir,
        eq_refl a.file,
        eq_refl a.code,
        eq_refl a.message,
      ),
)

pub key_eq_refl : (a : BaselineKey) → key_eq a a ≡ true
key_eq_refl a = (key_eq_iff a a).1 refl

-- The recordable findings of a check with a key.
unfoldable pub occurrences : PlannedCheck → BaselineKey → List Finding → ℕ
occurrences check key fs = count_if (λ f. recordable f && key_eq (finding_key check f) key) fs

-- Those of them that carry the mark.
unfoldable pub marked : PlannedCheck → BaselineKey → List Finding → ℕ
marked check key fs =
    count_if (λ f. f.baselined && (recordable f && key_eq (finding_key check f) key)) fs

abbrev Unmarked : List Finding → Type 0
Unmarked fs = All (λ (f : Finding). f.baselined ≡ false) fs

module _ (check : PlannedCheck) where
  finding_key-with_baselined :
      (f : Finding) → finding_key check (with_baselined f) ≡ finding_key check f
  unfolding finding_key
  finding_key-with_baselined f = refl

  abbrev one_of : BaselineKey → Finding → Bool
  one_of key f = recordable f && key_eq (finding_key check f) key

  pub spend-left :
      (key : BaselineKey) (left : Counts) (f : Finding)
      → spend check left f key ≡ left key - (if one_of key f then 1 else 0)
  unfolding spend set_count
  spend-left key left f = elim (Bool-cases (key_eq (finding_key check f) key)) [
    | inl e ↦ ground (arith, ap left ((key_eq_iff (finding_key check f) key).0 e))
    | inr d ↦ ground arith
  ]

  excused-left :
      (key : BaselineKey) (left : Counts) (f : Finding)
      → one_of key f ≡ true
      → excused check left f ≡ ltb 0 (left key)
  unfolding excused
  excused-left key left f h =
      ground (arith, ap left ((key_eq_iff (finding_key check f) key).0 (ground arith)))

  -- What is left of a key after the loop.
  pub mark-left :
      (key : BaselineKey) (left : Counts) (fs : List Finding)
      → (mark check left fs).1 key ≡ left key - occurrences check key fs
  unfolding mark occurrences
  mark-left key left [] = omega arith
  mark-left key left (f ∷ fs) =
      ground (arith, spend-left key left f, mark-left key (spend check left f) fs)

  -- In a list of findings none of which is marked, the loop marks, of the recordable findings with one key (those
  -- that are neither advisory nor stale-entry findings), as many as the key is allowed, or all of them if there
  -- are fewer.
  pub marked-mark :
      (key : BaselineKey) (left : Counts) (fs : List Finding)
      → Unmarked fs
      → marked check key (mark check left fs).0 ≡ min (left key) (occurrences check key fs)
  unfolding mark occurrences marked
  marked-mark key left [] u = omega arith
  marked-mark key left (f ∷ fs) u = ground (
    arith,
    u.0,
    spend-left key left f,
    excused-left key left f,
    finding_key-with_baselined f,
    marked-mark key (spend check left f) fs u.1,
  )
