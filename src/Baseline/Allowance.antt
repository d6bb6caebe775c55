-- ===== src/Baseline/Allowance.antt =====
-- The counts that a check starts from under a recorded baseline.
use levenshtein.Base.{
  ℕ, ◌≤◌, ◌≡◌, refl, ◌⊎◌, inl, inr, true, false, ◌&&◌, List, [], ◌∷◌, arith, if◌then◌else◌,
  Bool-cases, any, All,
}
use levenshtein.Plan.{PlannedCheck}
use levenshtein.Report.{Finding, CheckResult}
use levenshtein.Baseline.Entry.{BaselineEntry, BaselineKey, key_eq, entry_key, finding_key}
use levenshtein.Baseline.Mark.{
  Counts, set_count, covers, allowance_from, mark, recordable, excused, spend,
}
use levenshtein.Baseline.Apply.{failing}
use levenshtein.Baseline.Marked.{key_eq_refl, occurrences, spend-left}

-- Each recordable finding is marked if no key occurs more often than it is allowed.
pub mark-failing :
    (check : PlannedCheck) (left : Counts) (fs : List Finding)
    → ((key : BaselineKey) → occurrences check key fs ≤ left key)
    → any failing (mark check left fs).0 ≡ false
unfolding mark
mark-failing check left [] h = refl
mark-failing check left (f ∷ fs) h =
    let rest = mark-failing check (spend check left f) fs (λ key. spend_enough key) in
    ground (arith, rest, head_excused)
  where
    spend_enough : (key : BaselineKey) → occurrences check key fs ≤ spend check left f key
    spend_enough key = unfold occurrences in ground (arith, h key, spend-left check key left f)

    head_excused : recordable f ≡ true → excused check left f ≡ true
    head_excused r =
        unfold occurrences excused in
        ground (arith, h (finding_key check f), key_eq_refl (finding_key check f))

head_or_rest :
    (check : PlannedCheck) (r : CheckResult) (key : BaselineKey) (n : ℕ) (left : Counts)
    (e : BaselineEntry) (es : List BaselineEntry)
    → (key_eq (entry_key e) key ≡ true → n ≤ e.count)
    → (n ≤ left key)
      ⊎ (any (λ (e : BaselineEntry). covers check r e && key_eq (entry_key e) key) (e ∷ es) ≡ true)
    → (n ≤ (if covers check r e then set_count left (entry_key e) e.count else left) key)
      ⊎ (any (λ (e : BaselineEntry). covers check r e && key_eq (entry_key e) key) es ≡ true)
head_or_rest check r key n left e es h k = elim (Bool-cases (covers check r e)) [
  | inl c ↦ elim (Bool-cases (key_eq (entry_key e) key)) [
    | inl q ↦ inl (unfold set_count in ground (arith, h q))
    | inr q ↦ unfold set_count in elim k [ inl m ↦ inl (ground arith) | inr m ↦ inr (ground arith) ]
  ]
  | inr c ↦ elim k [ inl m ↦ inl (ground arith) | inr m ↦ inr (ground arith) ]
]

-- An entry that is covered and has the key sets its count; if each such entry has at least `n`, so has
-- what is left of the key.
pub allowance_from-ge :
    (check : PlannedCheck) (r : CheckResult) (key : BaselineKey) (n : ℕ) (left : Counts)
    (es : List BaselineEntry)
    → All (λ (e : BaselineEntry). key_eq (entry_key e) key ≡ true → n ≤ e.count) es
    → (n ≤ left key)
      ⊎ (any (λ (e : BaselineEntry). covers check r e && key_eq (entry_key e) key) es ≡ true)
    → n ≤ allowance_from left check r es key
unfolding allowance_from
allowance_from-ge check r key n left [] h (inl k) = k
allowance_from-ge check r key n left [] h (inr k) = cc k
allowance_from-ge check r key n left (e ∷ es) h k =
    allowance_from-ge check r key n
      (if covers check r e then set_count left (entry_key e) e.count else left) es h.1
      (head_or_rest check r key n left e es h.0 k)
