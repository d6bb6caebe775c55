-- ===== src/Baseline/Recorded.antt =====
-- The entries that Record writes, read back by Apply.
use mathlib.Core.Path.{subst}
use levenshtein.Base.{
  ℕ, ◌≤◌, ◌<◌, String, ◌≡◌, sym, ap, ◌∙◌, inl, inr, Bool, true, ◌&&◌, [], ◌∷◌, map, arith, ltb,
  Bool-cases, any, All, All-weaken,
}
use levenshtein.Plan.{PlannedCheck}
use levenshtein.Report.{CheckResult, detail_findings}
use levenshtein.Baseline.Entry.{BaselineEntry, BaselineKey, key_eq, entry_key, normalize_message}
use levenshtein.Baseline.Mark.{covers, allowance}
use levenshtein.Baseline.Record.{Tally, tally_of, entry_of, sort_entries}
use levenshtein.Baseline.Marked.{key_eq_iff, occurrences}
use levenshtein.Baseline.Allowance.{allowance_from-ge}
use levenshtein.Baseline.Tallies.{has_key, Unique, Unique-All, tally_of-has_key}
use levenshtein.Baseline.Sorted.{sort_entries-All, any-sort_entries}
use levenshtein.Baseline.Covering.{occurrences-covers}

-- A message that has no position left, so that an entry with it has the key it was recorded for.
abbrev pub Stable : BaselineEntry → Type 0
Stable e = normalize_message e.message ≡ e.message

entry_key-entry_of :
    (k : BaselineKey) (n : ℕ) → Stable (entry_of (k, n)) → entry_key (entry_of (k, n)) ≡ k
unfolding entry_key entry_of
entry_key-entry_of k n h =
    let with_message : String → BaselineKey = λ m. record k { message = m } in ap with_message h

entry_of-All :
    (key : BaselineKey) (n : ℕ) (t : Tally)
    → All Stable (map entry_of t)
    → All (λ (p : BaselineKey × ℕ). key_eq p.0 key ≡ true → n ≤ p.1) t
    → All (λ (e : BaselineEntry). key_eq (entry_key e) key ≡ true → n ≤ e.count) (map entry_of t)
entry_of-All key n [] s h = tt
entry_of-All key n ((k, m) ∷ t) s h = (
  λ e. unfold entry_of in h.0 (sym (ap (λ j. key_eq j key) (entry_key-entry_of k m s.0)) ∙ e),
  entry_of-All key n t s.1 h.1,
)

entry_of-any :
    (p : BaselineEntry → Bool) (key : BaselineKey) (t : Tally)
    → All Stable (map entry_of t)
    → ((e : BaselineEntry) → entry_key e ≡ key → p e ≡ true)
    → has_key key t ≡ true
    → any (λ (e : BaselineEntry). p e && key_eq (entry_key e) key) (map entry_of t) ≡ true
unfolding has_key
entry_of-any p key [] s f h = cc h
entry_of-any p key ((k, m) ∷ t) s f h = elim (Bool-cases (key_eq k key)) [
  | inl e ↦
      let same_key : entry_key (entry_of (k, m)) ≡ key =
        entry_key-entry_of k m s.0 ∙ (key_eq_iff k key).0 e in
      ground (
        arith,
        f (entry_of (k, m)) same_key,
        (key_eq_iff (entry_key (entry_of (k, m))) key).1 same_key,
      )
  | inr d ↦ ground (arith, entry_of-any p key t s.1 f)
]

-- A check whose findings the tally counts is allowed all of them by the entries of the tally.
module _ (check : PlannedCheck) (result : CheckResult) (t : Tally)
    (stable : All Stable (map entry_of t)) (unique : Unique t) where
  pub recorded_allowance :
      (key : BaselineKey)
      → (0 < occurrences check key (detail_findings result.details)
          → occurrences check key (detail_findings result.details) ≤ tally_of key t)
      → occurrences check key (detail_findings result.details)
        ≤ allowance check result (sort_entries (map entry_of t)) key
  unfolding allowance
  recorded_allowance key reach =
      let n = occurrences check key (detail_findings result.details) in
      elim (Bool-cases (ltb 0 n)) [
        | inl some_ ↦
            let reached : n ≤ tally_of key t = reach (ground arith) in
            allowance_from-ge check result key n (λ _. 0) (sort_entries (map entry_of t))
              (sort_entries-All
                (λ (e : BaselineEntry). key_eq (entry_key e) key ≡ true → n ≤ e.count)
                (map entry_of t)
                (entry_of-All key n t stable (
                  All-weaken (λ (p : BaselineKey × ℕ). key_eq p.0 key ≡ true → tally_of key t ≤ p.1)
                    (λ (p : BaselineKey × ℕ). key_eq p.0 key ≡ true → n ≤ p.1) t
                    (λ p f e. omega (arith, f e, reached)) (Unique-All key t unique))))
              (inr (
                any-sort_entries
                  (λ (e : BaselineEntry). covers check result e && key_eq (entry_key e) key)
                  (map entry_of t)
                ∙ entry_of-any (covers check result) key t stable
                    (λ e same_key. occurrences-covers check result e (
                      subst (λ k. 0 < occurrences check k (detail_findings result.details))
                        (sym same_key) (ground arith)))
                    (tally_of-has_key key t (ground (arith, reached)))))
        | inr none_ ↦ ground arith
      ]
