-- ===== src/Baseline/Parsed.antt =====
-- internal/verify/baseline.go: the entries of a file that parseBaseline accepts, as Apply counts them.
use levenshtein.Base.{
  ◌≡◌, refl, ap, ◌∙◌, Bool, true, false, List, [], ◌∷◌, arith, any, All, if◌then◌else◌, Bool-cases,
  inl, inr,
}
use levenshtein.Plan.{PlannedCheck}
use levenshtein.Report.{CheckResult}
use levenshtein.Baseline.Entry.{BaselineEntry, BaselineKey, key_eq, entry_key, parse_entries}
use levenshtein.Baseline.Mark.{Counts, set_count, covers, allowance, allowance_from}
use levenshtein.Baseline.Marked.{key_eq_iff, key_eq_refl}

abbrev has_entry : BaselineKey → List BaselineEntry → Bool
has_entry key es = any (λ (e : BaselineEntry). key_eq (entry_key e) key) es

-- A key that was seen does not come again.
parse_entries-once :
    (key : BaselineKey) (seen : List BaselineKey) (es : List BaselineEntry)
    → any (key_eq key) seen ≡ true
    → parse_entries seen es ≡ true
    → has_entry key es ≡ false
unfolding parse_entries
parse_entries-once key seen [] k h = refl
parse_entries-once key seen (e ∷ es) k h = elim (Bool-cases (key_eq (entry_key e) key)) [
  | inl again ↦
      let there : any (key_eq (entry_key e)) seen ≡ true =
        ap (λ j. any (key_eq j) seen) ((key_eq_iff (entry_key e) key).0 again) ∙ k in
      absurd (ground arith)
  | inr other ↦
      ground (arith, parse_entries-once key (entry_key e ∷ seen) es (ground arith) (ground arith))
]

module _ (check : PlannedCheck) (result : CheckResult) where
  allowance_from-other :
      (left : Counts) (key : BaselineKey) (es : List BaselineEntry)
      → has_entry key es ≡ false
      → allowance_from left check result es key ≡ left key
  unfolding allowance_from set_count
  allowance_from-other left key [] h = refl
  allowance_from-other left key (e ∷ es) h = ground (
    arith,
    allowance_from-other
        (if covers check result e then set_count left (entry_key e) e.count else left) key es,
  )

  allowance_from-own :
      (left : Counts) (seen : List BaselineKey) (es : List BaselineEntry)
      → parse_entries seen es ≡ true
      → All
          (λ (e : BaselineEntry).
            covers check result e ≡ true
            → allowance_from left check result es (entry_key e) ≡ e.count)
          es
  unfolding allowance_from parse_entries
  allowance_from-own left seen [] h = tt
  allowance_from-own left seen (e ∷ es) h =
      let rest : parse_entries (entry_key e ∷ seen) es ≡ true = ground arith in
      let left' : Counts =
        if covers check result e then set_count left (entry_key e) e.count else left in
      let gone : has_entry (entry_key e) es ≡ false =
        parse_entries-once (entry_key e) (entry_key e ∷ seen) es
          (ground (arith, key_eq_refl (entry_key e))) rest in
      (
        λ c.
            allowance_from-other left' (entry_key e) es gone
            ∙ (unfold set_count in ground (arith, c, key_eq_refl (entry_key e))),
        allowance_from-own left' (entry_key e ∷ seen) es rest,
      )

-- If parseBaseline accepts the entries, a check that covers one of them starts with the count of that
-- entry for its key.
pub allowance-own :
    (check : PlannedCheck) (result : CheckResult) (es : List BaselineEntry)
    → parse_entries [] es ≡ true
    → All
        (λ (e : BaselineEntry).
          covers check result e ≡ true → allowance check result es (entry_key e) ≡ e.count)
        es
unfolding allowance
allowance-own check result es h = allowance_from-own check result (λ _. 0) [] es h
