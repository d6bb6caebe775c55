-- ===== src/Baseline/Counted.antt =====
-- The counts that Record takes from the checks of a run, and what it keeps of the old entries.
use levenshtein.Base.{
  ◌≤◌, ◌≡◌, refl, ◌∙◌, inl, inr, true, not, ◌&&◌, List, [], ◌∷◌, arith, Bool-cases, All,
}
use levenshtein.Config.{Config}
use levenshtein.Plan.{PlannedCheck}
use levenshtein.Report.{detail_findings, CheckResult}
use levenshtein.Baseline.Entry.{BaselineEntry, BaselineKey, entry_key}
use levenshtein.Baseline.Apply.{Report, is_orphan}
use levenshtein.Baseline.Record.{
  Tally, tally_of, upsert, local_tally, raise_all, judge_counts, covered_by, retain,
}
use levenshtein.Baseline.Marked.{key_eq_iff, occurrences}
use levenshtein.Baseline.Tallies.{
  Unique, tally_of-upsert, upsert-Unique, tally_of-local_tally, raise_all-Unique, raise_all_mono,
  raise_all_reaches,
}

-- The judges' counts.

pub judge_counts-Unique :
    (counts : Tally) (js : List (PlannedCheck × CheckResult))
    → Unique counts
    → Unique (judge_counts counts js)
unfolding judge_counts
judge_counts-Unique counts [] u = u
judge_counts-Unique counts ((check, r) ∷ js) u =
    let t = local_tally check [] (detail_findings r.details) in
    judge_counts-Unique (raise_all t counts) js (raise_all-Unique t counts u)

judge_counts_mono :
    (key : BaselineKey) (counts : Tally) (js : List (PlannedCheck × CheckResult))
    → tally_of key counts ≤ tally_of key (judge_counts counts js)
unfolding judge_counts
judge_counts_mono key counts [] = omega arith
judge_counts_mono key counts ((check, r) ∷ js) =
    let t = local_tally check [] (detail_findings r.details) in
    omega (arith, raise_all_mono key t counts, judge_counts_mono key (raise_all t counts) js)

-- After the counting, each check of the list has reported a key at most as often as the tally says.
pub judge_counts_reaches :
    (key : BaselineKey) (counts : Tally) (js : List (PlannedCheck × CheckResult))
    → All
        (λ (j : PlannedCheck × CheckResult).
          occurrences j.0 key (detail_findings j.1.details) ≤ tally_of key (judge_counts counts js))
        js
unfolding judge_counts
judge_counts_reaches key counts [] = tt
judge_counts_reaches key counts ((check, r) ∷ js) =
    let t = local_tally check [] (detail_findings r.details) in
    (
      omega (
        arith,
        tally_of-local_tally check key [] (detail_findings r.details),
        raise_all_reaches key t counts,
        judge_counts_mono key (raise_all t counts) js,
      ),
      judge_counts_reaches key (raise_all t counts) js,
    )

module _ (report : Report) (cfg : Config) (js : List (PlannedCheck × CheckResult)) where
  pub retain-Unique :
      (counts : Tally) (es : List BaselineEntry)
      → Unique counts
      → Unique (retain report cfg js counts es)
  unfolding retain
  retain-Unique counts [] u = u
  retain-Unique counts (e ∷ es) u =
      elim (Bool-cases (not (is_orphan report cfg e) && not (covered_by js e))) [
        | inl kept ↦ rw kept (
            retain-Unique (upsert (λ _. e.count) (entry_key e) counts) es
              (upsert-Unique (λ _. e.count) (entry_key e) counts u))
        | inr gone ↦ rw gone (retain-Unique counts es u)
      ]

  -- An entry that is kept has another key than `key`, so the count of `key` stays.
  pub retain-tally_of :
      (key : BaselineKey) (counts : Tally) (es : List BaselineEntry)
      → ((e : BaselineEntry) → entry_key e ≡ key → covered_by js e ≡ true)
      → tally_of key (retain report cfg js counts es) ≡ tally_of key counts
  unfolding retain
  retain-tally_of key counts [] h = refl
  retain-tally_of key counts (e ∷ es) h =
      elim (Bool-cases (not (is_orphan report cfg e) && not (covered_by js e))) [
        | inl kept ↦ rw kept (
            retain-tally_of key (upsert (λ _. e.count) (entry_key e) counts) es h
            ∙ ground (
              arith,
              tally_of-upsert (λ _. e.count) (entry_key e) key counts,
              h e,
              (key_eq_iff (entry_key e) key).0,
            ))
        | inr gone ↦ rw gone (retain-tally_of key counts es h)
      ]
