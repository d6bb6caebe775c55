-- ===== src/Baseline/Covering.antt =====
-- internal/verify/baseline.go: the findings of a check and the entries that it covers.
use levenshtein.Base.{
  ◌<◌, ◌≡◌, ap, true, ◌&&◌, List, [], ◌∷◌, arith, any, All, All-weaken, Bool-cases, inl, inr, ◌==◌,
  eq_iff,
}
use levenshtein.Plan.{PlannedCheck}
use levenshtein.Report.{Finding, CheckResult, detail_findings}
use levenshtein.Baseline.Entry.{BaselineEntry, BaselineKey, key_eq, entry_key, finding_key}
use levenshtein.Baseline.Mark.{covers, recordable}
use levenshtein.Baseline.Record.{covered_by}
use levenshtein.Baseline.Marked.{key_eq_iff, occurrences}

-- What a key shares with a check that reports it.
occurrences-key :
    (check : PlannedCheck) (key : BaselineKey) (fs : List Finding)
    → 0 < occurrences check key fs
    → (check.check.kind ≡ key.kind)
      × (check.target.dir ≡ key.dir)
      × (any (λ (f : Finding). f.code == key.code) fs ≡ true)
unfolding occurrences
occurrences-key check key [] h = elim h [ ]
occurrences-key check key (f ∷ fs) h =
    elim (Bool-cases (recordable f && key_eq (finding_key check f) key)) [
      | inl hit ↦
          let same_key : finding_key check f ≡ key =
            (key_eq_iff (finding_key check f) key).0 (ground arith) in
          let same_code : f.code ≡ key.code =
            unfold finding_key in ap (λ (k : BaselineKey). k.code) same_key in
          (
            unfold finding_key in ap (λ (k : BaselineKey). k.kind) same_key,
            unfold finding_key in ap (λ (k : BaselineKey). k.dir) same_key,
            ground (arith, (eq_iff f.code key.code).1 same_code),
          )
      | inr miss ↦
          let rest = occurrences-key check key fs (ground arith) in
          (rest.0, rest.1, ground (arith, rest.2))
    ]

pub occurrences-covers :
    (check : PlannedCheck) (result : CheckResult) (e : BaselineEntry)
    → 0 < occurrences check (entry_key e) (detail_findings result.details)
    → covers check result e ≡ true
unfolding covers entry_key
occurrences-covers check result e h =
    let k = occurrences-key check (entry_key e) (detail_findings result.details) h in
    ground (arith, k.0, k.1, k.2, eq_iff check.check.kind e.kind, eq_iff check.target.dir e.dir)

-- An entry that one of the judges covers is covered.
pub covers-covered_by :
    (js : List (PlannedCheck × CheckResult))
    → All
        (λ (j : PlannedCheck × CheckResult).
          (e : BaselineEntry) → covers j.0 j.1 e ≡ true → covered_by js e ≡ true)
        js
covers-covered_by [] = tt
covers-covered_by (j ∷ js) = (
  λ e h. ground arith,
  All-weaken
      (λ (k : PlannedCheck × CheckResult).
        (e : BaselineEntry) → covers k.0 k.1 e ≡ true → covered_by js e ≡ true)
      (λ (k : PlannedCheck × CheckResult).
        (e : BaselineEntry) → covers k.0 k.1 e ≡ true → covered_by (j ∷ js) e ≡ true)
      js (λ k later e h. ground (arith, later e h)) (covers-covered_by js),
)
