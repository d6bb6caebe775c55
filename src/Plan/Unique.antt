-- ===== src/Plan/Unique.antt =====
-- internal/verify/plan.go: the identifiers of the checks of a plan.
use mathlib.Core.Path.{subst}
use levenshtein.Base.{
  String, ◌≡◌, ◌≢◌, inl, inr, Bool, false, some, List, [], ◌∷◌, ◌++◌, arith, ◌==◌, eq_iff,
  Bool-cases, Option-cases, any, All, All-append, lookup,
}
use levenshtein.Result.{ok, Result-cases}
use levenshtein.Config.{Run, Config}
use levenshtein.Plan.{
  Host, PlannedCheck, Plan, Selection, selections, plan_check, plan_selected, plan_references, plan,
}

module _ (host : Host) (cfg : Config) (source : String) (rerun : Bool) where
  -- What planCheck copies from the selection.
  pub plan_check-selected :
      (selected : Selection) (p : PlannedCheck)
      → plan_check host cfg source selected rerun ≡ ok p
      → (p.id ≡ selected.id) × (p.check ≡ selected.check)
  unfolding plan_check
  plan_check-selected selected p h = (ground arith, ground arith)

-- An invariant of the list of planned checks that one more check keeps.
module _ (host : Host) (cfg : Config) (source : String) (rerun : Bool)
    (P : List PlannedCheck → Type 0)
    (step : (planned : List PlannedCheck) (selected : Selection) (p : PlannedCheck)
      → P planned
      → any (λ (q : PlannedCheck). q.id == selected.id) planned ≡ false
      → plan_check host cfg source selected rerun ≡ ok p
      → P (planned ++ p ∷ [])) where
  plan_selected-keeps :
      (planned : List PlannedCheck) (selected : List Selection) (result : List PlannedCheck)
      → plan_selected host cfg source rerun planned selected ≡ ok result
      → P planned
      → P result
  unfolding plan_selected
  plan_selected-keeps planned [] result h k = subst P (cc) k
  plan_selected-keeps planned (s ∷ rest) result h k =
      elim (Bool-cases (any (λ (q : PlannedCheck). q.id == s.id) planned)) [
        | inl twice ↦ absurd (ground arith)
        | inr new ↦ elim (Result-cases (plan_check host cfg source s rerun)) [
          | inl (p, e) ↦
              plan_selected-keeps (planned ++ p ∷ []) rest result (ground arith)
                (step planned s p k new e)
          | inr (x, e) ↦ absurd (ground arith)
        ]
      ]

  pub plan_references-keeps :
      (planned : List PlannedCheck) (references : List String) (result : List PlannedCheck)
      → plan_references host cfg source rerun planned references ≡ ok result
      → P planned
      → P result
  unfolding plan_references
  plan_references-keeps planned [] result h k = subst P (cc) k
  plan_references-keeps planned (r ∷ rest) result h k = elim (Result-cases (selections cfg r)) [
    | inl (selected, e) ↦
        elim (Result-cases (plan_selected host cfg source rerun planned selected)) [
          | inl (next, e') ↦
              plan_references-keeps next rest result (ground arith)
                (plan_selected-keeps planned selected next e' k)
          | inr (x, e') ↦ absurd (ground arith)
        ]
    | inr (x, e) ↦ absurd (ground arith)
  ]

-- What a plan copies from its run, and how it gets its checks.
pub plan_parts :
    (host : Host) (cfg : Config) (source name : String) (p : Plan)
    → plan host cfg source name ≡ ok p
    → (run : Run) × (lookup name cfg.runs ≡ some run)
      × (p.rerun_checks ≡ run.rerun_checks)
      × (plan_references host cfg p.source p.rerun_checks [] run.checks ≡ ok p.checks)
unfolding plan
plan_parts host cfg source name p h = elim (Result-cases (host.resolve source)) [
  | inl (root, e) ↦ elim (Option-cases (lookup name cfg.runs)) [
    | inl missing ↦ absurd (ground arith)
    | inr (run, known) ↦
        elim (Result-cases (plan_references host cfg root run.rerun_checks [] run.checks)) [
          | inl (checks, e') ↦ (run, known, ground arith, ground arith)
          | inr (x, e') ↦ absurd (ground arith)
        ]
  ]
  | inr (x, e) ↦ absurd (ground arith)
]

-- The identifiers of a list of planned checks differ.
abbrev pub Distinct : List PlannedCheck → Type 0
Distinct [] = Unit
Distinct (p ∷ ps) = All (λ (q : PlannedCheck). q.id ≢ p.id) ps × Distinct ps

Distinct-snoc :
    (ps : List PlannedCheck) (p : PlannedCheck) (id : String)
    → Distinct ps
    → any (λ (q : PlannedCheck). q.id == id) ps ≡ false
    → p.id ≡ id
    → Distinct (ps ++ p ∷ [])
Distinct-snoc [] p id d new e = (tt, tt)
Distinct-snoc (q ∷ ps) p id d new e = (
  All-append (λ (x : PlannedCheck). x.id ≢ q.id) ps (p ∷ []) d.0
      (λ same. ground (arith, eq_iff q.id id), tt),
  Distinct-snoc ps p id d.1 (ground arith) e,
)

-- The checks of a plan have different identifiers, whatever its run refers to.
pub plan-Distinct :
    (host : Host) (cfg : Config) (source name : String) (p : Plan)
    → plan host cfg source name ≡ ok p
    → Distinct p.checks
plan-Distinct host cfg source name p h =
    let (run, known, rerun, e) = plan_parts host cfg source name p h in
    plan_references-keeps host cfg p.source p.rerun_checks Distinct
      (λ planned s q d new planned_ok.
        Distinct-snoc planned q s.id d new
          (plan_check-selected host cfg p.source p.rerun_checks s q planned_ok).0)
      [] run.checks p.checks e tt
