-- ===== src/Plan/Targets/Bound.antt =====
-- internal/verify/plan.go: the target of each check that a reference selects.
use mathlib.Core.Path.{subst}
use levenshtein.Base.{
  String, ◌≡◌, refl, ◌≢◌, true, List, [], ◌∷◌, map, arith, ◌==◌, eq_iff, Bool-cases, Option-cases,
  inl, inr, is_empty, contains, lookup, All,
}
use levenshtein.Result.{Result-cases, ok}
use levenshtein.Config.{Check, Config}
use levenshtein.Config.Options.{at}
use levenshtein.Plan.Targets.{
  Selection, no_repeats, same_bool, validate_targets, select_target, select_all, select_one,
  selections, split_reference,
}

-- A check that is bound to one target.
abbrev pub Bound : Selection → Type 0
Bound s = (s.check.target ≢ "") × (s.check.targets ≡ [])

no_repeats-named :
    (seen names : List String) → no_repeats seen names ≡ ok tt → All (λ name. name ≢ "") names
unfolding no_repeats
no_repeats-named seen [] h = tt
no_repeats-named seen (name ∷ names) h = (
  λ e. absurd (ground (arith, (eq_iff name "").1 e)),
  no_repeats-named (name ∷ seen) names (ground arith),
)

validate_targets-named :
    (check : Check) → validate_targets check ≡ ok tt → All (λ name. name ≢ "") check.targets
unfolding validate_targets
validate_targets-named check h = no_repeats-named [] check.targets (ground arith)

select_target-Bound :
    (reference : String) (check : Check) (names : List String)
    → All (λ name. name ≢ "") names
    → All Bound (map (select_target reference check) names)
unfolding select_target at
select_target-Bound reference check [] h = tt
select_target-Bound reference check (name ∷ names) h =
    ((h.0, refl), select_target-Bound reference check names h.1)

empty-nil : (names : List String) → is_empty names ≡ true → names ≡ []
empty-nil [] e = refl
empty-nil (n ∷ names) e = cc e

validate_targets-single :
    (check : Check)
    → validate_targets check ≡ ok tt
    → is_empty check.targets ≡ true
    → (check.target ≢ "") × (check.targets ≡ [])
unfolding validate_targets same_bool
validate_targets-single check h e =
    (λ t. absurd (ground (arith, (eq_iff check.target "").1 t)), empty-nil check.targets e)

contains-named :
    (name : String) (names : List String)
    → All (λ n. n ≢ "") names
    → contains name names ≡ true
    → name ≢ ""
unfolding contains
contains-named name [] a h = cc h
contains-named name (n ∷ names) a h = elim (Bool-cases (n == name)) [
  | inl same_name ↦ subst (λ m. m ≢ "") ((eq_iff n name).0 same_name) a.0
  | inr other ↦ contains-named name names a.1 (ground arith)
]

select_all-Bound :
    (reference : String) (check : Check) (selected : List Selection)
    → select_all reference check ≡ ok selected
    → All Bound selected
unfolding select_all
select_all-Bound reference check selected h = elim (Result-cases (validate_targets check)) [
  | inl (done, e) ↦ elim (Bool-cases (is_empty check.targets)) [
    | inl single ↦
        let one : record { id = reference; check = check } ∷ [] ≡ selected = ground arith in
        subst (All Bound) one (validate_targets-single check e single, tt)
    | inr several ↦
        let each : map (select_target reference check) check.targets ≡ selected = ground arith in
        subst (All Bound) each
          (select_target-Bound reference check check.targets (validate_targets-named check e))
  ]
  | inr (x, e) ↦ absurd (ground arith)
]

select_one-Bound :
    (cfg : Config) (reference : String) (selected : List Selection)
    → select_one cfg reference ≡ ok selected
    → All Bound selected
unfolding select_one
select_one-Bound cfg reference selected h =
    let name = (split_reference reference).1 in
    elim (Option-cases (lookup (split_reference reference).0 cfg.checks)) [
      | inl missing ↦ absurd (ground arith)
      | inr (check, known) ↦ elim (Result-cases (validate_targets check)) [
        | inl (done, e) ↦
            let listed : contains name check.targets ≡ true = ground arith in
            let one : record { id = reference; check = at check name } ∷ [] ≡ selected =
              ground arith in
            subst (All Bound) one (
              (
                unfold at in
                    contains-named name check.targets (validate_targets-named check e) listed,
                unfold at in refl,
              ),
              tt,
            )
        | inr (x, e) ↦ absurd (ground arith)
      ]
    ]

-- Each check that a reference of a run selects is bound to one target, with a name.
pub selections-Bound :
    (cfg : Config) (reference : String) (selected : List Selection)
    → selections cfg reference ≡ ok selected
    → All Bound selected
unfolding selections
selections-Bound cfg reference selected h = elim (Option-cases (lookup reference cfg.checks)) [
  | inl missing ↦ select_one-Bound cfg reference selected (ground arith)
  | inr (check, known) ↦ select_all-Bound reference check selected (ground arith)
]
