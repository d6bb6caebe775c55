-- ===== src/Kinds/Laws.antt =====
-- What the table of kinds guarantees whatever kind a configuration names.
use levenshtein.Base.{
  ◌≡◌, refl, ap, ◌≢◌, ◌⊎◌, inl, inr, Bool, true, false, not, ◌&&◌, ◌||◌, none, some, List, [], ◌∷◌,
  arith, ◌==◌, eq_iff, Bool-cases, all,
}
use levenshtein.Config.{CheckKind}
use levenshtein.Kinds.{
  KindSpec, no_spec, describe_kinds, find_spec, spec_of, always_fresh_reason, base_dependent_reason,
  baseline_kind, located_kind, dagger_function, read_only_workspace, validate_command_check,
  validate_semantic_lint, validate_shared_go_check, NativeKind, native_kind_of,
}

-- A test that every row and the empty one pass is passed by each kind.
find_spec-all :
    (p : KindSpec → Bool) (kind : CheckKind) (specs : List KindSpec)
    → all p specs ≡ true
    → p no_spec ≡ true
    → p (find_spec kind specs) ≡ true
unfolding find_spec
find_spec-all p kind [] rows empty = empty
find_spec-all p kind (spec ∷ specs) rows empty = ground (arith, find_spec-all p kind specs)

pub spec_of-all :
    (p : KindSpec → Bool) (kind : CheckKind)
    → all p describe_kinds ≡ true
    → p no_spec ≡ true
    → p (spec_of kind) ≡ true
unfolding spec_of
spec_of-all p kind rows empty = find_spec-all p kind describe_kinds rows empty

-- The tests below, on one row.
abbrev recordable : KindSpec → Bool
recordable spec =
    not spec.baseline
    || (spec.located
        && (spec.always_fresh == "" && (spec.base_dependent == "" && not (spec.dagger == ""))))

abbrev writer_is_command : KindSpec → Bool
writer_is_command spec = not spec.writes_workspace || (spec.kind == "command" && spec.dagger == "")

-- A kind whose findings a baseline can hold reports them at locations, runs on Dagger, and has a
-- verdict that depends on neither outside data nor the base branch.
pub baseline_kind_recordable :
    (kind : CheckKind)
    → baseline_kind kind ≡ true
    → (located_kind kind ≡ true)
      × (always_fresh_reason kind ≡ "")
      × (base_dependent_reason kind ≡ "")
      × (dagger_function kind ≢ "")
unfolding baseline_kind located_kind always_fresh_reason base_dependent_reason dagger_function
baseline_kind_recordable kind h =
    let spec = spec_of kind in
    let row : recordable spec ≡ true =
      spec_of-all recordable kind (unfold describe_kinds in refl) (unfold no_spec in refl) in
    (
      ground arith,
      ground (arith, eq_iff spec.always_fresh ""),
      ground (arith, eq_iff spec.base_dependent ""),
      λ e. ground (arith, eq_iff spec.dagger "", e),
    )

-- A lookup that misses gives the empty row.
find_spec-kind :
    (kind : CheckKind) (specs : List KindSpec)
    → (find_spec kind specs ≡ no_spec) ⊎ ((find_spec kind specs).kind ≡ kind)
unfolding find_spec
find_spec-kind kind [] = inl refl
find_spec-kind kind (spec ∷ specs) = elim (Bool-cases (spec.kind == kind)) [
  | inl hit ↦ rw hit (inr ((eq_iff spec.kind kind).0 hit))
  | inr miss ↦ rw miss (find_spec-kind kind specs)
]

pub spec_of-kind : (kind : CheckKind) → (spec_of kind ≡ no_spec) ⊎ ((spec_of kind).kind ≡ kind)
unfolding spec_of
spec_of-kind kind = find_spec-kind kind describe_kinds

-- A kind whose native check may write the working tree is `command`, which Dagger never runs; so every other kind,
-- one that the table does not have included, writes nothing.
pub writers_are_commands :
    (kind : CheckKind)
    → read_only_workspace kind ≡ false
    → (kind ≡ "command") × (dagger_function kind ≡ "")
unfolding read_only_workspace dagger_function
writers_are_commands kind h =
    let spec = spec_of kind in
    let row : writer_is_command spec ≡ true =
      spec_of-all writer_is_command kind (unfold describe_kinds in refl) (unfold no_spec in refl) in
    elim (spec_of-kind kind) [
      | inl missing ↦ absurd (unfold no_spec in cc (h, missing))
      | inr own ↦
          (ground (arith, eq_iff spec.kind "command"), ground (arith, eq_iff spec.dagger ""))
    ]

abbrev validator_fits : KindSpec → Bool
validator_fits spec = elim spec.native [
  | none ↦ true
  | some n ↦ elim n.validate [
    | validate_shared_go_check ↦ not (spec.dagger == "")
    | validate_command_check ↦ spec.kind == "command"
    | validate_semantic_lint ↦ spec.kind == "semantic-lint"
  ]
]

-- Which kinds the two validators of native-only kinds belong to.
pub native_kind_of-validate :
    (kind : CheckKind) (n : NativeKind)
    → native_kind_of kind ≡ some n
    → (n.validate ≡ validate_command_check → kind ≡ "command")
      × (n.validate ≡ validate_semantic_lint → kind ≡ "semantic-lint")
unfolding native_kind_of
native_kind_of-validate kind n h =
    let spec = spec_of kind in
    let row : validator_fits spec ≡ true =
      spec_of-all validator_fits kind (unfold describe_kinds in refl) (unfold no_spec in refl) in
    elim (spec_of-kind kind) [
      | inl e ↦ absurd (unfold no_spec in cc (ap (λ (s : KindSpec). s.native) e))
      | inr e ↦ (
        λ v. ground (arith, eq_iff spec.kind "command"),
        λ v. ground (arith, eq_iff spec.kind "semantic-lint"),
      )
    ]

-- The two kinds that run on the host alone.
pub native_kind_of-command :
    (n : NativeKind) → native_kind_of "command" ≡ some n → n.validate ≡ validate_command_check
unfolding native_kind_of spec_of find_spec describe_kinds
native_kind_of-command n h = cc

pub native_kind_of-semantic_lint :
    (n : NativeKind) → native_kind_of "semantic-lint" ≡ some n → n.validate ≡ validate_semantic_lint
unfolding native_kind_of spec_of find_spec describe_kinds
native_kind_of-semantic_lint n h = cc

pub dagger_function-command : dagger_function "command" ≡ ""
unfolding dagger_function spec_of find_spec describe_kinds
dagger_function-command = refl

pub dagger_function-semantic_lint : dagger_function "semantic-lint" ≡ ""
unfolding dagger_function spec_of find_spec describe_kinds
dagger_function-semantic_lint = refl
