-- ===== src/Validation/Accepted.antt =====
-- What an accepted check guarantees to planning and to the executors.
use levenshtein.Base.{
  String, ◌≡◌, refl, inl, inr, true, Option, arith, ◌==◌, eq_iff, Option-cases, is_some,
}
use levenshtein.Result.{ok, >>-eq-ok}
use levenshtein.Config.{ExecutorKind, dagger, native, unknown, Environment, Check}
use levenshtein.Kinds.{
  native_kind_of, validate_command_check, validate_semantic_lint, validate_shared_go_check,
  Validator,
}
use levenshtein.Kinds.Laws.{native_kind_of-validate}
use levenshtein.Validation.{
  Duration, validate_check, validate_options, by_executor, validate_dagger_check,
  validate_native_check, run_validator, run_shared_go, run_command_check, run_semantic_lint,
}

-- The options objects of a check fit its kind.
pub record OptionsFit (check : Check) : Type 0 where
  pub mutation : is_some check.mutation ≡ true → check.kind ≡ "go-mutation"
  pub lint : is_some check.lint ≡ true → check.kind ≡ "go-lint"
  pub imports : is_some check.imports ≡ (check.kind == "go-imports")
  pub apidiff : is_some check.apidiff ≡ true → check.kind ≡ "go-apidiff"
  pub command : is_some check.command ≡ true → check.kind ≡ "command"
  pub semantic : is_some check.semantic ≡ true → check.kind ≡ "semantic-lint"

module _ (parse_duration : String → Option Duration) (check : Check) where
  validate_options-mutation :
      validate_options parse_duration check ≡ ok tt
      → is_some check.mutation ≡ true
      → check.kind ≡ "go-mutation"
  unfolding validate_options
  validate_options-mutation h m = ground (arith, eq_iff check.kind "go-mutation")

  validate_options-lint :
      validate_options parse_duration check ≡ ok tt
      → is_some check.lint ≡ true
      → check.kind ≡ "go-lint"
  unfolding validate_options
  validate_options-lint h m = ground (arith, eq_iff check.kind "go-lint")

  validate_options-imports :
      validate_options parse_duration check ≡ ok tt
      → is_some check.imports ≡ (check.kind == "go-imports")
  unfolding validate_options
  validate_options-imports h = ground (arith, eq_iff check.kind "go-imports")

  validate_options-apidiff :
      validate_options parse_duration check ≡ ok tt
      → is_some check.apidiff ≡ true
      → check.kind ≡ "go-apidiff"
  unfolding validate_options
  validate_options-apidiff h m = ground (arith, eq_iff check.kind "go-apidiff")

  -- A check that the executor accepts declares `command` and `semantic` on their own kinds only.
  abbrev StagesFit : Type 0
  StagesFit =
      (is_some check.command ≡ true → check.kind ≡ "command")
      × (is_some check.semantic ≡ true → check.kind ≡ "semantic-lint")

  validate_dagger_check-fit :
      (e : Environment) → validate_dagger_check parse_duration check e ≡ ok tt → StagesFit
  unfolding validate_dagger_check
  validate_dagger_check-fit e h = (λ c. ground arith, λ s. ground arith)

  run_validator-fit :
      (v : Validator) (e : Environment)
      → run_validator parse_duration v check e ≡ ok tt
      → (v ≡ validate_command_check → check.kind ≡ "command")
        × (v ≡ validate_semantic_lint → check.kind ≡ "semantic-lint")
      → StagesFit
  unfolding run_validator run_shared_go run_command_check run_semantic_lint
  run_validator-fit validate_shared_go_check e h k = (λ c. ground arith, λ s. ground arith)
  run_validator-fit validate_command_check e h k = (λ c. k.0 refl, λ s. ground arith)
  run_validator-fit validate_semantic_lint e h k = (λ c. ground arith, λ s. k.1 refl)

  validate_native_check-fit :
      (e : Environment) → validate_native_check parse_duration check e ≡ ok tt → StagesFit
  unfolding validate_native_check
  validate_native_check-fit e h = elim (Option-cases (native_kind_of check.kind)) [
    | inl missing ↦ ground arith
    | inr (n, e1) ↦
        run_validator-fit n.validate e (ground arith) (native_kind_of-validate check.kind n e1)
  ]

  by_executor-fit :
      (x : ExecutorKind) (e : Environment)
      → by_executor parse_duration x check e ≡ ok tt
      → StagesFit
  unfolding by_executor
  by_executor-fit dagger e h = validate_dagger_check-fit e h
  by_executor-fit native e h = validate_native_check-fit e h
  by_executor-fit (unknown name) e h = cc

-- A check that validation accepts carries each options object only on the kind that it belongs to,
-- and a go-imports check carries its rules.
pub validate_check-OptionsFit :
    (parse_duration : String → Option Duration) (check : Check) (e : Environment)
    → validate_check parse_duration check e ≡ ok tt
    → OptionsFit check
unfolding validate_check
validate_check-OptionsFit parse_duration check e h =
    let parts =
      >>-eq-ok (validate_options parse_duration check)
        (by_executor parse_duration e.executor check e) h in
    let stages = by_executor-fit parse_duration check e.executor e parts.1 in
    record {
      mutation = validate_options-mutation parse_duration check parts.0;
      lint = validate_options-lint parse_duration check parts.0;
      imports = validate_options-imports parse_duration check parts.0;
      apidiff = validate_options-apidiff parse_duration check parts.0;
      command = stages.0;
      semantic = stages.1;
    }
