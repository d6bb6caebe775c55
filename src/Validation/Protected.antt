-- ===== src/Validation/Protected.antt =====
-- Two kinds whose validation protects something: `semantic-lint`, whose API key must not come from
-- the committed configuration, and `command`, whose artifacts are written on a cache hit.
use levenshtein.Base.{
  String, ◌≡◌, refl, sym, ap, ◌∙◌, ◌≢◌, inl, inr, true, false, not, ◌||◌, Option, none, some, [],
  arith, ◌==◌, eq_iff, Option-cases, All, lookup,
}
use levenshtein.Result.{ok, >>-eq-ok, for_each-refuse, bad_artifact, committed_credential}
use levenshtein.Config.{ExecutorKind, dagger, native, unknown, Environment, CommandCheck, Check}
use levenshtein.Paths.{relative}
use levenshtein.Kinds.{
  dagger_function, native_kind_of, NativeKind, validate_command_check, validate_semantic_lint,
}
use levenshtein.Kinds.Laws.{
  native_kind_of-command, native_kind_of-semantic_lint, dagger_function-command,
  dagger_function-semantic_lint,
}
use levenshtein.Validation.{
  command_declared, Duration, api_key_env, base_url_env, host_owned, validate_check,
  validate_options, by_executor, validate_dagger_check, validate_native_check, run_validator,
  run_command_check, run_semantic_lint, validate_semantic_credentials,
}

module _ (parse_duration : String → Option Duration) (check : Check) (e : Environment) where
  -- A kind without a Dagger function reaches its native validator.
  by_executor-native :
      (x : ExecutorKind)
      → dagger_function check.kind ≡ ""
      → by_executor parse_duration x check e ≡ ok tt
      → (x ≡ native) × (validate_native_check parse_duration check e ≡ ok tt)
  unfolding by_executor validate_dagger_check
  by_executor-native dagger d h = absurd (ground (arith, eq_iff (dagger_function check.kind) ""))
  by_executor-native native d h = (refl, h)
  by_executor-native (unknown name) d h = cc

  validate_check-native :
      dagger_function check.kind ≡ ""
      → validate_check parse_duration check e ≡ ok tt
      → (e.executor ≡ native) × (validate_native_check parse_duration check e ≡ ok tt)
  unfolding validate_check
  validate_check-native d h =
      by_executor-native e.executor d
        (>>-eq-ok (validate_options parse_duration check)
          (by_executor parse_duration e.executor check e) h).1

  abbrev pub CredentialsSafe : Type 0
  CredentialsSafe =
      (lookup api_key_env e.env ≡ none)
      × (lookup base_url_env e.env ≡ none)
      × All (λ (v : String × String). host_owned v.0 ≡ false) e.env
      × All (λ (name : String). (name == api_key_env || host_owned name) ≡ false) e.pass_env

  validate_semantic_credentials-safe : validate_semantic_credentials e ≡ ok tt → CredentialsSafe
  unfolding validate_semantic_credentials
  validate_semantic_credentials-safe h = (
    ground arith,
    ground arith,
    for_each-refuse (λ (v : String × String). host_owned v.0) (λ v. committed_credential v.0) e.env
        (ground arith),
    for_each-refuse (λ name. name == api_key_env || host_owned name)
        (λ name. committed_credential name) e.pass_env (ground arith),
  )

  -- An accepted native check has a native kind, whose validator accepts it.
  validate_native_check-validator :
      validate_native_check parse_duration check e ≡ ok tt
      → (n : NativeKind) × (native_kind_of check.kind ≡ some n)
        × (run_validator parse_duration n.validate check e ≡ ok tt)
  unfolding validate_native_check
  validate_native_check-validator h = elim (Option-cases (native_kind_of check.kind)) [
    | inl missing ↦ absurd (ground arith)
    | inr (n, known) ↦ (n, known, ground arith)
  ]

  run_semantic_lint-credentials : run_semantic_lint parse_duration check e ≡ ok tt → CredentialsSafe
  unfolding run_semantic_lint
  run_semantic_lint-credentials h = validate_semantic_credentials-safe (ground arith)

  -- The environment of an accepted semantic-lint check declares neither the API key nor the API
  -- origin and sets no PATH and no GIT_ variable, and the names that it passes on are neither the API
  -- key nor PATH nor a GIT_ variable.
  pub accepted_credentials :
      check.kind ≡ "semantic-lint"
      → validate_check parse_duration check e ≡ ok tt
      → (e.executor ≡ native) × CredentialsSafe
  unfolding run_validator
  accepted_credentials k h =
      let d : dagger_function check.kind ≡ "" = rw k dagger_function-semantic_lint in
      let (host, accepted) = validate_check-native d h in
      let (n, known, fits) = validate_native_check-validator accepted in
      let v : n.validate ≡ validate_semantic_lint =
        native_kind_of-semantic_lint n (sym (ap native_kind_of k) ∙ known) in
      (host, run_semantic_lint-credentials (rw v at fits))

  -- What an accepted command declares before its result may be cached and its artifacts restored.
  abbrev pub CommandSafe : CommandCheck → Type 0
  CommandSafe command =
      (command.args ≢ [])
      × (command.cache ≡ true → (e.identity ≢ "") × (command.rerun_args ≢ []))
      × All (λ path. (not (relative path) || path == ".") ≡ false) command.artifacts

  command_declared-safe :
      (command : CommandCheck)
      → command_declared parse_duration command e ≡ ok tt
      → CommandSafe command
  unfolding command_declared
  command_declared-safe command h = (
    λ a. ground arith,
    λ c. (λ i. ground (arith, eq_iff e.identity ""), λ r. ground arith),
    for_each-refuse (λ path. not (relative path) || path == ".") (λ path. bad_artifact path)
        command.artifacts (ground arith),
  )

  -- A command check that is accepted runs on the host and declares its command; it is cached only
  -- under a named environment and with a way to run afresh, and every artifact is a clean path below
  -- the source root.
  pub accepted_command :
      check.kind ≡ "command"
      → validate_check parse_duration check e ≡ ok tt
      → (e.executor ≡ native)
        × ((command : CommandCheck) × (check.command ≡ some command) × CommandSafe command)
  unfolding run_validator run_command_check
  accepted_command k h =
      let d : dagger_function check.kind ≡ "" = rw k dagger_function-command in
      let (host, accepted) = validate_check-native d h in
      let (n, known, fits) = validate_native_check-validator accepted in
      let v : n.validate ≡ validate_command_check =
        native_kind_of-command n (sym (ap native_kind_of k) ∙ known) in
      let run : run_command_check parse_duration check e ≡ ok tt = rw v at fits in
      (
        host,
        elim (Option-cases check.command) [
          | inl missing ↦ absurd (ground arith)
          | inr (command, there) ↦ (command, there, command_declared-safe command (ground arith))
        ],
      )
