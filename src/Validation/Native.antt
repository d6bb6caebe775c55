-- ===== src/Validation/Native.antt =====
-- internal/verify/validation.go, gochecks.go and kinds.go: what a native environment and the native
-- kinds accept.
use levenshtein.Base.{
  String, Bool, true, false, not, ◌&&◌, ◌||◌, Option, none, some, List, [], ◌∷◌, ◌==◌, eqb, is_some,
  is_empty, any_char, has_prefix, Dict, lookup,
}
use levenshtein.Result.{
  Result, ok, err, ◌>>◌, refuse, for_each, invalid_base, shared_options, semantic_on_command,
  args_missing, cache_needs_identity, empty_rerun_args, bad_artifact, command_on_semantic,
  unpinned_model, bad_limits, committed_credential, bad_env_name, bad_env_entry, incomplete_tool,
  rerun_args_missing,
}
use levenshtein.Config.{
  Tool, Environment, CommandCheck, Limit, at_least_zero, below_zero, SemanticCheck, Check,
}
use levenshtein.Words.{is_git_ref, is_env_name, is_pinned_model}
use levenshtein.Paths.{relative}
use levenshtein.Kinds.{
  Validator, validate_shared_go_check, validate_command_check, validate_semantic_lint, RerunReady,
  always_ready, command_rerun_ready,
}
use levenshtein.Validation.Options.{Duration, validate_duration}

-- strings.ContainsRune(value, 0)
abbrev has_nul : String → Bool
has_nul value = any_char (λ c. eqb c 0) value

-- validateEnv, over the entries of the map
unfoldable pub validate_env : Dict String → Result (Unit {0})
validate_env values =
    for_each
      (λ (e : String × String). refuse (not (is_env_name e.0) || has_nul e.1) (bad_env_entry e.0))
      values

abbrev head_empty : List String → Bool
head_empty [] = true
head_empty (s ∷ ss) = s == ""

unfoldable pub validate_environment : Environment → Result (Unit {0})
unfolding validate_env
validate_environment e = do
  validate_env e.env
  for_each (λ name. refuse (not (is_env_name name)) (bad_env_name name)) e.pass_env
  for_each (λ (tool : Tool). refuse (head_empty tool.command || tool.version == "") incomplete_tool)
      e.tools

-- validateSharedGoCheck
unfoldable pub run_shared_go : Check → Result (Unit {0})
run_shared_go check = refuse (is_some check.command || is_some check.semantic) shared_options

-- semanticAPIKeyEnv and semanticBaseURLEnv
abbrev pub api_key_env : String
api_key_env = "TYPESAFE_API_KEY"

abbrev pub base_url_env : String
base_url_env = "TYPESAFE_BASE_URL"

abbrev pub host_owned : String → Bool
host_owned name = name == "PATH" || has_prefix "GIT_" name

-- validateSemanticCredentials
unfoldable pub validate_semantic_credentials : Environment → Result (Unit {0})
validate_semantic_credentials e = do
  for_each (λ (v : String × String). refuse (host_owned v.0) (committed_credential v.0)) e.env
  for_each (λ name. refuse (is_some (lookup name e.env)) (committed_credential name))
      (api_key_env ∷ base_url_env ∷ [])
  for_each (λ name. refuse (name == api_key_env || host_owned name) (committed_credential name))
      e.pass_env

abbrev is_below_zero : Limit → Bool
is_below_zero (at_least_zero n) = false
is_below_zero (below_zero n) = true

module _ (parse_duration : String → Option Duration) where
  -- The part of validateCommandCheck behind its test for nil.
  unfoldable pub command_declared : CommandCheck → Environment → Result (Unit {0})
  command_declared command e = do
    refuse (head_empty command.args) args_missing
    refuse (command.cache && (e.identity == "" || is_empty command.rerun_args)) cache_needs_identity
    refuse (not (is_empty command.rerun_args) && head_empty command.rerun_args) empty_rerun_args
    validate_duration parse_duration command.timeout
    validate_env command.env
    for_each (λ path. refuse (not (relative path) || path == ".") (bad_artifact path))
        command.artifacts

  unfoldable pub run_command_check : Check → Environment → Result (Unit {0})
  unfolding command_declared
  run_command_check check e = do
    refuse (is_some check.semantic) semantic_on_command
    elim check.command [ none ↦ err args_missing | some command ↦ command_declared command e ]

  semantic_declared : SemanticCheck → Result (Unit {0})
  semantic_declared semantic = do
    validate_duration parse_duration semantic.timeout
    refuse (not (semantic.model == "") && not (is_pinned_model semantic.model)) unpinned_model
    refuse (not (semantic.base == "") && not (is_git_ref semantic.base))
        (invalid_base semantic.base)
    refuse (is_below_zero semantic.max_requests || is_below_zero semantic.max_input_chars)
        bad_limits

  unfoldable pub run_semantic_lint : Check → Environment → Result (Unit {0})
  unfolding semantic_declared
  run_semantic_lint check e = do
    refuse (is_some check.command) command_on_semantic
    validate_semantic_credentials e
    elim check.semantic [ none ↦ ok tt | some semantic ↦ semantic_declared semantic ]

  -- kind.validate(check, env)
  unfoldable pub run_validator : Validator → Check → Environment → Result (Unit {0})
  run_validator validate_shared_go_check check e = run_shared_go check
  run_validator validate_command_check check e = run_command_check check e
  run_validator validate_semantic_lint check e = run_semantic_lint check e

-- kind.rerunReady(check)
unfoldable pub run_rerun_ready : RerunReady → Check → Result (Unit {0})
run_rerun_ready always_ready check = ok tt
run_rerun_ready command_rerun_ready check = elim check.command [
  | none ↦ err rerun_args_missing
  | some command ↦ refuse (is_empty command.rerun_args) rerun_args_missing
]
