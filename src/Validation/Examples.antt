-- ===== src/Validation/Examples.antt =====
-- A semantic check, a command check and a lint check that validation accepts.
use levenshtein.Base.{
  String, ◌≡◌, refl, true, Option, none, some, [], ◌∷◌, ◌==◌, if◌then◌else◌, lookup,
}
use levenshtein.Result.{ok}
use levenshtein.Config.{native, Environment, CommandCheck, at_least_zero, Check}
use levenshtein.Config.Options.{artifacts, env}
use levenshtein.Words.{has_blank, is_git_ref, is_env_name}
use levenshtein.Paths.{relative}
use levenshtein.Paths.{relative}
use levenshtein.Kinds.{native_kind_of, dagger_function}
use levenshtein.Words.{is_git_ref, has_blank, is_env_name}
use levenshtein.Validation.{
  validate_check, validate_options, by_executor, validate_native_check, validate_environment,
  validate_env, validate_duration, Duration, nanoseconds, run_validator, run_command_check,
  run_semantic_lint, command_declared, validate_semantic_credentials,
}
use levenshtein.Validation.Accepted.{OptionsFit, validate_check-OptionsFit}
use levenshtein.Validation.Protected.{
  CredentialsSafe, accepted_credentials, CommandSafe, accepted_command,
}

abbrev one_minute : String → Option Duration
one_minute text = if text == "1m" then some (nanoseconds 60000000000) else none

abbrev host_environment : Environment
host_environment = record {
  executor = native;
  identity = "laptop";
  env = ("LANG", "C") ∷ [];
  pass_env = "HOME" ∷ [];
  tools = [];
}

abbrev semantic_check : Check
semantic_check = record {
  kind = "semantic-lint";
  target = "root";
  targets = [];
  environment = "host";
  command = none;
  semantic = some (record {
    base = "origin/main";
    model = "";
    timeout = "1m";
    max_requests = at_least_zero 3;
    max_input_chars = at_least_zero 0;
  });
  mutation = none;
  lint = none;
  imports = none;
  apidiff = none;
}

abbrev build_command : CommandCheck
build_command = record {
  args = "make" ∷ "test" ∷ [];
  rerun_args = "make" ∷ "-B" ∷ "test" ∷ [];
  env = [];
  timeout = "1m";
  preparation = "";
  build = "";
  artifacts = "out/report.txt" ∷ [];
  cache = true;
}

abbrev command_check : Check
command_check = record semantic_check {
  kind = "command";
  semantic = none;
  command = some build_command;
}

semantic_accepted : validate_check one_minute semantic_check host_environment ≡ ok tt
unfolding validate_check validate_options by_executor validate_native_check validate_environment
    validate_env validate_duration run_validator run_semantic_lint validate_semantic_credentials
    native_kind_of dagger_function is_git_ref has_blank is_env_name relative lookup artifacts env
    levenshtein.Kinds.spec_of levenshtein.Kinds.describe_kinds
semantic_accepted = refl

command_accepted : validate_check one_minute command_check host_environment ≡ ok tt
unfolding validate_check validate_options by_executor validate_native_check validate_environment
    validate_env validate_duration run_validator run_command_check command_declared native_kind_of
    dagger_function has_blank is_env_name relative lookup artifacts env levenshtein.Kinds.spec_of
    levenshtein.Kinds.describe_kinds
command_accepted = refl

accepted_credentials_example :
    (host_environment.executor ≡ native)
    × CredentialsSafe one_minute semantic_check host_environment
accepted_credentials_example =
    accepted_credentials one_minute semantic_check host_environment refl semantic_accepted

accepted_command_example :
    (host_environment.executor ≡ native)
    × ((command : CommandCheck) × (command_check.command ≡ some command)
        × CommandSafe one_minute command_check host_environment command)
accepted_command_example =
    accepted_command one_minute command_check host_environment refl command_accepted

validate_check-OptionsFit_example : OptionsFit command_check
validate_check-OptionsFit_example =
    validate_check-OptionsFit one_minute command_check host_environment command_accepted
