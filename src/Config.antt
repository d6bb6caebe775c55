-- ===== src/Config.antt =====
-- internal/verify/config.go and status.go: the configuration records, with a map as a `Dict`, a
-- pointer as an `Option`, and a named string type as the text or as a data type with its constants
-- and a constructor for any other text.
pub mod Options
use levenshtein.Base.{
  ℕ, zero, suc, ◌+◌, ◌-◌, ◌≤◌, ◌<◌, Char, code, String, ◌≡◌, refl, sym, ap, ◌∙◌, ◌≢◌, ◌↔◌, ◌⊎◌, inl,
  inr, Bool, true, false, not, ◌&&◌, ◌||◌, Option, none, some, List, [], ◌∷◌, ◌++◌, map, arith,
  ◌==◌, eq_iff, eq_refl, ltb, leb, eqb, if◌then◌else◌, Bool-cases, Option-cases, is_some, length,
  is_empty, any, all, keep, count_if, All, any_char, all_char, cut_prefix, has_prefix, cut_last,
  split, str_leb, Dict, lookup, sorted_keys, contains, join,
}

-- status.go

-- `CheckKind` is a named string type: any text can stand in a configuration.
abbrev pub CheckKind : Type 0
CheckKind = String

pub data Status : Type 0 where
  passed failed error cancelled incomplete : Status
  invalid : String → Status

abbrev pub is_passed : Status → Bool
is_passed passed = true
is_passed _ = false

abbrev pub is_failed : Status → Bool
is_failed failed = true
is_failed _ = false

pub data ExecutorKind : Type 0 where
  dagger native : ExecutorKind
  unknown : String → ExecutorKind

abbrev pub is_dagger : ExecutorKind → Bool
is_dagger dagger = true
is_dagger _ = false

abbrev pub is_native : ExecutorKind → Bool
is_native native = true
is_native _ = false

-- `unset` is the empty text of a configuration that omits the field.
pub data DiscoveryKind : Type 0 where
  unset git filesystem : DiscoveryKind
  unlisted : String → DiscoveryKind

-- config.go

pub record RuleModule : Type 0 where
  pub version : String
  pub namespace : String
  pub select : List String
  pub advisory : List String
  pub settings : Dict (Dict String)

pub record Target : Type 0 where
  pub dir : String
  pub workspace : String
  pub inputs : List String
  pub exclude : List String
  pub discovery : DiscoveryKind

pub record Tool : Type 0 where
  pub command : List String
  pub version : String

pub record Environment : Type 0 where
  pub executor : ExecutorKind
  pub identity : String
  pub env : Dict String
  pub pass_env : List String
  pub tools : List Tool

pub record Preparation : Type 0 where
  pub command : List String
  pub inputs : List String
  pub outputs : List String
  pub env : Dict String
  pub timeout : String

pub record CommandCheck : Type 0 where
  pub args : List String
  pub rerun_args : List String
  pub env : Dict String
  pub timeout : String
  pub preparation : String
  pub build : String
  pub artifacts : List String
  pub cache : Bool

-- A number of the configuration file that may be below zero, for a test of its sign.
pub data Limit : Type 0 where
  at_least_zero below_zero : ℕ → Limit

pub record SemanticCheck : Type 0 where
  pub base : String
  pub model : String
  pub timeout : String
  pub max_requests : Limit
  pub max_input_chars : Limit

pub record MutationCheck : Type 0 where
  pub base : String
  pub scope : String
  pub accepted : String
  pub tags : String
  pub timeout : String

abbrev pub scope_changed : String
scope_changed = "changed"

abbrev pub scope_module : String
scope_module = "module"

pub record LintCheck : Type 0 where
  pub checks : List String
  pub rule_modules : Option Bool

pub record ImportRule : Type 0 where
  pub packages : List String
  pub deny : List String
  pub allow : List String
  pub tests : String
  pub reason : String

pub record ImportsCheck : Type 0 where
  pub rules : List ImportRule

pub record ApidiffCheck : Type 0 where
  pub base : String

pub record Check : Type 0 where
  pub kind : CheckKind
  pub target : String
  pub targets : List String
  pub environment : String
  pub command : Option CommandCheck
  pub semantic : Option SemanticCheck
  pub mutation : Option MutationCheck
  pub lint : Option LintCheck
  pub imports : Option ImportsCheck
  pub apidiff : Option ApidiffCheck

pub record Run : Type 0 where
  pub checks : List String
  pub rerun_checks : Bool

pub record Config : Type 0 where
  pub version : ℕ
  pub targets : Dict Target
  pub environments : Dict Environment
  pub checks : Dict Check
  pub runs : Dict Run
  pub preparations : Dict Preparation
  pub builds : Dict Preparation
  pub baseline : String
  pub rule_modules : Dict RuleModule

-- The constants of status.go that the code compares a kind with.
abbrev pub go_lint : CheckKind
go_lint = "go-lint"

abbrev pub go_mutation : CheckKind
go_mutation = "go-mutation"

abbrev pub go_imports : CheckKind
go_imports = "go-imports"

abbrev pub go_apidiff : CheckKind
go_apidiff = "go-apidiff"

abbrev pub semantic_lint : CheckKind
semantic_lint = "semantic-lint"
