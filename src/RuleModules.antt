-- ===== src/RuleModules.antt =====
-- internal/verify/rulemodules.go: the community rule modules that a configuration pins. The module
-- path and version tests of golang.org/x/mod are parameters.
use levenshtein.Base.{
  ℕ, String, Bool, true, false, not, ◌&&◌, ◌||◌, none, some, List, [], ◌∷◌, ◌++◌, map, ◌==◌, leb,
  eqb, if◌then◌else◌, is_some, is_empty, any, keep, any_char, all_char, Dict, lookup, sorted_keys,
  contains,
}
use levenshtein.Result.{Result, ok, ◌>>◌, refuse, for_each, bad_rule_modules}
use levenshtein.Config.{RuleModule, Check, Config}
use levenshtein.Config.Options.{community_lint_checks, uses_rule_modules}
use levenshtein.Words.{is_community_shape, is_community_code}
use levenshtein.Patterns.{
  community_allowed, pattern_namespace, lowered, codes, same, disables, cut_star,
}

pub record PlannedRuleModule : Type 0 where
  pub path : String
  pub version : String
  pub namespace : String
  pub select : List String
  pub advisory : List String
  pub settings : Dict (Dict String)

-- namespacePattern: `^[a-z]+$`
abbrev is_namespace : String → Bool
is_namespace s = not (s == "") && all_char (λ c. leb b'a' c && leb c b'z') s

abbrev reserved_namespaces : List String
reserved_namespaces = "lvrules" ∷ "example" ∷ "levenshtein" ∷ "lv" ∷ []

abbrev example_module : String
example_module = "github.com/wangjohn/levenshtein/examples/rule-module"

-- A pattern or a code in the namespace of its module.
abbrev pub in_namespace : String → String → Bool
in_namespace namespace p = same (pattern_namespace p) (codes namespace)

validate_pattern : String → String → Result (Unit {0})
validate_pattern namespace p =
    refuse (not (is_community_shape p) || not (in_namespace namespace p)) (bad_rule_modules p)

validate_flag : String → String × String → Result (Unit {0})
validate_flag rule (name, value) =
    refuse
      (name == "" || (any_char (λ c. eqb c b'=' || eqb c 0) name || any_char (λ c. eqb c 0) value))
      (bad_rule_modules rule)

-- The loop over the settings; codes already seen are held in lower case.
validate_settings : String → List (List ℕ) → List (String × Dict String) → Result (Unit {0})
unfolding validate_flag
validate_settings namespace seen [] = ok tt
validate_settings namespace seen ((rule, values) ∷ entries) =
    let rest = validate_settings namespace (lowered rule ∷ seen) entries in
    do
      refuse (not (is_community_code rule) || not (in_namespace namespace rule))
          (bad_rule_modules rule)
      refuse (any (same (lowered rule)) seen) (bad_rule_modules rule)
      for_each (validate_flag rule) values
      rest

-- The entries of a map in the order of `slices.Sorted(maps.Keys(m))`.
entries_of {ℓ} : {V : Type ℓ} → Dict V → List String → List (String × V)
entries_of d [] = []
entries_of d (k ∷ ks) =
    let rest = entries_of d ks in elim (lookup k d) [ none ↦ rest | some v ↦ (k, v) ∷ rest ]

unfoldable pub sorted_entries {ℓ} : {V : Type ℓ} → Dict V → List (String × V)
unfolding entries_of lookup sorted_keys
sorted_entries d = entries_of d (sorted_keys d)

-- The patterns of one check: none if it opts out, and each in a declared namespace.
validate_community_patterns : List String → Check → Result (Unit {0})
validate_community_patterns namespaces check = do
  refuse (not (is_empty (community_lint_checks check)) && not (uses_rule_modules check))
      (bad_rule_modules "rule_modules")
  for_each (λ p. refuse (not (any (λ n. in_namespace n p) namespaces)) (bad_rule_modules p))
      (community_lint_checks check)

-- communitySelection: what the modules select, then the check's own community patterns.
all_selects : List (String × RuleModule) → List String
all_selects [] = []
all_selects ((path, entry) ∷ entries) = entry.select ++ all_selects entries

unfoldable pub community_selection : Config → Check → List String
unfolding sorted_entries all_selects
community_selection cfg check =
    all_selects (sorted_entries cfg.rule_modules) ++ community_lint_checks check

abbrev is_glob_or_minus : String → Bool
is_glob_or_minus p = disables p || is_some (cut_star (lowered p))

-- The selections of the checks that run rule modules.
selections_of : Config → List (List String)
unfolding community_selection
selections_of cfg =
    map (λ (e : String × Check). community_selection cfg e.1)
      (keep (λ (e : String × Check). uses_rule_modules e.1) (sorted_entries cfg.checks))

-- validateAdvisory: a literal advisory rule is selected by some check.
unfoldable pub validate_advisory : Config → Result (Unit {0})
unfolding sorted_entries selections_of
validate_advisory cfg =
    for_each
      (λ (e : String × RuleModule).
        for_each
          (λ p.
            refuse
              (not (is_glob_or_minus p)
                && not (any (λ patterns. community_allowed patterns p) (selections_of cfg)))
              (bad_rule_modules p))
          e.1.advisory)
      (sorted_entries cfg.rule_modules)

module _ (is_module_path : String → Bool) (is_pinned_version : String → String → Bool) where
  unfoldable pub validate_rule_module : String → RuleModule → Result (Unit {0})
  unfolding validate_pattern validate_settings
  validate_rule_module path entry = do
    refuse (not (is_module_path path)) (bad_rule_modules path)
    refuse (not (is_pinned_version path entry.version)) (bad_rule_modules entry.version)
    refuse (not (is_namespace entry.namespace)) (bad_rule_modules entry.namespace)
    refuse
        (contains entry.namespace reserved_namespaces
          && (not (entry.namespace == "example") || not (path == example_module)))
        (bad_rule_modules entry.namespace)
    refuse (is_empty entry.select) (bad_rule_modules "select")
    for_each (validate_pattern entry.namespace) entry.select
    for_each (validate_pattern entry.namespace) entry.advisory
    validate_settings entry.namespace [] (sorted_entries entry.settings)

  -- The loop over the modules, with the namespaces that earlier ones took.
  validate_modules : List String → List (String × RuleModule) → Result (Unit {0})
  validate_modules taken [] = ok tt
  validate_modules taken ((path, entry) ∷ entries) =
      let rest = validate_modules (entry.namespace ∷ taken) entries in
      do
        validate_rule_module path entry
        refuse (contains entry.namespace taken) (bad_rule_modules entry.namespace)
        rest

  -- Config.validateRuleModules
  unfoldable pub validate_rule_modules : Config → Result (Unit {0})
  unfolding validate_modules validate_community_patterns sorted_entries
  validate_rule_modules cfg = do
    validate_modules [] (sorted_entries cfg.rule_modules)
    for_each
        (λ (e : String × Check).
          validate_community_patterns
            (map (λ (m : String × RuleModule). m.1.namespace) (sorted_entries cfg.rule_modules))
            e.1)
        (sorted_entries cfg.checks)
    validate_advisory cfg

abbrev planned_module : String × RuleModule → PlannedRuleModule
planned_module (path, entry) = record {
  path = path;
  version = entry.version;
  namespace = entry.namespace;
  select = entry.select;
  advisory = entry.advisory;
  settings = entry.settings;
}

-- plannedRuleModules
unfoldable pub planned_rule_modules : Config → Check → List PlannedRuleModule
unfolding sorted_entries
planned_rule_modules cfg check =
    if uses_rule_modules check then map planned_module (sorted_entries cfg.rule_modules) else []

-- CheckWithdrawnRuleModules, after the shared checkout's notices are read
pub data RuleModuleStatus : Type 0 where
  deprecated withdrawn : RuleModuleStatus

pub record RuleModuleNotice : Type 0 where
  pub path : String
  pub version : String
  pub status : RuleModuleStatus

abbrev is_withdrawn : RuleModuleStatus → Bool
is_withdrawn withdrawn = true
is_withdrawn deprecated = false

abbrev pub withdraws : RuleModuleNotice → PlannedRuleModule → Bool
withdraws notice planned =
    is_withdrawn notice.status && (notice.path == planned.path && notice.version == planned.version)

unfoldable pub check_withdrawn : List RuleModuleNotice → List PlannedRuleModule → Result (Unit {0})
check_withdrawn notices planned =
    for_each
      (λ (m : PlannedRuleModule).
        refuse (any (λ n. withdraws n m) notices) (bad_rule_modules m.path))
      planned
