-- ===== src/Baseline/Configured.antt =====
-- internal/verify/baseline.go: every check that a configuration declares, bound to its targets.
use levenshtein.Base.{
  String, none, some, List, [], ◌∷◌, ◌++◌, if◌then◌else◌, is_empty, lookup, sorted_keys,
}
use levenshtein.Config.{unknown, Check, Config}
use levenshtein.Config.Options.{at}
use levenshtein.Plan.{PlannedCheck}
use levenshtein.RuleModules.{planned_rule_modules}

-- configuredChecks
bind_targets : Config → Check → List String → String → List PlannedCheck
bind_targets cfg check [] id = []
bind_targets cfg check (name ∷ names) id =
    let rest = bind_targets cfg check names id in
    elim (lookup name cfg.targets) [
      | none ↦ rest
      | some target ↦ elim (lookup check.environment cfg.environments) [
        | none ↦
            record {
              id = id;
              check = at check name;
              target = target;
              environment = record {
                executor = unknown "";
                identity = "";
                env = [];
                pass_env = [];
                tools = [];
              };
              preparation = none;
              build = none;
              rule_modules = planned_rule_modules cfg (at check name);
            }
            ∷ rest
        | some e ↦
            record {
              id = id;
              check = at check name;
              target = target;
              environment = e;
              preparation = none;
              build = none;
              rule_modules = planned_rule_modules cfg (at check name);
            }
            ∷ rest
      ]
    ]

bind_checks : Config → List String → List PlannedCheck
unfolding bind_targets lookup
bind_checks cfg [] = []
bind_checks cfg (id ∷ ids) =
    let rest = bind_checks cfg ids in
    elim (lookup id cfg.checks) [
      | none ↦ rest
      | some check ↦
          bind_targets cfg check
            (if is_empty check.targets then check.target ∷ [] else check.targets) id
          ++ rest
    ]

unfoldable pub configured_checks : Config → List PlannedCheck
unfolding bind_checks sorted_keys
configured_checks cfg = bind_checks cfg (sorted_keys cfg.checks)
