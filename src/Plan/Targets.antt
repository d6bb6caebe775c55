-- ===== src/Plan/Targets.antt =====
-- internal/verify/plan.go and source.go: the checks that a reference selects, and the tests of one
-- target that need no host.
pub mod Bound
use levenshtein.Base.{
  String, ◌≡◌, refl, Bool, true, false, not, ◌&&◌, ◌||◌, Option, none, some, List, [], ◌∷◌, ◌++◌,
  map, ◌==◌, if◌then◌else◌, is_empty, split, lookup, contains, join, concat,
}
use levenshtein.Result.{
  Result, ok, ◌>>=◌, ◌>>◌, refuse, wrap, found, unknown_check, one_target_only, unknown_target_of,
  target_count, duplicate_target, bad_dagger_input, in_check,
}
use levenshtein.Config.{DiscoveryKind, unset, git, filesystem, unlisted, Target, Check, Config}
use levenshtein.Config.Options.{at}
use levenshtein.Words.{has_pattern_meta, private_source_path}
use levenshtein.Paths.{relative}

pub record Selection : Type 0 where
  pub id : String
  pub check : Check

no_repeats : List String → List String → Result (Unit {0})
no_repeats seen [] = ok tt
no_repeats seen (target ∷ targets) =
    let rest = no_repeats (target ∷ seen) targets in
    do refuse (target == "" || contains target seen) (duplicate_target target); rest

same_bool : Bool → Bool → Bool
same_bool true b = b
same_bool false b = not b

-- validateTargets: one of `target` and `targets`, the latter without repeats
unfoldable pub validate_targets : Check → Result (Unit {0})
unfolding no_repeats same_bool
validate_targets check = do
  refuse (same_bool (check.target == "") (is_empty check.targets)) target_count
  no_repeats [] check.targets

select_target : String → Check → String → Selection
select_target reference check target = record {
  id = concat reference (concat "/" target);
  check = at check target;
}

-- The last slash splits `<id>/<target>`; a slash at the start does not count.
abbrev join_parts : List String → String
join_parts parts = join "/" parts

abbrev last_split : List String → Option (List String × String)
last_split [] = none
last_split (p ∷ []) = none
last_split (p ∷ q ∷ []) = some (p ∷ [], q)
last_split (p ∷ q ∷ r ∷ ps) = elim (last_split (q ∷ r ∷ ps)) [
  | none ↦ none
  | some (front, last) ↦ some (p ∷ front, last)
]

abbrev split_parts : String → Option (List String × String) → String × String
split_parts reference none = (reference, "")
split_parts reference (some (front, last)) =
    if join_parts front == "" then (reference, "") else (join_parts front, last)

unfoldable pub split_reference : String → String × String
unfolding split join
split_reference reference = split_parts reference (last_split (split b'/' reference))

-- A reference to a check itself: every target that it declares.
select_all : String → Check → Result (List Selection)
unfolding select_target
select_all reference check = do
  wrap (in_check reference) (validate_targets check)
  if is_empty check.targets
      then ok (record { id = reference; check = check } ∷ [])
      else ok (map (select_target reference check) check.targets)

-- A reference `<id>/<target>` to one target of a check.
select_one : Config → String → Result (List Selection)
unfolding split_reference
select_one cfg reference = do
  let id = (split_reference reference).0
  let target = (split_reference reference).1
  check ← found (lookup id cfg.checks) (unknown_check reference)
  wrap (in_check id) (validate_targets check)
  refuse (is_empty check.targets) (one_target_only id)
  refuse (not (contains target check.targets)) (unknown_target_of id)
  ok (record { id = reference; check = at check target } ∷ [])

-- Config.selections
unfoldable pub selections : Config → String → Result (List Selection)
unfolding select_all select_one
selections cfg reference = elim (lookup reference cfg.checks) [
  | some check ↦ select_all reference check
  | none ↦ select_one cfg reference
]

-- A declared path that Dagger takes literally.
unfoldable pub literal_path : String → Bool
literal_path path = relative path && not (has_pattern_meta path)

subtree_patterns : String → List String
subtree_patterns pattern_ = pattern_ ∷ concat pattern_ "/**" ∷ []

include_inputs : List String → Result (List String)
unfolding subtree_patterns
include_inputs [] = ok []
include_inputs (input ∷ inputs) =
    let rest = include_inputs inputs in
    do
      refuse (not (literal_path input)) (bad_dagger_input input)
      more ← rest
      ok ((if input == "." then "**" ∷ [] else subtree_patterns input) ++ more)

unfoldable pub dagger_includes : List String → Result (List String)
unfolding include_inputs
dagger_includes inputs = do refuse (is_empty inputs) (bad_dagger_input ""); include_inputs inputs

-- The defaults that planCheck makes explicit.
abbrev pub or_git : DiscoveryKind → DiscoveryKind
or_git unset = git
or_git git = git
or_git filesystem = filesystem
or_git (unlisted name) = unlisted name

unfoldable pub with_defaults : Target → Target
with_defaults target = record target {
  workspace = if target.workspace == "" then "." else target.workspace;
  discovery = or_git target.discovery;
}

unfoldable pub discovery_known : DiscoveryKind → Bool
discovery_known git = true
discovery_known filesystem = true
discovery_known _ = false

-- validBaselinePath
unfoldable pub valid_baseline_path : String → Bool
valid_baseline_path path = relative path && (not (path == ".") && not (private_source_path path))

tests :
    (split_reference "a/b/c" ≡ ("a/b", "c"))
    × (split_reference "a" ≡ ("a", ""))
    × (split_reference "/a" ≡ ("/a", ""))
unfolding split_reference
tests = (refl, refl, refl)
