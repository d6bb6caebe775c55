-- ===== src/Community.antt =====
-- runner/community/selection.go: which rules of the compiled-in modules the patterns of a check turn on.
pub mod Agreement
mod Examples
use levenshtein.Base.{
  ℕ, zero, suc, ◌+◌, ◌-◌, ◌*◌, ◌≤◌, ◌<◌, Char, code, String, ◌≡◌, refl, sym, ap, ◌∙◌, ◌≢◌, ◌↔◌, ◌⊎◌,
  inl, inr, Bool, true, false, not, ◌&&◌, ◌||◌, Option, none, some, List, [], ◌∷◌, ◌++◌, map, arith,
  ◌==◌, eq_iff, eq_refl, ltb, leb, eqb, if◌then◌else◌, Bool-cases, Option-cases, Bool-ext,
  any-count_if, is_some, length, is_empty, any, all, keep, count_if, All, All-append, All-weaken,
  All-each, All-both, any_char, all_char, cut_prefix, has_prefix, cut_last, split, str_leb, min,
  max, Dict, lookup, sorted_keys, contains, join, concat, sort_by, trim_space, has_infix,
  has_suffix,
}
use levenshtein.Words.{is_community_shape, trim_minus}
use levenshtein.Patterns.{lowered, codes, same, matched, pattern_namespace, disables}

-- Module, without its analyzers: no two modules of a resolver have one namespace, so it stands for the pointer.
pub record Module : Type 0 where
  pub path : String
  pub version : String
  pub namespace : String

pub record Rule : Type 0 where
  pub code : String
  pub owner : Module

-- What apply reads of a resolver; `renames` maps a lowercased old code to the new one.
pub record Resolver : Type 0 where
  pub modules : List Module
  pub ordered : List Rule
  pub renames : List (List ℕ × String)

pub data CommunityError : Type 0 where
  not_community unknown_namespace matches_no_rule : String → CommunityError
  select_is_empty : String → CommunityError
  foreign_pattern : String → String → CommunityError

-- A map from lowercased codes to whether their rules run, and the warnings so far
abbrev pub State : Type 0
State = List ℕ → Bool

pub record Applied : Type 0 where
  pub state : State
  pub warnings : List String

-- r.modules[namespace]
unfoldable pub find_module : List ℕ → List Module → Option Module
find_module ns [] = none
find_module ns (m ∷ ms) =
    let rest = find_module ns ms in if same (codes m.namespace) ns then some m else rest

unfoldable pub find_rename : List ℕ → List (List ℕ × String) → Option String
find_rename k [] = none
find_rename k ((j, v) ∷ rs) = let rest = find_rename k rs in if same j k then some v else rest

-- resolver.warn, once for each message
abbrev warn : String → List String → List String
warn message ws = if contains message ws then ws else ws ++ (message ∷ [])

-- resolver.current, with the warnings after it
unfoldable pub current : Resolver → String → String → List String → String × List String
unfolding find_rename
current r pattern_ code ws = elim (find_rename (lowered code) r.renames) [
  | none ↦ (code, ws)
  | some renamed ↦ (
    renamed,
    warn
        (concat pattern_
          (concat " uses " (concat code (concat ", which is now " (concat renamed "; update it")))))
        ws,
  )
]

-- Whether a pattern without its minus is of the rule's module and selects it.
abbrev pub selects_rule : Module → String → Rule → Bool
selects_rule m body rule =
    same (codes rule.owner.namespace) (codes m.namespace)
    && matched (lowered body) (lowered rule.code)

-- The loop over the rules
unfoldable pub mark_rules : Module → String → Bool → List Rule → State → State
mark_rules m body on [] state = state
mark_rules m body on (rule ∷ rules) state = mark_rules m body on rules (
    if selects_rule m body rule
    then (λ k. if same k (lowered rule.code) then on else state k)
    else state)

-- One turn of apply
unfoldable pub apply_pattern :
    (String → String) → Resolver → String → Applied → CommunityError ⊎ Applied
unfolding find_module current mark_rules
apply_pattern quote r pattern_ a =
    if not (is_community_shape pattern_)
    then inl (not_community pattern_)
    else elim (find_module (pattern_namespace pattern_) r.modules) [
      | none ↦ inl (unknown_namespace pattern_)
      | some m ↦
          let (body, ws) =
            current r (concat "pattern " (quote pattern_)) (trim_minus pattern_) a.warnings in
          if not (any (selects_rule m body) r.ordered)
          then inl (matches_no_rule pattern_)
          else inr (record {
            state = mark_rules m body (not (disables pattern_)) r.ordered a.state;
            warnings = ws;
          })
    ]

-- resolver.apply
unfoldable pub apply_patterns :
    (String → String) → Resolver → List String → Applied → CommunityError ⊎ Applied
unfolding apply_pattern
apply_patterns quote r [] a = inr a
apply_patterns quote r (p ∷ ps) a = elim (apply_pattern quote r p a) [
  | inl e ↦ inl e
  | inr b ↦ apply_patterns quote r ps b
]

pub record ModuleConfig : Type 0 where
  pub path : String
  pub namespace : String
  pub select : List String
  pub advisory : List String

-- own
unfoldable pub own : ModuleConfig → List String → Option CommunityError
own entry [] = none
own entry (p ∷ ps) =
    let rest = own entry ps in
    if not (is_community_shape p)
    then some (not_community p)
    else if not (same (pattern_namespace p) (lowered entry.namespace))
    then some (foreign_pattern p entry.namespace)
    else rest

-- The patterns of resolve, in the order in which they apply
unfoldable pub selection_patterns : List ModuleConfig → List String → CommunityError ⊎ List String
unfolding own
selection_patterns [] checks = inr checks
selection_patterns (m ∷ ms) checks =
    let rest = selection_patterns ms checks in
    if is_empty m.select then inl (select_is_empty m.path) else elim (own m m.select) [
      | some e ↦ inl e
      | none ↦ elim (own m m.advisory) [
        | some e ↦ inl e
        | none ↦ elim rest [ inl e ↦ inl e | inr ps ↦ inr (m.select ++ ps) ]
      ]
    ]
