-- ===== src/Community/Agreement.antt =====
-- runner/community/selection.go beside communityAllowed of internal/verify/rulemodules.go.
use levenshtein.Base.{
  ℕ, code, String, ◌≡◌, refl, sym, ap, ◌∙◌, ◌≢◌, ◌↔◌, inl, inr, Bool, true, false, not, ◌&&◌, none,
  some, List, [], ◌∷◌, map, arith, if◌then◌else◌, Bool-cases, Option-cases, sum_cases, any, All,
}
use levenshtein.Words.{is_community_shape, trim_minus}
use levenshtein.Patterns.{
  lowered, codes, same, matched, pattern_namespace, lower, disables, community_selects,
  community_allowed, community_allowed_from,
}
use levenshtein.Patterns.Namespace.{community_selects-namespace}
use levenshtein.Community.{
  Module, Rule, Resolver, State, Applied, find_module, find_rename, current, selects_rule,
  mark_rules, apply_pattern, apply_patterns, ModuleConfig, own,
}

same_iff : (a b : List ℕ) → (same a b ≡ true) ↔ (a ≡ b)
same_iff a b = (same_to a b, same_from a b)
  where
    same_to : (a b : List ℕ) → same a b ≡ true → a ≡ b
    same_to [] [] h = refl
    same_to [] (d ∷ ds) h = cc h
    same_to (c ∷ cs) [] h = cc h
    same_to (c ∷ cs) (d ∷ ds) h =
        let first : c ≡ d = ground arith in
        let rest : cs ≡ ds = same_to cs ds (ground arith) in cc (first, rest)

    same_self : (a : List ℕ) → same a a ≡ true
    same_self [] = refl
    same_self (c ∷ cs) = ground (arith, same_self cs)

    same_from : (a b : List ℕ) → a ≡ b → same a b ≡ true
    same_from a b e = ap (λ x. same a x) (sym e) ∙ same_self a

find_module-namespace :
    (ns : List ℕ) (ms : List Module) (m : Module)
    → find_module ns ms ≡ some m
    → codes m.namespace ≡ ns
unfolding find_module
find_module-namespace ns [] m h = cc h
find_module-namespace ns (x ∷ xs) m h = elim (Bool-cases (same (codes x.namespace) ns)) [
  | inl here ↦
      let it : x ≡ m = ground arith in
      ap (λ y. codes y.namespace) (sym it) ∙ (same_iff (codes x.namespace) ns).0 here
  | inr later ↦ find_module-namespace ns xs m (ground arith)
]

-- What marking does to one code
mark_rules-state :
    (m : Module) (body : String) (on : Bool) (rules : List Rule) (state : State) (k : List ℕ)
    → mark_rules m body on rules state k ≡ (
        if any (λ rule. selects_rule m body rule && same k (lowered rule.code)) rules
        then on
        else state k)
unfolding mark_rules
mark_rules-state m body on [] state k = refl
mark_rules-state m body on (rule ∷ rules) state k = elim (Bool-cases (selects_rule m body rule)) [
  | inl hit ↦
      let next : State = λ j. if same j (lowered rule.code) then on else state j in
      rw hit (mark_rules-state m body on rules next k ∙ ground arith)
  | inr miss ↦ rw miss (mark_rules-state m body on rules state k)
]

-- The rule q is among the rules.
abbrev is_rule : Rule → Rule → Bool
is_rule q x =
    same (codes x.code) (codes q.code) && same (codes x.owner.namespace) (codes q.owner.namespace)

lowered-map : (s : String) → lowered s ≡ map lower (codes s)
unfolding lowered
lowered-map String.[] = refl
lowered-map (String.◌∷◌ c s) = ap (λ cs. lower (code c) ∷ cs) (lowered-map s)

lowered-codes : (s t : String) → codes s ≡ codes t → lowered s ≡ lowered t
lowered-codes s t e = lowered-map s ∙ ap (map lower) e ∙ sym (lowered-map t)

any_weaken {ℓ} :
    {A : Type ℓ} (p q : A → Bool) (xs : List A)
    → ((x : A) → p x ≡ true → q x ≡ true)
    → any p xs ≡ true
    → any q xs ≡ true
any_weaken p q [] f h = h
any_weaken p q (x ∷ xs) f h = elim (Bool-cases (p x)) [
  | inl yes_ ↦ ground (arith, f x yes_)
  | inr no_ ↦ ground (arith, no_, any_weaken p q xs f)
]

any_none {ℓ} :
    {A : Type ℓ} (q : A → Bool) (xs : List A)
    → ((x : A) → q x ≡ true → false ≡ true)
    → any q xs ≡ false
any_none q [] f = refl
any_none q (x ∷ xs) f = elim (Bool-cases (q x)) [
  | inl yes_ ↦ absurd (cc (f x yes_))
  | inr no_ ↦ ground (arith, no_, any_none q xs f)
]

-- Some rule under q's code is selected exactly if the planner's copy of the test selects q.
marked_rule :
    (m : Module) (p : String) (q : Rule) (rules : List Rule)
    → is_community_shape p ≡ true
    → codes m.namespace ≡ pattern_namespace p
    → codes q.owner.namespace ≡ pattern_namespace q.code
    → any (is_rule q) rules ≡ true
    → any (λ x. selects_rule m (trim_minus p) x && same (lowered q.code) (lowered x.code)) rules
      ≡ community_selects p q.code
unfolding community_selects
marked_rule m p q rules shape named own_ here = elim (Bool-cases (community_selects p q.code)) [
  | inl hit ↦
      any_weaken (is_rule q)
        (λ x. selects_rule m (trim_minus p) x && same (lowered q.code) (lowered x.code)) rules
        (λ x member.
          let it : lowered x.code ≡ lowered q.code =
            lowered-codes x.code q.code
              ((same_iff (codes x.code) (codes q.code)).0 (ground (arith, member))) in
          let one : codes x.owner.namespace ≡ codes m.namespace =
            (same_iff (codes x.owner.namespace) (codes q.owner.namespace)).0
              (ground (arith, member))
            ∙ own_
            ∙ community_selects-namespace p q.code shape hit
            ∙ sym named in
          let chosen : matched (lowered (trim_minus p)) (lowered x.code) ≡ true =
            ap (λ k. matched (lowered (trim_minus p)) k) it ∙ hit in
          ground (
            arith,
            (same_iff (codes x.owner.namespace) (codes m.namespace)).1 one,
            chosen,
            (same_iff (lowered q.code) (lowered x.code)).1 (sym it),
          ))
        here
      ∙ sym hit
  | inr miss ↦
      any_none (λ x. selects_rule m (trim_minus p) x && same (lowered q.code) (lowered x.code))
        rules
        (λ x both.
          let it : lowered q.code ≡ lowered x.code =
            (same_iff (lowered q.code) (lowered x.code)).0 (ground (arith, both)) in
          let chosen : matched (lowered (trim_minus p)) (lowered x.code) ≡ true =
            ground (arith, both) in
          sym miss ∙ ap (λ k. matched (lowered (trim_minus p)) k) it ∙ chosen)
      ∙ sym miss
]

apply_pattern-community_selects :
    (quote : String → String) (r : Resolver) (p : String) (a b : Applied) (q : Rule)
    → apply_pattern quote r p a ≡ inr b
    → find_rename (lowered (trim_minus p)) r.renames ≡ none
    → codes q.owner.namespace ≡ pattern_namespace q.code
    → any (is_rule q) r.ordered ≡ true
    → b.state (lowered q.code)
      ≡ (if community_selects p q.code then not (disables p) else a.state (lowered q.code))
unfolding apply_pattern current
apply_pattern-community_selects quote r p a b q h plain own_ here =
    elim (Bool-cases (is_community_shape p)) [
      | inr odd ↦ absurd (ground arith)
      | inl shape ↦ elim (Option-cases (find_module (pattern_namespace p) r.modules)) [
        | inl lost ↦ absurd (ground arith)
        | inr (m, found) ↦
            let on : Bool = not (disables p) in
            let marked : mark_rules m (trim_minus p) on r.ordered a.state ≡ b.state =
              elim (Bool-cases (any (selects_rule m (trim_minus p)) r.ordered)) [
                | inr nothing ↦
                    absurd (cc (rw (shape, found, plain, nothing, apply_pattern, current) at h))
                | inl some_ ↦ cc (rw (shape, found, plain, some_, apply_pattern, current) at h)
              ] in
            ap (λ f. f (lowered q.code)) (sym marked)
            ∙ mark_rules-state m (trim_minus p) on r.ordered a.state (lowered q.code)
            ∙ ap (λ t. if t then on else a.state (lowered q.code))
                (marked_rule m p q r.ordered shape
                  (find_module-namespace (pattern_namespace p) r.modules m found) own_ here)
      ]
    ]

apply_patterns-community_allowed_from :
    (quote : String → String) (r : Resolver) (ps : List String) (a b : Applied) (q : Rule)
    → apply_patterns quote r ps a ≡ inr b
    → All (λ p. find_rename (lowered (trim_minus p)) r.renames ≡ none) ps
    → codes q.owner.namespace ≡ pattern_namespace q.code
    → any (is_rule q) r.ordered ≡ true
    → b.state (lowered q.code) ≡ community_allowed_from (a.state (lowered q.code)) ps q.code
unfolding apply_patterns community_allowed_from
apply_patterns-community_allowed_from quote r [] a b q h plain own_ here = ground arith
apply_patterns-community_allowed_from quote r (p ∷ ps) a b q h plain own_ here =
    elim (sum_cases (apply_pattern quote r p a)) [
      | inl (e, refused) ↦ absurd (ground arith)
      | inr (next, done_) ↦
          apply_patterns-community_allowed_from quote r ps next b q
            (rw (done_, apply_patterns) at h) plain.1 own_ here
          ∙ ap (λ t. community_allowed_from t ps q.code)
              (apply_pattern-community_selects quote r p a next q done_ plain.0 own_ here)
    ]

-- Patterns that the runner accepts, none of which names a renamed rule, turn on those of its rules that the
-- planner's copy of the test allows, if each rule's code starts with its module's namespace.
pub apply_patterns-community_allowed :
    (quote : String → String) (r : Resolver) (ps : List String) (b : Applied) (q : Rule)
    → apply_patterns quote r ps (record { state = λ k. false; warnings = [] }) ≡ inr b
    → All (λ p. find_rename (lowered (trim_minus p)) r.renames ≡ none) ps
    → codes q.owner.namespace ≡ pattern_namespace q.code
    → any (is_rule q) r.ordered ≡ true
    → b.state (lowered q.code) ≡ community_allowed ps q.code
unfolding community_allowed
apply_patterns-community_allowed quote r ps b q h plain own_ here =
    apply_patterns-community_allowed_from quote r ps (record { state = λ k. false; warnings = [] })
      b q h plain own_ here

-- The patterns of one module's entry, once accepted, leave the rules of every other namespace as they are.
pub own-community_allowed_from :
    (entry : ModuleConfig) (ps : List String) (rule : String) (selected : Bool)
    → own entry ps ≡ none
    → pattern_namespace rule ≢ lowered entry.namespace
    → community_allowed_from selected ps rule ≡ selected
unfolding own community_allowed_from
own-community_allowed_from entry [] rule selected h other = refl
own-community_allowed_from entry (p ∷ ps) rule selected h other =
    elim (Bool-cases (is_community_shape p)) [
      | inr odd ↦ absurd (ground arith)
      | inl shape ↦ elim (Bool-cases (same (pattern_namespace p) (lowered entry.namespace))) [
        | inr foreign ↦ absurd (ground arith)
        | inl mine ↦ elim (Bool-cases (community_selects p rule)) [
          | inl hit ↦ absurd (
              other (
                community_selects-namespace p rule shape hit
                ∙ (same_iff (pattern_namespace p) (lowered entry.namespace)).0 mine))
          | inr miss ↦ rw miss (
              own-community_allowed_from entry ps rule selected (ground (arith, shape, mine)) other)
        ]
      ]
    ]
