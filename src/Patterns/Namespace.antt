-- ===== src/Patterns/Namespace.antt =====
-- internal/verify/rulemodules.go: the namespaces of patterns and of the rules that they select.
use levenshtein.Base.{
  ℕ, Char, code, String, ◌≡◌, refl, sym, ap, ◌∙◌, ◌≢◌, inl, inr, Bool, true, false, ◌&&◌, some,
  List, [], ◌∷◌, ◌++◌, arith, leb, eqb, Bool-cases, Option-cases, All,
}
use levenshtein.Words.{trim_minus, is_community_shape, is_letter}
use mathlib.Core.Path.{subst}
use levenshtein.Words.{after_letters, after_namespace}
use levenshtein.Patterns.{
  lowered, lower, matched, same, prefix_of, cut_star, community_selects, community_allowed,
  before_underscore, pattern_namespace,
}
use levenshtein.Patterns.LastWins.{community_mentions, community_allowed_from-miss}

abbrev small : ℕ → Bool
small c = leb b'a' c && leb c b'z'

-- A namespace: lower-case letters, so no underscore, star or minus.
abbrev Small : List ℕ → Type 0
Small ns = All (λ c. small c ≡ true) ns

-- What stands before the first underscore of a text that starts with letters and an underscore.
abbrev Splits : List ℕ → List ℕ → Type 0
Splits cs rest = (ns : List ℕ) × (cs ≡ ns ++ (b'_' ∷ rest)) × Small ns

small-lower : (c : ℕ) → is_letter c ≡ true → small (lower c) ≡ true
unfolding lower
small-lower c h = ground arith

lower_underscore : (c : ℕ) → eqb c b'_' ≡ true → lower c ≡ b'_'
unfolding lower
lower_underscore c h = ground arith

after_letters-Splits :
    (s rest : String) → after_letters s ≡ some rest → Splits (lowered s) (lowered rest)
unfolding lowered
after_letters-Splits String.[] rest h = cc
after_letters-Splits (String.◌∷◌ c s) rest h = elim (Bool-cases (eqb (code c) b'_')) [
  | inl under ↦ ([], ground (arith, lower_underscore (code c) under), tt)
  | inr other ↦ elim (Bool-cases (is_letter (code c))) [
    | inl letter ↦
        let (ns, e, small_) = after_letters-Splits s rest (ground arith) in
        (
          lower (code c) ∷ ns,
          ap (λ cs. lower (code c) ∷ cs) e,
          (small-lower (code c) letter, small_),
        )
    | inr odd ↦ absurd (ground arith)
  ]
]

before_underscore-Small :
    (ns rest : List ℕ) → Small ns → before_underscore (ns ++ (b'_' ∷ rest)) ≡ ns
before_underscore-Small [] rest h = refl
before_underscore-Small (c ∷ ns) rest h = ground (arith, before_underscore-Small ns rest h.1)

-- A literal prefix that reaches past the underscore fixes the namespace.
prefix_of-before :
    (ns rest cs : List ℕ)
    → Small ns
    → prefix_of (ns ++ (b'_' ∷ rest)) cs ≡ true
    → before_underscore cs ≡ ns
prefix_of-before [] rest [] s h = cc
prefix_of-before [] rest (c ∷ cs) s h = ground arith
prefix_of-before (n ∷ ns) rest [] s h = cc
prefix_of-before (n ∷ ns) rest (c ∷ cs) s h = ground (arith, prefix_of-before ns rest cs s.1)

same-prefix_of : (xs ys : List ℕ) → same xs ys ≡ true → prefix_of xs ys ≡ true
same-prefix_of [] ys h = refl
same-prefix_of (x ∷ xs) [] h = h
same-prefix_of (x ∷ xs) (y ∷ ys) h = ground (arith, same-prefix_of xs ys)

-- Past `-`, a community pattern is a nonempty namespace, an underscore and a rest.
after_namespace-Splits :
    (c : Char) (s rest : String)
    → after_namespace (String.◌∷◌ c s) ≡ some rest
    → (is_letter (code c) ≡ true) × Splits (lowered s) (lowered rest)
after_namespace-Splits c s rest h = (ground arith, after_letters-Splits s rest (ground arith))

cut_star-Splits :
    (ns rest prefix : List ℕ)
    → cut_star (ns ++ (b'_' ∷ rest)) ≡ some prefix
    → (r : List ℕ) × (prefix ≡ ns ++ (b'_' ∷ r))
unfolding cut_star
cut_star-Splits [] [] prefix h = absurd (ground arith)
cut_star-Splits [] (d ∷ rest) prefix h = elim (Option-cases (cut_star (d ∷ rest))) [
  | inl plain ↦ absurd (ground arith)
  | inr (r, e) ↦ (r, ground arith)
]
cut_star-Splits (n ∷ []) rest prefix h = elim (Option-cases (cut_star (b'_' ∷ rest))) [
  | inl plain ↦ absurd (ground arith)
  | inr (q, e) ↦ let (r, e1) = cut_star-Splits [] rest q e in (r, ground arith)
]
cut_star-Splits (n ∷ m ∷ ns) rest prefix h =
    elim (Option-cases (cut_star (m ∷ (ns ++ (b'_' ∷ rest))))) [
      | inl plain ↦ absurd (ground arith)
      | inr (q, e) ↦ let (r, e1) = cut_star-Splits (m ∷ ns) rest q e in (r, ground arith)
    ]

-- The two ways to match, on a pattern that is split.
matches-before :
    (ns rest cs : List ℕ)
    → Small ns
    → matched (ns ++ (b'_' ∷ rest)) cs ≡ true
    → (r : List ℕ) × (prefix_of (ns ++ (b'_' ∷ r)) cs ≡ true)
matches-before ns rest cs s h = elim (Option-cases (cut_star (ns ++ (b'_' ∷ rest)))) [
  | inl plain ↦ (rest, same-prefix_of (ns ++ (b'_' ∷ rest)) cs (ground arith))
  | inr (prefix, e) ↦ let (r, e1) = cut_star-Splits ns rest prefix e in (r, ground arith)
]

-- A rule whose text starts with a small letter has no minus to trim.
trim_minus-Small :
    (n : ℕ) (ns : List ℕ) (rule : String)
    → small n ≡ true
    → prefix_of (n ∷ ns) (lowered rule) ≡ true
    → trim_minus rule ≡ rule
unfolding trim_minus lowered lower
trim_minus-Small n ns String.[] s h = refl
trim_minus-Small n ns (String.◌∷◌ d rule) s h = ground arith

split_selects :
    (b rule : String) (rest : String)
    → after_namespace b ≡ some rest
    → matched (lowered b) (lowered rule) ≡ true
    → before_underscore (lowered (trim_minus rule)) ≡ before_underscore (lowered b)
unfolding lowered
split_selects String.[] rule rest a h = cc
split_selects (String.◌∷◌ c s) rule rest a h =
    let (letter, sp) = after_namespace-Splits c s rest a in
    let (ns, e, small_) = sp in
    let n : ℕ = lower (code c) in
    let first : small n ≡ true = small-lower (code c) letter in
    let shape : lowered (String.◌∷◌ c s) ≡ n ∷ (ns ++ (b'_' ∷ lowered rest)) =
      ap (λ cs. n ∷ cs) e in
    let (r, m) =
      matches-before (n ∷ ns) (lowered rest) (lowered rule) (first, small_)
        (subst (λ cs. matched cs (lowered rule) ≡ true) shape h) in
    ap (λ (t : String). before_underscore (lowered t))
      (trim_minus-Small n (ns ++ (b'_' ∷ r)) rule first m)
    ∙ prefix_of-before (n ∷ ns) r (lowered rule) (first, small_) m
    ∙ sym (
        ap before_underscore shape
        ∙ before_underscore-Small (n ∷ ns) (lowered rest) (first, small_))

-- A pattern of the accepted shape selects a rule only if both name one namespace.
pub community_selects-namespace :
    (p rule : String)
    → is_community_shape p ≡ true
    → community_selects p rule ≡ true
    → pattern_namespace rule ≡ pattern_namespace p
unfolding is_community_shape community_selects pattern_namespace
community_selects-namespace p rule shape h = elim (Option-cases (after_namespace (trim_minus p))) [
  | inl odd ↦ absurd (ground arith)
  | inr (rest, e) ↦ split_selects (trim_minus p) rule rest e h
]

-- Patterns of the accepted shape that all name other namespaces turn no rule on.
pub community_allowed-namespace :
    (patterns : List String) (rule : String)
    → All (λ p. is_community_shape p ≡ true) patterns
    → All (λ p. pattern_namespace p ≢ pattern_namespace rule) patterns
    → community_allowed patterns rule ≡ false
unfolding community_allowed
community_allowed-namespace patterns rule shapes others =
    community_allowed_from-miss false patterns rule (none_selects patterns shapes others)
  where
    none_selects :
        (ps : List String)
        → All (λ p. is_community_shape p ≡ true) ps
        → All (λ p. pattern_namespace p ≢ pattern_namespace rule) ps
        → community_mentions ps rule ≡ false
    none_selects [] s o = refl
    none_selects (p ∷ ps) s o = elim (Bool-cases (community_selects p rule)) [
      | inl hit ↦ absurd (o.0 (sym (community_selects-namespace p rule s.0 hit)))
      | inr miss ↦ rw miss (none_selects ps s.1 o.1)
    ]
