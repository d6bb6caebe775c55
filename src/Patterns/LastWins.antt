-- ===== src/Patterns/LastWins.antt =====
-- internal/checktool/lint.go: selections that are appended to one another.
use levenshtein.Base.{
  String, ◌≡◌, refl, ◌∙◌, Bool, false, List, [], ◌∷◌, ◌++◌, arith, if◌then◌else◌, any,
}
use levenshtein.Patterns.{
  selects, enables, body, allowed_from, allowed, community_selects, community_allowed_from,
}

-- Some pattern of the list selects the rule.
abbrev pub mentions : List String → String → Bool
mentions checks rule = any (λ check. selects (body check) rule) checks

allowed_from-if :
    (selected : Bool) (checks : List String) (rule : String)
    → allowed_from selected checks rule
      ≡ (if mentions checks rule then allowed checks rule else selected)
unfolding allowed_from allowed
allowed_from-if selected [] rule = refl
allowed_from-if selected (check ∷ checks) rule = ground (
  arith,
  allowed_from-if selected checks rule,
  allowed_from-if (enables check) checks rule,
  allowed_from-if false checks rule,
)

allowed_from-append :
    (selected : Bool) (xs ys : List String) (rule : String)
    → allowed_from selected (xs ++ ys) rule ≡ allowed_from (allowed_from selected xs rule) ys rule
unfolding allowed_from
allowed_from-append selected [] ys rule = refl
allowed_from-append selected (x ∷ xs) ys rule =
    allowed_from-append (if selects (body x) rule then enables x else selected) xs ys rule

-- Patterns appended to a selection decide every rule that one of them selects, and leave every other
-- rule as the selection had it.
pub allowed-append :
    (shipped added : List String) (rule : String)
    → allowed (shipped ++ added) rule
      ≡ (if mentions added rule then allowed added rule else allowed shipped rule)
unfolding allowed
allowed-append shipped added rule =
    allowed_from-append false shipped added rule ∙ allowed_from-if (allowed shipped rule) added rule

-- The same for the community selection: some pattern of the list selects the rule.
abbrev pub community_mentions : List String → String → Bool
community_mentions patterns rule = any (λ p. community_selects p rule) patterns

-- A rule that no pattern selects keeps the state of the loop.
pub community_allowed_from-miss :
    (selected : Bool) (patterns : List String) (rule : String)
    → community_mentions patterns rule ≡ false
    → community_allowed_from selected patterns rule ≡ selected
unfolding community_allowed_from
community_allowed_from-miss selected [] rule h = refl
community_allowed_from-miss selected (p ∷ ps) rule h =
    ground (arith, community_allowed_from-miss selected ps rule)
