-- ===== src/Patterns/Examples.antt =====
-- Selections of rules, and the patterns of a community module.
use levenshtein.Base.{◌≡◌, refl, ◌≢◌, true, false, [], ◌∷◌, ◌++◌, if◌then◌else◌}
use levenshtein.Words.{is_community_shape, trim_minus}
use levenshtein.Patterns.{
  lowered, cut_star, allowed, community_selects, community_allowed, pattern_namespace,
}
use levenshtein.Patterns.LastWins.{mentions, allowed-append}
use levenshtein.Patterns.Namespace.{community_selects-namespace, community_allowed-namespace}

allowed-append_example : allowed (("all" ∷ "-SA5001" ∷ []) ++ ("SA*" ∷ [])) "SA5001" ≡ (
    if mentions ("SA*" ∷ []) "SA5001"
    then allowed ("SA*" ∷ []) "SA5001"
    else allowed ("all" ∷ "-SA5001" ∷ []) "SA5001")
allowed-append_example = allowed-append ("all" ∷ "-SA5001" ∷ []) ("SA*" ∷ []) "SA5001"

errs_shape : is_community_shape "-errs_no*" ≡ true
unfolding is_community_shape trim_minus
errs_shape = refl

errs_selects : community_selects "-errs_no*" "ERRS_nopanic" ≡ true
unfolding community_selects lowered cut_star trim_minus
errs_selects = refl

community_selects-namespace_example :
    pattern_namespace "ERRS_nopanic" ≡ pattern_namespace "-errs_no*"
community_selects-namespace_example =
    community_selects-namespace "-errs_no*" "ERRS_nopanic" errs_shape errs_selects

other_namespace : pattern_namespace "-errs_no*" ≢ pattern_namespace "style_short"
unfolding pattern_namespace
other_namespace e = cc e

community_allowed-namespace_example : community_allowed ("-errs_no*" ∷ []) "style_short" ≡ false
community_allowed-namespace_example =
    community_allowed-namespace ("-errs_no*" ∷ []) "style_short" (errs_shape, tt)
      (other_namespace, tt)
