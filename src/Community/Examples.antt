-- ===== src/Community/Examples.antt =====
-- A module with two rules, and a check that turns one of them off.
use levenshtein.Base.{String, ◌≡◌, refl, ◌⊎◌, inl, inr, true, false, List, [], ◌∷◌}
use levenshtein.Patterns.{
  lowered, cut_star, pattern_namespace, community_allowed, community_allowed_from,
}
use levenshtein.Words.{is_community_shape}
use levenshtein.Community.{
  Module, Rule, Resolver, CommunityError, Applied, find_rename, apply_patterns, ModuleConfig, own,
}
use levenshtein.Community.Agreement.{apply_patterns-community_allowed, own-community_allowed_from}

abbrev errs : Module
errs = record { path = "example.com/errs"; version = "v1.0.0"; namespace = "errs" }

abbrev nopanic : Rule
nopanic = record { code = "errs_nopanic"; owner = errs }

abbrev wrapf : Rule
wrapf = record { code = "errs_wrapf"; owner = errs }

abbrev resolver : Resolver
resolver = record { modules = errs ∷ []; ordered = nopanic ∷ wrapf ∷ []; renames = [] }

abbrev patterns : List String
patterns = "errs_*" ∷ "-errs_wrapf" ∷ []

abbrev quoted : String → String
quoted s = s

abbrev result_of : CommunityError ⊎ Applied → Applied
result_of (inl e) = record { state = λ k. false; warnings = [] }
result_of (inr a) = a

abbrev applied : Applied
applied =
    result_of
      (apply_patterns quoted resolver patterns (record { state = λ k. false; warnings = [] }))

patterns_apply :
    apply_patterns quoted resolver patterns (record { state = λ k. false; warnings = [] })
    ≡ inr applied
unfolding apply_patterns is_community_shape pattern_namespace cut_star
patterns_apply = refl

apply_patterns-community_allowed_example :
    applied.state (lowered "errs_wrapf") ≡ community_allowed patterns "errs_wrapf"
unfolding find_rename pattern_namespace
apply_patterns-community_allowed_example =
    apply_patterns-community_allowed quoted resolver patterns applied wrapf patterns_apply
      (refl, (refl, tt)) refl refl

abbrev errs_entry : ModuleConfig
errs_entry = record {
  path = "example.com/errs";
  namespace = "errs";
  select = patterns;
  advisory = [];
}

own-community_allowed_from_example : community_allowed_from true patterns "style_short" ≡ true
unfolding own is_community_shape pattern_namespace lowered
own-community_allowed_from_example =
    own-community_allowed_from errs_entry patterns "style_short" true refl (λ e. cc e)
