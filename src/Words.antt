-- ===== src/Words.antt =====
-- internal/verify/validation.go, rulemodules.go and gocheck.go: the tests on one text that validation
-- makes, each with the regular expression or the loop that it stands for.
use levenshtein.Base.{
  ℕ, code, String, ◌≡◌, refl, Bool, true, false, not, ◌&&◌, ◌||◌, Option, none, some, List, [], ◌∷◌,
  ◌==◌, leb, eqb, if◌then◌else◌, any, any_char, all_char, cut_prefix, has_prefix, cut_last, split,
}

abbrev pub is_letter : ℕ → Bool
is_letter c = (leb b'a' c && leb c b'z') || (leb b'A' c && leb c b'Z')

abbrev pub is_digit : ℕ → Bool
is_digit c = leb b'0' c && leb c b'9'

abbrev pub is_alnum : ℕ → Bool
is_alnum c = is_letter c || is_digit c

abbrev pub is_word : ℕ → Bool
is_word c = is_alnum c || eqb c b'_'

-- strings.TrimPrefix(s, "-"), and `-?` at the head of a regular expression
unfoldable pub trim_minus : String → String
trim_minus String.[] = String.[]
trim_minus (String.◌∷◌ c s) = if eqb (code c) b'-' then s else String.◌∷◌ c s

-- `[A-Za-z][A-Za-z0-9]*\*?$`: a name of the class `p`, with one star allowed at its end
abbrev name_tail : (ℕ → Bool) → String → Bool
name_tail p String.[] = true
name_tail p (String.◌∷◌ c s) =
    let rest = name_tail p s in if p (code c) then rest else eqb (code c) b'*' && s == ""

abbrev name_star : (ℕ → Bool) → String → Bool
name_star p String.[] = false
name_star p (String.◌∷◌ c s) = is_letter (code c) && name_tail p s

-- lintPattern: `^-?(\*|[A-Za-z][A-Za-z0-9]*\*?)$`
unfoldable pub is_lint_pattern : String → Bool
unfolding trim_minus
is_lint_pattern s = let body = trim_minus s in body == "*" || name_star is_alnum body

-- `[A-Za-z0-9_]*\*$`
abbrev starred : String → Bool
starred s = elim (cut_last b'*' s) [ none ↦ false | some body ↦ all_char is_word body ]

-- `[A-Za-z][A-Za-z0-9_]*$`
abbrev plain_code : String → Bool
plain_code String.[] = false
plain_code (String.◌∷◌ c s) = is_letter (code c) && all_char is_word s

-- What follows `[A-Za-z]+_`: the letters end at the first underscore, and there is one at least.
abbrev pub after_letters : String → Option String
after_letters String.[] = none
after_letters (String.◌∷◌ c s) =
    let rest = after_letters s in
    if eqb (code c) b'_' then some s else if is_letter (code c) then rest else none

abbrev pub after_namespace : String → Option String
after_namespace String.[] = none
after_namespace (String.◌∷◌ c s) = if is_letter (code c) then after_letters s else none

-- communityPattern: `^-?[A-Za-z]+_([A-Za-z0-9_]*\*|[A-Za-z][A-Za-z0-9_]*)$`
unfoldable pub is_community_shape : String → Bool
unfolding trim_minus cut_last
is_community_shape s = elim (after_namespace (trim_minus s)) [
  | none ↦ false
  | some rest ↦ starred rest || plain_code rest
]

-- communityCode: `^[A-Za-z]+_[A-Za-z][A-Za-z0-9_]*$`
unfoldable pub is_community_code : String → Bool
is_community_code s = elim (after_namespace s) [ none ↦ false | some rest ↦ plain_code rest ]

-- strings.ContainsAny(s, " \t\n\x00")
abbrev is_blank : ℕ → Bool
is_blank c = eqb c 32 || (eqb c 9 || (eqb c 10 || eqb c 0))

unfoldable pub has_blank : String → Bool
has_blank s = any_char is_blank s

-- A branch name that git cannot read as an option.
unfoldable pub is_git_ref : String → Bool
unfolding has_prefix has_blank
is_git_ref ref = not (has_prefix "-" ref) && not (has_blank ref)

unfoldable pub is_env_name : String → Bool
unfolding has_prefix
is_env_name name =
    not (name == "")
    && (not (any_char (λ c. eqb c b'=' || eqb c 0) name) && not (has_prefix "LEVENSHTEIN_" name))

-- semanticModel: `^jev-[0-9]+\.[0-9]+\.[0-9]+$`
abbrev is_number : String → Bool
is_number s = not (s == "") && all_char is_digit s

abbrev three_numbers : List String → Bool
three_numbers (a ∷ b ∷ c ∷ []) = is_number a && (is_number b && is_number c)
three_numbers _ = false

unfoldable pub is_pinned_model : String → Bool
unfolding cut_prefix split
is_pinned_model s = elim (cut_prefix "jev-" s) [
  | none ↦ false
  | some rest ↦ three_numbers (split b'.' rest)
]

-- importPathPattern and localImportPattern
abbrev is_path_meta : ℕ → Bool
is_path_meta c =
    is_blank c
    || (eqb c 13
        || (eqb c b'"'
            || (eqb c 39
                || (eqb c b'`' || (eqb c 92 || (eqb c b';' || (eqb c b':' || eqb c b',')))))))

abbrev bad_element : String → Bool
bad_element e = e == "" || (e == "." || e == "..")

unfoldable pub import_path_pattern : String → Bool
unfolding split
import_path_pattern entry =
    not (entry == "" || any_char is_path_meta entry) && not (any bad_element (split b'/' entry))

unfoldable pub local_import_pattern : String → Bool
unfolding cut_prefix import_path_pattern
local_import_pattern entry =
    entry == "."
    || elim (cut_prefix "./" entry) [ none ↦ false | some rest ↦ import_path_pattern rest ]

-- source.go: the characters that Dagger reads in a pattern, and the private paths
abbrev is_pattern_meta : ℕ → Bool
is_pattern_meta c =
    eqb c b'*'
    || (eqb c b'?'
        || (eqb c b'['
            || (eqb c b']'
                || (eqb c b'{' || (eqb c b'}' || (eqb c b'!' || (eqb c 10 || eqb c 13)))))))

unfoldable pub has_pattern_meta : String → Bool
has_pattern_meta s = any_char is_pattern_meta s

abbrev is_private_part : String → Bool
is_private_part part =
    part == ".git" || (part == ".env" || (has_prefix ".env." part && not (part == ".env.example")))

unfoldable pub private_source_path : String → Bool
unfolding split has_prefix
private_source_path path = any is_private_part (split b'/' path)

tests :
    (is_lint_pattern "-SA5*" ≡ true)
    × (is_lint_pattern "a*b" ≡ false)
    × (is_lint_pattern "-" ≡ false)
    × (is_community_shape "errs_*" ≡ true)
    × (is_community_shape "-errs_no*" ≡ true)
    × (is_community_shape "_x" ≡ false)
    × (is_community_shape "errs_" ≡ false)
    × (is_git_ref "-x" ≡ false)
    × (is_pinned_model "jev-1.13.0" ≡ true)
    × (is_pinned_model "jev-latest" ≡ false)
    × (private_source_path "a/.env.local" ≡ true)
    × (local_import_pattern "./internal/..." ≡ true)
unfolding is_lint_pattern is_community_shape is_git_ref is_pinned_model private_source_path
    local_import_pattern
tests = (refl, refl, refl, refl, refl, refl, refl, refl, refl, refl, refl, refl)
