-- ===== src/Base/Text.antt =====
-- `strings.TrimSpace`, `strings.Contains` and `strings.HasSuffix`.
use Prim.Native.Nat.{ℕ}
use Prim.Native.Char.{code}
use Prim.Native.String.{String}
use mathlib.Core.Bool.{Bool, ◌&&◌, ◌||◌}
use mathlib.Core.List.{[], ◌∷◌}
use text.Mathlib.Text.{◌==◌}
use levenshtein.Base.Tests.{eqb, leb, if◌then◌else◌}
use levenshtein.Base.Lists.{any}
use levenshtein.Base.Strings.{has_prefix}

-- unicode.IsSpace
abbrev pub is_space : ℕ → Bool
is_space c =
    (leb 9 c && leb c 13)
    || (leb 8192 c && leb c 8202)
    || any (eqb c) (32 ∷ 133 ∷ 160 ∷ 5760 ∷ 8232 ∷ 8233 ∷ 8239 ∷ 8287 ∷ 12288 ∷ [])

unfoldable pub trim_left : String → String
trim_left String.[] = ""
trim_left (String.◌∷◌ c s) =
    let rest = trim_left s in if is_space (code c) then rest else String.◌∷◌ c s

unfoldable pub trim_right : String → String
trim_right String.[] = ""
trim_right (String.◌∷◌ c s) =
    let rest = trim_right s in if is_space (code c) && rest == "" then "" else String.◌∷◌ c rest

unfoldable pub trim_space : String → String
unfolding trim_left trim_right
trim_space s = trim_left (trim_right s)

unfoldable pub has_infix : String → String → Bool
has_infix p String.[] = p == ""
has_infix p (String.◌∷◌ c s) = has_prefix p (String.◌∷◌ c s) || has_infix p s

unfoldable pub has_suffix : String → String → Bool
has_suffix p String.[] = p == ""
has_suffix p (String.◌∷◌ c s) = p == String.◌∷◌ c s || has_suffix p s
