-- ===== src/Base/Strings.antt =====
-- The parts of Go's `strings` package that the program calls, on the native text. A character is
-- compared by its code point.
use Prim.Native.Nat.{ℕ}
use Prim.Native.Char.{Char, code}
use Prim.Native.String.{String, compare, ◌++◌}
use text.Mathlib.Text.{◌==◌}
use Prim.Native.Nat.{Ordering}
use mathlib.Core.Bool.{Bool, true, false, ◌&&◌, ◌||◌}
use mathlib.Core.List.{List, [], ◌∷◌}
use mathlib.Core.Option
use mathlib.Core.Option.{Option, none, some}
use levenshtein.Base.Tests.{eqb, if◌then◌else◌}

-- `strings.IndexFunc(s, p) != -1`, and so `strings.ContainsAny` for a set of characters.
abbrev pub any_char : (ℕ → Bool) → String → Bool
any_char p String.[] = false
any_char p (String.◌∷◌ c s) = p (code c) || any_char p s

abbrev pub all_char : (ℕ → Bool) → String → Bool
all_char p String.[] = true
all_char p (String.◌∷◌ c s) = p (code c) && all_char p s

-- `strings.CutPrefix`: what follows the prefix, if it is there.
unfoldable pub cut_prefix : String → String → Option String
cut_prefix String.[] s = some s
cut_prefix (String.◌∷◌ c p) String.[] = none
cut_prefix (String.◌∷◌ c p) (String.◌∷◌ d s) =
    let rest = cut_prefix p s in if eqb (code c) (code d) then rest else none

unfoldable pub has_prefix : String → String → Bool
has_prefix String.[] s = true
has_prefix (String.◌∷◌ c p) String.[] = false
has_prefix (String.◌∷◌ c p) (String.◌∷◌ d s) = eqb (code c) (code d) && has_prefix p s

-- `strings.CutSuffix(s, "*")` for the last character `k`.
unfoldable pub cut_last : ℕ → String → Option String
cut_last k String.[] = none
cut_last k (String.◌∷◌ c String.[]) = if eqb (code c) k then some "" else none
cut_last k (String.◌∷◌ c (String.◌∷◌ d s)) =
    Option.map (λ r. String.◌∷◌ c r) (cut_last k (String.◌∷◌ d s))

-- `strings.Split(s, "/")` for a one-character separator `k`; never empty.
abbrev onto_head : Char → List String → List String
onto_head c [] = String.◌∷◌ c "" ∷ []
onto_head c (p ∷ ps) = String.◌∷◌ c p ∷ ps

unfoldable pub split : ℕ → String → List String
split k String.[] = "" ∷ []
split k (String.◌∷◌ c s) =
    let rest = split k s in if eqb (code c) k then "" ∷ rest else onto_head c rest

-- Byte order of texts, which sorts map keys.
abbrev pub str_leb : String → String → Bool
str_leb a b = elim (compare a b) [ Ordering.gt ↦ false | _ ↦ true ]

-- `slices.Contains` on texts
unfoldable pub contains : String → List String → Bool
contains s [] = false
contains s (t ∷ ts) = t == s || contains s ts

-- `strings.Join` with the one-character separator `k`
unfoldable pub join : String → List String → String
join k [] = ""
join k (s ∷ []) = s
join k (s ∷ t ∷ ts) = s ++ (k ++ join k (t ∷ ts))

-- Concatenation of texts; `++` is that of lists.
abbrev pub concat : String → String → String
concat s t = s ++ t
