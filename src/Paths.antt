-- ===== src/Paths.antt =====
-- internal/verify/files.go: which declared paths are accepted, with the parts of Go's
-- `path/filepath` that decide it, as they work on Unix.
use Prim.Native.String.{◌++◌}
use mathlib.Core.List.{reverse}
use levenshtein.Base.{
  String, ◌≡◌, refl, Bool, true, false, not, ◌&&◌, ◌||◌, List, [], ◌∷◌, ◌==◌, eqb, if◌then◌else◌,
  any, any_char, has_prefix, split, join,
}

-- The elements of a path that `Clean` drops, and the parent element.
abbrev is_dot : String → Bool
is_dot part = part == "" || part == "."

abbrev is_dot_dot : String → Bool
is_dot_dot part = part == ".."

abbrev is_abs : String → Bool
is_abs path = has_prefix "/" path

-- One element of `filepath.Clean`; the output so far is a stack, its last element first.
abbrev clean_up : Bool → List String → List String
clean_up true [] = []
clean_up false [] = ".." ∷ []
clean_up rooted (top ∷ out) = if is_dot_dot top then ".." ∷ top ∷ out else out

clean_part : Bool → List String → String → List String
clean_part rooted out part =
    if is_dot part then out else if is_dot_dot part then clean_up rooted out else part ∷ out

clean_parts : Bool → List String → List String → List String
unfolding clean_part
clean_parts rooted out [] = reverse out
clean_parts rooted out (part ∷ parts) = clean_parts rooted (clean_part rooted out part) parts

abbrev assemble : Bool → List String → String
assemble true parts = "/" ++ join "/" parts
assemble false [] = "."
assemble false (part ∷ parts) = join "/" (part ∷ parts)

-- `filepath.Clean`
unfoldable pub clean : String → String
unfolding clean_parts has_prefix split join
clean path = assemble (is_abs path) (clean_parts (is_abs path) [] (split b'/' path))

-- `filepath.IsLocal`
unfoldable pub is_local : String → Bool
unfolding clean
is_local path =
    let dots = any (λ part. part == "." || is_dot_dot part) (split b'/' path) in
    let p = if dots then clean path else path in
    not (is_abs path) && (not (path == "") && not (is_dot_dot p || has_prefix "../" p))

unfoldable pub relative : String → Bool
unfolding is_local
relative path = is_local path && (clean path == path && not (any_char (λ c. eqb c b'\\') path))

tests :
    (relative "." ≡ true)
    × (relative "a/b.go" ≡ true)
    × (relative "a/../b" ≡ false)
    × (relative "../b" ≡ false)
    × (relative "/b" ≡ false)
    × (relative "a/" ≡ false)
    × (relative "" ≡ false)
    × (relative "..." ≡ true)
    × (clean "a/../../b" ≡ "../b")
unfolding relative
tests = (refl, refl, refl, refl, refl, refl, refl, refl, refl)
