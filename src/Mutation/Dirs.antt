-- ===== src/Mutation/Dirs.antt =====
-- runner/mutation.go: the directory and the name that exclusions splits a path into, by path.Dir and path.Base.
use mathlib.Core.Path.{subst}
use text.Mathlib.TextEquality.{Char-path}
use text.Mathlib.TextLemmas.{nil-append, cons-append, append_assoc}
use levenshtein.Base.{
  code, String, ◌≡◌, refl, sym, ap, ◌∙◌, inl, inr, Bool, false, not, ◌&&◌, none, some, arith, ◌==◌,
  eq_iff, eqb, Bool-cases, Option-cases, any_char, concat, cut_prefix,
}
use levenshtein.Base.{eqb_iff, has_suffix, if◌then◌else◌}
use levenshtein.Mutation.Tally.{before_slash, path_dir}
use levenshtein.Mutation.Files.{after_slash, path_base}

-- What the files of a directory have before their names
abbrev pub prefix_of : String → String
prefix_of dir = if dir == "." then "" else concat dir "/"

abbrev pub has_slash : String → Bool
has_slash s = any_char (λ c. eqb c b'/') s

-- What [^/]+\.go matches as a whole
abbrev pub go_name : String → Bool
go_name s = not (has_slash s) && (has_suffix ".go" s && not (s == ".go"))

-- What ^, a quoted prefix and [^/]+\.go$ match
unfoldable pub go_file_in : String → String → Bool
go_file_in prefix file = elim (cut_prefix prefix file) [ none ↦ false | some rest ↦ go_name rest ]

some_inj {ℓ} : {A : Type ℓ} {x y : A} → some x ≡ some y → x ≡ y
some_inj h = cc h

pub cut_prefix-concat : (p s : String) → cut_prefix p (concat p s) ≡ some s
unfolding cut_prefix
cut_prefix-concat String.[] s = ap some (nil-append s)
cut_prefix-concat (String.◌∷◌ c p) s =
    rw (cons-append c p s, (eqb_iff (code c) (code c)).1 refl, cut_prefix-concat p s) refl

pub cut_prefix-some : (p s rest : String) → cut_prefix p s ≡ some rest → concat p rest ≡ s
unfolding cut_prefix
cut_prefix-some String.[] s rest h = nil-append rest ∙ sym (some_inj h)
cut_prefix-some (String.◌∷◌ c p) String.[] rest h = absurd (cc h)
cut_prefix-some (String.◌∷◌ c p) (String.◌∷◌ d s) rest h =
    elim (Bool-cases (eqb (code c) (code d))) [
      | inr other ↦ absurd (cc (rw other at h))
      | inl same ↦
          let it : c ≡ d = Char-path c d ((eqb_iff (code c) (code d)).0 same) in
          cons-append c p rest
          ∙ ap (λ x. String.◌∷◌ c x) (cut_prefix-some p s rest (rw same at h))
          ∙ ap (λ x. String.◌∷◌ x s) it
    ]

before_slash-none : (s : String) → has_slash s ≡ false → before_slash s ≡ none
before_slash-none String.[] h = refl
before_slash-none (String.◌∷◌ c s) h = ground (arith, before_slash-none s)

slash_tail : (s : String) → concat "/" s ≡ String.◌∷◌ "/" s
slash_tail s = cons-append "/" "" s ∙ ap (λ x. String.◌∷◌ "/" x) (nil-append s)

before_slash-concat :
    (d s : String) → has_slash s ≡ false → before_slash (concat d (concat "/" s)) ≡ some d
before_slash-concat String.[] s h =
    ap before_slash (nil-append (concat "/" s) ∙ slash_tail s)
    ∙ ground (arith, before_slash-none s h)
before_slash-concat (String.◌∷◌ c d) s h =
    ap before_slash (cons-append c d (concat "/" s)) ∙ ground (arith, before_slash-concat d s h)

after_slash-none : (s : String) → after_slash s ≡ none → has_slash s ≡ false
after_slash-none String.[] h = refl
after_slash-none (String.◌∷◌ c s) h = elim (Option-cases (after_slash s)) [
  | inl e ↦ ground (arith, e, after_slash-none s e)
  | inr (b, e) ↦ absurd (ground (arith, e))
]

after_slash-some : (s b : String) → after_slash s ≡ some b → has_slash b ≡ false
after_slash-some String.[] b h = absurd (cc h)
after_slash-some (String.◌∷◌ c s) b h = elim (Option-cases (after_slash s)) [
  | inl e ↦
      subst (λ x. has_slash x ≡ false) {x = s} {y = b} (ground (arith, e)) (after_slash-none s e)
  | inr (x, e) ↦ after_slash-some s b (ground (arith, e))
]

pub path_base-no_slash : (file : String) → has_slash (path_base file) ≡ false
unfolding path_base
path_base-no_slash file = elim (Option-cases (after_slash file)) [
  | inl e ↦ rw (e, path_base) (after_slash-none file e)
  | inr (b, e) ↦ rw (e, path_base) (after_slash-some file b e)
]

-- The files with a directory's prefix and no slash after it are those of the directory.
pub path_dir-concat :
    (dir rest : String) → has_slash rest ≡ false → path_dir (concat (prefix_of dir) rest) ≡ dir
unfolding path_dir
path_dir-concat dir rest h = elim (Bool-cases (dir == ".")) [
  | inl here ↦ rw here (
      ap path_dir (nil-append rest)
      ∙ rw (before_slash-none rest h, path_dir) (sym ((eq_iff dir ".").0 here)))
  | inr below ↦
      rw below (
        ap path_dir (append_assoc dir "/" rest)
        ∙ rw (before_slash-concat dir rest h, path_dir) refl)
]
