-- ===== src/Mutation/Others.antt =====
-- runner/mutation.go: the files that exclusions has to leave out, by directory.
use levenshtein.Base.{
  String, ◌≡◌, refl, sym, ap, ◌∙◌, inl, inr, Bool, true, false, not, ◌&&◌, ◌||◌, List, [], ◌∷◌, map,
  arith, ◌==◌, eq_iff, eq_refl, Bool-cases, any, all, str_leb, Dict, lookup, contains,
}
use levenshtein.Base.{any-sort_by}
use levenshtein.Mutation.Index.{values}
use levenshtein.Mutation.Tally.{path_dir}
use levenshtein.Base.{All}
use levenshtein.Mutation.Files.{path_base, add_name, others_of, other_names}

pub any-map {ℓ κ} :
    {A : Type ℓ} {B : Type κ} (p : B → Bool) (f : A → B) (xs : List A)
    → any p (map f xs) ≡ any (λ x. p (f x)) xs
any-map p f [] = refl
any-map p f (x ∷ xs) = ap (λ b. p (f x) || b) (any-map p f xs)

pub any_ext_on {ℓ} :
    {A : Type ℓ} (p q : A → Bool) (xs : List A) → All (λ x. p x ≡ q x) xs → any p xs ≡ any q xs
any_ext_on p q [] e = refl
any_ext_on p q (x ∷ xs) e = ground (arith, e.0, any_ext_on p q xs e.1)

pub contains-any : (s : String) (ts : List String) → contains s ts ≡ any (λ t. t == s) ts
unfolding contains
contains-any s [] = refl
contains-any s (t ∷ ts) = ap (λ b. t == s || b) (contains-any s ts)

-- A test that no member of the list passes
pub no_member :
    (q : String → Bool) (xs : List String)
    → ((x : String) → contains x xs ≡ true → q x ≡ false)
    → any q xs ≡ false
unfolding contains
no_member q [] f = refl
no_member q (x ∷ xs) f = ground (
  arith,
  f x (ground (arith, eq_refl x)),
  no_member q xs (λ y there. f y (ground (arith, there))),
)

pub a_member :
    (q : String → Bool) (x : String) (xs : List String)
    → contains x xs ≡ true
    → q x ≡ true
    → any q xs ≡ true
unfolding contains
a_member q x [] there h = there
a_member q x (y ∷ ys) there h = elim (Bool-cases (y == x)) [
  | inl here ↦ ground (arith, h, ap q ((eq_iff y x).0 here))
  | inr later ↦ ground (arith, a_member q x ys (ground (arith, there, later)) h)
]

pub all_member :
    (q : String → Bool) (x : String) (xs : List String)
    → all q xs ≡ true
    → contains x xs ≡ true
    → q x ≡ true
unfolding contains
all_member q x [] h there = cc there
all_member q x (y ∷ ys) h there = elim (Bool-cases (y == x)) [
  | inl here ↦ ground (arith, h, ap q ((eq_iff y x).0 here))
  | inr later ↦ all_member q x ys (ground (arith, h)) (ground (arith, there, later))
]

any-add_name :
    (q : String → Bool) (dir name : String) (d : Dict (List String))
    → any (λ kv. q kv.0) (add_name dir name d) ≡ (q dir || any (λ kv. q kv.0) d)
unfolding add_name
any-add_name q dir name [] = refl
any-add_name q dir name ((j, ns) ∷ d) = elim (Bool-cases (j == dir)) [
  | inl here ↦ ground (arith, here, ap q ((eq_iff j dir).0 here))
  | inr later ↦ ground (arith, later, any-add_name q dir name d)
]

pub any-others_of :
    (q : String → Bool) (selected fs : List String)
    → any (λ kv. q kv.0) (others_of selected fs)
      ≡ any (λ f. not (contains f selected) && q (path_dir f)) fs
unfolding others_of
any-others_of q selected [] = refl
any-others_of q selected (f ∷ fs) = elim (Bool-cases (contains f selected)) [
  | inl chosen ↦ ground (arith, chosen, any-others_of q selected fs)
  | inr other ↦ ground (
    arith,
    other,
    any-others_of q selected fs,
    any-add_name q (path_dir f) (path_base f) (others_of selected fs),
  )
]

values-add_name :
    (b k dir name : String) (d : Dict (List String))
    → contains b (values k (add_name dir name d))
      ≡ ((dir == k && name == b) || contains b (values k d))
unfolding values add_name lookup contains
values-add_name b k dir name [] = elim (Bool-cases (dir == k)) [
  | inl here ↦ rw here (ground (arith, here))
  | inr other ↦ rw other (ground (arith, other))
]
values-add_name b k dir name ((j, ns) ∷ d) = elim (Bool-cases (j == dir)) [
  | inl here ↦
      let it : (j == k) ≡ (dir == k) = ap (λ x. x == k) ((eq_iff j dir).0 here) in
      elim (Bool-cases (dir == k)) [
        | inl own ↦ ground (arith, here, it, own)
        | inr other ↦ ground (arith, here, it, other)
      ]
  | inr apart ↦ elim (Bool-cases (j == k)) [
    | inl own ↦ ground (arith, apart, own, eq_iff j k, eq_iff dir k, eq_iff j dir)
    | inr other ↦ ground (arith, apart, other, values-add_name b k dir name d)
  ]
]

values-others_of :
    (b k : String) (selected fs : List String)
    → contains b (values k (others_of selected fs))
      ≡ any (λ f. not (contains f selected) && (path_dir f == k && path_base f == b)) fs
unfolding others_of values lookup contains
values-others_of b k selected [] = refl
values-others_of b k selected (f ∷ fs) = elim (Bool-cases (contains f selected)) [
  | inl chosen ↦ ground (arith, chosen, values-others_of b k selected fs)
  | inr other ↦ ground (
    arith,
    other,
    values-others_of b k selected fs,
    values-add_name b k (path_dir f) (path_base f) (others_of selected fs),
  )
]

pub contains-other_names :
    (b dir : String) (selected files : List String)
    → contains b (other_names selected files dir)
      ≡ any (λ f. not (contains f selected) && (path_dir f == dir && path_base f == b)) files
contains-other_names b dir selected files =
    contains-any b (other_names selected files dir)
    ∙ any-sort_by str_leb (λ t. t == b) (values dir (others_of selected files))
    ∙ sym (contains-any b (values dir (others_of selected files)))
    ∙ values-others_of b dir selected files
