-- ===== src/Base/Maps.antt =====
-- Go maps with text keys, as association lists: a lookup takes the first entry of a key.
use Prim.Native.String.{String}
use mathlib.Core.List.{List, [], ◌∷◌}
use mathlib.Core.Option.{Option, none, some}
use text.Mathlib.Text.{◌==◌}
use mathlib.Core.Path.{◌≡◌, refl, ap, ◌∙◌}
use mathlib.Core.Logic.{inl, inr}
use mathlib.Core.Bool.{Bool, ◌||◌}
use native.Mathlib.Omega.{arith}
use text.Mathlib.TextEquality.{eq_iff}
use levenshtein.Base.Tests.{if◌then◌else◌, Bool-cases}
use levenshtein.Base.Lists.{any}
use levenshtein.Base.Strings.{str_leb}

abbrev pub Dict {ℓ} : Type ℓ → Type ℓ
Dict V = List (String × V)

unfoldable pub lookup {ℓ} : {V : Type ℓ} → String → Dict V → Option V
lookup k [] = none
lookup k ((j, v) ∷ d) = let rest = lookup k d in if j == k then some v else rest

-- A key is put in its place, and not twice.
insert_sorted : String → List String → List String
insert_sorted k [] = k ∷ []
insert_sorted k (j ∷ ks) =
    let rest = insert_sorted k ks in
    if k == j then j ∷ ks else if str_leb k j then k ∷ j ∷ ks else j ∷ rest

-- `slices.Sorted(maps.Keys(d))`
unfoldable pub sorted_keys {ℓ} : {V : Type ℓ} → Dict V → List String
unfolding insert_sorted
sorted_keys [] = []
sorted_keys ((k, v) ∷ d) = insert_sorted k (sorted_keys d)

any-insert_sorted :
    (q : String → Bool) (k : String) (ks : List String)
    → any q (insert_sorted k ks) ≡ (q k || any q ks)
unfolding insert_sorted
any-insert_sorted q k [] = refl
any-insert_sorted q k (j ∷ ks) = elim (Bool-cases (k == j)) [
  | inl same ↦ let it : q k ≡ q j = ap q ((eq_iff k j).0 same) in ground (arith, same, it)
  | inr other ↦ ground (arith, other, any-insert_sorted q k ks)
]

pub any-sorted_keys {ℓ} :
    {V : Type ℓ} (q : String → Bool) (d : Dict V) → any q (sorted_keys d) ≡ any (λ kv. q kv.0) d
unfolding sorted_keys
any-sorted_keys q [] = refl
any-sorted_keys q ((k, v) ∷ d) =
    any-insert_sorted q k (sorted_keys d) ∙ ap (λ b. q k || b) (any-sorted_keys q d)
