-- ===== src/Cache/Restored.antt =====
-- internal/verify/cache.go: what load restores of the artifacts that save collected.
use levenshtein.Base.{
  ℕ, suc, String, ◌≡◌, refl, sym, ap, ◌∙◌, inl, inr, Bool, true, false, Option, some, List, [], ◌∷◌,
  arith, ◌==◌, eq_iff, eq_refl, Bool-cases, Option-cases, length, all, Dict, lookup, contains,
}
use mathlib.Core.Path.{subst}
use levenshtein.Cache.{Artifact, Node, regular, special, restore, collect, paths_match, permissions}

-- A file as a record keeps it: the permissions of its mode, and its content.
unfoldable pub recorded_node : Option Node → Option Node
recorded_node (some (regular mode bytes)) = some (regular (permissions mode) bytes)
recorded_node o = o

some_inj {ℓ} : {A : Type ℓ} {x y : A} → some x ≡ some y → x ≡ y
some_inj h = cc h

permissions_twice : (mode : ℕ) → permissions (permissions mode) ≡ permissions mode
permissions_twice mode = omega arith

-- What collecting the paths of a list and restoring them over other files comes to.
unfoldable pub Restores :
    (String → Bool) → Dict Node → List String → List Artifact → (String → Bool) → Dict Node → Type 0
Restores allowed files paths as_ writes base =
    (paths_match as_ paths ≡ true)
    × (length as_ ≡ length paths)
    × (all allowed paths ≡ true)
    × ((out : Dict Node) × (restore writes as_ base ≡ (true, out))
        × ((p : String) → contains p paths ≡ true → lookup p out ≡ recorded_node (lookup p files))
        × ((p : String) → contains p paths ≡ false → lookup p out ≡ lookup p base))

first_restored :
    (mode : ℕ) (bytes p q : String) (ps : List String) (files base : Dict Node)
    → lookup p files ≡ some (regular mode bytes)
    → contains q ps ≡ false
    → contains q (p ∷ ps) ≡ true
    → lookup q ((p, regular (permissions (permissions mode)) bytes) ∷ base)
      ≡ recorded_node (lookup q files)
unfolding contains lookup recorded_node
first_restored mode bytes p q ps files base e last k =
    let same : p ≡ q = (eq_iff p q).0 (ground arith) in
    let found : lookup q files ≡ some (regular mode bytes) =
      subst (λ k. lookup k files ≡ some (regular mode bytes)) same e in
    let here : (p == q) ≡ true = (eq_iff p q).1 same in
    rw (here, lookup)
      (ap (λ m. some (regular m bytes)) (permissions_twice mode) ∙ ap recorded_node (sym found))

pub collect-Restores :
    (allowed : String → Bool) (files : Dict Node) (paths : List String) (as_ : List Artifact)
    (writes : String → Bool) (base : Dict Node)
    → collect allowed files paths ≡ some as_
    → all writes paths ≡ true
    → Restores allowed files paths as_ writes base
unfolding collect restore Restores contains lookup recorded_node
collect-Restores allowed files [] as_ writes base h ok =
    subst (λ xs. Restores allowed files [] xs writes base) (some_inj h)
      (refl, refl, refl, (base, refl, (λ p k. absurd (cc k)), λ p k. refl))
collect-Restores allowed files (p ∷ ps) as_ writes base h ok =
    elim (Option-cases (lookup p files)) [
      | inl missing ↦ absurd (ground arith)
      | inr (special, e) ↦ absurd (ground arith)
      | inr (regular mode bytes, e) ↦ elim (Option-cases (collect allowed files ps)) [
        | inl lost ↦ absurd (ground arith)
        | inr (more, es) ↦
            let kept : Artifact = record { path = p; mode = permissions mode; bytes = bytes } in
            let start : Dict Node = (p, regular (permissions (permissions mode)) bytes) ∷ base in
            let (same, count, fine, (out, ran, own, other)) =
              collect-Restores allowed files ps more writes start es (ground arith) in
            let it : kept ∷ more ≡ as_ = ground arith in
            subst (λ xs. Restores allowed files (p ∷ ps) xs writes base) it
              (
                ground (arith, eq_refl p, same),
                ap suc count,
                ground (arith, fine),
                (
                  out,
                  ground (arith, ran),
                  (λ q k. elim (Bool-cases (contains q ps)) [
                    | inl later ↦ own q later
                    | inr last ↦ other q last ∙ first_restored mode bytes p q ps files base e last k
                  ]),
                  λ q k. other q (ground arith) ∙ ground (arith, k),
                ),
              )
      ]
    ]
