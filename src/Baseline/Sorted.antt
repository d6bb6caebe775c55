-- ===== src/Baseline/Sorted.antt =====
-- internal/verify/baseline.go: the order that Record gives the entries.
use levenshtein.Base.{
  ◌≡◌, refl, ◌∙◌, Bool, ◌||◌, List, [], ◌∷◌, arith, any, All, Bool-cases, inl, inr, ap,
}
use levenshtein.Baseline.Entry.{BaselineEntry}
use levenshtein.Baseline.Record.{entry_leb, insert_entry, sort_entries}

insert_entry-All {ℓ} :
    (P : BaselineEntry → Type ℓ) (e : BaselineEntry) (xs : List BaselineEntry)
    → P e
    → All P xs
    → All P (insert_entry e xs)
unfolding insert_entry
insert_entry-All P e [] p h = (p, tt)
insert_entry-All P e (x ∷ xs) p h = elim (Bool-cases (entry_leb e x)) [
  | inl first ↦ rw first (p, h)
  | inr later ↦ rw later (h.0, insert_entry-All P e xs p h.1)
]

pub sort_entries-All {ℓ} :
    (P : BaselineEntry → Type ℓ) (xs : List BaselineEntry) → All P xs → All P (sort_entries xs)
unfolding sort_entries
sort_entries-All P [] h = tt
sort_entries-All P (x ∷ xs) h =
    insert_entry-All P x (sort_entries xs) h.0 (sort_entries-All P xs h.1)

All-insert_entry {ℓ} :
    (P : BaselineEntry → Type ℓ) (e : BaselineEntry) (xs : List BaselineEntry)
    → All P (insert_entry e xs)
    → P e × All P xs
unfolding insert_entry
All-insert_entry P e [] h = (h.0, tt)
All-insert_entry P e (x ∷ xs) h = elim (Bool-cases (entry_leb e x)) [
  | inl first ↦ let k = rw first at h in (k.0, k.1)
  | inr later ↦
      let k = rw later at h in let rest = All-insert_entry P e xs k.1 in (rest.0, (k.0, rest.1))
]

pub All-sort_entries {ℓ} :
    (P : BaselineEntry → Type ℓ) (xs : List BaselineEntry) → All P (sort_entries xs) → All P xs
unfolding sort_entries
All-sort_entries P [] h = tt
All-sort_entries P (x ∷ xs) h =
    let k = All-insert_entry P x (sort_entries xs) h in (k.0, All-sort_entries P xs k.1)

any-insert_entry :
    (p : BaselineEntry → Bool) (e : BaselineEntry) (xs : List BaselineEntry)
    → any p (insert_entry e xs) ≡ (p e || any p xs)
unfolding insert_entry
any-insert_entry p e [] = refl
any-insert_entry p e (x ∷ xs) = ground (arith, any-insert_entry p e xs)

pub any-sort_entries :
    (p : BaselineEntry → Bool) (xs : List BaselineEntry) → any p (sort_entries xs) ≡ any p xs
unfolding sort_entries
any-sort_entries p [] = refl
any-sort_entries p (x ∷ xs) =
    any-insert_entry p x (sort_entries xs) ∙ ap (λ b. p x || b) (any-sort_entries p xs)
