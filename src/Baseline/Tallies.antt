-- ===== src/Baseline/Tallies.antt =====
-- The tallies of Record as maps from keys to counts.
use Prim.Native.Nat.{zero-le}
use levenshtein.Base.{
  ℕ, suc, ◌+◌, ◌≤◌, ◌<◌, ◌≡◌, refl, sym, ap, ◌∙◌, inl, inr, Bool, true, false, ◌||◌, List, [], ◌∷◌,
  arith, if◌then◌else◌, Bool-cases, Bool-ext, any, All, max,
}
use levenshtein.Plan.{PlannedCheck}
use levenshtein.Report.{Finding}
use levenshtein.Baseline.Entry.{BaselineKey, key_eq, finding_key}
use levenshtein.Baseline.Mark.{recordable}
use levenshtein.Baseline.Record.{Tally, tally_of, upsert, local_tally, raise_all}
use levenshtein.Baseline.Marked.{key_eq_iff, occurrences}

unfoldable pub has_key : BaselineKey → Tally → Bool
has_key key t = any (λ (p : BaselineKey × ℕ). key_eq p.0 key) t

-- No key stands twice.
abbrev pub Unique : Tally → Type 0
Unique [] = Unit
Unique (p ∷ t) = (has_key p.0 t ≡ false) × Unique t

-- Two keys equal to one are equal.
pub key_eq_trans : (a b c : BaselineKey) → key_eq a b ≡ true → key_eq a c ≡ key_eq b c
key_eq_trans a b c h = ap (λ k. key_eq k c) ((key_eq_iff a b).0 h)

key_eq_right : (a b c : BaselineKey) → key_eq b c ≡ true → key_eq a b ≡ key_eq a c
key_eq_right a b c h = ap (key_eq a) ((key_eq_iff b c).0 h)

pub tally_of-upsert :
    (f : ℕ → ℕ) (k key : BaselineKey) (t : Tally)
    → tally_of key (upsert f k t) ≡ (if key_eq k key then f (tally_of key t) else tally_of key t)
unfolding tally_of upsert
tally_of-upsert f k key [] = refl
tally_of-upsert f k key ((j, n) ∷ t) =
    ground (arith, tally_of-upsert f k key t, key_eq_trans j k key, key_eq_right j k key)

has_key-upsert :
    (f : ℕ → ℕ) (k key : BaselineKey) (t : Tally)
    → has_key key (upsert f k t) ≡ (key_eq k key || has_key key t)
unfolding has_key upsert
has_key-upsert f k key [] = refl
has_key-upsert f k key ((j, n) ∷ t) = ground (arith, has_key-upsert f k key t, key_eq_trans j k key)

key_eq_sym : (a b : BaselineKey) → key_eq a b ≡ key_eq b a
key_eq_sym a b =
    Bool-ext (key_eq a b) (key_eq b a) (λ h. (key_eq_iff b a).1 (sym ((key_eq_iff a b).0 h)))
      (λ h. (key_eq_iff a b).1 (sym ((key_eq_iff b a).0 h)))

pub upsert-Unique : (f : ℕ → ℕ) (k : BaselineKey) (t : Tally) → Unique t → Unique (upsert f k t)
unfolding upsert
upsert-Unique f k [] u = (unfold has_key in refl, tt)
upsert-Unique f k ((j, n) ∷ t) u = elim (Bool-cases (key_eq j k)) [
  | inl e ↦ rw e u
  | inr d ↦
      rw d (has_key-upsert f k j t ∙ ground (arith, u.0, key_eq_sym k j), upsert-Unique f k t u.1)
]

pub local_tally-Unique :
    (check : PlannedCheck) (t : Tally) (fs : List Finding)
    → Unique t
    → Unique (local_tally check t fs)
unfolding local_tally
local_tally-Unique check t [] u = u
local_tally-Unique check t (f ∷ fs) u = elim (Bool-cases (recordable f)) [
  | inl r ↦ rw r (
      local_tally-Unique check (upsert suc (finding_key check f) t) fs
        (upsert-Unique suc (finding_key check f) t u))
  | inr r ↦ rw r (local_tally-Unique check t fs u)
]

-- The local tally counts the occurrences of each key.
pub tally_of-local_tally :
    (check : PlannedCheck) (key : BaselineKey) (t : Tally) (fs : List Finding)
    → tally_of key (local_tally check t fs) ≡ tally_of key t + occurrences check key fs
unfolding local_tally occurrences
tally_of-local_tally check key t [] = omega arith
tally_of-local_tally check key t (f ∷ fs) =
    let t' : Tally = if recordable f then upsert suc (finding_key check f) t else t in
    ground
      (arith, tally_of-local_tally check key t' fs, tally_of-upsert suc (finding_key check f) key t)

pub raise_all-Unique : (t counts : Tally) → Unique counts → Unique (raise_all t counts)
unfolding raise_all
raise_all-Unique [] counts u = u
raise_all-Unique ((k, n) ∷ t) counts u =
    raise_all-Unique t (upsert (λ old. max old n) k counts)
      (upsert-Unique (λ old. max old n) k counts u)

pub raise_all_mono :
    (key : BaselineKey) (t counts : Tally) → tally_of key counts ≤ tally_of key (raise_all t counts)
unfolding raise_all
raise_all_mono key [] counts = omega arith
raise_all_mono key ((k, n) ∷ t) counts = ground (
  arith,
  raise_all_mono key t (upsert (λ old. max old n) k counts),
  tally_of-upsert (λ old. max old n) k key counts,
)

pub raise_all_reaches :
    (key : BaselineKey) (t counts : Tally) → tally_of key t ≤ tally_of key (raise_all t counts)
unfolding raise_all tally_of
raise_all_reaches key [] counts = zero-le
raise_all_reaches key ((k, n) ∷ t) counts = ground (
  arith,
  raise_all_reaches key t (upsert (λ old. max old n) k counts),
  raise_all_mono key t (upsert (λ old. max old n) k counts),
  tally_of-upsert (λ old. max old n) k key counts,
)

has_key-none {ℓ} :
    (X : BaselineKey × ℕ → Type ℓ) (key : BaselineKey) (t : Tally)
    → has_key key t ≡ false
    → All (λ (p : BaselineKey × ℕ). key_eq p.0 key ≡ true → X p) t
unfolding has_key
has_key-none X key [] h = tt
has_key-none X key (p ∷ t) h = (λ e. absurd (ground arith), has_key-none X key t (ground arith))

-- Every pair of a tally without repeats has the count of its key.
pub Unique-All :
    (key : BaselineKey) (t : Tally)
    → Unique t
    → All (λ (p : BaselineKey × ℕ). key_eq p.0 key ≡ true → tally_of key t ≤ p.1) t
unfolding tally_of
Unique-All key [] u = tt
Unique-All key ((j, n) ∷ t) u = elim (Bool-cases (key_eq j key)) [
  | inl e ↦
      let gone : has_key key t ≡ false = rw ((key_eq_iff j key).0 e) at u.0 in
      ((λ _. ground arith), has_key-none (λ p. tally_of key ((j, n) ∷ t) ≤ p.1) key t gone)
  | inr d ↦
      let same_tally : tally_of key t ≡ tally_of key ((j, n) ∷ t) = ground arith in
      ((λ e. absurd (ground arith)), rw same_tally at (Unique-All key t u.1))
]

pub tally_of-has_key : (key : BaselineKey) (t : Tally) → 0 < tally_of key t → has_key key t ≡ true
unfolding tally_of has_key
tally_of-has_key key [] h = elim h [ ]
tally_of-has_key key ((j, n) ∷ t) h = ground (arith, tally_of-has_key key t)
