-- ===== src/Result.antt =====
-- Go's `(value, error)` results. An error is a value with one constructor for each message that
-- planning can return; its arguments are what the message quotes.
use levenshtein.Base.{
  ℕ, String, ◌≡◌, refl, Bool, true, false, List, [], ◌∷◌, Option, none, some, All, ◌⊎◌, inl, inr,
}

pub data Error : Type 0 where
  -- validateCheck, validateDaggerCheck and validateGoMutation
  options_of_another_kind : String → Error
  invalid_base : String → Error
  imports_missing no_native_stage_options native_options_on_dagger : Error
  unsupported_executor : Error
  not_native unknown_dagger_check : String → Error
  bad_mutation_scope base_without_effect bad_accepted_file bad_tags : Error
  -- validateLintChecks and validateImportRules
  empty_lint_options : Error
  bad_community_pattern bad_core_pattern : String → Error
  empty_rules : Error
  bad_import_rule : ℕ → String → Error
  -- the native validators
  shared_options semantic_on_command args_missing cache_needs_identity empty_rerun_args : Error
  bad_artifact : String → Error
  command_on_semantic unpinned_model bad_limits : Error
  committed_credential : String → Error
  -- validateEnvironment, validateDuration, validateEnv, resolveStage
  bad_env_name bad_env_entry bad_timeout : String → Error
  incomplete_tool : Error
  unknown_stage incomplete_stage : String → Error
  bad_stage_path : String → Error
  rerun_args_missing : Error
  -- plan.go
  empty_run bad_baseline_path : String → Error
  duplicate_check : String → Error
  unknown_check one_target_only unknown_target_of : String → Error
  target_count : Error
  duplicate_target : String → Error
  unknown_target unknown_environment : String → Error
  community_needs_dagger root_target_only : Error
  path_unavailable not_a_directory : String → Error
  inputs_missing bad_input bad_exclude unknown_discovery misspelled : String → Error
  bad_dagger_input : String → Error
  bad_rule_modules : String → Error
  -- fmt.Errorf("check %q: %w", id, err)
  in_check : String → Error → Error

infixl 5 ◌>>=◌ ◌>>◌
pub data Result {ℓ} (A : Type ℓ) : Type ℓ where
  err : Error → Result A
  ok : A → Result A

abbrev pub ◌>>=◌ {ℓ κ} : {A : Type ℓ} {B : Type κ} → Result A → (A → Result B) → Result B
err e >>= next = err e
ok x >>= next = next x

abbrev pub ◌>>◌ {ℓ} : {B : Type ℓ} → Result (Unit {0}) → Result B → Result B
first >> second = first >>= λ done. second

-- `if bad { return e }`
abbrev pub refuse : Bool → Error → Result (Unit {0})
refuse true e = err e
refuse false e = ok tt

-- A range loop that returns at the first error.
abbrev pub for_each {ℓ} : {A : Type ℓ} → (A → Result (Unit {0})) → List A → Result (Unit {0})
for_each f [] = ok tt
for_each f (x ∷ xs) = let rest = for_each f xs in f x >> rest

-- `if err != nil { return fmt.Errorf("check %q: %w", id, err) }`
abbrev pub wrap {ℓ} : {A : Type ℓ} → (Error → Error) → Result A → Result A
wrap f (ok a) = ok a
wrap f (err e) = err (f e)

-- The value of a key, or the error that the code returns without one.
abbrev pub found {ℓ} : {A : Type ℓ} → Option A → Error → Result A
found none e = err e
found (some a) e = ok a

abbrev pub is_ok {ℓ} : {A : Type ℓ} → Result A → Bool
is_ok (ok a) = true
is_ok (err e) = false

pub >>=-eq-ok {ℓ κ} :
    {A : Type ℓ} {B : Type κ} (r : Result A) (next : A → Result B) {y : B}
    → (r >>= next) ≡ ok y
    → (x : A) × (r ≡ ok x) × (next x ≡ ok y)
>>=-eq-ok (err e) next h = cc
>>=-eq-ok (ok x) next h = (x, refl, h)

pub >>-eq-ok {ℓ} :
    {B : Type ℓ} (m : Result (Unit {0})) (k : Result B) {b : B}
    → (m >> k) ≡ ok b
    → (m ≡ ok tt) × (k ≡ ok b)
>>-eq-ok (ok tt) k h = (refl, h)
>>-eq-ok (err e) k h = (cc, cc)

pub wrap-eq-ok {ℓ} :
    {A : Type ℓ} (f : Error → Error) (m : Result A) {a : A} → wrap f m ≡ ok a → m ≡ ok a
wrap-eq-ok f (ok x) h = h
wrap-eq-ok f (err e) h = cc

pub found-eq-ok {ℓ} :
    {A : Type ℓ} (o : Option A) (e : Error) {a : A} → found o e ≡ ok a → o ≡ some a
found-eq-ok (some x) e h = cc
found-eq-ok none e h = cc

pub refuse-eq-ok : (b : Bool) (e : Error) → refuse b e ≡ ok tt → b ≡ false
refuse-eq-ok true e h = cc
refuse-eq-ok false e h = refl

-- A loop that ends without an error refused no element.
pub for_each-refuse {ℓ} :
    {A : Type ℓ} (p : A → Bool) (f : A → Error) (xs : List A)
    → for_each (λ x. refuse (p x) (f x)) xs ≡ ok tt
    → All (λ x. p x ≡ false) xs
for_each-refuse p f [] h = tt
for_each-refuse p f (x ∷ xs) h =
    let parts = >>-eq-ok (refuse (p x) (f x)) (for_each (λ x. refuse (p x) (f x)) xs) h in
    (refuse-eq-ok (p x) (f x) parts.0, for_each-refuse p f xs parts.1)

-- `if _, err := f(); err != nil { return err }`
abbrev pub discard {ℓ} : {A : Type ℓ} → Result A → Result (Unit {0})
discard (ok a) = ok tt
discard (err e) = err e

-- To split on a result and keep the equation.
pub Result-cases {ℓ} :
    {A : Type ℓ} (r : Result A) → ((a : A) × (r ≡ ok a)) ⊎ ((e : Error) × (r ≡ err e))
Result-cases (ok a) = inl (a, refl)
Result-cases (err e) = inr (e, refl)
