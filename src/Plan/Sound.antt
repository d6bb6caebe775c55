-- ===== src/Plan/Sound.antt =====
-- What planning has established about a check before an executor receives it.
use levenshtein.Base.{
  String, ◌≡◌, refl, ap, ◌∙◌, ◌≢◌, ◌⊎◌, inl, inr, Bool, true, false, not, ◌||◌, some, [], ◌∷◌,
  arith, ◌==◌, eq_iff, Option-cases, is_empty, All, All-append, All-weaken, lookup,
}
use levenshtein.Result.{ok, for_each-refuse, bad_input, bad_exclude}
use levenshtein.Config.{
  native, DiscoveryKind, unset, git, filesystem, unlisted, Target, Environment, Check, Config,
}
use levenshtein.Paths.{relative}
use levenshtein.Kinds.{native_kind_of, root_only, NativeKind}
use levenshtein.Validation.{validate_check, run_rerun_ready}
use levenshtein.Plan.{
  Host, PlannedCheck, Plan, Selection, literal_path, with_defaults, discovery_known, plan_check,
  plan, check_kind, check_target, check_directory, check_rerun,
}
use levenshtein.Plan.Unique.{plan_references-keeps, plan_parts}

-- A planned check that an executor can run as it stands.
pub record IsRunnable (host : Host) (source : String) (rerun : Bool) (p : PlannedCheck)
    : Type 0 where
  pub valid : validate_check host.parse_duration p.check p.environment ≡ ok tt
  pub directory : host.stat source p.target.dir ≡ some true
  pub workspace : host.stat source p.target.workspace ≡ some true
  pub at_root : root_only p.check.kind ≡ true → p.target.dir ≡ "."
  pub declares : is_empty p.target.inputs ≡ false
  pub inputs : All (λ path. relative path ≡ true) p.target.inputs
  pub excludes : All (λ path. (literal_path path ≡ true) × (path ≢ ".")) p.target.exclude
  pub discovery : (p.target.discovery ≡ git) ⊎ (p.target.discovery ≡ filesystem)
  pub fresh :
      rerun ≡ true
      → p.environment.executor ≡ native
      → (kind : NativeKind) → native_kind_of p.check.kind ≡ some kind
      → run_rerun_ready kind.rerun_ready p.check ≡ ok tt

not-false : (b : Bool) → not b ≡ false → b ≡ true
not-false true h = refl
not-false false h = cc h

module _ (host : Host) (source : String) where
  check_directory-stat :
      (path : String) → check_directory host source path ≡ ok tt → host.stat source path ≡ some true
  unfolding check_directory
  check_directory-stat path h = ground arith

  -- The facts that check_target leaves.
  abbrev TargetChecked : Target → Type 0
  TargetChecked t =
      (host.stat source t.dir ≡ some true)
      × (host.stat source t.workspace ≡ some true)
      × (is_empty t.inputs ≡ false)
      × All (λ path. relative path ≡ true) t.inputs
      × All (λ path. (literal_path path ≡ true) × (path ≢ ".")) t.exclude
      × (discovery_known t.discovery ≡ true)

  check_target-TargetChecked :
      (check : Check) (e : Environment) (t : Target)
      → check_target host source check e t ≡ ok tt
      → TargetChecked t
  unfolding check_target
  check_target-TargetChecked check e t h = (
    check_directory-stat t.dir (ground arith),
    check_directory-stat t.workspace (ground arith),
    ground arith,
    All-weaken (λ path. not (relative path) ≡ false) (λ path. relative path ≡ true) t.inputs
        (λ path. not-false (relative path))
        (for_each-refuse (λ path. not (relative path)) bad_input t.inputs (ground arith)),
    All-weaken (λ path. (not (literal_path path) || path == ".") ≡ false)
        (λ path. (literal_path path ≡ true) × (path ≢ ".")) t.exclude
        (λ path k. (ground arith, λ dot. ground (arith, eq_iff path ".")))
        (for_each-refuse (λ path. not (literal_path path) || path == ".") bad_exclude t.exclude
          (ground arith)),
    ground arith,
  )

discovery_known-cases :
    (d : DiscoveryKind) → discovery_known d ≡ true → (d ≡ git) ⊎ (d ≡ filesystem)
unfolding discovery_known
discovery_known-cases git h = inl refl
discovery_known-cases filesystem h = inr refl
discovery_known-cases unset h = cc
discovery_known-cases (unlisted name) h = cc

module _ (host : Host) (cfg : Config) (source : String) (rerun : Bool) where
  -- The facts that check_kind leaves.
  abbrev KindChecked : Check → Environment → String → Type 0
  KindChecked check e dir =
      (validate_check host.parse_duration check e ≡ ok tt)
      × (root_only check.kind ≡ true → dir ≡ ".")
      × (rerun ≡ true
          → e.executor ≡ native
          → (kind : NativeKind) → native_kind_of check.kind ≡ some kind
          → run_rerun_ready kind.rerun_ready check ≡ ok tt)

  check_kind-KindChecked :
      (check : Check) (e : Environment) (t : Target)
      → check_kind host cfg rerun check e t ≡ ok tt
      → KindChecked check e t.dir
  unfolding check_kind check_rerun
  check_kind-KindChecked check e t h =
      (ground arith, λ r. ground (arith, eq_iff t.dir "."), λ r n kind k. ground arith)

  -- What a planned check has passed: its target is the declared one with the defaults filled in.
  plan_check-passed :
      (s : Selection) (p : PlannedCheck)
      → plan_check host cfg source s rerun ≡ ok p
      → (declared : Target) × (check_kind host cfg rerun p.check p.environment declared ≡ ok tt)
        × (check_target host source p.check p.environment p.target ≡ ok tt)
        × (p.target ≡ with_defaults declared)
  unfolding plan_check
  plan_check-passed s p h = elim (Option-cases (lookup s.check.target cfg.targets)) [
    | inl missing ↦ absurd (ground arith)
    | inr (declared, known) ↦ elim (Option-cases (lookup s.check.environment cfg.environments)) [
      | inl missing ↦ absurd (ground arith)
      | inr (e, there) ↦ (declared, ground arith, ground arith, ground arith)
    ]
  ]

  with_defaults-dir : (t : Target) → (with_defaults t).dir ≡ t.dir
  unfolding with_defaults
  with_defaults-dir t = refl

  pub plan_check-IsRunnable :
      (s : Selection) (p : PlannedCheck)
      → plan_check host cfg source s rerun ≡ ok p
      → IsRunnable host source rerun p
  plan_check-IsRunnable s p h =
      let (declared, k, t, e) = plan_check-passed s p h in
      let kind = check_kind-KindChecked p.check p.environment declared k in
      let target = check_target-TargetChecked host source p.check p.environment p.target t in
      let dir : p.target.dir ≡ declared.dir =
        ap (λ (x : Target). x.dir) e ∙ with_defaults-dir declared in
      record {
        valid = kind.0;
        directory = target.0;
        workspace = target.1;
        at_root = λ r. dir ∙ kind.1 r;
        declares = target.2;
        inputs = target.3;
        excludes = target.4;
        discovery = discovery_known-cases p.target.discovery target.5;
        fresh = kind.2;
      }

-- In every check of a plan, the options are valid for the environment; the target's directory and workspace exist
-- as directories of the source; the target has inputs, each a clean relative path, and excludes that are literal
-- paths other than the root; its discovery is git or filesystem; a kind that runs at the root only has the root
-- as its directory; and where the run asks for fresh verdicts, a native check of a kind with a native executor
-- passes that kind's test of readiness to rerun.
pub plan-IsRunnable :
    (host : Host) (cfg : Config) (source name : String) (p : Plan)
    → plan host cfg source name ≡ ok p
    → All (IsRunnable host p.source p.rerun_checks) p.checks
plan-IsRunnable host cfg source name p h =
    let (run, known, rerun, e) = plan_parts host cfg source name p h in
    plan_references-keeps host cfg p.source p.rerun_checks
      (All (IsRunnable host p.source p.rerun_checks))
      (λ planned s q d new planned_ok.
        All-append (IsRunnable host p.source p.rerun_checks) planned (q ∷ []) d
          (plan_check-IsRunnable host cfg p.source p.rerun_checks s q planned_ok, tt))
      [] run.checks p.checks e tt
