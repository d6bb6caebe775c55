-- ===== src/Tools/Exits.antt =====
-- internal/checktool: the exit code of a tool beside the findings of its parser.
use levenshtein.Base.{
  String, ◌≡◌, refl, ◌∙◌, ◌↔◌, inl, inr, Bool, true, not, ◌&&◌, ◌||◌, Option, none, some, List, [],
  ◌∷◌, arith, eqb, if◌then◌else◌, Bool-cases, Option-cases, sum_cases, is_empty,
}
use levenshtein.Report.{Finding}
use levenshtein.Tools.{
  ToolRun, SecretsLeak, ShellComment, ToolError, Parsed, tool_exit, zizmor_findings, ModStep,
  mod_findings, each_finding, secrets_findings, shell_findings, whole,
}
use levenshtein.Tools.Deps.{DepsResult, deps_findings, result_findings}

-- A tool, with what its parser is given besides the run
pub data ParsedTool : Type 0 where
  standalone : String → String → ParsedTool
  zizmor : String → ParsedTool
  go_mod : (String → Bool) → ModStep → String → ParsedTool
  gitleaks : (String → Option (List SecretsLeak)) → String → ParsedTool
  shellcheck : (String → Option (Option (List ShellComment))) → ParsedTool
  osv_scanner :
      (String → String → Option String)
      → (String → Option (List DepsResult))
      → String
      → String
      → ParsedTool

abbrev pub findings_of : ParsedTool → ToolRun → Parsed
findings_of (standalone kind path) run = tool_exit kind path run
findings_of (zizmor path) run = zizmor_findings path run
findings_of (go_mod modified step path) run = mod_findings modified step path run
findings_of (gitleaks decode report) run = secrets_findings decode run report
findings_of (shellcheck decode) run = shell_findings decode run
findings_of (osv_scanner rel decode root report) run = deps_findings rel decode root run report

each_finding-is_empty {ℓ} :
    {A : Type ℓ} (bad : A → Bool) (shown : A → String) (f : A → Finding) (xs : List A)
    (fs : List Finding)
    → each_finding bad shown f xs ≡ inr fs
    → is_empty fs ≡ is_empty xs
unfolding each_finding
each_finding-is_empty bad shown f [] fs h = ground arith
each_finding-is_empty bad shown f (x ∷ xs) fs h = elim (Bool-cases (bad x)) [
  | inl wrong ↦ absurd (ground arith)
  | inr fine ↦ elim (sum_cases (each_finding bad shown f xs)) [
    | inl (e, lost) ↦ absurd (ground arith)
    | inr (more, found) ↦ ground arith
  ]
]

-- Diagnostics that agree with the exit code, turned into findings
matched_exit {ℓ} :
    {A : Type ℓ} (bad : A → Bool) (shown : A → String) (f : A → Finding) (xs : List A)
    (zero_ : Bool) (e : ToolError) (fs : List Finding)
    → (if not zero_ && is_empty xs || zero_ && not (is_empty xs)
        then inl e
        else each_finding bad shown f xs)
      ≡ inr fs
    → is_empty fs ≡ zero_
matched_exit bad shown f xs zero_ e fs h =
    elim (Bool-cases (not zero_ && is_empty xs || zero_ && not (is_empty xs))) [
      | inl apart ↦ absurd (cc (rw apart at h))
      | inr agreed ↦
          each_finding-is_empty bad shown f xs fs (rw agreed at h) ∙ ground (arith, agreed)
    ]

empty_iff : (fs : List Finding) → (is_empty fs ≡ true) ↔ (fs ≡ [])
empty_iff [] = ((λ h. refl), λ h. refl)
empty_iff (f ∷ fs) = ((λ h. cc h), λ h. cc h)

is_empty-exit :
    (tool : ParsedTool) (run : ToolRun) (fs : List Finding)
    → findings_of tool run ≡ inr fs
    → is_empty fs ≡ eqb run.exit_code 0
unfolding tool_exit zizmor_findings mod_findings secrets_findings shell_findings deps_findings whole
is_empty-exit (standalone kind path) run fs h = ground arith
is_empty-exit (zizmor path) run fs h = ground arith
is_empty-exit (go_mod modified step path) run fs h = ground arith
is_empty-exit (gitleaks decode report) run fs h = elim (Option-cases (decode report)) [
  | inl lost ↦ absurd (ground arith)
  | inr (leaks, e) ↦ elim (Bool-cases (not (eqb run.exit_code 0) && not (eqb run.exit_code 3))) [
    | inl other ↦ absurd (ground (arith, other))
    | inr known ↦
        matched_exit _ _ _ leaks (eqb run.exit_code 0) _ fs (rw (known, e, secrets_findings) at h)
  ]
]
is_empty-exit (shellcheck decode) run fs h = elim (Option-cases (decode run.stdout)) [
  | inl lost ↦ absurd (ground arith)
  | inr (none, e) ↦ absurd (ground arith)
  | inr (some comments, e) ↦
      elim (Bool-cases (not (eqb run.exit_code 0) && not (eqb run.exit_code 1))) [
        | inl other ↦ absurd (ground (arith, other))
        | inr known ↦
            matched_exit _ _ _ comments (eqb run.exit_code 0) _ fs
              (rw (known, e, shell_findings) at h)
      ]
]
is_empty-exit (osv_scanner rel decode root report) run fs h = elim (Option-cases (decode report)) [
  | inl lost ↦ absurd (ground arith)
  | inr (results, e) ↦ elim (sum_cases (result_findings rel root results)) [
    | inl (wrong, e') ↦ absurd (ground arith)
    | inr (found, e') ↦ ground arith
  ]
]

-- Of the tools whose output is parsed here, a run that is not an error has no findings exactly if it exited 0.
pub findings_of-exit :
    (tool : ParsedTool) (run : ToolRun) (fs : List Finding)
    → findings_of tool run ≡ inr fs
    → (run.exit_code ≡ 0) ↔ (fs ≡ [])
findings_of-exit tool run fs h =
    let same = is_empty-exit tool run fs h in
    let (to, from) = empty_iff fs in
    ((λ e. to (ground (arith, same, e))), λ e. ground (arith, same, from e))
