-- ===== src/Tools.antt =====
-- internal/checktool/finding.go, zizmor.go, gomod.go, gitleaks.go, shellcheck.go and osvscanner.go: the findings
-- that the run of a tool stands for, or why it stands for none.
pub mod Deps
pub mod Exits
mod Examples
use levenshtein.Base.{
  ℕ, zero, suc, ◌+◌, ◌-◌, ◌*◌, ◌≤◌, ◌<◌, Char, code, String, ◌≡◌, refl, sym, ap, ◌∙◌, ◌≢◌, ◌↔◌, ◌⊎◌,
  inl, inr, Bool, true, false, not, ◌&&◌, ◌||◌, Option, none, some, List, [], ◌∷◌, ◌++◌, map, arith,
  ◌==◌, eq_iff, eq_refl, ltb, leb, eqb, if◌then◌else◌, Bool-cases, Option-cases, sum_cases,
  Bool-ext, any-count_if, is_some, length, is_empty, any, all, keep, count_if, All, All-append,
  All-weaken, All-each, All-both, any_char, all_char, cut_prefix, has_prefix, cut_last, split,
  str_leb, min, max, Dict, lookup, sorted_keys, contains, join, concat, sort_by, trim_space,
  has_infix, has_suffix,
}
use levenshtein.Baseline.Messages.{decimal}
use levenshtein.Paths.{is_local}
use levenshtein.Report.{Finding}

-- Run; a process that a signal ended has no exit code, which is some number that no tool documents.
pub record ToolRun : Type 0 where
  pub exit_code : ℕ
  pub stdout : String
  pub stderr : String

-- One diagnostic of gitleaks and of ShellCheck
pub record SecretsLeak : Type 0 where
  pub rule_id : String
  pub description : String
  pub file : String
  pub start_line : ℕ
  pub start_column : ℕ
  pub fingerprint : String

pub record ShellComment : Type 0 where
  pub file : String
  pub line : ℕ
  pub column : ℕ
  pub code : ℕ
  pub message : String

-- Why a run has no findings to report and does not pass
pub data ToolError : Type 0 where
  tool_exited : ℕ → String → ToolError
  unreadable_report no_comments no_lockfile : ToolError
  exit_mismatch : ℕ → ℕ → ToolError
  unexpected_finding : String → ToolError

abbrev pub Parsed : Type 0
Parsed = ToolError ⊎ List Finding

unfoldable pub output : ToolRun → String
output run = trim_space (concat run.stdout (concat "\n" run.stderr))

abbrev pub finding_of : String → String → String → ℕ → ℕ → Finding
finding_of code message file line column = record {
  code = code;
  message = message;
  location = record { file = file; line = line; column = column };
  source = "";
  url = "";
  advisory = false;
  hint = "";
  baselined = false;
}

unfoldable pub whole : String → String → String → List Finding
whole kind path message = finding_of kind message path 1 0 ∷ []

-- ToolExit
unfoldable pub tool_exit : String → String → ToolRun → Parsed
unfolding output whole
tool_exit kind path run =
    let failure_code = if kind == "go-vuln" then 3 else 1 in
    if eqb run.exit_code 0
    then inr []
    else if not (eqb run.exit_code failure_code) || output run == ""
    then inl (tool_exited run.exit_code (output run))
    else inr (whole kind path (output run))

-- ZizmorFindings
unfoldable pub zizmor_findings : String → ToolRun → Parsed
unfolding output whole
zizmor_findings path run =
    if eqb run.exit_code 0
    then inr []
    else if (not (eqb run.exit_code 13) && not (eqb run.exit_code 14)) || output run == ""
    then inl (tool_exited run.exit_code (output run))
    else inr (whole "workflow-security" path (output run))

-- ModStep
pub data ModStep : Type 0 where
  mod_tidy mod_verify : ModStep

-- ModFindings; `modified` is the regular expression modifiedModule.
unfoldable pub mod_findings : (String → Bool) → ModStep → String → ToolRun → Parsed
unfolding output whole
mod_findings modified step path run =
    let named : Bool = elim step [
      | mod_tidy ↦ not (trim_space run.stdout == "")
      | mod_verify ↦ modified run.stderr
    ] in
    if eqb run.exit_code 0
    then inr []
    else if not (eqb run.exit_code 1) || not (has_infix "SECURITY ERROR" run.stderr || named)
    then inl (tool_exited run.exit_code (output run))
    else inr (whole "go-mod" path (output run))

-- relative; `rel` is filepath.Rel.
unfoldable pub relative_to : (String → String → Option String) → String → String → String
relative_to rel root file =
    if root == "" || not (has_prefix "/" file)
    then file
    else elim (rel root file) [ none ↦ file | some r ↦ if is_local r then r else file ]

-- The findings of a list of diagnostics, unless one is not as it should be
unfoldable pub each_finding {ℓ} :
    {A : Type ℓ} → (A → Bool) → (A → String) → (A → Finding) → List A → Parsed
each_finding bad shown f [] = inr []
each_finding bad shown f (x ∷ xs) =
    let rest = each_finding bad shown f xs in
    if bad x
    then inl (unexpected_finding (shown x))
    else elim rest [ inl e ↦ inl e | inr fs ↦ inr (f x ∷ fs) ]

abbrev secrets_leak_exit : ℕ
secrets_leak_exit = 3

-- SecretsFindings; `decode` is json.Unmarshal.
unfoldable pub secrets_findings : (String → Option (List SecretsLeak)) → ToolRun → String → Parsed
unfolding each_finding relative_to
secrets_findings decode run report =
    if not (eqb run.exit_code 0) && not (eqb run.exit_code secrets_leak_exit)
    then inl (tool_exited run.exit_code (trim_space run.stderr))
    else elim (decode report) [
      | none ↦ inl unreadable_report
      | some leaks ↦
          if not (eqb run.exit_code 0) && is_empty leaks
            || eqb run.exit_code 0 && not (is_empty leaks)
          then inl (exit_mismatch run.exit_code (length leaks))
          else each_finding
              (λ (l : SecretsLeak). l.rule_id == "" || (l.file == "" || ltb l.start_line 1))
              (λ (l : SecretsLeak). l.file)
              (λ (l : SecretsLeak).
                finding_of l.rule_id
                  (concat (trim_space l.description) (
                    concat " The value is redacted; if it is not a secret, add "
                      (concat l.fingerprint " to .gitleaksignore.")))
                  (relative_to (λ root file. none) "" l.file) l.start_line l.start_column)
              leaks
    ]

-- ShellFindings; `decode` gives no comments where the report has no array of them.
unfoldable pub shell_findings : (String → Option (Option (List ShellComment))) → ToolRun → Parsed
unfolding each_finding
shell_findings decode run =
    if not (eqb run.exit_code 0) && not (eqb run.exit_code 1)
    then inl (tool_exited run.exit_code (trim_space (concat run.stderr (concat "\n" run.stdout))))
    else elim (decode run.stdout) [
      | none ↦ inl unreadable_report
      | some none ↦ inl no_comments
      | some (some comments) ↦
          if not (eqb run.exit_code 0) && is_empty comments
            || eqb run.exit_code 0 && not (is_empty comments)
          then inl (exit_mismatch run.exit_code (length comments))
          else each_finding
              (λ (c : ShellComment).
                c.file == "" || (ltb c.line 1 || (ltb c.code 1 || c.message == "")))
              (λ (c : ShellComment). c.message)
              (λ (c : ShellComment).
                finding_of (concat "SC" (decimal c.code)) c.message c.file c.line c.column)
              comments
    ]
