-- ===== src/Tools/Examples.antt =====
-- A run of gitleaks that finds one secret.
use levenshtein.Base.{◌≡◌, refl, ◌↔◌, inl, inr, some, List, [], ◌∷◌}
use levenshtein.Report.{Finding}
use levenshtein.Tools.{ToolRun, SecretsLeak, Parsed, secrets_findings}
use levenshtein.Tools.Exits.{ParsedTool, gitleaks, findings_of, findings_of-exit}

abbrev leak : SecretsLeak
leak = record {
  rule_id = "generic-api-key";
  description = "A key.";
  file = "a.go";
  start_line = 3;
  start_column = 1;
  fingerprint = "a.go:generic-api-key:3";
}

abbrev scan : ToolRun
scan = record { exit_code = 3; stdout = ""; stderr = "" }

abbrev scanner : ParsedTool
scanner = gitleaks (λ text. some (leak ∷ [])) "report"

abbrev found : Parsed → List Finding
found (inl e) = []
found (inr fs) = fs

abbrev scanned : List Finding
scanned = found (findings_of scanner scan)

scan_answers : findings_of scanner scan ≡ inr scanned
unfolding secrets_findings
scan_answers = refl

findings_of-exit_example : (scan.exit_code ≡ 0) ↔ (scanned ≡ [])
findings_of-exit_example = findings_of-exit scanner scan scanned scan_answers
