-- ===== src/Tools/Deps.antt =====
-- internal/checktool/osvscanner.go: the findings of a run of osv-scanner.
use levenshtein.Base.{
  String, inl, inr, Bool, not, ◌&&◌, ◌||◌, Option, none, some, List, [], ◌∷◌, ◌++◌, map, ◌==◌, eqb,
  if◌then◌else◌, length, is_empty, any, keep, cut_prefix, Dict, contains, join, concat, trim_space,
}
use levenshtein.Tools.{
  ToolRun, tool_exited, unreadable_report, no_lockfile, exit_mismatch, unexpected_finding, Parsed,
  finding_of, relative_to,
}

pub record DepsAnalysis : Type 0 where
  pub called : Bool
  pub unimportant : Bool

pub record DepsGroup : Type 0 where
  pub ids : List String
  pub aliases : List String
  pub max_severity : String
  pub analysis : Dict DepsAnalysis

pub record DepsAdvisory : Type 0 where
  pub id : String
  pub summary : String

pub record DepsPackage : Type 0 where
  pub name : String
  pub version : String
  pub ecosystem : String
  pub groups : List DepsGroup
  pub vulnerabilities : List DepsAdvisory

pub record DepsResult : Type 0 where
  pub path : String
  pub packages : List DepsPackage

-- depsGroup.counts
unfoldable pub counts : DepsGroup → Bool
counts g =
    is_empty g.analysis
    || (not (any (λ (a : String × DepsAnalysis). a.1.unimportant) g.analysis)
        && any (λ (a : String × DepsAnalysis). a.1.called) g.analysis)

unfoldable pub deps_groups : DepsPackage → List DepsGroup
unfolding counts
deps_groups pkg =
    if is_empty pkg.vulnerabilities
    then []
    else if is_empty pkg.groups
    then map
        (λ (a : DepsAdvisory). record {
          ids = a.id ∷ [];
          aliases = [];
          max_severity = "";
          analysis = [];
        })
        pkg.vulnerabilities
    else keep counts pkg.groups

-- summaries[id]; the last advisory of an identifier gives its summary.
abbrev summary_of : List DepsAdvisory → String → String → String
summary_of [] id found = found
summary_of (a ∷ as_) id found =
    summary_of as_ id (if a.id == id then trim_space a.summary else found)

abbrev first_summary : List DepsAdvisory → List String → String
first_summary advisories [] = ""
first_summary advisories (id ∷ ids) =
    let rest = first_summary advisories ids in
    if summary_of advisories id "" == "" then rest else summary_of advisories id ""

abbrev group_text : List DepsAdvisory → DepsGroup → String
group_text advisories g =
    let details =
      keep (λ alias_. not (contains alias_ g.ids)) g.aliases
      ++ (if g.max_severity == "" then [] else concat "severity " g.max_severity ∷ []) in
    let named = join ", " g.ids in
    let part =
      if is_empty details
      then named
      else concat named (concat " (" (concat (join ", " details) ")")) in
    if first_summary advisories g.ids == ""
    then part
    else concat part (concat " " (first_summary advisories g.ids))

unfoldable pub deps_message : DepsPackage → List DepsGroup → String
deps_message pkg groups = concat pkg.name (
    concat "@" (
      concat pkg.version (
        concat " (" (
          concat pkg.ecosystem (
            concat ") has known vulnerabilities: "
              (join "; " (map (group_text pkg.vulnerabilities) groups)))))))

-- The packages of one result, and those of all
unfoldable pub package_findings : String → List DepsPackage → Parsed
unfolding deps_groups deps_message
package_findings file [] = inr []
package_findings file (pkg ∷ pkgs) =
    let rest = package_findings file pkgs in
    if is_empty (deps_groups pkg)
    then rest
    else if file == "" || pkg.name == ""
    then inl (unexpected_finding pkg.name)
    else elim rest [
      | inl e ↦ inl e
      | inr fs ↦ inr (finding_of "deps-vuln" (deps_message pkg (deps_groups pkg)) file 1 0 ∷ fs)
    ]

unfoldable pub result_findings :
    (String → String → Option String) → String → List DepsResult → Parsed
unfolding package_findings relative_to
result_findings rel root [] = inr []
result_findings rel root (r ∷ rs) =
    let rest = result_findings rel root rs in
    let located = relative_to rel root r.path in
    let file : String = elim (cut_prefix "./" located) [ none ↦ located | some f ↦ f ] in
    elim (package_findings file r.packages) [
      | inl e ↦ inl e
      | inr fs ↦ elim rest [ inl e ↦ inl e | inr more ↦ inr (fs ++ more) ]
    ]

-- DepsFindings
unfoldable pub deps_findings :
    (String → String → Option String)
    → (String → Option (List DepsResult))
    → String
    → ToolRun
    → String
    → Parsed
unfolding result_findings
deps_findings rel decode root run report =
    if eqb run.exit_code 128
    then inl no_lockfile
    else if not (eqb run.exit_code 0) && not (eqb run.exit_code 1)
    then inl (tool_exited run.exit_code (trim_space run.stderr))
    else elim (decode report) [
      | none ↦ inl unreadable_report
      | some results ↦ elim (result_findings rel root results) [
        | inl e ↦ inl e
        | inr fs ↦
            if not (eqb run.exit_code 0) && is_empty fs || eqb run.exit_code 0 && not (is_empty fs)
            then inl (exit_mismatch run.exit_code (length fs))
            else inr fs
      ]
    ]
