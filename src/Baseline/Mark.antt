-- ===== src/Baseline/Mark.antt =====
-- internal/verify/baseline.go: which entries a completed check judges, and how it marks the findings
-- that they record.
use levenshtein.Base.{
  ℕ, suc, ◌-◌, String, Bool, true, false, not, ◌&&◌, ◌||◌, List, [], ◌∷◌, ◌++◌, ◌==◌, ltb,
  if◌then◌else◌, is_empty, any,
}
use levenshtein.Config.{is_passed, is_failed, is_native, go_lint}
use levenshtein.Config.Options.{is_community_pattern, core_lint_checks, community_lint_checks}
use levenshtein.Plan.{PlannedCheck}
use levenshtein.Patterns.{allowed, community_allowed, pattern_namespace, codes, same}
use levenshtein.RuleModules.{PlannedRuleModule}
use levenshtein.Report.{Finding, detail_findings, rule_modules_skipped, Warning, CheckResult}
use levenshtein.Baseline.Entry.{BaselineEntry, BaselineKey, key_eq, entry_key, finding_key}

abbrev pub baseline_stale_code : String
baseline_stale_code = "baseline-stale"

unfoldable pub completed : CheckResult → Bool
completed result = is_passed result.status || is_failed result.status

all_selects : List PlannedRuleModule → List String
all_selects [] = []
all_selects (m ∷ ms) = m.select ++ all_selects ms

-- couldReport
unfoldable pub could_report : PlannedCheck → Bool → String → Bool
unfolding all_selects
could_report check skipped rule =
    if not (check.check.kind == go_lint)
    then true
    else if not (is_community_pattern rule)
    then allowed ("all" ∷ core_lint_checks check.check) rule
    else if is_empty check.rule_modules || skipped
    then false
    else if same (pattern_namespace rule) (codes "lvrules")
    then true
    else community_allowed (all_selects check.rule_modules ++ community_lint_checks check.check)
        rule

abbrev is_skipped : Warning → Bool
is_skipped w = elim w.kind [ rule_modules_skipped ↦ true | _ ↦ false ]

abbrev pub reports : CheckResult → String → Bool
reports result rule = any (λ (f : Finding). f.code == rule) (detail_findings result.details)

-- covers
unfoldable pub covers : PlannedCheck → CheckResult → BaselineEntry → Bool
covers check result entry =
    check.check.kind == entry.kind
    && (check.target.dir == entry.dir
        && (reports result entry.code
            || could_report check (any is_skipped result.warnings) entry.code))

-- produces
unfoldable pub produces : PlannedCheck → BaselineEntry → Bool
produces check entry =
    check.check.kind == entry.kind
    && (check.target.dir == entry.dir
        && could_report check (is_native check.environment.executor) entry.code)

-- A count for each key: the Go maps from a key to a number, with 0 for a missing key.
abbrev pub Counts : Type 0
Counts = BaselineKey → ℕ

unfoldable pub set_count : Counts → BaselineKey → ℕ → Counts
set_count left key n k = if key_eq key k then n else left k

-- The counts that a check starts from: those of the entries that it covers, in file order.
unfoldable pub allowance_from : Counts → PlannedCheck → CheckResult → List BaselineEntry → Counts
allowance_from left check result [] = left
allowance_from left check result (e ∷ es) =
    allowance_from (if covers check result e then set_count left (entry_key e) e.count else left)
      check result es

unfoldable pub allowance : PlannedCheck → CheckResult → List BaselineEntry → Counts
unfolding allowance_from
allowance check result entries = allowance_from (λ _. 0) check result entries

-- A finding that an entry can record: neither advisory nor a stale entry itself.
abbrev pub recordable : Finding → Bool
recordable f = not (f.code == baseline_stale_code) && not f.advisory

abbrev pub with_baselined : Finding → Finding
with_baselined f = record f { baselined = true }

-- Whether an entry is left for a finding, and what is left after it.
unfoldable pub excused : PlannedCheck → Counts → Finding → Bool
excused check left f = recordable f && ltb 0 (left (finding_key check f))

unfoldable pub spend : PlannedCheck → Counts → Finding → Counts
unfolding excused
spend check left f =
    let key = finding_key check f in
    if excused check left f then set_count left key (left key - 1) else left

-- The loop over the findings: the findings with their marks, what is left, and how many were marked.
unfoldable pub mark : PlannedCheck → Counts → List Finding → List Finding × Counts × ℕ
mark check left [] = ([], left, 0)
mark check left (f ∷ fs) =
    let hit = excused check left f in
    let (rest, left', n) = mark check (spend check left f) fs in
    ((if hit then with_baselined f else f) ∷ rest, left', if hit then suc n else n)
