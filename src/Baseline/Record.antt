-- ===== src/Baseline/Record.antt =====
-- internal/verify/baseline.go: Record, which replaces the baseline by the findings of a run. A Go map
-- from a key to a count is a list of pairs.
use levenshtein.Base.{
  ℕ, suc, ◌+◌, ◌-◌, String, Bool, true, not, ◌&&◌, ◌||◌, Option, none, some, List, [], ◌∷◌, map,
  ◌==◌, if◌then◌else◌, is_empty, any, all, str_leb, max,
}
use levenshtein.Config.{is_failed, Config}
use levenshtein.Kinds.{baseline_kind}
use levenshtein.Plan.{PlannedCheck}
use levenshtein.Report.{Finding, detail_findings, CheckResult, planned_check}
use levenshtein.Baseline.Entry.{BaselineEntry, BaselineKey, key_eq, entry_key, finding_key}
use levenshtein.Baseline.Mark.{completed, covers, recordable}
use levenshtein.Baseline.Messages.{Baseline, judged_entries}
use levenshtein.Baseline.Apply.{Report, is_orphan}

pub record BaselineChange : Type 0 where
  pub added : ℕ
  pub removed : ℕ
  pub unrecorded : List String

abbrev pub Tally : Type 0
Tally = List (BaselineKey × ℕ)

unfoldable pub tally_of : BaselineKey → Tally → ℕ
tally_of k [] = 0
tally_of k ((j, n) ∷ t) = let rest = tally_of k t in if key_eq j k then n else rest

-- t[k] = f(t[k]), where a missing key reads as 0
unfoldable pub upsert : (ℕ → ℕ) → BaselineKey → Tally → Tally
upsert f k [] = (k, f 0) ∷ []
upsert f k ((j, n) ∷ t) =
    let rest = upsert f k t in if key_eq j k then (j, f n) ∷ t else (j, n) ∷ rest

-- The findings of one check, counted by key.
unfoldable pub local_tally : PlannedCheck → Tally → List Finding → Tally
local_tally check t [] = t
local_tally check t (f ∷ fs) =
    local_tally check (if recordable f then upsert suc (finding_key check f) t else t) fs

unfoldable pub raise_all : Tally → Tally → Tally
raise_all [] counts = counts
raise_all ((k, n) ∷ t) counts = raise_all t (upsert (λ old. max old n) k counts)

-- A result whose findings are recorded, with its check.
unfoldable pub judges : List PlannedCheck → List CheckResult → List (PlannedCheck × CheckResult)
judges checks [] = []
judges checks (r ∷ rs) =
    let rest = judges checks rs in
    elim (planned_check checks r.id) [
      | none ↦ rest
      | some check ↦ if baseline_kind check.check.kind then (check, r) ∷ rest else rest
    ]

-- The counts after the loop over the results.
unfoldable pub judge_counts : Tally → List (PlannedCheck × CheckResult) → Tally
judge_counts counts [] = counts
judge_counts counts ((check, r) ∷ js) =
    judge_counts (raise_all (local_tally check [] (detail_findings r.details)) counts) js

abbrev pub covered_by : List (PlannedCheck × CheckResult) → BaselineEntry → Bool
covered_by js e = any (λ (j : PlannedCheck × CheckResult). covers j.0 j.1 e) js

-- The entries that no judge covers and that are no orphans keep their counts.
unfoldable pub retain :
    Report → Config → List (PlannedCheck × CheckResult) → Tally → List BaselineEntry → Tally
retain report cfg js counts [] = counts
retain report cfg js counts (e ∷ es) =
    retain report cfg js
      (if not (is_orphan report cfg e) && not (covered_by js e)
        then upsert (λ _. e.count) (entry_key e) counts
        else counts)
      es

unfoldable pub before_tally : Tally → List BaselineEntry → Tally
before_tally t [] = t
before_tally t (e ∷ es) = before_tally (upsert (λ _. e.count) (entry_key e) t) es

unfoldable pub entry_of : BaselineKey × ℕ → BaselineEntry
entry_of (k, n) = record {
  kind = k.kind;
  dir = k.dir;
  file = k.file;
  code = k.code;
  message = k.message;
  count = n;
}

-- compareEntries
abbrev then_leb : String → String → Bool → Bool
then_leb a b next = if a == b then next else str_leb a b

abbrev pub entry_leb : BaselineEntry → BaselineEntry → Bool
entry_leb a b = then_leb a.kind b.kind (
    then_leb a.dir b.dir
      (then_leb a.file b.file (then_leb a.code b.code (str_leb a.message b.message))))

unfoldable pub insert_entry : BaselineEntry → List BaselineEntry → List BaselineEntry
insert_entry e [] = e ∷ []
insert_entry e (x ∷ xs) =
    let rest = insert_entry e xs in if entry_leb e x then e ∷ x ∷ xs else x ∷ rest

unfoldable pub sort_entries : List BaselineEntry → List BaselineEntry
sort_entries [] = []
sort_entries (e ∷ es) = insert_entry e (sort_entries es)

-- The sum over one tally of what it has beyond another.
unfoldable pub excess : Tally → Tally → ℕ
excess [] other = 0
excess ((k, n) ∷ t) other = (n - tally_of k other) + excess t other

unfoldable pub unrecorded : List PlannedCheck → List CheckResult → List String
unrecorded checks [] = []
unrecorded checks (r ∷ rs) =
    let rest = unrecorded checks rs in
    let plain : Bool = elim (planned_check checks r.id) [
      | none ↦ true
      | some check ↦ not (baseline_kind check.check.kind)
    ] in
    if plain && is_failed r.status then r.id ∷ rest else rest

abbrev pub final_counts : Baseline → Report → Config → Tally
final_counts b report cfg =
    let js = judges report.plan.checks report.results in
    retain report cfg js (judge_counts [] js) (judged_entries b)

-- Record; `none` is the refusal of a run in which a check reached no verdict. An entry that is recorded
-- has no line yet, for which `line` falls back to 1.
unfoldable pub record_run : Baseline → Report → Config → Option (Baseline × BaselineChange)
record_run b report cfg =
    let counts = final_counts b report cfg in
    let before = before_tally [] (judged_entries b) in
    if not (all completed report.results) || is_empty report.results
    then none
    else some (
      record {
        path = b.path;
        entries = map (λ (e : BaselineEntry). (1, e)) (sort_entries (map entry_of counts));
      },
      record {
        added = excess counts before;
        removed = excess before counts;
        unrecorded = unrecorded report.plan.checks report.results;
      },
    )
