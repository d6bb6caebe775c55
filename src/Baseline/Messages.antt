-- ===== src/Baseline/Messages.antt =====
-- internal/verify/baseline.go: the findings that a baseline itself reports, at the line of an entry.
use levenshtein.Base.{
  ℕ, zero, suc, String, false, List, [], ◌∷◌, map, ltb, eqb, if◌then◌else◌, concat,
}
use levenshtein.Report.{Finding}
use levenshtein.Baseline.Entry.{BaselineEntry}
use Prim.Native.Nat.{◌/◌, ◌%◌}
use levenshtein.Baseline.Mark.{baseline_stale_code}

-- The baseline as it was read: its entries, each with the line it starts on.
pub record Baseline : Type 0 where
  pub path : String
  pub entries : List (ℕ × BaselineEntry)

abbrev pub judged_entries : Baseline → List BaselineEntry
judged_entries b = map (λ (e : ℕ × BaselineEntry). e.1) b.entries

-- fmt's %d
digit : ℕ → String
digit n = elim n [
  | zero ↦ "0"
  | suc zero ↦ "1"
  | suc (suc zero) ↦ "2"
  | suc (suc (suc zero)) ↦ "3"
  | suc (suc (suc (suc zero))) ↦ "4"
  | suc (suc (suc (suc (suc zero)))) ↦ "5"
  | suc (suc (suc (suc (suc (suc zero))))) ↦ "6"
  | suc (suc (suc (suc (suc (suc (suc zero)))))) ↦ "7"
  | suc (suc (suc (suc (suc (suc (suc (suc zero))))))) ↦ "8"
  | _ ↦ "9"
]

decimal_from : ℕ → ℕ → String → String
unfolding digit
decimal_from zero n rest = rest
decimal_from (suc fuel) n rest =
    let more = decimal_from fuel (n / 10) (concat (digit (n % 10)) rest) in
    if ltb n 10 then concat (digit n) rest else more

-- A number has at most as many digits as it counts, and one for 0.
unfoldable pub decimal : ℕ → String
unfolding decimal_from
decimal n = decimal_from (suc n) n ""

abbrev concats : List String → String
concats [] = ""
concats (s ∷ ss) = concat s (concats ss)

abbrev finding_at : String → String → ℕ → Finding
finding_at message file line = record {
  code = baseline_stale_code;
  message = message;
  location = record { file = file; line = line; column = 0 };
  source = "";
  url = "";
  advisory = false;
  hint = "";
  baselined = false;
}

unfoldable pub stale_finding : Baseline → ℕ × BaselineEntry → ℕ → Finding
stale_finding b (line, e) n =
    finding_at
      (concats (
        decimal n
        ∷ " of "
        ∷ decimal e.count
        ∷ " baselined "
        ∷ e.code
        ∷ " findings in "
        ∷ e.file
        ∷ " no longer occur: "
        ∷ e.message
        ∷ []))
      b.path line

unfoldable pub orphan_finding : Baseline → String → ℕ × BaselineEntry → Finding
orphan_finding b run (line, e) =
    finding_at
      (concats (
        "no configured check can report the "
        ∷ decimal e.count
        ∷ " baselined "
        ∷ e.kind
        ∷ " "
        ∷ e.code
        ∷ " "
        ∷ (if eqb e.count 1 then "finding" else "findings")
        ∷ " in "
        ∷ e.file
        ∷ " (dir \""
        ∷ e.dir
        ∷ "\"), so this entry can never match; delete it, or run verify "
        ∷ run
        ∷ " --write-baseline to drop it: "
        ∷ e.message
        ∷ []))
      b.path line
