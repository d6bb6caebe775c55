-- ===== src/Baseline/Entry.antt =====
-- internal/verify/baseline.go: entries, their keys, and the message that a key holds.
use levenshtein.Base.{
  ℕ, code, String, ◌≡◌, refl, Bool, true, false, not, ◌&&◌, ◌||◌, Option, none, some, List, [], ◌∷◌,
  ◌==◌, leb, eqb, if◌then◌else◌, any, concat,
}
use levenshtein.Config.{CheckKind}
use levenshtein.Words.{is_digit}
use levenshtein.Paths.{relative}
use levenshtein.Kinds.{baseline_kind}
use levenshtein.Plan.{PlannedCheck}
use levenshtein.Report.{Finding}

-- How far the positions of `.go:12:3` are dropped: `copied n` is after n letters of `.go`, `first` and
-- `second` are inside the two numbers.
pub data Mode : Type 0 where
  copied : ℕ → Mode
  first second : Mode

abbrev letters : Mode → ℕ
letters (copied n) = n
letters first = 0
letters second = 0

-- The letters of `.go` matched after one more character.
abbrev matched_go : ℕ → ℕ → ℕ
matched_go n c =
    if eqb c b'.'
    then 1
    else if eqb n 1 && eqb c b'g'
    then 2
    else if eqb n 2 && eqb c b'o'
    then 3
    else 0

abbrev starts_digit : String → Bool
starts_digit String.[] = false
starts_digit (String.◌∷◌ c s) = is_digit (code c)

-- The mode in which a dropped character leaves the scan, or `none` if the character is kept. `more` says
-- whether a digit follows it.
abbrev drops : Mode → ℕ → Bool → Option Mode
drops (copied n) c more = if eqb n 3 && (eqb c b':' && more) then some first else none
drops first c more =
    if is_digit c then some first else if eqb c b':' && more then some second else none
drops second c more = if is_digit c then some second else none

strip : Mode → String → String
strip mode String.[] = String.[]
strip mode (String.◌∷◌ c s) = elim (drops mode (code c) (starts_digit s)) [
  | some next ↦ strip next s
  | none ↦ String.◌∷◌ c (strip (copied (matched_go (letters mode) (code c))) s)
]

-- goPosition.ReplaceAllString(message, ".go")
unfoldable pub without_positions : String → String
unfolding strip
without_positions message = strip (copied 0) message

abbrev is_space : ℕ → Bool
is_space c =
    (leb 9 c && leb c 13)
    || (eqb c 32
        || (eqb c 0x85
            || (eqb c 0xa0
                || (eqb c 0x1680
                    || ((leb 0x2000 c && leb c 0x200a)
                        || (eqb c 0x2028
                            || (eqb c 0x2029
                                || (eqb c 0x202f || (eqb c 0x205f || eqb c 0x3000)))))))))

-- strings.Join(strings.Fields(s), " "): `started` is after the first field, `gap` after a space.
squeeze : Bool → Bool → String → String
squeeze started gap String.[] = String.[]
squeeze started gap (String.◌∷◌ c s) = elim (is_space (code c)) [
  | true ↦ squeeze started true s
  | false ↦
      if started && gap
      then concat " " (String.◌∷◌ c (squeeze true false s))
      else String.◌∷◌ c (squeeze true false s)
]

unfoldable pub normalize_message : String → String
unfolding without_positions squeeze
normalize_message message = squeeze false false (without_positions message)

pub record BaselineEntry : Type 0 where
  pub kind : CheckKind
  pub dir : String
  pub file : String
  pub code : String
  pub message : String
  pub count : ℕ

pub record BaselineKey : Type 0 where
  pub kind : CheckKind
  pub dir : String
  pub file : String
  pub code : String
  pub message : String

-- Go compares keys field by field.
unfoldable pub key_eq : BaselineKey → BaselineKey → Bool
key_eq a b =
    a.kind == b.kind
    && (a.dir == b.dir && (a.file == b.file && (a.code == b.code && a.message == b.message)))

unfoldable pub entry_key : BaselineEntry → BaselineKey
entry_key e = record {
  kind = e.kind;
  dir = e.dir;
  file = e.file;
  code = e.code;
  message = normalize_message e.message;
}

unfoldable pub finding_key : PlannedCheck → Finding → BaselineKey
finding_key check f = record {
  kind = check.check.kind;
  dir = check.target.dir;
  file = f.location.file;
  code = f.code;
  message = normalize_message f.message;
}

-- validateEntry
unfoldable pub validate_entry : BaselineEntry → Bool
validate_entry e =
    baseline_kind e.kind
    && (relative e.dir
        && (relative e.file
            && (not (e.file == ".")
                && (not (e.code == "")
                    && (not (normalize_message e.message == "") && leb 1 e.count)))))

-- The loop of parseBaseline over the decoded entries, with the keys that earlier ones have.
unfoldable pub parse_entries : List BaselineKey → List BaselineEntry → Bool
parse_entries seen [] = true
parse_entries seen (e ∷ es) =
    validate_entry e
    && (not (any (key_eq (entry_key e)) seen) && parse_entries (entry_key e ∷ seen) es)

tests :
    (normalize_message "x declared at a.go:12:3  too" ≡ "x declared at a.go too")
    × (normalize_message " a.go:7, b.go:  c" ≡ "a.go, b.go: c")
    × (normalize_message "a.go:1:2:3" ≡ "a.go:3")
    × (normalize_message "a.go:3" ≡ "a.go")
unfolding normalize_message
tests = (refl, refl, refl, refl)
