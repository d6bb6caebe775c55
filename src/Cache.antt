-- ===== src/Cache.antt =====
-- internal/verify/cache.go: CachedExecutor, which answers a check from the record of an earlier success
-- or executes it. The disk is a record, what the code asks of the host is `Outside`, and a call of
-- Execute is one step: calls come one after another, and nobody else writes to the records during one.
-- The text of an error of the host is left out of the messages that quote it.
pub mod Executor
pub mod Answered
pub mod Freshness
pub mod Calls
pub mod Restored
pub mod Recorded
pub mod Recall
mod Examples
use Prim.Native.Nat.{◌%◌}
use levenshtein.Base.{
  ℕ, zero, suc, ◌+◌, ◌-◌, ◌*◌, ◌≤◌, ◌<◌, Char, code, String, ◌≡◌, refl, sym, ap, ◌∙◌, ◌≢◌, ◌↔◌, ◌⊎◌,
  inl, inr, Bool, true, false, not, ◌&&◌, ◌||◌, Option, none, some, List, [], ◌∷◌, ◌++◌, map, arith,
  ◌==◌, eq_iff, eq_refl, ltb, leb, eqb, if◌then◌else◌, Bool-cases, Option-cases, Bool-ext,
  any-count_if, is_some, length, is_empty, any, all, keep, count_if, All, All-append, All-weaken,
  All-each, All-both, any_char, all_char, cut_prefix, has_prefix, cut_last, split, str_leb, min,
  max, Dict, lookup, sorted_keys, contains, join, concat,
}
use levenshtein.Config.{
  Status, passed, error, cancelled, is_passed, is_native, is_dagger, CheckKind,
}
use levenshtein.Config.Options.{artifacts, cacheable}
use levenshtein.Kinds.{always_fresh_reason, base_dependent_reason, shared_go_check}
use levenshtein.Plan.{PlannedCheck}
use levenshtein.Report.{
  Finding, CheckResult, CacheInfo, CacheStatus, disabled, unavailable, miss, hit, fresh, Details,
  absent, with_cache,
}

pub record Artifact : Type 0 where
  pub path : String
  pub mode : ℕ
  pub bytes : String

pub record Entry : Type 0 where
  pub key : String
  pub result : CheckResult
  pub artifacts : List Artifact

-- envelope: the layout of a record on disk, with the JSON of a value in it
pub record Envelope : Type 0 where
  pub checksum : String
  pub content : String

-- What writeRecord and readRecord use of encoding/json, of the hash behind `digest` and of `len`
pub record Codec : Type 0 where
  pub marshal_entry : Entry → Option String
  pub unmarshal_entry : String → Option Entry
  pub marshal_envelope : Envelope → Option String
  pub unmarshal_envelope : String → Option Envelope
  pub digest : String → String
  pub size : String → ℕ

-- A file of the source: regular, with its mode, or anything else.
pub data Node : Type 0 where
  regular : ℕ → String → Node
  special : Node

-- The texts of the records below results/, the keys with a .retry file, and the files of the source.
pub record Disk : Type 0 where
  pub results : Dict String
  pub retries : List String
  pub files : Dict Node

-- What one call of Execute is told from outside. A number counts the calls of an operation;
-- `enter_to_run` is the workspace of a run outside the cache.
pub record Outside : Type 0 where
  pub now : ℕ
  pub elapsed : ℕ
  pub cancelled_at : ℕ → Bool
  pub fingerprint : ℕ → Option String
  pub lock : ℕ → Bool
  pub enter : ℕ → Bool
  pub enter_to_run : Bool
  pub note : String
  pub source_opens : Bool
  pub output_path : String → Bool
  pub write_file : String → Bool
  pub opens_record : Bool
  pub remove_record : Bool
  pub write_retry : Bool
  pub writes_record : Bool
  pub remove_retry : Bool
  pub codec : Codec
  pub identity : Option String × Option String
  pub run : Bool → CheckResult
  pub files_after : Dict Node

pub record Request : Type 0 where
  pub rerun : Bool
  pub planned : PlannedCheck

unfoldable pub remove_key {ℓ} : {V : Type ℓ} → String → Dict V → Dict V
remove_key k [] = []
remove_key k ((j, v) ∷ d) = let rest = remove_key k d in if j == k then rest else (j, v) ∷ rest

unfoldable pub without : String → List String → List String
without k [] = []
without k (j ∷ ks) = let rest = without k ks in if j == k then rest else j ∷ rest

-- Cache.maxRecord
abbrev record_limit : ℕ
record_limit = 67108864

unfoldable pub max_record : ℕ → ℕ
max_record limit = if ltb 0 limit then limit else record_limit

-- The text that writeRecord writes, if the limit allows it
unfoldable pub write_record : Codec → ℕ → Entry → Option String
write_record codec limit e = elim (codec.marshal_entry e) [
  | none ↦ none
  | some content ↦
      let v : Envelope = record { checksum = codec.digest content; content = content } in
      elim (codec.marshal_envelope v) [
        | none ↦ none
        | some body ↦ if ltb limit (codec.size body) then none else some body
      ]
]

-- readRecord, from the text of a record
unfoldable pub read_record : Codec → ℕ → String → Option Entry
read_record codec limit body =
    if ltb limit (codec.size body) then none else elim (codec.unmarshal_envelope body) [
      | none ↦ none
      | some v ↦
          if v.checksum == codec.digest v.content then codec.unmarshal_entry v.content else none
    ]

-- notes: the reasons that are there, joined
unfoldable pub notes : List String → String
notes [] = ""
notes (s ∷ ss) =
    let rest = notes ss in
    if s == "" then rest else if rest == "" then s else concat s (concat "; " rest)

abbrev pub paths_match : List Artifact → List String → Bool
paths_match [] [] = true
paths_match (a ∷ as_) (p ∷ ps) = a.path == p && paths_match as_ ps
paths_match as_ ps = false

-- mode & 0777
abbrev pub permissions : ℕ → ℕ
permissions mode = mode % 512

-- atomicWriteRoot, for each artifact until one fails; the files written before it stay.
unfoldable pub restore : (String → Bool) → List Artifact → Dict Node → Bool × Dict Node
restore writes [] files = (true, files)
restore writes (a ∷ as_) files =
    if writes a.path
    then restore writes as_ ((a.path, regular (permissions a.mode) a.bytes) ∷ files)
    else (false, files)

-- The artifacts of save, in order; `none` where one is missing, no regular file or outside.
unfoldable pub collect : (String → Bool) → Dict Node → List String → Option (List Artifact)
collect allowed files [] = some []
collect allowed files (p ∷ ps) =
    let rest = collect allowed files ps in
    if not (allowed p) then none else elim (lookup p files) [
      | none ↦ none
      | some special ↦ none
      | some (regular mode bytes) ↦ elim rest [
        | none ↦ none
        | some more ↦ some (record { path = p; mode = permissions mode; bytes = bytes } ∷ more)
      ]
    ]

-- Cache.load: the result, if the record has one, and the files with the artifacts it restored
unfoldable pub load : Outside → ℕ → Request → String → Disk → Option CheckResult × Dict Node
unfolding restore max_record read_record
load out limit req key disk = elim (lookup key disk.results) [
  | none ↦ (none, disk.files)
  | some body ↦
      if not out.opens_record
      then (none, disk.files)
      else elim (read_record out.codec (max_record limit) body) [
        | none ↦ (none, disk.files)
        | some e ↦
            let paths = artifacts req.planned.check in
            if not (e.key == key)
              || (not (is_passed e.result.status)
                  || (not (is_some e.result.verified_at)
                      || not (eqb (length e.artifacts) (length paths))))
            then (none, disk.files)
            else if not (paths_match e.artifacts paths)
                || (not (all out.output_path paths) || not out.source_opens)
            then (none, disk.files)
            else (let (complete, files) = restore out.write_file e.artifacts disk.files in
                (if complete then some e.result else none, files))
      ]
]

-- Cache.save: the text of the record, if it is written
unfoldable pub save : Outside → ℕ → Request → String → CheckResult → Dict Node → Option String
unfolding collect max_record write_record
save out limit req key result files =
    if not out.source_opens
    then none
    else elim (collect out.output_path files (artifacts req.planned.check)) [
      | none ↦ none
      | some as_ ↦
          let e : Entry = record { key = key; result = result; artifacts = as_ } in
          elim (write_record out.codec (max_record limit) e) [
            | none ↦ none
            | some body ↦ if out.writes_record then some body else none
          ]
    ]
