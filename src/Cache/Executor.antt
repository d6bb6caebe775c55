-- ===== src/Cache/Executor.antt =====
-- internal/verify/cache.go: Execute of CachedExecutor, and execute, which it ends in when it has no record
-- to answer from.
use levenshtein.Base.{
  ℕ, zero, suc, ◌+◌, String, Bool, true, false, not, ◌&&◌, ◌||◌, Option, none, some, [], ◌∷◌, ◌==◌,
  if◌then◌else◌, is_empty, contains,
}
use levenshtein.Config.{Status, error, cancelled, is_passed, is_native, is_dagger}
use levenshtein.Config.Options.{artifacts, cacheable}
use levenshtein.Kinds.{always_fresh_reason, base_dependent_reason, shared_go_check}
use levenshtein.Report.{
  CheckResult, CacheInfo, CacheStatus, unstated, disabled, unavailable, miss, hit, fresh, absent,
  with_cache,
}
use levenshtein.Cache.{Disk, Outside, Request, remove_key, without, notes, load, save}

abbrev pub blank_result : Status → String → CheckResult
blank_result status message = record {
  id = "";
  implementation = none;
  toolchain = none;
  status = status;
  duration_ms = 0;
  verified_at = none;
  stdout = "";
  stderr = "";
  error = message;
  cache = record { status = unstated; key = ""; reason = ""; lookup_ms = 0 };
  stages = [];
  execution_ms = 0;
  details = absent;
  warnings = [];
}

-- executeOnce
unfoldable pub execute_once : Outside → Bool → CheckResult
execute_once out rerun = record (out.run rerun) {
  implementation = out.identity.0;
  toolchain = out.identity.1;
}

abbrev pub info : CacheStatus → String → String → ℕ → CacheInfo
info status key reason ms = record { status = status; key = key; reason = reason; lookup_ms = ms }

-- CachedExecutor.run, outside the cache
unfoldable pub run_uncached : Outside → Request → Bool → Disk → CheckResult × Disk
unfolding execute_once
run_uncached out req rerun disk =
    if is_native req.planned.environment.executor && not (out.enter_to_run)
    then (
      if out.cancelled_at 2
          then blank_result cancelled "context canceled"
          else blank_result error "cannot lock native workspace",
      disk,
    )
    else (execute_once out rerun, record disk { files = out.files_after })

-- The end of execute: what is recorded after a run. `n` is the number of the next fingerprint.
unfoldable pub publish :
    Outside
    → ℕ
    → Request
    → String
    → String
    → CacheStatus
    → ℕ
    → CheckResult
    → Disk
    → CheckResult × Disk
unfolding notes save
publish out limit req key reason status n result disk =
    if not (is_passed result.status)
    then (with_cache result (info status key reason out.elapsed), disk)
    else if not (elim (out.fingerprint n) [ none ↦ false | some after ↦ after == key ])
    then (
      with_cache result (
          info status key
            (notes (reason ∷ "inputs changed during execution; result was not cached" ∷ []))
            out.elapsed),
      disk,
    )
    else elim (save out limit req key result disk.files) [
      | none ↦ (
        with_cache result
            (info status key (notes (reason ∷ "cache write unavailable" ∷ [])) out.elapsed),
        disk,
      )
      | some body ↦
          let saved = record disk { results = (key, body) ∷ remove_key key disk.results } in
          if out.remove_retry
          then (
            with_cache result (info status key reason out.elapsed),
            record saved { retries = without key saved.retries },
          )
          else (
            with_cache result (
                info status key (notes (reason ∷ "freshness marker cleanup unavailable" ∷ []))
                  out.elapsed),
            saved,
          )
    ]

-- The result that execute records: the outcome with its times.
unfoldable pub timed : Outside → CheckResult → String → String → CacheStatus → CheckResult
timed out outcome key reason status = record outcome {
  verified_at = some out.now;
  cache = info status key reason out.elapsed;
  execution_ms = out.elapsed;
}

-- execute
unfoldable pub execute :
    Outside → ℕ → Request → Bool → String → String → ℕ → Disk → CheckResult × Disk
unfolding publish execute_once timed remove_key without
execute out limit req rerun key reason n disk =
    let status = if rerun then fresh else miss in
    if not out.remove_record
    then (blank_result error "cannot invalidate old cached result", disk)
    else (let invalidated = record disk { results = remove_key key disk.results } in
        if not out.write_retry
        then (blank_result error "cannot record verification freshness", invalidated)
        else (let marked = record invalidated {
          retries = key ∷ without key invalidated.retries;
          files = out.files_after;
        } in
            publish out limit req key reason status n
              (timed out (execute_once out rerun) key reason status) marked))

-- lockedFingerprint: the key whose lock is held and the number of the next fingerprint, or why not
pub data Locked : Type 0 where
  held : String → ℕ → Locked
  gave_up : String → Locked

unfoldable pub locked_fingerprint : Outside → Bool → ℕ → ℕ → Locked
locked_fingerprint out gated zero n = gave_up "inputs kept changing during cache lookup"
locked_fingerprint out gated (suc rounds) n =
    let again = locked_fingerprint out gated rounds (n + 2) in
    elim (out.fingerprint n) [
      | none ↦ gave_up "cannot fingerprint the inputs"
      | some key ↦
          if not (out.lock n)
          then gave_up "cannot lock the result"
          else if gated && not (out.enter n)
          then gave_up "cannot enter the workspace"
          else elim (out.fingerprint (suc n)) [
            | none ↦ gave_up "cannot fingerprint the inputs"
            | some current ↦ if current == key then held key (n + 2) else again
          ]
    ]

abbrev retry_note : String
retry_note =
    "previous execution did not publish a successful result; bypassing underlying verdict caches"

-- Whether a lookup runs the check afresh: the request asks for it, or the last run left its marker, which Stat
-- finds.
abbrev pub afresh : Request → String → Disk → Bool
afresh req key disk = req.rerun || contains key disk.retries

abbrev pub lookup_note : Outside → String → Disk → String
lookup_note out key disk =
    if contains key disk.retries then notes (out.note ∷ retry_note ∷ []) else out.note

-- The loop of Execute; `none` where the fuel does not suffice.
unfoldable pub lookup_loop :
    ℕ → Outside → ℕ → Request → ℕ → Bool → Disk → Option (CheckResult × Disk)
unfolding run_uncached
lookup_loop zero out limit req n gated disk = none
lookup_loop (suc fuel) out limit req n gated disk = elim (locked_fingerprint out gated 3 n) [
  | gave_up reason ↦
      if out.cancelled_at 1
      then some (blank_result cancelled "context canceled", disk)
      else (let (result, disk') = run_uncached out req req.rerun disk in
          some (with_cache result (info unavailable "" reason 0), disk'))
  | held key next ↦
      let (loaded, files) =
        if afresh req key disk then (none, disk.files) else load out limit req key disk in
      let disk' = record disk { files = files } in
      elim loaded [
        | some result ↦
            some (with_cache result (info hit key (lookup_note out key disk) out.elapsed), disk')
        | none ↦
            if gated || not (is_native req.planned.environment.executor)
            then some (
                execute out limit req (afresh req key disk) key (lookup_note out key disk) next
                  disk')
            else lookup_loop fuel out limit req next true disk'
      ]
]

-- Whether a record may answer for the check.
unfoldable pub eligible : Request → Bool
eligible req =
    cacheable req.planned.check
    || (is_dagger req.planned.environment.executor || shared_go_check req.planned.check.kind)

-- A run whose result no record keeps.
unfoldable pub run_plain : Outside → Request → Bool → String → Disk → CheckResult × Disk
unfolding run_uncached
run_plain out req rerun reason disk =
    let (result, disk') = run_uncached out req rerun disk in
    (with_cache result (info disabled "" reason 0), disk')

-- Execute; a cache is its limit, or `none` without one.
unfoldable pub execute_cached : Outside → Option ℕ → Request → Disk → Option (CheckResult × Disk)
execute_cached out cache req disk =
    let kind = req.planned.check.kind in
    let native = is_native req.planned.environment.executor in
    if out.cancelled_at 0
    then some (blank_result cancelled "context canceled", disk)
    else if not (always_fresh_reason kind == "")
    then some (run_plain out req true (always_fresh_reason kind) disk)
    else if not (base_dependent_reason kind == "")
    then some (run_plain out req req.rerun (base_dependent_reason kind) disk)
    else elim cache [
      | none ↦ some (run_plain out req req.rerun "" disk)
      | some limit ↦
          if not (eligible req)
          then some (run_plain out req req.rerun "" disk)
          else lookup_loop 2 out limit req 0
              (native && (req.rerun || not (is_empty (artifacts req.planned.check)))) disk
    ]
