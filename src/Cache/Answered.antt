-- ===== src/Cache/Answered.antt =====
-- internal/verify/cache.go: the three ways in which Execute comes by its result.
use mathlib.Core.Path.{subst}
use levenshtein.Base.{
  ℕ, zero, suc, ◌+◌, String, ◌≡◌, refl, ◌≢◌, ◌⊎◌, inl, inr, Bool, true, false, not, ◌&&◌, ◌||◌,
  Option, none, some, arith, ◌==◌, eq_iff, if◌then◌else◌, Bool-cases, Option-cases, is_empty, Dict,
  contains,
}
use levenshtein.Config.{cancelled, is_native}
use levenshtein.Config.Options.{artifacts}
use levenshtein.Kinds.{always_fresh_reason, base_dependent_reason}
use levenshtein.Report.{CheckResult, CacheInfo, disabled, unavailable, hit, with_cache}
use levenshtein.Cache.{Disk, Outside, Request, Node, load}
use levenshtein.Cache.Executor.{
  blank_result, info, run_uncached, execute, Locked, held, gave_up, locked_fingerprint, afresh,
  lookup_note, lookup_loop, eligible, run_plain, execute_cached,
}

some_inj {ℓ} : {A : Type ℓ} {x y : A} → some x ≡ some y → x ≡ y
some_inj h = cc h

pub locked_cases :
    (l : Locked)
    → ((reason : String) × (l ≡ gave_up reason))
      ⊎ ((key : String) × (next : ℕ) × (l ≡ held key next))
locked_cases (gave_up reason) = inl (reason, refl)
locked_cases (held key next) = inr (key, next, refl)

module _ (out : Outside) (limit : ℕ) (req : Request) (disk : Disk) where
  -- Neither the records nor the markers change, and the result carries no key.
  abbrev Unrecorded : CheckResult × Disk → Type 0
  Unrecorded (r, d) =
      (r.cache.key ≡ "")
      × (r.cache.status ≢ hit)
      × (d.results ≡ disk.results)
      × (d.retries ≡ disk.retries)

  -- The record of a key answers, under a fingerprint that two readings confirm.
  abbrev Recalled : CheckResult × Disk → Type 0
  Recalled (r, d) =
      (key : String) × (result : CheckResult) × (start : Dict Node) × (files : Dict Node) × (n : ℕ)
      × (req.rerun ≡ false)
      × (contains key disk.retries ≡ false)
      × (out.fingerprint n ≡ some key)
      × (out.fingerprint (suc n) ≡ some key)
      × (load out limit req key (record disk { files = start }) ≡ (some result, files))
      × (r ≡ with_cache result (info hit key (lookup_note out key disk) out.elapsed))
      × (d ≡ record disk { files = files })

  -- The check is executed under a key; a record that did not load may have restored some files.
  abbrev Executed : CheckResult × Disk → Type 0
  Executed (r, d) =
      (key : String) × (reason : String) × (n : ℕ) × (files : Dict Node) × (execute out limit req
          (afresh req key disk) key reason n (record disk { files = files })
        ≡ (r, d))

  abbrev pub Answered : CheckResult × Disk → Type 0
  Answered a = Unrecorded a ⊎ (Recalled a ⊎ Executed a)

  run_uncached_disk :
      (rerun : Bool) (info_ : CacheInfo) (files : Dict Node)
      → info_.key ≡ ""
      → info_.status ≢ hit
      → Unrecorded (
        with_cache (run_uncached out req rerun (record disk { files = files })).0 info_,
        (run_uncached out req rerun (record disk { files = files })).1,
      )
  unfolding run_uncached with_cache
  run_uncached_disk rerun info_ files k s =
      (ground arith, λ e. s (ground arith), ground arith, ground arith)

  run_plain-Unrecorded :
      (rerun : Bool) (reason : String) → Unrecorded (run_plain out req rerun reason disk)
  unfolding run_plain
  run_plain-Unrecorded rerun reason =
      run_uncached_disk rerun (info disabled "" reason 0) disk.files refl (λ e. cc e)

  -- A key that is held is the fingerprint of two readings in a row.
  locked_fingerprint-held :
      (gated : Bool) (rounds n : ℕ) (key : String) (next : ℕ)
      → locked_fingerprint out gated rounds n ≡ held key next
      → (m : ℕ) × (out.fingerprint m ≡ some key) × (out.fingerprint (suc m) ≡ some key)
  unfolding locked_fingerprint
  locked_fingerprint-held gated zero n key next h = cc h
  locked_fingerprint-held gated (suc rounds) n key next h =
      elim (Option-cases (out.fingerprint n)) [
        | inl lost ↦ absurd (ground arith)
        | inr (k, e) ↦ elim (Option-cases (out.fingerprint (suc n))) [
          | inl lost ↦ absurd (ground arith)
          | inr (k', e') ↦ elim (Bool-cases (k' == k)) [
            | inl stable ↦ (n, ground (arith, eq_iff k' k), ground (arith, eq_iff k' k))
            | inr moved ↦ locked_fingerprint-held gated rounds (n + 2) key next (ground arith)
          ]
        ]
      ]

  -- The turn of the loop that finds a key.
  found_loaded :
      (key : String) (next n : ℕ) (gated : Bool) (start : Dict Node)
      (again : Dict Node → Option (CheckResult × Disk)) (a : CheckResult × Disk)
      → (out.fingerprint n ≡ some key) × (out.fingerprint (suc n) ≡ some key)
      → ((fs : Dict Node) → again fs ≡ some a → Answered a)
      → (let (loaded, files) =
            if afresh req key disk
            then (none, start)
            else load out limit req key (record disk { files = start }) in
          elim loaded [
            | some result ↦ some (
              with_cache result (info hit key (lookup_note out key disk) out.elapsed),
              record disk { files = files },
            )
            | none ↦
                if gated || not (is_native req.planned.environment.executor)
                then some (
                    execute out limit req
                      (afresh req key disk)
                      key
                      (lookup_note out key disk)
                      next
                      (record disk { files = files }))
                else again files
          ])
        ≡ some a
      → Answered a
  found_loaded key next n gated start again a confirmed more h =
      elim (Bool-cases (afresh req key disk)) [
        | inl anew ↦ elim (Bool-cases (gated || not (is_native req.planned.environment.executor))) [
          | inl now_ ↦
              inr (inr (key, lookup_note out key disk, next, start, some_inj (ground arith)))
          | inr later ↦ more start (ground arith)
        ]
        | inr kept ↦
            let files : Dict Node = (load out limit req key (record disk { files = start })).1 in
            elim (Option-cases (load out limit req key (record disk { files = start })).0) [
              | inl missed ↦
                  elim (Bool-cases (gated || not (is_native req.planned.environment.executor))) [
                    | inl now_ ↦
                        inr (
                          inr (key, lookup_note out key disk, next, files, some_inj (ground arith)))
                    | inr later ↦ more files (ground arith)
                  ]
              | inr (result, e) ↦ inr (
                  inl (
                    key,
                    result,
                    start,
                    files,
                    n,
                    ground arith,
                    ground arith,
                    confirmed.0,
                    confirmed.1,
                    ground arith,
                    ground arith,
                    ground arith,
                  ))
            ]
      ]

  lookup_loop-Answered :
      (fuel n : ℕ) (gated : Bool) (start : Dict Node) (a : CheckResult × Disk)
      → lookup_loop fuel out limit req n gated (record disk { files = start }) ≡ some a
      → Answered a
  unfolding lookup_loop
  lookup_loop-Answered zero n gated start a h = cc h
  lookup_loop-Answered (suc fuel) n gated start a h =
      let disk' : Disk = record disk { files = start } in
      elim (locked_cases (locked_fingerprint out gated 3 n)) [
        | inl (reason, e) ↦ elim (Bool-cases (out.cancelled_at 1)) [
          | inl gone_ ↦
              let same : (blank_result cancelled "context canceled", disk') ≡ a = ground arith in
              inl (subst Unrecorded same (refl, λ e. cc e, refl, refl))
          | inr on ↦
              let same : (
                with_cache (run_uncached out req req.rerun disk').0 (info unavailable "" reason 0),
                (run_uncached out req req.rerun disk').1,
              )
                  ≡ a =
                ground arith in
              inl (
                subst Unrecorded same (
                  run_uncached_disk req.rerun (info unavailable "" reason 0) start refl
                    (λ e. cc e)))
        ]
        | inr (key, next, e) ↦
            let (m, c1, c2) = locked_fingerprint-held gated 3 n key next e in
            found_loaded key next m gated start
              (λ fs. lookup_loop fuel out limit req next true (record disk { files = fs })) a
              (c1, c2) (λ fs. lookup_loop-Answered fuel next true fs a) (rw (e, lookup_loop) at h)
      ]

-- The kinds that the cache may answer for.
abbrev pub Reusable : Request → Type 0
Reusable req =
    (always_fresh_reason req.planned.check.kind ≡ "")
    × (base_dependent_reason req.planned.check.kind ≡ "")
    × (eligible req ≡ true)

-- Execute with a cache answers outside it, or from a record or by an execution under a key; the latter two
-- only for a kind that the cache may answer for.
pub execute_cached-Answered :
    (out : Outside) (limit : ℕ) (req : Request) (disk : Disk) (a : CheckResult × Disk)
    → execute_cached out (some limit) req disk ≡ some a
    → Unrecorded out limit req disk a ⊎ (Reusable req × Answered out limit req disk a)
unfolding execute_cached
execute_cached-Answered out limit req disk a h =
    let kind = req.planned.check.kind in
    let plain : (rerun : Bool) (reason : String)
        → some (run_plain out req rerun reason disk) ≡ some a
        → Unrecorded out limit req disk a =
      λ rerun reason e.
        subst (Unrecorded out limit req disk) (some_inj e)
          (run_plain-Unrecorded out limit req disk rerun reason) in
    elim (Bool-cases (out.cancelled_at 0)) [
      | inl gone_ ↦ inl (
          subst (Unrecorded out limit req disk) (some_inj (rw (gone_, execute_cached) at h))
            (refl, λ e. cc e, refl, refl))
      | inr on ↦ elim (Bool-cases (always_fresh_reason kind == "")) [
        | inr always ↦ inl (plain true (always_fresh_reason kind) (ground arith))
        | inl never ↦ elim (Bool-cases (base_dependent_reason kind == "")) [
          | inr based ↦ inl (plain req.rerun (base_dependent_reason kind) (ground arith))
          | inl free ↦ elim (Bool-cases (eligible req)) [
            | inr no_ ↦ inl (plain req.rerun "" (ground arith))
            | inl yes_ ↦ inr (
              (
                (eq_iff (always_fresh_reason kind) "").0 never,
                (eq_iff (base_dependent_reason kind) "").0 free,
                yes_,
              ),
              lookup_loop-Answered out limit req disk 2 0
                  (is_native req.planned.environment.executor
                    && (req.rerun || not (is_empty (artifacts req.planned.check))))
                  disk.files a (ground arith),
            )
          ]
        ]
      ]
    ]
