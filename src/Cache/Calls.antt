-- ===== src/Cache/Calls.antt =====
-- internal/verify/cache.go: calls of Execute one after another; what others write to the source in between
-- is part of a call.
use mathlib.Core.Path.{subst}
use levenshtein.Base.{
  ℕ, suc, String, ◌≡◌, refl, sym, ap, ◌∙◌, ◌≢◌, ◌⊎◌, inl, inr, Bool, true, false, not, ◌&&◌, ◌||◌,
  Option, none, some, List, [], ◌∷◌, arith, ◌==◌, eq_iff, eq_refl, if◌then◌else◌, Bool-cases,
  Option-cases, is_some, is_empty, Dict, contains,
}
use levenshtein.Config.{is_passed, is_native}
use levenshtein.Config.Options.{artifacts}
use levenshtein.Report.{CheckResult, hit, fresh, with_cache}
use levenshtein.Cache.{Disk, Outside, Request, Node, without, load}
use levenshtein.Cache.Executor.{
  info, execute, locked_fingerprint, afresh, lookup_note, lookup_loop, execute_cached,
}
use levenshtein.Cache.Answered.{Answered, execute_cached-Answered, locked_cases}
use levenshtein.Cache.Freshness.{contains-without, load-passed, ExecutedAs, execute-ExecutedAs}

-- A call of Execute: what it is told, its cache's limit, its request, and the files it finds.
pub record Call : Type 0 where
  pub out : Outside
  pub limit : ℕ
  pub req : Request
  pub found : Dict Node

unfoldable pub run_calls : List Call → Disk → Option (List CheckResult × Disk)
run_calls [] disk = some ([], disk)
run_calls (c ∷ cs) disk =
    elim (execute_cached c.out (some c.limit) c.req (record disk { files = c.found })) [
      | none ↦ none
      | some (r, d) ↦ elim (run_calls cs d) [ none ↦ none | some (rs, d') ↦ some (r ∷ rs, d') ]
    ]

-- Whether the first success under the key is one of a fresh run.
unfoldable pub first_fresh : String → List CheckResult → Bool
first_fresh key [] = true
first_fresh key (r ∷ rs) =
    let rest = first_fresh key rs in
    if r.cache.key == key && is_passed r.status
    then elim r.cache.status [ fresh ↦ true | _ ↦ false ]
    else rest

-- The two turns of the loop suffice.
lookup_loop-gated :
    (fuel : ℕ) (out : Outside) (limit : ℕ) (req : Request) (n : ℕ) (disk : Disk)
    → is_some (lookup_loop (suc fuel) out limit req n true disk) ≡ true
unfolding lookup_loop
lookup_loop-gated fuel out limit req n disk =
    elim (locked_cases (locked_fingerprint out true 3 n)) [
      | inl (reason, e) ↦ ground arith
      | inr (key, next, e) ↦ ground arith
    ]

turn_total :
    (loaded : Option CheckResult) (last_turn : Bool) (f : CheckResult → CheckResult × Disk)
    (a : CheckResult × Disk) (again : Option (CheckResult × Disk))
    → is_some again ≡ true
    → is_some (elim loaded [ some r ↦ some (f r) | none ↦ if last_turn then some a else again ])
      ≡ true
turn_total (some r) last_turn f a again h = refl
turn_total none true f a again h = refl
turn_total none false f a again h = h

lookup_loop-total :
    (out : Outside) (limit : ℕ) (req : Request) (n : ℕ) (gated : Bool) (disk : Disk)
    → is_some (lookup_loop 2 out limit req n gated disk) ≡ true
unfolding lookup_loop
lookup_loop-total out limit req n gated disk =
    elim (locked_cases (locked_fingerprint out gated 3 n)) [
      | inl (reason, e) ↦ ground arith
      | inr (key, next, e) ↦
          let found : Option CheckResult × Dict Node =
            if afresh req key disk then (none, disk.files) else load out limit req key disk in
          let disk' : Disk = record disk { files = found.1 } in
          rw (e, lookup_loop)
            (turn_total found.0 (gated || not (is_native req.planned.environment.executor))
              (λ r. (with_cache r (info hit key (lookup_note out key disk) out.elapsed), disk'))
              (execute out limit req (afresh req key disk) key (lookup_note out key disk) next
                disk')
              (lookup_loop 1 out limit req next true disk')
              (lookup_loop-gated 0 out limit req next disk'))
    ]

-- Execute answers, whatever it is told, with a cache or without: two turns of its loop are enough.
pub execute_cached-is_some :
    (out : Outside) (cache : Option ℕ) (req : Request) (disk : Disk)
    → is_some (execute_cached out cache req disk) ≡ true
unfolding execute_cached
execute_cached-is_some out none req disk = ground arith
execute_cached-is_some out (some limit) req disk = ground (
  arith,
  lookup_loop-total out limit req 0
      (is_native req.planned.environment.executor
        && (req.rerun || not (is_empty (artifacts req.planned.check))))
      disk,
)

execute_cached-total :
    (out : Outside) (cache : Option ℕ) (req : Request) (disk : Disk)
    → (a : CheckResult × Disk) × (execute_cached out cache req disk ≡ some a)
execute_cached-total out cache req disk = elim (Option-cases (execute_cached out cache req disk)) [
  | inr found ↦ found
  | inl lost ↦ absurd (cc (execute_cached-is_some out cache req disk))
]

-- A run's own marker hides no other.
marked_contains :
    (key k : String) (ks : List String)
    → contains key ks ≡ true
    → contains key (k ∷ without k ks) ≡ true
unfolding contains
marked_contains key k ks there = ground (arith, there, contains-without key k ks)

module _ (out : Outside) (limit : ℕ) (req : Request) (disk : Disk) (key : String) where
  -- What a call keeps while the key is marked: a success under the key is fresh, and short of one the marker stays.
  StaysMarked : CheckResult × Disk → Type 0
  StaysMarked (r, d) =
      ((r.cache.key ≡ key) × (is_passed r.status ≡ true) × (r.cache.status ≡ fresh))
      ⊎ ((r.cache.key == key && is_passed r.status ≡ false) × (contains key d.retries ≡ true))

  Executed-StaysMarked :
      (a : CheckResult × Disk) (k reason : String) (n : ℕ) (files : Dict Node)
      → contains key disk.retries ≡ true
      → key ≢ ""
      → ExecutedAs out limit req (afresh req k disk) k reason n (record disk { files = files }) a
      → StaysMarked a
  unfolding ExecutedAs StaysMarked
  Executed-StaysMarked (r, d) k reason n files there named (inl (none_, unhit, same)) =
      inr (ground (arith, eq_iff r.cache.key key), ground arith)
  Executed-StaysMarked (r, d) k reason n files there named (inr (under, way, left)) =
      elim (Bool-cases (k == key)) [
        | inl same ↦
            let it : k ≡ key = (eq_iff k key).0 same in
            let way' : r.cache.status ≡ fresh = ground (arith, way, it, there) in
            elim (Bool-cases (is_passed r.status)) [
              | inl good ↦ inl (under ∙ it, good, way')
              | inr failed_ ↦ inr (
                ground arith,
                elim left [
                  | inl stays ↦
                      subst (λ ks. contains key ks ≡ true) (sym stays)
                        (marked_contains key k disk.retries there)
                  | inr (goes, good) ↦ absurd (cc (failed_, good))
                ],
              )
            ]
        | inr other ↦
            let apart : r.cache.key == key ≡ false =
              subst (λ x. x == key ≡ false) (sym under) other in
            inr (
              ground (arith, apart),
              elim left [
                | inl stays ↦
                    subst (λ ks. contains key ks ≡ true) (sym stays)
                      (marked_contains key k disk.retries there)
                | inr (goes, good) ↦
                    subst (λ ks. contains key ks ≡ true) (sym goes)
                      (ground (
                        arith,
                        other,
                        contains-without key k (k ∷ without k disk.retries),
                        marked_contains key k disk.retries there,
                      ))
              ],
            )
      ]

  Answered-StaysMarked :
      (a : CheckResult × Disk)
      → contains key disk.retries ≡ true
      → key ≢ ""
      → Answered out limit req disk a
      → StaysMarked a
  unfolding StaysMarked with_cache
  Answered-StaysMarked (r, d) there named (inl (unkeyed, unhit, records, same)) =
      inr (ground (arith, eq_iff r.cache.key key), ground arith)
  Answered-StaysMarked (r, d) there named
        (inr (inl (k, result, start, files, n, rerun, unmarked, c1, c2, loaded, answer, left))) =
      let apart : k ≢ key = λ e. cc (e, there, unmarked) in
      let under : r.cache.key ≡ k = ap (λ x. x.cache.key) answer in
      inr (ground (arith, eq_iff r.cache.key key), ap (λ x. contains key x.retries) left ∙ there)
  Answered-StaysMarked (r, d) there named (inr (inr (k, reason, n, files, ran))) =
      Executed-StaysMarked (r, d) k reason n files there named
        (subst
          (ExecutedAs out limit req (afresh req k disk) k reason n (record disk { files = files }))
          ran
          (execute-ExecutedAs out limit req (afresh req k disk) k reason n
            (record disk { files = files })))

  execute_cached-StaysMarked :
      (a : CheckResult × Disk)
      → contains key disk.retries ≡ true
      → key ≢ ""
      → execute_cached out (some limit) req disk ≡ some a
      → StaysMarked a
  execute_cached-StaysMarked a there named h =
      elim (execute_cached-Answered out limit req disk a h) [
        | inl plain ↦ Answered-StaysMarked a there named (inl plain)
        | inr (reusable, answered) ↦ Answered-StaysMarked a there named answered
      ]

  -- A result under a key that did not pass leaves the key's marker.
  Answered-marks :
      (a : CheckResult × Disk)
      → key ≢ ""
      → Answered out limit req disk a
      → a.0.cache.key ≡ key
      → is_passed a.0.status ≡ false
      → contains key a.1.retries ≡ true
  unfolding ExecutedAs contains with_cache
  Answered-marks (r, d) named (inl (unkeyed, unhit, records, same)) under failed_ =
      absurd (named (sym under ∙ unkeyed))
  Answered-marks (r, d) named
        (inr (inl (k, result, start, files, n, rerun, unmarked, c1, c2, loaded, answer, left)))
        under failed_ =
      absurd (
        cc (
          (load-passed out limit req k (record disk { files = start }) result
              (ap (λ x. x.0) loaded)).0,
          failed_,
        ))
  Answered-marks (r, d) named (inr (inr (k, reason, n, files, ran))) under failed_ =
      elim (subst
        (ExecutedAs out limit req (afresh req k disk) k reason n (record disk { files = files }))
        ran
        (execute-ExecutedAs out limit req (afresh req k disk) k reason n
          (record disk { files = files }))) [
            | inl (unkeyed, unhit, same) ↦ absurd (named (sym under ∙ unkeyed))
            | inr (own, way, inl stays) ↦
                subst (λ ks. contains key ks ≡ true) (sym stays)
                  (ground (arith, eq_refl key, under, own))
            | inr (own, way, inr (goes, good)) ↦ absurd (cc (failed_, good))
          ]

  execute_cached-marks :
      (a : CheckResult × Disk)
      → key ≢ ""
      → execute_cached out (some limit) req disk ≡ some a
      → a.0.cache.key ≡ key
      → is_passed a.0.status ≡ false
      → contains key a.1.retries ≡ true
  execute_cached-marks a named h under failed_ =
      elim (execute_cached-Answered out limit req disk a h) [
        | inl plain ↦ Answered-marks a named (inl plain) under failed_
        | inr (reusable, answered) ↦ Answered-marks a named answered under failed_
      ]

run_calls-total :
    (cs : List Call) (disk : Disk) → (a : List CheckResult × Disk) × (run_calls cs disk ≡ some a)
unfolding run_calls
run_calls-total [] disk = (([], disk), refl)
run_calls-total (c ∷ cs) disk =
    let ((r, d), ran) =
      execute_cached-total c.out (some c.limit) c.req (record disk { files = c.found }) in
    let ((rs, d'), rest) = run_calls-total cs d in ((r ∷ rs, d'), rw (ran, rest, run_calls) refl)

run_calls-first_fresh :
    (cs : List Call) (key : String) (disk : Disk)
    → key ≢ ""
    → contains key disk.retries ≡ true
    → (rs : List CheckResult) × (d : Disk) × (run_calls cs disk ≡ some (rs, d))
      × (first_fresh key rs ≡ true)
unfolding run_calls first_fresh StaysMarked
run_calls-first_fresh [] key disk named there = ([], disk, refl, refl)
run_calls-first_fresh (c ∷ cs) key disk named there =
    let start : Disk = record disk { files = c.found } in
    let ((r, d), ran) = execute_cached-total c.out (some c.limit) c.req start in
    elim (execute_cached-StaysMarked c.out c.limit c.req start key (r, d) there named ran) [
      | inl (under, good, way) ↦
          let ((rs, d'), rest) = run_calls-total cs d in
          (
            r ∷ rs,
            d',
            rw (ran, rest, run_calls) refl,
            ground (arith, under, good, way, eq_iff r.cache.key key),
          )
      | inr (other, stays) ↦
          let (rs, d', rest, clean) = run_calls-first_fresh cs key d named stays in
          (r ∷ rs, d', rw (ran, rest, run_calls) refl, ground (arith, other, clean))
    ]

-- Once a run under a key did not pass, the first success under that key in any later calls, whatever they are
-- told and find, is one of a fresh run; and all of them answer.
pub execute_cached-first_fresh :
    (out : Outside) (limit : ℕ) (req : Request) (disk : Disk) (r : CheckResult) (d : Disk)
    (cs : List Call)
    → execute_cached out (some limit) req disk ≡ some (r, d)
    → r.cache.key ≢ ""
    → is_passed r.status ≡ false
    → (rs : List CheckResult) × (d' : Disk) × (run_calls cs d ≡ some (rs, d'))
      × (first_fresh r.cache.key rs ≡ true)
execute_cached-first_fresh out limit req disk r d cs ran named failed_ =
    run_calls-first_fresh cs r.cache.key d named
      (execute_cached-marks out limit req disk r.cache.key (r, d) named ran refl failed_)
