-- ===== src/Cache/Freshness.antt =====
-- internal/verify/cache.go: the marker that a run leaves, and what publish and execute do with it.
use levenshtein.Base.{
  ℕ, String, ◌≡◌, refl, ◌≢◌, ◌⊎◌, inl, inr, Bool, true, false, not, ◌&&◌, none, some, List, [], ◌∷◌,
  arith, ◌==◌, eq_iff, if◌then◌else◌, Bool-cases, Option-cases, lookup, contains,
}
use levenshtein.Config.{is_passed}
use levenshtein.Report.{CheckResult, CacheStatus, miss, hit, fresh, with_cache}
use levenshtein.Cache.{
  Entry, Disk, Outside, Request, remove_key, without, load, save, read_record, max_record,
}
use levenshtein.Cache.Executor.{execute_once, publish, timed, execute}

pub contains-without :
    (j k : String) (ks : List String) → contains j (without k ks) ≡ (not (k == j) && contains j ks)
unfolding contains without
contains-without j k [] = ground arith
contains-without j k (i ∷ ks) =
    ground (arith, eq_iff i k, eq_iff i j, eq_iff k j, contains-without j k ks)

-- A record that loads is read as an entry of the key, and its result passed.
pub load-passed :
    (out : Outside) (limit : ℕ) (req : Request) (key : String) (disk : Disk) (result : CheckResult)
    → (load out limit req key disk).0 ≡ some result
    → (is_passed result.status ≡ true)
      × ((body : String) × (e : Entry) × (lookup key disk.results ≡ some body)
          × (read_record out.codec (max_record limit) body ≡ some e)
          × (e.key ≡ key)
          × (e.result ≡ result))
unfolding load
load-passed out limit req key disk result h = elim (Option-cases (lookup key disk.results)) [
  | inl missing ↦ absurd (ground arith)
  | inr (body, there) ↦ elim (Option-cases (read_record out.codec (max_record limit) body)) [
    | inl unread ↦ absurd (ground arith)
    | inr (e, read) ↦
        (ground arith, (body, e, there, read, ground (arith, eq_iff e.key key), ground arith))
  ]
]

module _ (out : Outside) (limit : ℕ) (req : Request) (key reason : String) (status : CacheStatus)
    (n : ℕ) (result : CheckResult) (disk : Disk) where
  -- What publish answers: the same outcome under the key; the marker goes only with a success.
  unfoldable pub PublishedAs : CheckResult × Disk → Type 0
  PublishedAs (r, d) =
      (with_cache result r.cache ≡ r)
      × (r.status ≡ result.status)
      × (r.cache.key ≡ key)
      × (r.cache.status ≡ status)
      × ((d.retries ≡ disk.retries)
          ⊎ ((d.retries ≡ without key disk.retries) × (is_passed result.status ≡ true)))

  pub publish-PublishedAs : PublishedAs (publish out limit req key reason status n result disk)
  unfolding publish with_cache PublishedAs
  publish-PublishedAs = elim (Bool-cases (is_passed result.status)) [
    | inr failed_ ↦ rw (failed_, publish) (refl, refl, refl, refl, inl refl)
    | inl good ↦
        elim (Bool-cases (elim (out.fingerprint n) [ none ↦ false | some after ↦ after == key ])) [
          | inr moved ↦ rw (good, moved, publish) (refl, refl, refl, refl, inl refl)
          | inl same ↦ elim (Option-cases (save out limit req key result disk.files)) [
            | inl unsaved ↦ rw (good, same, unsaved, publish) (refl, refl, refl, refl, inl refl)
            | inr (e, saved) ↦ elim (Bool-cases out.remove_retry) [
              | inl cleaned ↦
                  rw (good, same, saved, cleaned, publish)
                    (refl, refl, refl, refl, inr (refl, refl))
              | inr stuck ↦
                  rw (good, same, saved, stuck, publish) (refl, refl, refl, refl, inl refl)
            ]
          ]
        ]
  ]

module _ (out : Outside) (limit : ℕ) (req : Request) (rerun : Bool) (key reason : String) (n : ℕ)
    (disk : Disk) where
  -- The markers once this run has left its own.
  abbrev pub marked : List String
  marked = key ∷ without key disk.retries

  -- What execute answers: an error outside the cache, or a result under the key with the marker left,
  -- which goes only with a success.
  unfoldable pub ExecutedAs : CheckResult × Disk → Type 0
  ExecutedAs (r, d) =
      ((r.cache.key ≡ "") × (r.cache.status ≢ hit) × (d.retries ≡ disk.retries))
      ⊎ ((r.cache.key ≡ key)
          × (r.cache.status ≡ (if rerun then fresh else miss))
          × ((d.retries ≡ marked)
              ⊎ ((d.retries ≡ without key marked) × (is_passed r.status ≡ true))))

  pub execute-ExecutedAs : ExecutedAs (execute out limit req rerun key reason n disk)
  unfolding execute timed PublishedAs ExecutedAs
  execute-ExecutedAs = elim (Bool-cases out.remove_record) [
    | inr kept ↦ rw (kept, execute) (inl (refl, (λ e. cc e), refl))
    | inl gone_ ↦ elim (Bool-cases out.write_retry) [
      | inr unwritten ↦ rw (gone_, unwritten, execute) (inl (refl, (λ e. cc e), refl))
      | inl written ↦
          let status : CacheStatus = if rerun then fresh else miss in
          let d : Disk = record disk {
            results = remove_key key disk.results;
            retries = marked;
            files = out.files_after;
          } in
          let result : CheckResult = timed out (execute_once out rerun) key reason status in
          let (whole, same, under, way, left) =
            publish-PublishedAs out limit req key reason status n result d in
          rw (gone_, written, execute)
            (inr (
              under,
              way,
              elim left [ inl stays ↦ inl stays | inr (goes, good) ↦ inr (goes, ground arith) ],
            ))
    ]
  ]
