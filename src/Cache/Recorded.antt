-- ===== src/Cache/Recorded.antt =====
-- internal/verify/cache.go: the record that a run leaves, and what writeRecord wrote read back by readRecord.
use mathlib.Core.Path.{subst}
use levenshtein.Base.{
  ℕ, String, ◌≡◌, refl, ap, ◌∙◌, inl, inr, Bool, true, false, none, some, [], ◌∷◌, arith, ◌==◌,
  eq_iff, eq_refl, ltb, if◌then◌else◌, Bool-cases, Option-cases, List, Dict, lookup,
}
use levenshtein.Config.{is_passed}
use levenshtein.Config.Options.{artifacts}
use levenshtein.Report.{CheckResult, CacheStatus, miss, fresh, with_cache}
use levenshtein.Cache.{
  Artifact, Codec, Envelope, Entry, Disk, Outside, Request, Node, remove_key, without, save,
  collect, max_record, write_record, read_record,
}
use levenshtein.Cache.Executor.{execute_once, publish, timed, execute}
use levenshtein.Cache.Freshness.{PublishedAs, publish-PublishedAs}

lookup-remove_key {ℓ} : {V : Type ℓ} (k : String) (d : Dict V) → lookup k (remove_key k d) ≡ none
unfolding lookup remove_key
lookup-remove_key k [] = refl
lookup-remove_key k ((j, v) ∷ d) = ground (arith, eq_iff j k, lookup-remove_key k d)

-- The entry that a run records, with the artifacts.
abbrev pub entry_of_run : Outside → Request → Bool → String → String → List Artifact → Entry
entry_of_run out req rerun key reason as_ = record {
  key = key;
  result = timed out (execute_once out rerun) key reason (if rerun then fresh else miss);
  artifacts = as_;
}

-- How a record came to be: the result passed, what is answered is that result under another note, and the text is
-- what writeRecord makes of it and of the artifacts.
abbrev pub RecordOf :
    Outside → ℕ → Request → String → CheckResult → CheckResult → Dict Node → String → Type 0
RecordOf out limit req key result r files body =
    (is_passed result.status ≡ true)
    × (with_cache result r.cache ≡ r)
    × ((as_ : List Artifact) × (collect out.output_path files (artifacts req.planned.check)
          ≡ some as_)
        × (write_record out.codec (max_record limit)
              (record { key = key; result = result; artifacts = as_ })
            ≡ some body))

save-collect :
    (out : Outside) (limit : ℕ) (req : Request) (key : String) (result : CheckResult)
    (files : Dict Node) (body : String)
    → save out limit req key result files ≡ some body
    → (as_ : List Artifact) × (collect out.output_path files (artifacts req.planned.check)
        ≡ some as_)
      × (write_record out.codec
            (max_record limit)
            (record { key = key; result = result; artifacts = as_ })
          ≡ some body)
unfolding save
save-collect out limit req key result files body h =
    elim (Option-cases (collect out.output_path files (artifacts req.planned.check))) [
      | inl lost ↦ absurd (ground arith)
      | inr (as_, c) ↦
          let e : Entry = record { key = key; result = result; artifacts = as_ } in
          elim (Option-cases (write_record out.codec (max_record limit) e)) [
            | inl refused ↦ absurd (ground arith)
            | inr (made, w) ↦ (as_, c, w ∙ ground arith)
          ]
    ]

publish-RecordOf :
    (out : Outside) (limit : ℕ) (req : Request) (key reason : String) (status : CacheStatus) (n : ℕ)
    (result : CheckResult) (disk : Disk) (r : CheckResult) (d : Disk) (body : String)
    → publish out limit req key reason status n result disk ≡ (r, d)
    → lookup key disk.results ≡ none
    → lookup key d.results ≡ some body
    → RecordOf out limit req key result r disk.files body
unfolding publish with_cache lookup PublishedAs
publish-RecordOf out limit req key reason status n result disk r d body h gone_ there =
    elim (Bool-cases (is_passed result.status)) [
      | inr failed_ ↦ absurd (ground arith)
      | inl good ↦
          elim (Bool-cases
            (elim (out.fingerprint n) [ none ↦ false | some after ↦ after == key ])) [
              | inr moved ↦ absurd (ground arith)
              | inl same ↦ elim (Option-cases (save out limit req key result disk.files)) [
                | inl unsaved ↦ absurd (ground arith)
                | inr (made, saved) ↦
                    let it : made ≡ body = ground (arith, eq_refl key) in
                    (
                      good,
                      subst (λ x. with_cache result x.0.cache ≡ x.0) h
                          (publish-PublishedAs out limit req key reason status n result disk).0,
                      save-collect out limit req key result disk.files body
                          (saved ∙ ap (λ x. some x) it),
                    )
              ]
            ]
    ]

-- Execute forgets the key's older record, so a record of the key that it leaves is of this run.
pub execute-RecordOf :
    (out : Outside) (limit : ℕ) (req : Request) (rerun : Bool) (key reason : String) (n : ℕ)
    (disk : Disk) (r : CheckResult) (d : Disk) (body : String)
    → execute out limit req rerun key reason n disk ≡ (r, d)
    → is_passed r.status ≡ true
    → lookup key d.results ≡ some body
    → RecordOf out limit req key
        (timed out (execute_once out rerun) key reason (if rerun then fresh else miss))
        r
        out.files_after
        body
unfolding execute
execute-RecordOf out limit req rerun key reason n disk r d body h good there =
    elim (Bool-cases out.remove_record) [
      | inr kept ↦ absurd (ground arith)
      | inl gone_ ↦ elim (Bool-cases out.write_retry) [
        | inr unwritten ↦ absurd (ground arith)
        | inl written ↦
            let status : CacheStatus = if rerun then fresh else miss in
            let marked_ : Disk = record disk {
              results = remove_key key disk.results;
              retries = key ∷ without key disk.retries;
              files = out.files_after;
            } in
            publish-RecordOf out limit req key reason status n
              (timed out (execute_once out rerun) key reason status) marked_ r d body
              (rw (gone_, written, execute) at h) (lookup-remove_key key disk.results) there
      ]
    ]

-- A text that writeRecord made of an entry is read as that entry, if the JSON of the two reads back.
pub write_record-read_record :
    (codec : Codec) (limit : ℕ) (e : Entry) (body : String)
    → write_record codec limit e ≡ some body
    → ((content : String)
        → codec.marshal_entry e ≡ some content
        → codec.unmarshal_entry content ≡ some e)
    → ((content body : String)
        → codec.marshal_entry e ≡ some content
        → codec.marshal_envelope (record { checksum = codec.digest content; content = content })
          ≡ some body
        → codec.unmarshal_envelope body
          ≡ some (record { checksum = codec.digest content; content = content }))
    → read_record codec limit body ≡ some e
unfolding write_record read_record
write_record-read_record codec limit e body h entries envelopes =
    elim (Option-cases (codec.marshal_entry e)) [
      | inl unmade ↦ absurd (ground arith)
      | inr (content, made) ↦
          let v : Envelope = record { checksum = codec.digest content; content = content } in
          elim (Option-cases (codec.marshal_envelope v)) [
            | inl unmade ↦ absurd (ground arith)
            | inr (made_body, wrapped) ↦ elim (Bool-cases (ltb limit (codec.size made_body))) [
              | inl over ↦ absurd (ground arith)
              | inr small ↦
                  let it : made_body ≡ body = ground arith in
                  subst (λ b. read_record codec limit b ≡ some e) it
                    (rw
                      (
                        small,
                        envelopes content made_body made wrapped,
                        eq_refl (codec.digest content),
                        read_record,
                      )
                      (entries content made))
            ]
          ]
    ]
