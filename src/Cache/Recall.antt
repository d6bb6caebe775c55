-- ===== src/Cache/Recall.antt =====
-- internal/verify/cache.go: what a call answers from a record.
use mathlib.Core.Path.{subst}
use levenshtein.Base.{
  ℕ, suc, String, ◌≡◌, refl, sym, ap, ◌∙◌, ◌≢◌, inl, inr, Bool, true, false, some, eq_refl,
  if◌then◌else◌, Bool-cases, List, length, all, Dict, lookup, contains,
}
use levenshtein.Config.{is_passed}
use levenshtein.Config.Options.{artifacts}
use levenshtein.Report.{CheckResult, miss, hit, fresh, with_cache}
use levenshtein.Cache.{
  Artifact, Codec, Entry, Disk, Outside, Request, Node, load, collect, max_record, read_record,
}
use levenshtein.Cache.Executor.{timed, execute, afresh, execute_cached}
use levenshtein.Base.{eqb_iff}
use levenshtein.Cache.Answered.{execute_cached-Answered, Reusable}
use levenshtein.Cache.Freshness.{load-passed, ExecutedAs, execute-ExecutedAs}
use levenshtein.Cache.Restored.{recorded_node, Restores, collect-Restores}
use levenshtein.Cache.Recorded.{entry_of_run, execute-RecordOf, write_record-read_record}

-- If a success that execute recorded was written as JSON that reads back as the same entry (which encoding/json
-- promises of texts in UTF-8), in an envelope that reads back too, then load of its key answers that success for the
-- same request, with its artifacts as the run left them and every other file as it is, wherever the record and the
-- source can be opened and the artifacts written.
pub execute-load :
    (out : Outside) (limit : ℕ) (req : Request) (rerun : Bool) (key reason : String) (n : ℕ)
    (disk : Disk) (r : CheckResult) (d : Disk) (body : String) (out' : Outside) (disk' : Disk)
    → execute out limit req rerun key reason n disk ≡ (r, d)
    → is_passed r.status ≡ true
    → lookup key d.results ≡ some body
    → ((as_ : List Artifact) (content : String)
        → collect out.output_path out.files_after (artifacts req.planned.check) ≡ some as_
        → out.codec.marshal_entry (entry_of_run out req rerun key reason as_) ≡ some content
        → out.codec.unmarshal_entry content ≡ some (entry_of_run out req rerun key reason as_))
    → ((e : Entry) (content text : String)
        → out.codec.marshal_entry e ≡ some content
        → out.codec.marshal_envelope
            (record { checksum = out.codec.digest content; content = content })
          ≡ some text
        → out.codec.unmarshal_envelope text
          ≡ some (record { checksum = out.codec.digest content; content = content }))
    → out'.codec ≡ out.codec
    → lookup key disk'.results ≡ some body
    → out'.opens_record ≡ true
    → all out'.output_path (artifacts req.planned.check) ≡ true
    → out'.source_opens ≡ true
    → all out'.write_file (artifacts req.planned.check) ≡ true
    → (result : CheckResult) × (files : Dict Node) × (load out' limit req key disk'
        ≡ (some result, files))
      × (with_cache result r.cache ≡ r)
      × ((p : String)
          → lookup p files ≡ (
              if contains p (artifacts req.planned.check)
              then recorded_node (lookup p out.files_after)
              else lookup p disk'.files))
unfolding load Restores timed
execute-load out limit req rerun key reason n disk r d body out' disk' ran good left entries
      envelopes coded there opens placed source written =
    let (passed_, whole, (as_, kept, made)) =
      execute-RecordOf out limit req rerun key reason n disk r d body ran good left in
    let (same, count, fine, (files, restored, mine, others)) =
      collect-Restores out.output_path out.files_after (artifacts req.planned.check) as_
        out'.write_file disk'.files kept written in
    let e : Entry = entry_of_run out req rerun key reason as_ in
    let read : read_record out'.codec (max_record limit) body ≡ some e =
      ap (λ (c : Codec). read_record c (max_record limit) body) coded
      ∙ write_record-read_record out.codec (max_record limit) e body made
          (λ content. entries as_ content kept) (envelopes e) in
    (
      e.result,
      files,
      rw
          (
            there,
            opens,
            read,
            eq_refl key,
            passed_,
            (eqb_iff (length as_) (length (artifacts req.planned.check))).1 count,
            same,
            placed,
            source,
            restored,
            load,
          )
          refl,
      whole,
      λ p. elim (Bool-cases (contains p (artifacts req.planned.check))) [
        | inl own_ ↦ rw own_ (mine p own_)
        | inr other ↦ rw other (others p other)
      ],
    )

not_hit : (rerun : Bool) → (if rerun then fresh else miss) ≢ hit
not_hit true e = cc e
not_hit false e = cc e

-- What stands behind a hit: nothing asked for a fresh run, the kind is reusable, two readings in a row of the
-- inputs gave the key, and its record passed and is the answer; the records and the markers stay.
abbrev pub Backed : Outside → ℕ → Request → Disk → CheckResult × Disk → Type 0
Backed out limit req disk (r, d) =
    (req.rerun ≡ false)
    × Reusable req
    × (contains r.cache.key disk.retries ≡ false)
    × ((n : ℕ) × (out.fingerprint n ≡ some r.cache.key)
        × (out.fingerprint (suc n) ≡ some r.cache.key))
    × (is_passed r.status ≡ true)
    × ((body : String) × (e : Entry) × (lookup r.cache.key disk.results ≡ some body)
        × (read_record out.codec (max_record limit) body ≡ some e)
        × (e.key ≡ r.cache.key)
        × (with_cache e.result r.cache ≡ r))
    × (d.results ≡ disk.results)
    × (d.retries ≡ disk.retries)

-- A hit answers from the record of a run that passed, under a key that two readings of the inputs gave and that
-- is not marked, for a kind and a request that allow it, and changes no record and no marker.
pub execute_cached-Backed :
    (out : Outside) (limit : ℕ) (req : Request) (disk : Disk) (r : CheckResult) (d : Disk)
    → execute_cached out (some limit) req disk ≡ some (r, d)
    → r.cache.status ≡ hit
    → Backed out limit req disk (r, d)
unfolding with_cache ExecutedAs
execute_cached-Backed out limit req disk r d h was_hit =
    elim (execute_cached-Answered out limit req disk (r, d) h) [
      | inl (unkeyed, unhit, records, same) ↦ absurd (unhit was_hit)
      | inr (reusable, inl (unkeyed, unhit, records, same)) ↦ absurd (unhit was_hit)
      | inr
            (
              reusable,
              inr (
                  inl
                    (key, result, start, files, n, rerun, unmarked, c1, c2, loaded, answer, left)),
            ) ↦
          let under : r.cache.key ≡ key = ap (λ x. x.cache.key) answer in
          let (good, (body, e, there, read, own, held_)) =
            load-passed out limit req key (record disk { files = start }) result
              (ap (λ x. x.0) loaded) in
          (
            rerun,
            reusable,
            ap (λ k. contains k disk.retries) under ∙ unmarked,
            (n, c1 ∙ ap (λ k. some k) (sym under), c2 ∙ ap (λ k. some k) (sym under)),
            ap (λ x. is_passed x.status) answer ∙ good,
            (
              body,
              e,
              ap (λ k. lookup k disk.results) under ∙ there,
              read,
              own ∙ sym under,
              cc (held_, answer),
            ),
            ap (λ x. x.results) left,
            ap (λ x. x.retries) left,
          )
      | inr (reusable, inr (inr (key, reason, n, files, ran))) ↦
          elim (subst
            (ExecutedAs out limit req (afresh req key disk) key reason n
              (record disk { files = files }))
            ran
            (execute-ExecutedAs out limit req (afresh req key disk) key reason n
              (record disk { files = files }))) [
                | inl (unkeyed, unhit, same) ↦ absurd (unhit was_hit)
                | inr (own, way, left) ↦ absurd (not_hit (afresh req key disk) (sym way ∙ was_hit))
              ]
    ]
