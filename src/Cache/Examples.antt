-- ===== src/Cache/Examples.antt =====
-- A native build with one artifact: a run that fails, the runs after it, and a run from the record.
use levenshtein.Base.{
  String, ◌≡◌, refl, ◌≢◌, true, false, none, some, List, [], ◌∷◌, is_some, Dict, lookup, contains,
  if◌then◌else◌, ◌==◌, Option,
}
use mathlib.Core.Path.{subst}
use levenshtein.Config.{Status, passed}
use levenshtein.Config.Options.{artifacts, cacheable}
use levenshtein.Kinds.{always_fresh_reason, base_dependent_reason, shared_go_check}
use levenshtein.Plan.{PlannedCheck}
use levenshtein.Report.{CheckResult, miss, hit, with_cache}
use levenshtein.Cache.{
  Artifact, Codec, Envelope, collect, Entry, Disk, Outside, Request, Node, regular, load,
}
use levenshtein.Cache.Executor.{
  blank_result, info, execute_once, publish, timed, execute, locked_fingerprint, lookup_loop,
  eligible, execute_cached,
}
use levenshtein.Config.{native, failed}
use levenshtein.Baseline.Examples.{lint_check}
use levenshtein.Cache.Restored.{recorded_node}
use levenshtein.Cache.Calls.{
  Call, run_calls, first_fresh, execute_cached-is_some, execute_cached-first_fresh,
}
use levenshtein.Cache.Recorded.{entry_of_run}
use levenshtein.Cache.Recall.{Backed, execute_cached-Backed, execute-load}

abbrev build_check : PlannedCheck
build_check = record lint_check {
  id = "build";
  check = record lint_check.check {
    kind = "command";
    command = some (record {
      args = "make" ∷ [];
      rerun_args = [];
      env = [];
      timeout = "";
      preparation = "";
      build = "";
      artifacts = "out.txt" ∷ [];
      cache = true;
    });
  };
  environment = record lint_check.environment { executor = native };
}

abbrev build_request : Request
build_request = record { rerun = false; planned = build_check }

-- A host where everything succeeds, and the run ends in the status.
abbrev host_with : Codec → Status → Outside
host_with codec status = record {
  now = 10;
  elapsed = 1;
  cancelled_at = λ n. false;
  fingerprint = λ n. some "k1";
  lock = λ n. true;
  enter = λ n. true;
  enter_to_run = true;
  note = "";
  source_opens = true;
  output_path = λ p. true;
  write_file = λ p. true;
  opens_record = true;
  remove_record = true;
  write_retry = true;
  writes_record = true;
  remove_retry = true;
  codec = codec;
  identity = (none, none);
  run = λ rerun. record (blank_result status "") { id = "build" };
  files_after = ("out.txt", regular 33188 "built") ∷ [];
}

-- A codec that writes no entry
abbrev no_codec : Codec
no_codec = record {
  marshal_entry = λ e. none;
  unmarshal_entry = λ s. none;
  marshal_envelope = λ v. none;
  unmarshal_envelope = λ s. none;
  digest = λ s. "#";
  size = λ s. 100;
}

-- The entry that the passing run records, and a codec that writes it.
abbrev build_entry : Entry
build_entry = record {
  key = "k1";
  result =
      timed (host_with no_codec passed) (execute_once (host_with no_codec passed) false) "k1" ""
        miss;
  artifacts = record { path = "out.txt"; mode = 420; bytes = "built" } ∷ [];
}

abbrev wrap : String → String → String
wrap String.[] s = s
wrap (String.◌∷◌ c cs) s = String.◌∷◌ c (wrap cs s)

abbrev unwrap : String → Option Envelope
unwrap String.[] = none
unwrap (String.◌∷◌ c s) = some (record { checksum = String.◌∷◌ c ""; content = s })

abbrev one_entry_codec : Codec
one_entry_codec = record no_codec {
  marshal_entry = λ e. if e.result.id == "build" then some e.key else none;
  unmarshal_entry = λ s. if s == "k1" then some build_entry else none;
  marshal_envelope = λ v. some (wrap v.checksum v.content);
  unmarshal_envelope = unwrap;
}

abbrev host : Status → Outside
host status = host_with one_entry_codec status

abbrev no_disk : Disk
no_disk = record { results = []; retries = []; files = [] }

abbrev failed_build : CheckResult × Disk
failed_build = execute (host failed) 0 build_request false "k1" "" 2 no_disk

abbrev passed_build : CheckResult × Disk
passed_build = execute (host passed) 0 build_request false "k1" "" 2 no_disk

failed_build_answers :
    execute_cached (host failed) (some 0) build_request no_disk ≡ some failed_build
unfolding execute_cached always_fresh_reason levenshtein.Kinds.spec_of
    levenshtein.Kinds.describe_kinds base_dependent_reason eligible cacheable lookup_loop
    locked_fingerprint artifacts contains load lookup
failed_build_answers = refl

abbrev again : Call
again = record { out = host passed; limit = 0; req = build_request; found = [] }

named : ◌≢◌ {A = String} "k1" ""
named e = cc e

execute_cached-is_some_example :
    is_some (execute_cached (host passed) (some 0) build_request no_disk) ≡ true
execute_cached-is_some_example = execute_cached-is_some (host passed) (some 0) build_request no_disk

execute_cached-first_fresh_example :
    (rs : List CheckResult) × (d : Disk) × (run_calls (again ∷ again ∷ []) failed_build.1
      ≡ some (rs, d))
    × (first_fresh failed_build.0.cache.key rs ≡ true)
unfolding execute publish with_cache timed
execute_cached-first_fresh_example =
    execute_cached-first_fresh (host failed) 0 build_request no_disk failed_build.0 failed_build.1
      (again ∷ again ∷ []) failed_build_answers named refl

abbrev build_again : CheckResult × Disk
build_again = (
  with_cache build_entry.result (info hit "k1" "" 1),
  record passed_build.1 { files = ("out.txt", regular 420 "built") ∷ passed_build.1.files },
)

build_recalled :
    execute_cached (host passed) (some 0) build_request passed_build.1 ≡ some build_again
unfolding execute_cached always_fresh_reason levenshtein.Kinds.spec_of
    levenshtein.Kinds.describe_kinds base_dependent_reason eligible cacheable lookup_loop
    locked_fingerprint artifacts contains load lookup execute
build_recalled = refl

execute_cached-Backed_example : Backed (host passed) 0 build_request passed_build.1 build_again
unfolding with_cache
execute_cached-Backed_example =
    execute_cached-Backed (host passed) 0 build_request passed_build.1 build_again.0 build_again.1
      build_recalled refl

build_left : lookup "k1" passed_build.1.results ≡ some "#k1"
unfolding lookup execute artifacts
build_left = refl

some_inj {ℓ} : {A : Type ℓ} {x y : A} → some x ≡ some y → x ≡ y
some_inj h = cc h

build_reads :
    (as_ : List Artifact) (content : String)
    → collect
        (host passed).output_path
        (host passed).files_after
        (artifacts build_request.planned.check)
      ≡ some as_
    → one_entry_codec.marshal_entry (entry_of_run (host passed) build_request false "k1" "" as_)
      ≡ some content
    → one_entry_codec.unmarshal_entry content
      ≡ some (entry_of_run (host passed) build_request false "k1" "" as_)
unfolding collect lookup artifacts execute_once timed
build_reads as_ content kept made =
    subst
      (λ k.
        one_entry_codec.unmarshal_entry k
        ≡ some (entry_of_run (host passed) build_request false "k1" "" as_))
      (some_inj {x = "k1"} {y = content} made)
      (subst
        (λ xs. some build_entry ≡ some (entry_of_run (host passed) build_request false "k1" "" xs))
        (some_inj {x = build_entry.artifacts} {y = as_} kept) refl)

build_unwraps :
    (e : Entry) (content text : String)
    → one_entry_codec.marshal_entry e ≡ some content
    → one_entry_codec.marshal_envelope
        (record { checksum = one_entry_codec.digest content; content = content })
      ≡ some text
    → one_entry_codec.unmarshal_envelope text
      ≡ some (record { checksum = one_entry_codec.digest content; content = content })
build_unwraps e content text made wrapped =
    subst (λ s. unwrap s ≡ some (record { checksum = "#"; content = content }))
      (some_inj {x = wrap "#" content} {y = text} wrapped) refl

execute-load_example :
    (result : CheckResult) × (files : Dict Node) × (load
        (host passed)
        0
        build_request
        "k1"
        passed_build.1
      ≡ (some result, files))
    × (with_cache result passed_build.0.cache ≡ passed_build.0)
    × ((p : String)
        → lookup p files ≡ (
            if contains p ("out.txt" ∷ [])
            then recorded_node (lookup p (host passed).files_after)
            else lookup p passed_build.1.files))
unfolding artifacts execute lookup with_cache
execute-load_example =
    execute-load (host passed) 0 build_request false "k1" "" 2 no_disk passed_build.0 passed_build.1
      "#k1" (host passed) passed_build.1 refl refl build_left build_reads build_unwraps refl
      build_left refl refl refl refl
