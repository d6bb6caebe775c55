-- ===== src/Lib.antt =====
-- The verifier of levenshtein: configuration, planning, cached execution, reports, baselines, and the
-- verdicts of its mutation runs, community rules and tools.
--
-- A configuration (levenshtein.json) declares targets, environments, checks and runs. `Plan` resolves a
-- run to planned checks and refuses a configuration that no executor could run; executors turn each
-- planned check into a result, which a cache may have recorded (Cache), under a lock on the working tree
-- that runs share (Gate). On Dagger the runner decides a mutation run (Mutation), over the lines that a
-- change wrote (Changes), and selects the rules of community modules (Community); the output of other
-- tools is parsed (Tools). A report collects the results; a baseline excuses findings that a repository
-- has accepted and records the findings of a run.
--
-- Files, with the paths of the code:
--   Config, Config/Options    internal/verify/config.go and status.go: the records and their accessors
--   Kinds, Kinds/Table        internal/verify/kinds.go: the table of check kinds and what is read from it
--   Kinds/Laws                what the table guarantees for any kind
--   Words                     the regular expressions and tests of text in validation.go, rulemodules.go,
--                             gocheck.go and source.go
--   Paths                     `relative` of internal/verify/files.go, with filepath.IsLocal and Clean on Unix
--   Validation, its Options   internal/verify/validation.go, validateImportRules of gocheck.go and
--     and Native              validateSharedGoCheck of gochecks.go
--   Validation/Accepted       what an accepted check has
--   Validation/Protected      credentials, commands and artifacts
--   Patterns                  internal/checktool/lint.go and communityAllowed of internal/verify/rulemodules.go
--   RuleModules               internal/verify/rulemodules.go
--   Plan, Plan/Targets        internal/verify/plan.go and source.go
--   Plan/Unique, Plan/Sound   what a plan has
--   Report                    internal/verify/run.go, report.go, findings.go and status.go
--   Baseline and its modules  internal/verify/baseline.go: Entry (keys), Mark and Apply (Apply), Configured
--                             (orphans), Messages (stale findings), Record (Record)
--   Gate, Gate/Exclusion,     internal/verify/gate.go: the lock that readers and writers of the tree
--     Wakeup and Progress     share inside one process, with its callers under any schedule
--   Cache, Cache/Executor     internal/verify/cache.go: a call of CachedExecutor as a step on the records,
--                             the markers and the files; Answered, Freshness, Calls, Restored, Recorded
--                             and Recall say what it answers
--   Mutation, Mutation/Index  runner/mutation.go: the lines a run is limited to and what an accepted entry
--                             means; Tally, Decide and Verdict are decideMutation, Retry is mutate,
--                             Files the selection, the exclusions and the accepted file;
--                             Dirs, Others and Excluded say which files the exclusions match
--   Community, its Agreement  runner/community/selection.go, beside the planner's copy of its test
--   Changes, Changes/Listed   internal/gitchange/gitchange.go: the base, and the paths that a change lists
--   Tools, Deps and Exits     internal/checktool: finding.go, zizmor.go, gomod.go, gitleaks.go, shellcheck.go
--                             and osvscanner.go, the parsers of what tools print
--   Base, Result              helpers: lists, texts, maps; errors as values
-- The modules named Examples apply the theorems to small configurations and reports.
--
-- A Go error is a value of `Error` with a constructor for each refusal; `Result` chains them in the order
-- of the code, so the first refusal is the one reported. A Go map is a `Dict`, a list of pairs that is read
-- by key; where the code visits the sorted keys, so does the model, and where it visits a map in Go's
-- random order, the outcome but not the message is independent of the order. A pointer is an `Option`. A
-- count of findings is a natural number. What a caller of the gate does under its mutex is one step, a
-- schedule is a list of steps, and `run_gate` refuses a step that its caller cannot take.
--
-- The code outside the repository's own logic is a parameter: the file system, time.ParseDuration and
-- golang.org/x/mod are fields of `Host`. strings.ToLower and unicode.IsNumber are read on ASCII, where the
-- codes of rules live, and a path is a Unix path. What a call of the cache asks of the host (fingerprints,
-- locks, reads and writes) is the record `Outside`, numbered where the answers may differ; calls come one
-- after another. A record is the text that write_record makes of an entry and read_record reads; encoding/json
-- and the hash of the checksum are the parameter `Codec`. Looking for a marker is taken to fail only where there
-- is none. regexp and its QuoteMeta are parameters of the theorem on exclusions, and the runs of gremlins of one
-- mutation check are told by their coefficient. What the verdict of a mutation run asks of go/parser, encoding/json, regexp and time is
-- the record `GoTools`, and a tool's parser is given the decoder of its JSON. Fuel is used for printing a
-- number in Messages, where a number has at most as many digits as it counts, and for the loop of Execute,
-- which has two turns.
--
-- Not modelled: the parts of the executors and of runner/ that start processes and containers; the
-- hashing of cache keys; the file lock between processes; the walk over the input files;
-- rendering; semantic lint; the reading and writing of JSON files. The details of a result are not text but
-- the two readings that report.go makes of them.
pub mod Base
pub mod Result
pub mod Words
pub mod Paths
pub mod Config
pub mod Kinds
pub mod Patterns
pub mod RuleModules
pub mod Validation
pub mod Plan
pub mod Report
pub mod Baseline
pub mod Gate
pub mod Cache
pub mod Mutation
pub mod Community
pub mod Tools
pub mod Changes
