-- ===== src/Gate/Examples.antt =====
-- A reader and a writer: the writer waits for the reader, which leaves.
use levenshtein.Base.{ℕ, ◌≡◌, refl, true, false, List, [], ◌∷◌, some, none, map, any, ◌≤◌, ◌⊎◌}
use levenshtein.Gate.{
  Gate, idle_gate, gone, blocked, Caller, Action, arriving, leaving, run_gate, step_at, act,
  attempt, arrive, leave, broadcast, may_enter, newcomer,
}
use levenshtein.Gate.Exclusion.{readers_inside, writers_inside, writers_waiting, run_gate-exclusive}
use levenshtein.Gate.Progress.{ready, run_gate_progress}

abbrev reader_then_writer : List (ℕ × Action)
reader_then_writer = (0, arriving) ∷ (1, arriving) ∷ (0, leaving) ∷ []

abbrev gate_after : Gate
gate_after = record { readers = 0; writer = false; queued = 1; wake = none; fresh = 1 }

abbrev callers_after : List Caller
callers_after =
    record { exclusive = false; phase = gone } ∷ record { exclusive = true; phase = blocked 0 } ∷ []

schedule_runs :
    run_gate reader_then_writer idle_gate (map newcomer (false ∷ true ∷ []))
    ≡ some (gate_after, callers_after)
unfolding run_gate step_at act attempt arrive leave broadcast may_enter
schedule_runs = refl

run_gate-exclusive_example :
    (writers_inside callers_after ≤ 1)
    × ((writers_inside callers_after ≡ 0) ⊎ (readers_inside callers_after ≡ 0))
    × (gate_after.queued ≡ writers_waiting callers_after)
run_gate-exclusive_example =
    run_gate-exclusive (false ∷ true ∷ []) reader_then_writer gate_after callers_after schedule_runs

run_gate_progress_example : any (ready gate_after) callers_after ≡ true
run_gate_progress_example =
    run_gate_progress (false ∷ true ∷ []) reader_then_writer gate_after callers_after schedule_runs
      refl refl refl
