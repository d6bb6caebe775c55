-- ===== src/Gate.antt =====
-- internal/verify/gate.go: the lock inside one process, and the callers that share it. What a caller does
-- while it holds g.mu is one step; between two steps any other caller may run. A channel has a number, and
-- it is open while it is the one in g.wake, which only closing it takes out.
pub mod Exclusion
pub mod Wakeup
pub mod Progress
mod Examples
use levenshtein.Base.{
  ℕ, zero, suc, ◌+◌, ◌-◌, Bool, true, false, not, ◌&&◌, Option, none, some, List, [], ◌∷◌, map, eqb,
  if◌then◌else◌,
}

-- gate, with the number of the next channel
pub record Gate : Type 0 where
  pub readers : ℕ
  pub writer : Bool
  pub queued : ℕ
  pub wake : Option ℕ
  pub fresh : ℕ

abbrev pub idle_gate : Gate
idle_gate = record { readers = 0; writer = false; queued = 0; wake = none; fresh = 0 }

-- Where a caller of acquire is: before it, waiting for a channel, inside the tree, or past it.
pub data Phase : Type 0 where
  outside inside gone : Phase
  blocked : ℕ → Phase

pub record Caller : Type 0 where
  pub exclusive : Bool
  pub phase : Phase

-- The tests of the loop.
unfoldable pub may_enter : Bool → Gate → Bool
may_enter exclusive g =
    if exclusive then not g.writer && eqb g.readers 0 else not g.writer && eqb g.queued 0

-- One turn of the loop: the caller enters, or takes the channel to wait for.
unfoldable pub attempt : Bool → Gate → Gate × Phase
attempt exclusive g =
    if may_enter exclusive g
    then if exclusive
      then (record g { queued = g.queued - 1; writer = true }, inside)
      else (record g { readers = suc g.readers }, inside)
    else elim g.wake [
      | some channel ↦ (g, blocked channel)
      | none ↦ (record g { wake = some g.fresh; fresh = suc g.fresh }, blocked g.fresh)
    ]

unfoldable pub broadcast : Gate → Gate
broadcast g = record g { wake = none }

-- acquire, as far as its first wait
unfoldable pub arrive : Bool → Gate → Gate × Phase
arrive exclusive g = attempt exclusive (if exclusive then record g { queued = suc g.queued } else g)

-- The case of ctx.Done
unfoldable pub abandon : Bool → Gate → Gate
abandon exclusive g = if exclusive then broadcast (record g { queued = g.queued - 1 }) else g

-- The function that acquire returns; sync.Once lets it run once.
unfoldable pub leave : Bool → Gate → Gate
leave exclusive g =
    broadcast
      (if exclusive then record g { writer = false } else record g { readers = g.readers - 1 })

pub data Action : Type 0 where
  arriving retrying abandoning leaving : Action

-- A channel that is no longer in g.wake is closed.
abbrev pub is_open : Gate → ℕ → Bool
is_open g channel = elim g.wake [ none ↦ false | some current ↦ eqb current channel ]

abbrev with_phase : Caller → Gate × Phase → Option (Gate × Caller)
with_phase c (g, phase) = some (g, record { exclusive = c.exclusive; phase = phase })

-- A step of one caller, or `none` where it cannot take it.
act_in : Action → Gate → Caller → Phase → Option (Gate × Caller)
act_in arriving g c outside = with_phase c (arrive c.exclusive g)
act_in retrying g c (blocked channel) =
    if is_open g channel then none else with_phase c (attempt c.exclusive g)
act_in abandoning g c (blocked channel) = with_phase c (abandon c.exclusive g, gone)
act_in leaving g c inside = with_phase c (leave c.exclusive g, gone)
act_in _ g c _ = none

unfoldable pub act : Action → Gate → Caller → Option (Gate × Caller)
unfolding act_in
act a g c = act_in a g c c.phase

-- A step of the caller with a number.
unfoldable pub step_at : ℕ → Action → Gate → List Caller → Option (Gate × List Caller)
step_at i a g [] = none
step_at zero a g (c ∷ cs) = elim (act a g c) [ none ↦ none | some (g', c') ↦ some (g', c' ∷ cs) ]
step_at (suc i) a g (c ∷ cs) = elim (step_at i a g cs) [
  | none ↦ none
  | some (g', cs') ↦ some (g', c ∷ cs')
]

-- A schedule says who takes which step.
unfoldable pub run_gate : List (ℕ × Action) → Gate → List Caller → Option (Gate × List Caller)
run_gate [] g cs = some (g, cs)
run_gate ((i, a) ∷ schedule) g cs = elim (step_at i a g cs) [
  | none ↦ none
  | some (g', cs') ↦ run_gate schedule g' cs'
]

abbrev pub newcomer : Bool → Caller
newcomer exclusive = record { exclusive = exclusive; phase = outside }
