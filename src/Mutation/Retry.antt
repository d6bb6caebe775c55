-- ===== src/Mutation/Retry.antt =====
-- runner/mutation.go: the runs that a repeated gremlins takes, and the limit that a raised coefficient gives.
use Prim.Native.Nat.{◌/◌}
use mathlib.Core.Path.{subst}
use native.Mathlib.Nat.{mul-le-mul_left, div-mul-le_self, lt-div-mul-add}
use levenshtein.Base.{
  ℕ, zero, suc, ◌+◌, ◌-◌, ◌*◌, ◌≤◌, ◌<◌, ◌≡◌, refl, ◌⊎◌, inl, inr, true, false, Option, none, some,
  arith, ltb, Option-cases, max,
}
use levenshtein.Mutation.{MutationInput}
use levenshtein.Mutation.Tally.{MutationError}
use levenshtein.Mutation.Decide.{
  GoTools, MutationRun, MutationVerdict, mutant_time_floor, time_limit, trusted, longer_coefficient,
}
use levenshtein.Mutation.Verdict.{decide_mutation}

-- gremlinsAttempts and gremlinsTimeoutCoef
abbrev gremlins_attempts : ℕ
gremlins_attempts = 3

abbrev gremlins_timeout_coef : ℕ
gremlins_timeout_coef = 10

-- The loop of mutate with the attempts that are left after this one; `gremlins` is runGremlins by its coefficient,
-- the only argument that differs between the attempts.
unfoldable pub mutate_from :
    GoTools
    → (ℕ → Option MutationRun)
    → MutationInput
    → ℕ
    → ℕ
    → Option (MutationError ⊎ MutationVerdict)
mutate_from go gremlins input zero coefficient = elim (gremlins coefficient) [
  | none ↦ none
  | some run ↦ some (decide_mutation go run input)
]
mutate_from go gremlins input (suc left) coefficient = elim (gremlins coefficient) [
  | none ↦ none
  | some run ↦ elim (longer_coefficient go run) [
    | none ↦ some (decide_mutation go run input)
    | some longer ↦ mutate_from go gremlins input left longer
  ]
]

unfoldable pub mutate :
    GoTools → (ℕ → Option MutationRun) → MutationInput → Option (MutationError ⊎ MutationVerdict)
unfolding mutate_from
mutate go gremlins input =
    mutate_from go gremlins input (gremlins_attempts - 1) gremlins_timeout_coef

-- A duration rounded up to a multiple of a positive step
rounded_up :
    (n step : ℕ)
    → 0 < step
    → (n ≤ (n + step - 1) / step * step) × ((n + step - 1) / step * step < n + step)
rounded_up n step positive = (
  omega (arith, lt-div-mul-add {a = n + step - 1} positive, positive),
  omega (arith, div-mul-le_self (n + step - 1) step, positive),
)

some_inj : {x y : ℕ} → some x ≡ some y → x ≡ y
some_inj h = cc h

positive_factor : (c n : ℕ) → 2 * mutant_time_floor ≤ c * n → ltb c 1 ≡ false
positive_factor zero n h = absurd (omega (arith, h))
positive_factor (suc c) n h = ground arith

half_enough :
    (c longest faster : ℕ)
    → 2 * mutant_time_floor ≤ c * longest
    → longest ≤ 2 * faster
    → mutant_time_floor ≤ faster * c
half_enough c longest faster h fast =
    omega (arith, h, mul-le-mul_left {m = longest} {n = 2 * faster} c fast)

-- A coefficient that mutate raises gives the coverage time that it saw, or a millisecond where that is longer,
-- at least twice the floor and less than one such time more; and a rerun with it whose coverage takes at least
-- half as long has a limit that is trusted.
pub longer_coefficient-clears :
    (go : GoTools) (run rerun : MutationRun) (coefficient elapsed faster : ℕ)
    → longer_coefficient go run ≡ some coefficient
    → go.coverage_time run.stdout ≡ some elapsed
    → rerun.coefficient ≡ coefficient
    → go.coverage_time rerun.stdout ≡ some faster
    → max elapsed 1000000 ≤ 2 * faster
    → (2 * mutant_time_floor ≤ coefficient * max elapsed 1000000)
      × (coefficient * max elapsed 1000000 < 2 * mutant_time_floor + max elapsed 1000000)
      × (trusted (time_limit go rerun) ≡ true)
unfolding longer_coefficient time_limit
longer_coefficient-clears go run rerun coefficient elapsed faster h timed raised again fast =
    elim (Option-cases (go.parse_report run.report)) [
      | inl lost ↦ absurd (ground arith)
      | inr (report, parsed) ↦
          let longest : ℕ = max elapsed 1000000 in
          let it : (2 * mutant_time_floor + longest - 1) / longest ≡ coefficient =
            some_inj (ground arith) in
          let bounds = rounded_up (2 * mutant_time_floor) longest (omega arith) in
          let lower : 2 * mutant_time_floor ≤ coefficient * longest =
            subst (λ c. 2 * mutant_time_floor ≤ c * longest) it bounds.0 in
          let upper : coefficient * longest < 2 * mutant_time_floor + longest =
            subst (λ c. c * longest < 2 * mutant_time_floor + longest) it bounds.1 in
          let enough : mutant_time_floor ≤ faster * coefficient =
            half_enough coefficient longest faster lower fast in
          let used : ltb coefficient 1 ≡ false = positive_factor coefficient longest lower in
          (lower, upper, rw (again, raised, used, time_limit) (ground (arith, enough)))
    ]

-- The run that is decided on when the first has the coefficient and `left` more may follow: one whose coefficient
-- need not be raised or the last, and each after the first has the coefficient that the one before it asks for.
unfoldable pub DecidesOn : GoTools → (ℕ → Option MutationRun) → ℕ → ℕ → MutationRun → Type 0
DecidesOn go gremlins zero coefficient last = gremlins coefficient ≡ some last
DecidesOn go gremlins (suc left) coefficient last =
    ((gremlins coefficient ≡ some last) × (longer_coefficient go last ≡ none))
    ⊎ ((run : MutationRun) × (longer : ℕ) × (gremlins coefficient ≡ some run)
        × (longer_coefficient go run ≡ some longer)
        × DecidesOn go gremlins left longer last)

mutate_from-DecidesOn :
    (go : GoTools) (gremlins : ℕ → Option MutationRun) (input : MutationInput)
    (left coefficient : ℕ)
    → ((c : ℕ) → (run : MutationRun) × (gremlins c ≡ some run))
    → (last : MutationRun) × DecidesOn go gremlins left coefficient last
      × (mutate_from go gremlins input left coefficient ≡ some (decide_mutation go last input))
unfolding mutate_from DecidesOn
mutate_from-DecidesOn go gremlins input zero coefficient runs =
    let (run, ran) = runs coefficient in (run, ran, rw (ran, mutate_from) refl)
mutate_from-DecidesOn go gremlins input (suc left) coefficient runs =
    let (run, ran) = runs coefficient in
    elim (Option-cases (longer_coefficient go run)) [
      | inl enough ↦ (run, inl (ran, enough), rw (ran, enough, mutate_from) refl)
      | inr (longer, again) ↦
          let (last, way, answer) = mutate_from-DecidesOn go gremlins input left longer runs in
          (last, inr (run, longer, ran, again, way), rw (ran, again, mutate_from) answer)
    ]

-- If gremlins runs with every coefficient, mutate answers what decideMutation makes, an error or a verdict, of the
-- last of one, two or three runs: the first has the coefficient 10, each later one the coefficient that the run
-- before it asks for, and the last asks for none or is the third.
pub mutate-DecidesOn :
    (go : GoTools) (gremlins : ℕ → Option MutationRun) (input : MutationInput)
    → ((c : ℕ) → (run : MutationRun) × (gremlins c ≡ some run))
    → (last : MutationRun) × DecidesOn go gremlins 2 10 last
      × (mutate go gremlins input ≡ some (decide_mutation go last input))
unfolding mutate
mutate-DecidesOn go gremlins input runs = mutate_from-DecidesOn go gremlins input 2 10 runs

-- A run with a trusted limit asks for no other.
longer_coefficient-trusted :
    (go : GoTools) (run : MutationRun)
    → trusted (time_limit go run) ≡ true
    → longer_coefficient go run ≡ none
unfolding longer_coefficient
longer_coefficient-trusted go run h = elim (Option-cases (go.parse_report run.report)) [
  | inl lost ↦ rw (lost, longer_coefficient) refl
  | inr (report, parsed) ↦ elim (Option-cases (go.coverage_time run.stdout)) [
    | inl untimed ↦ rw (parsed, untimed, longer_coefficient) refl
    | inr (elapsed, timed) ↦ ground (arith, h, parsed, timed)
  ]
]

-- If every coefficient gives a run that has it and a coverage time, and no coverage takes more than twice as long as
-- another or less than half a millisecond, then mutate decides on its first run, with the coefficient 10, if that asks
-- for no other, and else on its second, with the coefficient that the first asks for, whose limit is trusted.
pub mutate-trusted :
    (go : GoTools) (gremlins : ℕ → Option MutationRun) (input : MutationInput) (elapsed : ℕ → ℕ)
    → ((c : ℕ)
        → (run : MutationRun) × (gremlins c ≡ some run)
          × (run.coefficient ≡ c)
          × (go.coverage_time run.stdout ≡ some (elapsed c)))
    → ((c d : ℕ) → max (elapsed c) 1000000 ≤ 2 * elapsed d)
    → ((first : MutationRun) × (gremlins 10 ≡ some first)
        × (longer_coefficient go first ≡ none)
        × (mutate go gremlins input ≡ some (decide_mutation go first input)))
      ⊎ ((first : MutationRun) × (longer : ℕ) × (second : MutationRun) × (gremlins 10 ≡ some first)
          × (longer_coefficient go first ≡ some longer)
          × (gremlins longer ≡ some second)
          × (trusted (time_limit go second) ≡ true)
          × (mutate go gremlins input ≡ some (decide_mutation go second input)))
unfolding mutate mutate_from
mutate-trusted go gremlins input elapsed runs alike =
    let (first, ran, own, timed) = runs 10 in
    elim (Option-cases (longer_coefficient go first)) [
      | inl enough ↦ inl (first, ran, enough, rw (ran, enough, mutate_from) refl)
      | inr (longer, again) ↦
          let (second, reran, raised, retimed) = runs longer in
          let (lower, upper, clear) =
            longer_coefficient-clears go first second longer (elapsed 10) (elapsed longer) again
              timed raised retimed (alike 10 longer) in
          inr (
            first,
            longer,
            second,
            ran,
            again,
            reran,
            clear,
            rw (ran, again, reran, longer_coefficient-trusted go second clear, mutate_from) refl,
          )
    ]
