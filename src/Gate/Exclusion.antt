-- ===== src/Gate/Exclusion.antt =====
-- internal/verify/gate.go: the callers inside, and the fields that count them.
use mathlib.Core.Path.{subst}
use levenshtein.Base.{
  ℕ, zero, suc, ◌+◌, ◌≤◌, ◌≡◌, refl, Bool, true, false, not, ◌&&◌, Option, none, some, List, [],
  ◌∷◌, map, arith, Option-cases, Bool-cases, inl, inr, ◌⊎◌,
}
use levenshtein.Gate.{
  Gate, idle_gate, Phase, outside, inside, blocked, Caller, may_enter, attempt, broadcast, arrive,
  abandon, leave, Action, arriving, retrying, abandoning, leaving, is_open, act_in, act, step_at,
  run_gate, newcomer,
}

abbrev pub is_inside : Phase → Bool
is_inside inside = true
is_inside _ = false

abbrev pub is_blocked : Phase → Bool
is_blocked (blocked channel) = true
is_blocked _ = false

abbrev pub bit : Bool → ℕ
bit true = 1
bit false = 0

abbrev pub reading : Bool → Phase → ℕ
reading x p = bit (is_inside p && not x)

abbrev pub writing : Bool → Phase → ℕ
writing x p = bit (is_inside p && x)

abbrev pub queueing : Bool → Phase → ℕ
queueing x p = bit (is_blocked p && x)

-- The fields of the gate, from the callers of each kind.
abbrev Balanced : ℕ → ℕ → ℕ → Gate → Type 0
Balanced r w q g =
    (g.readers ≡ r) × (bit g.writer ≡ w) × (g.queued ≡ q) × (g.writer ≡ true → g.readers ≡ 0)

-- With one caller apart from the others.
abbrev BalancedOne : ℕ → ℕ → ℕ → Bool → Gate × Phase → Type 0
BalancedOne r w q x s = Balanced (r + reading x s.1) (w + writing x s.1) (q + queueing x s.1) s.0

attempt-Balanced :
    (r w q : ℕ) (x : Bool) (g : Gate)
    → Balanced r w (q + bit x) g
    → BalancedOne r w q x (attempt x g)
unfolding attempt may_enter
attempt-Balanced r w q true g h = elim (Option-cases g.wake) [
  | inl none_ ↦ (ground (arith, h), ground (arith, h), ground (arith, h), λ e. ground (arith, h, e))
  | inr (c, some_) ↦
      (ground (arith, h), ground (arith, h), ground (arith, h), λ e. ground (arith, h, e))
]
attempt-Balanced r w q false g h = elim (Option-cases g.wake) [
  | inl none_ ↦ (ground (arith, h), ground (arith, h), ground (arith, h), λ e. ground (arith, h, e))
  | inr (c, some_) ↦
      (ground (arith, h), ground (arith, h), ground (arith, h), λ e. ground (arith, h, e))
]

arrive-Balanced :
    (r w q : ℕ) (x : Bool) (g : Gate) → Balanced r w q g → BalancedOne r w q x (arrive x g)
unfolding arrive
arrive-Balanced r w q true g h =
    attempt-Balanced r w q true (record g { queued = suc g.queued })
      (h.0, h.1, omega (arith, h.2), h.3)
arrive-Balanced r w q false g h = attempt-Balanced r w q false g (h.0, h.1, omega (arith, h.2), h.3)

abandon-Balanced :
    (r w q : ℕ) (x : Bool) (g : Gate) → Balanced r w (q + bit x) g → Balanced r w q (abandon x g)
unfolding abandon broadcast
abandon-Balanced r w q true g h = (h.0, h.1, omega (arith, h.2), h.3)
abandon-Balanced r w q false g h = (h.0, h.1, omega (arith, h.2), h.3)

leave-Balanced :
    (r w q : ℕ) (x : Bool) (g : Gate)
    → Balanced (r + bit (not x)) (w + bit x) q g
    → Balanced r w q (leave x g)
unfolding leave broadcast
leave-Balanced r w q true g h = (omega (arith, h.0), ground (arith, h.1), h.2, λ e. cc e)
leave-Balanced r w q false g h =
    (omega (arith, h.0), omega (arith, h.1), h.2, λ e. ground (arith, h.3 e))

-- What a caller does depends on its phase alone.
abbrev One : ℕ → ℕ → ℕ → Gate → Caller → Type 0
One r w q g c = BalancedOne r w q c.exclusive (g, c.phase)

abbrev OfResult : ℕ → ℕ → ℕ → Option (Gate × Caller) → Type 0
OfResult r w q none = Unit
OfResult r w q (some (g, c)) = One r w q g c

act_in-Balanced :
    (r w q : ℕ) (a : Action) (g : Gate) (c : Caller) (p : Phase) {g' : Gate} {c' : Caller}
    → act_in a g c p ≡ some (g', c')
    → BalancedOne r w q c.exclusive (g, p)
    → One r w q g' c'
unfolding act_in
act_in-Balanced r w q arriving g c outside h b = subst (OfResult r w q) h (
    arrive-Balanced r w q c.exclusive g
      (omega (arith, b.0), omega (arith, b.1), omega (arith, b.2), b.3))
act_in-Balanced r w q retrying g c (blocked n) h b = elim (Bool-cases (is_open g n)) [
  | inl waits ↦ absurd (cc (rw waits at h))
  | inr woken ↦
      subst (OfResult r w q) (rw woken at h)
        (attempt-Balanced r w q c.exclusive g (omega (arith, b.0), omega (arith, b.1), b.2, b.3))
]
act_in-Balanced r w q abandoning g c (blocked n) h b = subst (OfResult r w q) h (
    let k =
      abandon-Balanced r w q c.exclusive g (omega (arith, b.0), omega (arith, b.1), b.2, b.3) in
    (omega (arith, k.0), omega (arith, k.1), omega (arith, k.2), k.3))
act_in-Balanced r w q leaving g c inside h b = subst (OfResult r w q) h (
    let k = leave-Balanced r w q c.exclusive g (b.0, b.1, omega (arith, b.2), b.3) in
    (omega (arith, k.0), omega (arith, k.1), omega (arith, k.2), k.3))
act_in-Balanced r w q _ g c p h b = cc

act-Balanced :
    (r w q : ℕ) (a : Action) (g : Gate) (c : Caller) {g' : Gate} {c' : Caller}
    → act a g c ≡ some (g', c')
    → One r w q g c
    → One r w q g' c'
unfolding act
act-Balanced r w q a g c h b = act_in-Balanced r w q a g c c.phase h b

-- The callers of each kind.
abbrev total : (Caller → ℕ) → List Caller → ℕ
total f [] = 0
total f (c ∷ cs) = f c + total f cs

abbrev pub readers_inside : List Caller → ℕ
readers_inside cs = total (λ (c : Caller). reading c.exclusive c.phase) cs

abbrev pub writers_inside : List Caller → ℕ
writers_inside cs = total (λ (c : Caller). writing c.exclusive c.phase) cs

abbrev pub writers_waiting : List Caller → ℕ
writers_waiting cs = total (λ (c : Caller). queueing c.exclusive c.phase) cs

abbrev Whole : ℕ → ℕ → ℕ → Gate → List Caller → Type 0
Whole r w q g cs =
    Balanced (r + readers_inside cs) (w + writers_inside cs) (q + writers_waiting cs) g

abbrev OfCallers : ℕ → ℕ → ℕ → Option (Gate × List Caller) → Type 0
OfCallers r w q none = Unit
OfCallers r w q (some (g, cs)) = Whole r w q g cs

step_at-Balanced :
    (r w q : ℕ) (i : ℕ) (a : Action) (g : Gate) (cs : List Caller)
    → Whole r w q g cs
    → OfCallers r w q (step_at i a g cs)
unfolding step_at
step_at-Balanced r w q i a g [] b = tt
step_at-Balanced r w q zero a g (c ∷ cs) b = elim (Option-cases (act a g c)) [
  | inl stuck ↦ rw (stuck, OfCallers) tt
  | inr ((g', c'), e) ↦
      let k =
        act-Balanced (r + readers_inside cs) (w + writers_inside cs) (q + writers_waiting cs) a g c
          e (omega (arith, b.0), omega (arith, b.1), omega (arith, b.2), b.3) in
      rw (e, OfCallers) (omega (arith, k.0), omega (arith, k.1), omega (arith, k.2), k.3)
]
step_at-Balanced r w q (suc i) a g (c ∷ cs) b = elim (Option-cases (step_at i a g cs)) [
  | inl stuck ↦ rw (stuck, OfCallers) tt
  | inr ((g', cs'), e) ↦
      let start : Whole (r + reading c.exclusive c.phase) (w + writing c.exclusive c.phase)
          (q + queueing c.exclusive c.phase) g cs =
        (omega (arith, b.0), omega (arith, b.1), omega (arith, b.2), b.3) in
      let k : Whole (r + reading c.exclusive c.phase) (w + writing c.exclusive c.phase)
          (q + queueing c.exclusive c.phase) g' cs' =
        rw (e, OfCallers) at
          (step_at-Balanced (r + reading c.exclusive c.phase) (w + writing c.exclusive c.phase)
            (q + queueing c.exclusive c.phase) i a g cs start) in
      rw (e, OfCallers) (omega (arith, k.0), omega (arith, k.1), omega (arith, k.2), k.3)
]

pub run_gate-Balanced :
    (schedule : List (ℕ × Action)) (g : Gate) (cs : List Caller) {g' : Gate} {cs' : List Caller}
    → run_gate schedule g cs ≡ some (g', cs')
    → Whole 0 0 0 g cs
    → Whole 0 0 0 g' cs'
unfolding run_gate
run_gate-Balanced [] g cs h b = subst (OfCallers 0 0 0) h b
run_gate-Balanced ((i, a) ∷ schedule) g cs h b = elim (Option-cases (step_at i a g cs)) [
  | inl stuck ↦ absurd (cc (rw (stuck, run_gate) at h))
  | inr ((g1, cs1), e) ↦
      run_gate-Balanced schedule g1 cs1 (rw (e, run_gate) at h)
        (rw (e, OfCallers) at (step_at-Balanced 0 0 0 i a g cs b))
]

pub newcomers-Balanced : (xs : List Bool) → Whole 0 0 0 idle_gate (map newcomer xs)
newcomers-Balanced [] = (refl, refl, refl, λ e. refl)
newcomers-Balanced (x ∷ xs) =
    let k = newcomers-Balanced xs in
    (omega (arith, k.0), omega (arith, k.1), omega (arith, k.2), λ e. refl)

-- Under any schedule of callers that start outside, at most one exclusive caller is inside, no shared
-- caller is inside with it, and the gate counts the exclusive callers that wait.
pub run_gate-exclusive :
    (xs : List Bool) (schedule : List (ℕ × Action)) (g : Gate) (cs : List Caller)
    → run_gate schedule idle_gate (map newcomer xs) ≡ some (g, cs)
    → (writers_inside cs ≤ 1)
      × ((writers_inside cs ≡ 0) ⊎ (readers_inside cs ≡ 0))
      × (g.queued ≡ writers_waiting cs)
run_gate-exclusive xs schedule g cs h =
    let b = run_gate-Balanced schedule idle_gate (map newcomer xs) h (newcomers-Balanced xs) in
    (
      ground (arith, b.1),
      elim (Bool-cases g.writer) [
        | inl held ↦ inr (omega (arith, b.0, b.3 held))
        | inr free ↦ inl (ground (arith, b.1, free))
      ],
      omega (arith, b.2),
    )
