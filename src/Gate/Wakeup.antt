-- ===== src/Gate/Wakeup.antt =====
-- internal/verify/gate.go: the channels that callers wait for.
use mathlib.Core.Path.{subst}
use levenshtein.Base.{
  ℕ, zero, suc, ◌<◌, ◌≡◌, refl, sym, Bool, true, false, Option, none, some, List, [], ◌∷◌, map, All,
  All-weaken, arith, Option-cases, Bool-cases, inl, inr,
}
use levenshtein.Gate.{
  Gate, idle_gate, Phase, outside, inside, gone, blocked, Caller, may_enter, attempt, broadcast,
  arrive, abandon, leave, Action, arriving, retrying, abandoning, leaving, is_open, act_in, act,
  step_at, run_gate, newcomer,
}

-- A channel that somebody waits for is one of those made so far; while it is open, a caller of this kind
-- could not enter.
abbrev Held : Bool → Gate → ℕ → Type 0
Held x g n = (n < g.fresh) × (is_open g n ≡ true → may_enter x g ≡ false)

abbrev pub Waits : Bool → Gate × Phase → Type 0
Waits x (g, blocked n) = Held x g n
Waits x (g, outside) = Unit
Waits x (g, inside) = Unit
Waits x (g, gone) = Unit

abbrev Made : Gate → Type 0
Made g = (n : ℕ) → is_open g n ≡ true → n < g.fresh

-- What a step does to the callers that do not take it.
abbrev Keeps : Gate → Gate → Type 0
Keeps g g' = (x : Bool) (n : ℕ) → Held x g n → Held x g' n

abbrev Fine : Bool → Gate → Gate × Phase → Type 0
Fine x g s = Made s.0 × Keeps g s.0 × Waits x s

enters-Fine : (x : Bool) (g : Gate) → Made g → may_enter x g ≡ true → Fine x g (attempt x g)
unfolding attempt
enters-Fine true g m enters =
    rw enters (m, (λ y n k. (k.0, λ o. unfold may_enter in ground arith)), tt)
enters-Fine false g m enters =
    rw enters (m, (λ y n k. (k.0, λ o. unfold may_enter in ground (arith, k.1 o))), tt)

new_channel-Fine :
    (x : Bool) (g : Gate)
    → g.wake ≡ none
    → may_enter x g ≡ false
    → Fine x g (record g { wake = some g.fresh; fresh = suc g.fresh }, blocked g.fresh)
unfolding may_enter
new_channel-Fine true g e stays = (
  λ n o. ground arith,
  λ y n k. (omega (arith, k.0), λ o. absurd (ground (arith, k.0))),
  (omega arith, λ o. stays),
)
new_channel-Fine false g e stays = (
  λ n o. ground arith,
  λ y n k. (omega (arith, k.0), λ o. absurd (ground (arith, k.0))),
  (omega arith, λ o. stays),
)

attempt-new :
    (x : Bool) (g : Gate)
    → g.wake ≡ none
    → may_enter x g ≡ false
    → attempt x g ≡ (record g { wake = some g.fresh; fresh = suc g.fresh }, blocked g.fresh)
unfolding attempt
attempt-new x g none_ stays = rw (stays, none_) refl

attempt-old :
    (x : Bool) (g : Gate) (n : ℕ)
    → g.wake ≡ some n
    → may_enter x g ≡ false
    → attempt x g ≡ (g, blocked n)
unfolding attempt
attempt-old x g n some_ stays = ground (arith, some_, stays)

attempt-Fine : (x : Bool) (g : Gate) → Made g → Fine x g (attempt x g)
attempt-Fine x g m = elim (Bool-cases (may_enter x g)) [
  | inl enters ↦ enters-Fine x g m enters
  | inr stays ↦ elim (Option-cases g.wake) [
    | inl none_ ↦
        subst (Fine x g) (sym (attempt-new x g none_ stays)) (new_channel-Fine x g none_ stays)
    | inr (n, some_) ↦
        subst (Fine x g) (sym (attempt-old x g n some_ stays))
          (m, (λ y k h. h), (m n (ground arith), λ o. stays))
  ]
]

enqueue-Keeps : (g : Gate) → Keeps g (record g { queued = suc g.queued })
unfolding may_enter
enqueue-Keeps g true n k = (k.0, λ o. ground (arith, k.1 o))
enqueue-Keeps g false n k = (k.0, λ o. ground arith)

arrive-Fine : (x : Bool) (g : Gate) → Made g → Fine x g (arrive x g)
unfolding arrive
arrive-Fine true g m =
    let (m', k, w) = attempt-Fine true (record g { queued = suc g.queued }) m in
    (m', λ y n h. k y n (enqueue-Keeps g y n h), w)
arrive-Fine false g m = attempt-Fine false g m

abandon-Fine : (x : Bool) (g : Gate) → Made g → Fine x g (abandon x g, gone)
unfolding abandon broadcast
abandon-Fine true g m = (λ n o. cc o, λ y n h. (h.0, λ o. cc o), tt)
abandon-Fine false g m = (m, λ y n h. h, tt)

leave-Fine : (x : Bool) (g : Gate) → Made g → Fine x g (leave x g, gone)
unfolding leave broadcast
leave-Fine true g m = (λ n o. cc o, λ y n h. (h.0, λ o. cc o), tt)
leave-Fine false g m = (λ n o. cc o, λ y n h. (h.0, λ o. cc o), tt)

abbrev OfResult : Gate → Option (Gate × Caller) → Type 0
OfResult g none = Unit
OfResult g (some (g', c)) = Fine c.exclusive g (g', c.phase)

act_in-Fine :
    (a : Action) (g : Gate) (c : Caller) (p : Phase) → Made g → OfResult g (act_in a g c p)
unfolding act_in
act_in-Fine arriving g c outside m = arrive-Fine c.exclusive g m
act_in-Fine retrying g c (blocked n) m = elim (Bool-cases (is_open g n)) [
  | inl waits ↦ rw (waits, OfResult) tt
  | inr woken ↦ rw (woken, OfResult) (attempt-Fine c.exclusive g m)
]
act_in-Fine abandoning g c (blocked n) m = abandon-Fine c.exclusive g m
act_in-Fine leaving g c inside m = leave-Fine c.exclusive g m
act_in-Fine _ g c p m = tt

-- Every caller of a list waits well.
abbrev pub Woken : Gate → List Caller → Type 0
Woken g cs = All (λ (c : Caller). Waits c.exclusive (g, c.phase)) cs

Waits-Keeps : (x : Bool) (g g' : Gate) (p : Phase) → Keeps g g' → Waits x (g, p) → Waits x (g', p)
Waits-Keeps x g g' (blocked n) k h = k x n h
Waits-Keeps x g g' outside k h = tt
Waits-Keeps x g g' inside k h = tt
Waits-Keeps x g g' gone k h = tt

abbrev OfCallers : Gate → Option (Gate × List Caller) → Type 0
OfCallers g none = Unit
OfCallers g (some (g', cs)) = Made g' × Keeps g g' × Woken g' cs

act-Fine : (a : Action) (g : Gate) (c : Caller) → Made g → OfResult g (act a g c)
unfolding act
act-Fine a g c m = act_in-Fine a g c c.phase m

step_at-Woken :
    (i : ℕ) (a : Action) (g : Gate) (cs : List Caller)
    → Made g
    → Woken g cs
    → OfCallers g (step_at i a g cs)
unfolding step_at
step_at-Woken i a g [] m w = tt
step_at-Woken zero a g (c ∷ cs) m w = elim (Option-cases (act a g c)) [
  | inl stuck ↦ rw (stuck, OfCallers) tt
  | inr ((g', c'), e) ↦
      let (m', k, here) : Fine c'.exclusive g (g', c'.phase) =
        subst (OfResult g) e (act-Fine a g c m) in
      let rest : Woken g' cs =
        All-weaken (λ (d : Caller). Waits d.exclusive (g, d.phase))
          (λ (d : Caller). Waits d.exclusive (g', d.phase)) cs
          (λ d h. Waits-Keeps d.exclusive g g' d.phase k h) w.1 in
      rw (e, OfCallers) (m', k, (here, rest))
]
step_at-Woken (suc i) a g (c ∷ cs) m w = elim (Option-cases (step_at i a g cs)) [
  | inl stuck ↦ rw (stuck, OfCallers) tt
  | inr ((g', cs'), e) ↦
      let (m', k, rest) : Made g' × Keeps g g' × Woken g' cs' =
        subst (OfCallers g) e (step_at-Woken i a g cs m w.1) in
      rw (e, OfCallers) (m', k, (Waits-Keeps c.exclusive g g' c.phase k w.0, rest))
]

abbrev WokenIn : Option (Gate × List Caller) → Type 0
WokenIn none = Unit
WokenIn (some (g, cs)) = Woken g cs

pub run_gate-Woken :
    (schedule : List (ℕ × Action)) (g : Gate) (cs : List Caller) (g' : Gate) (cs' : List Caller)
    → run_gate schedule g cs ≡ some (g', cs')
    → Made g
    → Woken g cs
    → Woken g' cs'
unfolding run_gate
run_gate-Woken [] g cs g' cs' h m w = subst WokenIn h w
run_gate-Woken ((i, a) ∷ schedule) g cs g' cs' h m w = elim (Option-cases (step_at i a g cs)) [
  | inl stuck ↦ absurd (cc (rw (stuck, run_gate) at h))
  | inr ((g1, cs1), e) ↦
      let (m1, k, w1) : Made g1 × Keeps g g1 × Woken g1 cs1 =
        subst (OfCallers g) e (step_at-Woken i a g cs m w) in
      run_gate-Woken schedule g1 cs1 g' cs' (rw (e, run_gate) at h) m1 w1
]

pub newcomers-Woken : (xs : List Bool) → Woken idle_gate (map newcomer xs)
newcomers-Woken [] = tt
newcomers-Woken (x ∷ xs) = (tt, newcomers-Woken xs)
