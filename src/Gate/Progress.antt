-- ===== src/Gate/Progress.antt =====
-- internal/verify/gate.go: who waits while nobody is inside.
use levenshtein.Base.{
  ℕ, ◌<◌, ◌≡◌, ap, ◌∙◌, Bool, true, false, not, ◌&&◌, some, List, [], ◌∷◌, map, any, ltb, arith,
  Bool-cases, inl, inr,
}
use levenshtein.Gate.{
  Gate, idle_gate, Phase, outside, inside, gone, blocked, Caller, may_enter, Action, is_open,
  run_gate, newcomer,
}
use levenshtein.Gate.Exclusion.{
  is_blocked, readers_inside, writers_inside, writers_waiting, run_gate-Balanced,
  newcomers-Balanced,
}
use levenshtein.Gate.Wakeup.{Waits, Woken, run_gate-Woken, newcomers-Woken}

abbrev pub waiting : Caller → Bool
waiting c = is_blocked c.phase

-- A caller that has been woken and would enter if it took its next turn now.
abbrev ready_in : Gate → Bool → Phase → Bool
ready_in g x (blocked n) = not (is_open g n) && may_enter x g
ready_in g x _ = false

abbrev pub ready : Gate → Caller → Bool
ready g c = ready_in g c.exclusive c.phase

ready_in_free :
    (g : Gate) (x : Bool) (p : Phase)
    → Waits x (g, p)
    → is_blocked p ≡ true
    → may_enter x g ≡ true
    → ready_in g x p ≡ true
ready_in_free g x (blocked n) w b e = elim (Bool-cases (is_open g n)) [
  | inl open_ ↦ absurd (ground (arith, w.1 open_, e))
  | inr closed ↦ ground (arith, closed, e)
]
ready_in_free g x outside w b e = cc b
ready_in_free g x inside w b e = cc b
ready_in_free g x gone w b e = cc b

-- A writer that waits for a free gate.
writer_ready :
    (g : Gate) (cs : List Caller)
    → may_enter true g ≡ true
    → Woken g cs
    → 0 < writers_waiting cs
    → any (ready g) cs ≡ true
writer_ready g [] e w h = elim h [ ]
writer_ready g (c ∷ cs) e w h = elim (Bool-cases (is_blocked c.phase && c.exclusive)) [
  | inl queued ↦
      let x : c.exclusive ≡ true = ground arith in
      ground (
        arith,
        ready_in_free g c.exclusive c.phase w.0 (ground arith) (ap (λ y. may_enter y g) x ∙ e),
      )
  | inr other ↦ ground (arith, writer_ready g cs e w.1 (ground arith))
]

-- A reader that waits for a free gate, where no writer waits.
reader_ready :
    (g : Gate) (cs : List Caller)
    → may_enter false g ≡ true
    → Woken g cs
    → writers_waiting cs ≡ 0
    → any waiting cs ≡ true
    → any (ready g) cs ≡ true
reader_ready g [] e w q h = cc h
reader_ready g (c ∷ cs) e w q h = elim (Bool-cases (is_blocked c.phase)) [
  | inl waits ↦
      let x : c.exclusive ≡ false = ground (arith, q) in
      ground (arith, ready_in_free g c.exclusive c.phase w.0 waits (ap (λ y. may_enter y g) x ∙ e))
  | inr other ↦ ground (arith, reader_ready g cs e w.1 (ground (arith, q)))
]

-- Under any schedule of callers that start outside: if nobody is inside and somebody waits, then one of
-- those who wait has been woken and would enter if it took its next turn now.
pub run_gate_progress :
    (xs : List Bool) (schedule : List (ℕ × Action)) (g : Gate) (cs : List Caller)
    → run_gate schedule idle_gate (map newcomer xs) ≡ some (g, cs)
    → readers_inside cs ≡ 0
    → writers_inside cs ≡ 0
    → any waiting cs ≡ true
    → any (ready g) cs ≡ true
run_gate_progress xs schedule g cs h r w some_ =
    let b = run_gate-Balanced schedule idle_gate (map newcomer xs) h (newcomers-Balanced xs) in
    let woken =
      run_gate-Woken schedule idle_gate (map newcomer xs) g cs h (λ n o. cc o)
        (newcomers-Woken xs) in
    let free : g.writer ≡ false = ground (arith, b.1, w) in
    elim (Bool-cases (ltb 0 (writers_waiting cs))) [
      | inl queued ↦
          writer_ready g cs (unfold may_enter in ground (arith, b.0, r, free)) woken (ground arith)
      | inr nobody ↦
          reader_ready g cs (unfold may_enter in ground (arith, b.2, free)) woken (ground arith)
            some_
    ]
