-- ===== src/Task/Fair.antt =====
-- Every active task comes to its turn.
use mk_os.Base.{
  ℕ, zero, suc, ◌+◌, ◌-◌, ◌%◌, ◌≤◌, ◌<◌, ◌≡◌, ap, sym, ◌∙◌, arith, inl, inr, some, ltb, Bool-cases,
}
use mathlib.Core.Path.{subst}
use mk_os.Base.Run.{Cmd, pure, ◌>>◌, Ends, ends, Ends-ok, Ends-after}
use mk_os.Kernel.{Kernel, max_tasks}
use mk_os.Task.{task_next}
use mk_os.Task.Turns.{Active, Active-around, IsNext, IsRunning, task_next-Ends}

-- `n` calls of `task_next`
abbrev pub turns : ℕ → Cmd Kernel (Unit {0})
turns zero = pure tt
turns (suc n) = task_next >> turns n

-- how many places the task `j` is behind the one after `c`
abbrev gap : (c j : ℕ) → ℕ
gap c j = (j + 49 - c) % max_tasks

-- after at most `m` calls the task `j` has been current at the end of one
abbrev pub Comes : ℕ → ℕ → Kernel → Type 0
Comes m j k = (n : ℕ) × (n ≤ m) × Ends (λ _ l. l.current ≡ some j) (turns n k)

module _ (j : ℕ) (hj : j < max_tasks) where
  step_le :
      {k : Kernel} {c d : ℕ}
      → IsRunning k c
      → Active k.tasks j
      → (f : IsNext k.tasks (c + 1) max_tasks d) → f.step ≤ gap c j
  step_le {k} {c} r a f = elim (Bool-cases (ltb (gap c j) f.step)) [
    | inl beyond ↦ absurd (
        f.first (gap c j) (ground arith)
          (Active-around k.tasks j (c + 1 + gap c j) (omega (arith, r.place)) a))
    | inr within ↦ ground arith
  ]

  comes :
      (m : ℕ) {k : Kernel} {c : ℕ} → IsRunning k c → Active k.tasks j → gap c j < m → Comes m j k
  comes zero r a h = absurd (omega arith)
  comes (suc m) {k} {c} r a h =
      let (x, l, e, (d, f, (same, running))) = Ends-ok (task_next-Ends r j a) in
      let le = step_le r a f in
      elim (Bool-cases (ltb f.step (gap c j))) [
        | inr arrived ↦
            let last : f.step ≡ gap c j = ground (arith, le) in
            let here : d ≡ j = omega (arith, f.place, r.place, last) in
            (1, omega arith, Ends-after (λ _. turns 0) e (ends (running.current ∙ ap some here)))
        | inl before ↦
            let before_lt : f.step < gap c j = ground arith in
            let closer : gap d j < m = omega (arith, f.place, r.place, le, before_lt) in
            let (n, small, after) =
              comes m running (subst (λ q. Active q.tasks j) (sym same) a) closer in
            (suc n, omega arith, Ends-after (λ _. turns n) e after)
      ]

  -- An active task becomes the current one within as many calls of `task_next`, one after the
  -- other, as the table has places.
  pub turns-fair : {k : Kernel} {c : ℕ} → IsRunning k c → Active k.tasks j → Comes max_tasks j k
  turns-fair r a = comes max_tasks r a (omega arith)
