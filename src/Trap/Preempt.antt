-- ===== src/Trap/Preempt.antt =====
-- The timer's interrupts take the processor from task to task.
use mk_os.Base.{ℕ, zero, suc, ◌≤◌, ◌<◌, ◌≡◌, refl, ap, sym, ◌∙◌, some, [], ◌∷◌}
use mathlib.Core.Path.{subst}
use mk_os.Base.Run.{ok, Cmd, pure, and_then, ◌>>◌, Ends, ends, Ends-ok, Ends_at, Ends-after}
use mk_os.Kernel.{Kernel, max_tasks}
use mk_os.Task.{task_next}
use mk_os.Task.Turns.{Active, IsRunning, task_next-Ends}
use mk_os.Task.Fair.{turns, turns-fair}
use mk_os.Gic.{Gic, gicc_reg, gicc_eoir, iowrite32}
use mk_os.Gic.Serve.{IsServed, gic_handle_irq-one}
use mk_os.Timer.{Machine, IrqHandler, invoke}
use mk_os.Timer.Tick.{after_tick, invoke-task_next}
use mk_os.Trap.{irq_for, trap_irq_from_el0_aa64}

abbrev Controller : Type 0
Controller = Gic IrqHandler Machine

-- The timer's interrupt, number 30, becomes pending while a task runs.
abbrev pub tick : Cmd Controller (Unit {0})
tick g = trap_irq_from_el0_aa64 0 (record g { pending = 30 ∷ [] })

abbrev pub ticks : ℕ → Cmd Controller (Unit {0})
ticks zero = pure tt
ticks (suc n) = tick >> ticks n

abbrev ticked : Controller → Kernel → Controller
ticked g l =
    iowrite32 (gicc_reg gicc_eoir) 30 (record g { pending = []; rest = after_tick g.rest l })

-- A tick is a call of `task_next`.
tick-task_next :
    (g : Controller) (c : ℕ) (l : Kernel)
    → g.rest.kernel.current ≡ some c
    → IsServed g.irq_handlers g.irq_count 30
    → task_next g.rest.kernel ≡ ok tt l
    → tick g ≡ ok tt (ticked g l)
unfolding trap_irq_from_el0_aa64
tick-task_next g c l current served e =
    ap (λ o. irq_for o (record g { pending = 30 ∷ [] })) current
    ∙ gic_handle_irq-one invoke (record g { pending = 30 ∷ [] }) 30 served (after_tick g.rest l)
        refl (invoke-task_next served.handler _ g.rest l e)

module _ (j : ℕ) where
  -- What `n` calls of `task_next` lead to, `n` ticks lead to.
  ticks-turns :
      {P : Kernel → Type 0} (n : ℕ) (g : Controller) {c : ℕ}
      → IsRunning g.rest.kernel c
      → Active g.rest.kernel.tasks j
      → IsServed g.irq_handlers g.irq_count 30
      → Ends (λ _ l. P l) (turns n g.rest.kernel)
      → Ends (λ _ t. P t.rest.kernel) (ticks n g)
  ticks-turns zero g r a served e = ends (Ends_at refl e)
  ticks-turns {P} (suc n) g {c} r a served e =
      let (x, l, next, (d, f, (same, running))) = Ends-ok (task_next-Ends r j a) in
      let rest : Ends (λ _ l. P l) (turns n l) =
        subst (λ q. Ends (λ _ l. P l) (and_then q (λ _. turns n))) next e in
      Ends-after (λ _. ticks n) (tick-task_next g c l r.current served next)
        (ticks-turns n (ticked g l) running (subst (λ q. Active q.tasks j) (sym same) a) served
          rest)

  -- While a task is current and the timer's interrupt has its handler, an active task becomes the
  -- current one within as many interrupts of the timer, one after the other, as the table of tasks
  -- has places.
  pub ticks-fair :
      (g : Controller) {c : ℕ}
      → j < max_tasks
      → IsRunning g.rest.kernel c
      → Active g.rest.kernel.tasks j
      → IsServed g.irq_handlers g.irq_count 30
      → (n : ℕ) × (n ≤ max_tasks) × Ends (λ _ t. t.rest.kernel.current ≡ some j) (ticks n g)
  ticks-fair g h r a served =
      let (n, few, e) = turns-fair j h r a in (n, few, ticks-turns n g r a served e)
