-- ===== src/Trap/Dispatch.antt =====
-- Interrupts from user mode are served by their handler, and keep the kernel running.
use mk_os.Base.{ℕ, ap, sym, List, [], ◌∷◌}
use mathlib.Core.Path.{subst}
use mk_os.Base.Run.{Ends, Ends-mono, Ends_at, Ends-both}
use mk_os.Gic.{Gic, GicHandler}
use mk_os.Gic.Serve.{
  AllServed, Served, Called, no_call, one_call, gic_handle_irq-Served, gic_handle_irq-Called,
}
use mk_os.Timer.{Machine, IrqHandler, timer_interrupt, invoke}
use mk_os.Timer.Tick.{Runs, Ticked, invoke-Ticked, invoke-Runs}
use mk_os.Trap.{irq_for, trap_irq_from_el0_aa64}

-- one tick of the timer for each of the interrupts, from the machine `m` to `t`
pub data Ticks (j : ℕ) : List ℕ → Machine → Machine → Type 0 where
  no_tick : {m : Machine} → Ticks j [] m m
  tick :
      {r : ℕ} {rs : List ℕ} {m n t : Machine} → Ticked j m n → Ticks j rs n t → Ticks j (r ∷ rs) m t

-- Every handler is the timer's.
Called-Ticks :
    (j : ℕ) (hs : List (GicHandler IrqHandler)) {rs : List ℕ} {m t : Machine}
    → Runs j m
    → Called invoke hs rs m t
    → Ticks j rs m t
Called-Ticks j hs r no_call = no_tick
Called-Ticks j hs r (one_call timer_interrupt known e later) =
    let d = Ends_at e (invoke-Ticked j timer_interrupt _ _ r) in
    tick d (Called-Ticks j hs d.runs later)

-- While a task is current and one is active, and each pending interrupt has a handler, an interrupt
-- from user mode ends. For each interrupt that was pending, in their order, the timer has been set
-- again and the next active task has become current, which one still is; all of them have been
-- ended, and none is pending.
pub trap_irq_from_el0_aa64-Served :
    (esr j : ℕ) (g : Gic IrqHandler Machine)
    → Runs j g.rest
    → AllServed g.irq_handlers g.irq_count g.pending
    → Ends
        (λ _ t. Served (Runs j) g.pending g t × Ticks j g.pending g.rest t.rest)
        (trap_irq_from_el0_aa64 esr g)
unfolding trap_irq_from_el0_aa64
trap_irq_from_el0_aa64-Served esr j g r a =
    let both =
      Ends-both (gic_handle_irq-Served (Runs j) invoke (invoke-Runs j) g r a)
        (gic_handle_irq-Called (Runs j) invoke (invoke-Runs j) g r a) in
    subst (Ends λ _ t. Served (Runs j) g.pending g t × Ticks j g.pending g.rest t.rest)
      (sym (ap (λ o. irq_for o g) r.running.current))
      (Ends-mono both λ x t (served, calls). (served, Called-Ticks j g.irq_handlers r calls))
