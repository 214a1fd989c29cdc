-- ===== src/Timer/Tick.antt =====
-- The timer's interrupt moves to another task and sets the timer again.
use mk_os.Base.{ap, ℕ, ◌+◌, ◌%◌, ◌≡◌, refl, sym, ◌∙◌, ◌++◌, ◌∷◌, []}
use mathlib.Core.Path.{subst}
use mk_os.Base.Run.{ok, Ends, ends, Ends-ok, Ends-mono}
use mk_os.Task.{task_next}
use mk_os.Kernel.{Kernel, max_tasks}
use mk_os.Task.Turns.{Active, IsNext, IsRunning, task_next-Ends}
use mk_os.Timer.{
  Machine, IrqHandler, timer_interrupt, in_kernel, next_tick, cntp_ctl_el0, timer_handler, invoke,
  msr,
}

-- A task is current, and `j` is active.
pub record Runs (j : ℕ) (m : Machine) : Type 0 where
  pub place : ℕ
  pub running : IsRunning m.kernel place
  pub active : Active m.kernel.tasks j

-- What a tick does to the machine `m`: the timer is set to go off again, and the next active task
-- is current.
pub record Ticked (j : ℕ) (m t : Machine) : Type 0 where
  pub runs : Runs j t
  pub armed : t.msrs ≡ m.msrs ++ (cntp_ctl_el0, 0) ∷ next_tick m.timer_frequency
  pub from : ℕ
  pub was : m.kernel.current ≡ mk_os.Base.some from
  pub next : IsNext m.kernel.tasks (from + 1) max_tasks runs.place

-- While a task is current and one is active, the timer's interrupt sets the timer again and makes
-- the next active task current.
pub timer_handler-Ticked :
    (j : ℕ) (m : Machine) → Runs j m → Ends (λ _ t. Ticked j m t) (timer_handler m)
unfolding timer_handler in_kernel
timer_handler-Ticked j m r =
    let (x, l, eq, (d, f, (same, running))) = Ends-ok (task_next-Ends r.running j r.active) in
    rw eq (
      ends (record {
        runs = record {
          place = d;
          running = running;
          active = subst (λ (k : Kernel). Active k.tasks j) (sym same) r.active;
        };
        armed = refl;
        from = r.place;
        was = r.running.current;
        next = f;
      }))

pub invoke-Ticked :
    (j : ℕ) (h : IrqHandler) (arg : ℕ) (m : Machine)
    → Runs j m
    → Ends (λ _ t. Ticked j m t) (invoke h arg m)
unfolding invoke
invoke-Ticked j timer_interrupt arg m r = timer_handler-Ticked j m r

pub invoke-Runs :
    (j : ℕ) (h : IrqHandler) (arg : ℕ) (m : Machine)
    → Runs j m
    → Ends (λ _ t. Runs j t) (invoke h arg m)
invoke-Runs j h arg m r = Ends-mono (invoke-Ticked j h arg m r) λ x t ticked. ticked.runs

-- what a tick leaves, where `task_next` leaves `l`
abbrev pub after_tick : Machine → Kernel → Machine
after_tick m l = record (msr ((cntp_ctl_el0, 0) ∷ next_tick m.timer_frequency) m) { kernel = l }

pub invoke-task_next :
    (h : IrqHandler) (arg : ℕ) (m : Machine) (l : Kernel)
    → task_next m.kernel ≡ ok tt l
    → invoke h arg m ≡ ok tt (after_tick m l)
unfolding invoke timer_handler in_kernel
invoke-task_next timer_interrupt arg m l e =
    ap (in_kernel (msr ((cntp_ctl_el0, 0) ∷ next_tick m.timer_frequency) m)) e
