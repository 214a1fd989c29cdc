-- ===== src/Timer.antt =====
-- kernel/drivers/timer.c: the timer, as the values written to its registers in order.
pub mod Tick
use mk_os.Base.{ℕ, ◌/◌, List, [], ◌∷◌, ◌++◌}
use mk_os.Base.Run.{Run, ok, panic, fault, out_of_fuel, Cmd, and_then}
use mk_os.Kernel.{Kernel}
use mk_os.Task.{task_next}
use mk_os.Gic.{Gic, gic_register_irq}

-- the registers that timer.c writes
pub data TimerReg : Type 0 where
  cntp_ctl_el0 cntp_cval_el0 cntp_tval_el0 : TimerReg

-- the kernel with the timer: `timer_frequency` and the writes so far
pub record Machine : Type 0 where
  pub kernel : Kernel
  pub timer_frequency : ℕ
  pub msrs : List (TimerReg × ℕ)

abbrev pub config_timer_freq : ℕ
config_timer_freq = 1

abbrev pub msr : List (TimerReg × ℕ) → Machine → Machine
msr ws m = record m { msrs = m.msrs ++ ws }

-- the writes that set the timer to go off once more
abbrev pub next_tick : ℕ → List (TimerReg × ℕ)
next_tick frequency =
    (cntp_cval_el0, 0) ∷ (cntp_tval_el0, frequency / config_timer_freq) ∷ (cntp_ctl_el0, 1) ∷ []

-- a call into the kernel
pub in_kernel : {A : Type 0} → Machine → Run Kernel A → Run Machine A
in_kernel m (ok a k) = ok a (record m { kernel = k })
in_kernel m (panic why) = panic why
in_kernel m fault = fault
in_kernel m out_of_fuel = out_of_fuel

-- the only handler of an interrupt that the kernel registers
pub data IrqHandler : Type 0 where
  timer_interrupt : IrqHandler

unfoldable pub timer_handler : Cmd Machine (Unit {0})
unfolding in_kernel
timer_handler m =
    let t = msr ((cntp_ctl_el0, 0) ∷ next_tick m.timer_frequency) m in
    in_kernel t (task_next t.kernel)

pub invoke : IrqHandler → ℕ → Cmd Machine (Unit {0})
unfolding timer_handler
invoke timer_interrupt arg = timer_handler

-- the value read from CNTFRQ_EL0 is given; the timer's interrupt is number 30
unfoldable pub timer_init : ℕ → Cmd (Gic IrqHandler Machine) (Unit {0})
timer_init frequency g =
    let before : Machine =
      msr ((cntp_cval_el0, 0) ∷ (cntp_tval_el0, frequency / config_timer_freq) ∷ [])
        (record g.rest { timer_frequency = frequency }) in
    and_then (gic_register_irq 30 timer_interrupt 0 (record g { rest = before }))
      (λ _ h. ok tt (record h { rest = msr ((cntp_ctl_el0, 1) ∷ []) h.rest }))

unfoldable pub timer_restart : Machine → Machine
timer_restart m = msr ((cntp_ctl_el0, 0) ∷ next_tick m.timer_frequency) m

-- the registers that `timer_dump` reads, which are printed only where debug messages are
pub data DumpedReg : Type 0 where
  cntfrq_el0 cntkctl_el1 cntp_ctl cntp_cval cntp_tval cntpct_el0 : DumpedReg

abbrev pub timer_dump : List DumpedReg
timer_dump = cntfrq_el0 ∷ cntkctl_el1 ∷ cntp_ctl ∷ cntp_cval ∷ cntp_tval ∷ cntpct_el0 ∷ []
