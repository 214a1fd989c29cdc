-- ===== src/Trap/Tests.antt =====
-- The timer's interrupt comes twice while two tasks are active.
use mk_os.Base.{ℕ, ◌≤◌, ◌≡◌, ◌∙◌, refl, arith, some, none, List, [], ◌∷◌, replicate, set}
use mk_os.Base.Run.{panic, no_handler, Ends}
use mk_os.Trap.Context.{
  registers, general, newline, general_lines, dump_cpu_context, dump_cpu_context-registers,
}
use mk_os.Kernel.{max_tasks, CpuCtx, Task, task_active, no_task}
use mk_os.Gic.{Gic, GicHandler}
use mk_os.Gic.Serve.{IsServed, Served}
use mk_os.Timer.{Machine, IrqHandler, timer_interrupt, timer_handler}
use mk_os.Timer.Tick.{Runs, Ticked, timer_handler-Ticked}
use mk_os.Trap.{trap_irq_from_el0_aa64, trap_sync_from_el0_aa64, no_handler_for}
use mk_os.Trap.Dispatch.{Ticks, trap_irq_from_el0_aa64-Served}
use mk_os.Trap.Preempt.{ticks, ticks-fair}
use mk_os.Trap.Syndrome.{
  translate_exception_syndrome, explain_class, parse_dabt, dabt_lower, translation_level_2,
  svc_aa64,
}
use mk_os.Fixtures.{Numbered-tid, numbered, kernel}
use mk_os.Gic

abbrev tasks : List Task
tasks =
    set (set (numbered 0 50) 3 (record no_task { tid = 3; state = task_active })) 7
      (record no_task { tid = 7; state = task_active })

abbrev machine : Machine
machine = record { kernel = kernel tasks (λ a. 0); timer_frequency = 100; msrs = [] }

machine-Runs : Runs 3 machine
machine-Runs = record {
  place = 7;
  running = record {
    current = refl;
    place = omega arith;
    numbered = λ i h. Numbered-tid tasks 0 i (omega arith) h ∙ omega arith;
  };
  active = refl;
}

abbrev controller : Gic IrqHandler Machine
controller = record {
  irq_handlers =
      set (replicate 32 Gic.no_handler) 30 (record { fcn = some timer_interrupt; arg = 0 });
  irq_count = 32;
  pending = 30 ∷ 30 ∷ [];
  writes = [];
  rest = machine;
}

thirty-IsServed : IsServed controller.irq_handlers 32 30
thirty-IsServed = record {
  handler = timer_interrupt;
  real = λ e. omega arith;
  known = omega arith;
  registered = refl;
}

timer_handler-Ticked_example : Ends (λ _ t. Ticked 3 machine t) (timer_handler machine)
timer_handler-Ticked_example = timer_handler-Ticked 3 machine machine-Runs

trap_irq_from_el0_aa64-Served_example :
    Ends
      (λ _ t.
        Served (Runs 3) (30 ∷ 30 ∷ []) controller t × Ticks 3 (30 ∷ 30 ∷ []) controller.rest t.rest)
      (trap_irq_from_el0_aa64 0 controller)
trap_irq_from_el0_aa64-Served_example =
    trap_irq_from_el0_aa64-Served 0 3 controller machine-Runs
      (thirty-IsServed, (thirty-IsServed, tt))

ticks-fair_example :
    (n : ℕ) × (n ≤ max_tasks) × Ends (λ _ t. t.rest.kernel.current ≡ some 3) (ticks n controller)
ticks-fair_example =
    ticks-fair 3 controller (omega arith) machine-Runs.running machine-Runs.active thirty-IsServed

-- a breakpoint stops the kernel
brk_run : trap_sync_from_el0_aa64 9 0xF2000000 machine.kernel ≡ panic no_handler
unfolding trap_sync_from_el0_aa64 no_handler_for
brk_run = refl

-- a translation fault at the second level
dabt_run : translate_exception_syndrome 0x92000006 ≡ (dabt_lower, some translation_level_2)
unfolding translate_exception_syndrome explain_class parse_dabt
dabt_run = refl

svc_run : translate_exception_syndrome 0x56000002 ≡ (svc_aa64, none)
unfolding translate_exception_syndrome explain_class
svc_run = refl

abbrev context : CpuCtx
context = record { gpr = replicate 30 7; lr = 1; sp = 2; spsr = 3; pc = 4 }

dump_cpu_context-registers_run : registers (dump_cpu_context context) ≡ replicate 30 7
dump_cpu_context-registers_run = dump_cpu_context-registers context refl

general_run : general_lines 3 1 context ≡ general 3 7 ∷ newline ∷ []
unfolding general_lines
general_run = refl
