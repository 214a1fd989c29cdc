-- ===== src/Trap.antt =====
-- kernel/core/trap.c: exceptions and interrupts, by the level that they come from.
pub mod Syndrome
pub mod Dispatch
pub mod Preempt
pub mod Context
pub mod Svc
mod Tests
use mk_os.Base.{ℕ, ◌/◌, ◌%◌, ◌^◌, Option, none, some, length, ltb, ◌==◌, if◌then◌else◌}
use mk_os.Base.Run.{Run, ok, panic, fault, out_of_fuel, no_handler, kernel_panic, Cmd}
use mk_os.Kernel.{Kernel}
use mk_os.Syscalls.{do_syscall, syscall_handlers}
use mk_os.Gic.{Gic, gic_handle_irq}
use mk_os.Timer.{Machine, IrqHandler, in_kernel, invoke}

-- `esr >> 26` in an `int`, as far as it is compared with small numbers
abbrev pub exception_class : ℕ → ℕ
exception_class esr = esr / 2 ^ 26 % 2 ^ 32

-- `esr & 0x1FFFFFF`
abbrev pub syndrome : ℕ → ℕ
syndrome esr = esr % 2 ^ 25

abbrev pub svc_from_aa64 : ℕ
svc_from_aa64 = 0x15

-- `do_syscall` for the current task; the handlers read through the pointer, which may be null
pub syscall_for : (fuel num : ℕ) → Option ℕ → Cmd Kernel (Unit {0})
syscall_for fuel num (some i) k = do_syscall fuel num i k
syscall_for fuel num none k = if ltb (length syscall_handlers) num then ok tt k else fault

-- The message names the current task.
pub no_handler_for : Option ℕ → Run Kernel (Unit {0})
no_handler_for (some i) = panic no_handler
no_handler_for none = fault

pub trap_sync_from_el0_aa64 : (fuel esr : ℕ) → Cmd Kernel (Unit {0})
unfolding syscall_for no_handler_for
trap_sync_from_el0_aa64 fuel esr k =
    if exception_class esr == svc_from_aa64
    then syscall_for fuel (syndrome esr) k.current k
    else no_handler_for k.current

unfoldable pub trap_irq_from_el1_aa64 : ℕ → Cmd (Gic IrqHandler Machine) (Unit {0})
trap_irq_from_el1_aa64 esr = gic_handle_irq invoke

-- The message names the current task.
abbrev pub irq_for : Option ℕ → Cmd (Gic IrqHandler Machine) (Unit {0})
irq_for none g = fault
irq_for (some i) g = gic_handle_irq invoke g

unfoldable pub trap_irq_from_el0_aa64 : ℕ → Cmd (Gic IrqHandler Machine) (Unit {0})
trap_irq_from_el0_aa64 esr g = irq_for g.rest.kernel.current g

unfoldable pub trap_fiq_from_el0_aa64 : ℕ → Cmd (Gic IrqHandler Machine) (Unit {0})
unfolding trap_irq_from_el0_aa64
trap_fiq_from_el0_aa64 = trap_irq_from_el0_aa64

-- only messages
unfoldable pub trap_serror_from_el0_aa64 : ℕ → Cmd Kernel (Unit {0})
trap_serror_from_el0_aa64 esr k = elim k.current [ none ↦ fault | some i ↦ ok tt k ]

unfoldable pub trap_sync_from_el1_sp1 : ℕ → Cmd Kernel (Unit {0})
trap_sync_from_el1_sp1 esr k = panic kernel_panic

unfoldable pub trap_serror_from_el1_sp1 : ℕ → Cmd Kernel (Unit {0})
trap_serror_from_el1_sp1 esr k = panic kernel_panic
