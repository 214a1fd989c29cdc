-- ===== src/Trap/Svc.antt =====
-- System calls on their way through the trap handler.
use mk_os.Base.{ℕ, ◌+◌, ◌*◌, ◌^◌, ◌<◌, ◌≡◌, ==_of_eq, some, ap, arith}
use mk_os.Kernel.{Kernel}
use mk_os.Syscalls.{do_syscall}
use mk_os.Trap.{exception_class, syndrome, svc_from_aa64, syscall_for, trap_sync_from_el0_aa64}

-- The syndrome that the processor gives for `svc #n` in 64-bit code: the class, the bit for an
-- instruction of 32 bits, and the number.
abbrev pub svc_esr : ℕ → ℕ
svc_esr n = 0x15 * 2 ^ 26 + 2 ^ 25 + n

-- An instruction `svc #n` of the current task is the system call `n` for that task.
pub trap_sync_from_el0_aa64-svc :
    (fuel n i : ℕ) (k : Kernel)
    → n < 2 ^ 16
    → k.current ≡ some i
    → trap_sync_from_el0_aa64 fuel (svc_esr n) k ≡ do_syscall fuel n i k
unfolding trap_sync_from_el0_aa64 syscall_for
trap_sync_from_el0_aa64-svc fuel n i k h running =
    let class : exception_class (svc_esr n) ≡ svc_from_aa64 = omega arith in
    let number : syndrome (svc_esr n) ≡ n = omega arith in
    rw (==_of_eq class, number) (ap (λ c. syscall_for fuel n c k) running)
