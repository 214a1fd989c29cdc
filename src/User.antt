-- ===== src/User.antt =====
-- The user's side of a system call: userspace/include/syscall.h, userspace/libc/stdio.c and crt1.c,
-- and the program userspace/app1/app.c.
pub mod Output
mod Tests
use mk_os.Base.{ℕ, get_or, set}
use mk_os.Base.Run.{Run, ok, Cmd, and_then}
use mk_os.Kernel.{Task, Kernel, task, set_task}
use mk_os.Trap.{trap_sync_from_el0_aa64}
use mk_os.Trap.Svc.{svc_esr}

-- the registers of a task, as its context keeps them while the kernel runs
abbrev pub put_register : (r v : ℕ) → Task → Task
put_register r v t = record t { ctx = record t.ctx { gpr = set t.ctx.gpr r v } }

abbrev pub get_register : ℕ → Task → ℕ
get_register q t = get_or t.ctx.gpr q 0

-- The current task `i` with its argument in register `r`
abbrev pub with_argument : (r i a1 : ℕ) → Kernel → Kernel
with_argument r i a1 k = set_task i (put_register r a1 (task k i)) k

-- The constraints "r"(a1) and "=r"(rv) leave the registers `r` and `q` to the compiler, and `fuel`
-- bounds a string that is printed.
module _ (fuel r q i : ℕ) where
  -- `SYSCALL1(n)`, for a call that comes back to the task
  unfoldable pub syscall1 : (n a1 : ℕ) → Cmd Kernel ℕ
  syscall1 n a1 k =
      and_then (trap_sync_from_el0_aa64 fuel (svc_esr n) (with_argument r i a1 k))
        (λ _ l. ok (get_register q (task l i)) l)

  -- `puts` of the C library
  unfoldable pub user_puts : ℕ → Cmd Kernel (Unit {0})
  unfolding syscall1
  user_puts s k = and_then (syscall1 0 s k) (λ rv l. ok tt l)

  -- `main` of the program, whose text lies at `welcome`
  unfoldable pub user_main : ℕ → Cmd Kernel ℕ
  unfolding user_puts
  user_main welcome k = and_then (user_puts welcome k) (λ _ l. ok 0 l)

  unfoldable pub libc_main : ℕ → Cmd Kernel (Unit {0})
  unfolding user_main
  libc_main welcome k = and_then (user_main welcome k) (λ _ l. ok tt l)
