-- ===== src/User/Output.antt =====
-- What a program prints arrives on the serial line.
use mk_os.Base.{
  ℕ, ◌<◌, ◌≡◌, ◌≢◌, refl, ap, sym, ◌∙◌, some, ◌++◌, ==_of_ne, length, get_or, get_or-set_self,
  arith,
}
use mathlib.Core.Path.{subst}
use mk_os.Base.Run.{ok, and_then}
use mk_os.Memory.{from}
use mk_os.Memory.Compare.{IsEnd}
use mk_os.Console.Lines.{bytes}
use mk_os.Kernel.{Kernel, Task, no_task, task}
use mk_os.Syscalls.{argument}
use mk_os.Syscalls.Bounds.{do_syscall-table}
use mk_os.Syscalls.Print.{sys_print_lem}
use mk_os.Trap.{trap_sync_from_el0_aa64}
use mk_os.Trap.Svc.{svc_esr, trap_sync_from_el0_aa64-svc}
use mk_os.User.{
  put_register, with_argument, get_register, syscall1, user_puts, user_main, libc_main,
}

module _ (fuel q i s n : ℕ) (k : Kernel) (running : k.current ≡ some i)
    (listed : i < length k.tasks) (registers : 0 < length (task k i).ctx.gpr) (real : s ≢ 0)
    (string : IsEnd (from k.vfs.memory s) n) (enough : n < fuel) where
  abbrev asked : Kernel
  asked = with_argument 0 i s k

  argument-asked : argument i asked ≡ s
  argument-asked =
      ap (λ (t : Task). get_or t.ctx.gpr 0 0)
        (get_or-set_self k.tasks i (put_register 0 s (task k i)) no_task listed)
      ∙ get_or-set_self (task k i).ctx.gpr 0 s 0 registers

  -- the trap of the program's `svc #0`
  trap-prints :
      trap_sync_from_el0_aa64 fuel (svc_esr 0) asked
      ≡ ok tt (record asked { output = k.output ++ bytes k.vfs.memory s n })
  trap-prints =
      trap_sync_from_el0_aa64-svc fuel 0 i asked (omega arith) running
      ∙ (do_syscall-table fuel i asked).0
      ∙ sys_print_lem fuel i n asked
          (subst (λ a. IsEnd (from k.vfs.memory a) n) (sym argument-asked) string) enough
      ∙ rw (argument-asked, ==_of_ne real) refl

  -- Where the compiler passes the argument in the first register, the current task's `puts` of a
  -- string of `n` bytes, in rounds enough for it, puts exactly these on the serial line, and changes
  -- nothing else but that register.
  pub user_puts-prints :
      user_puts fuel 0 q i s k
      ≡ ok tt (record (with_argument 0 i s k) { output = k.output ++ bytes k.vfs.memory s n })
  unfolding user_puts syscall1
  user_puts-prints =
      ap (λ r. and_then (and_then r (λ _ l. ok (get_register q (task l i)) l)) (λ rv l. ok tt l))
        trap-prints

  -- Where the compiler passes the argument in the first register, the current program, from
  -- `__libc_main` on, puts exactly the `n` bytes of its text on the serial line, in rounds enough for
  -- it, comes back, and changes nothing else but that register.
  pub libc_main-prints :
      libc_main fuel 0 q i s k
      ≡ ok tt (record (with_argument 0 i s k) { output = k.output ++ bytes k.vfs.memory s n })
  unfolding libc_main user_main
  libc_main-prints = rw user_puts-prints refl
