-- ===== src/Syscalls/Bounds.antt =====
-- The numbers of the system calls.
use mk_os.Base.{ℕ, ◌<◌, ◌≡◌, refl, ltb_of_lt}
use mk_os.Base.Run.{ok, fault}
use mk_os.Kernel.{Kernel}
use mk_os.Syscalls.{do_syscall, call, sys_print, sys_exit, sys_yield, sys_mmap}

-- The numbers 0 to 3 stand for print, exit, yield and mmap. A number above 4 changes nothing; 4
-- passes the test, and the call goes through what lies behind the table.
pub do_syscall-table :
    (fuel i : ℕ) (k : Kernel)
    → (do_syscall fuel 0 i k ≡ sys_print fuel i k)
      × (do_syscall fuel 1 i k ≡ sys_exit i k)
      × (do_syscall fuel 2 i k ≡ sys_yield i k)
      × (do_syscall fuel 3 i k ≡ sys_mmap i k)
      × (do_syscall fuel 4 i k ≡ fault)
      × ((num : ℕ) → 4 < num → do_syscall fuel num i k ≡ ok tt k)
unfolding do_syscall call
do_syscall-table fuel i k = (refl, refl, refl, refl, refl, λ num h. rw (ltb_of_lt h) refl)
