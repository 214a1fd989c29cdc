-- ===== src/Syscalls/Tests.antt =====
-- Two active tasks, of which the current one holds two pages of stack and one page of memory.
use mk_os.Base.{ℕ, ◌+◌, ◌/◌, ◌^◌, ◌≤◌, ◌<◌, ◌≡◌, ◌⊎◌, refl, ◌∙◌, arith, List, [], ◌∷◌, set}
use mk_os.Base.Run.{ok, fault, panic, no_continuous_memory, Ends, Settles}
use mk_os.Kernel.{Task, Kernel, task_active, task_invalid, no_task, set_task}
use mk_os.Task.{task_exit}
use mk_os.Task.Turns.{IsRunning}
use mk_os.Page.Holding.{Holds}
use mk_os.Task.Exit.{task_exit-Ends}
use mk_os.Syscalls.{sys_print, sys_exit, sys_yield, sys_mmap, do_syscall}
use mk_os.Syscalls.Bounds.{do_syscall-table}
use mk_os.Syscalls.Mmap.{asked, mmap_outcome}
use mk_os.Syscalls.Leave.{Gone, sys_exit-Ends}
use mk_os.Fixtures.{numbered, Numbered-tid, three_held, three_held-Owned, kernel}

abbrev leaving : Task
leaving = record no_task {
  tid = 7;
  state = task_active;
  stack_base = 0x40010000;
  stack_size = 0x2000;
  vma_addr = 0x40012000;
  vma_size = 0x1000;
}

abbrev tasks : List Task
tasks = set (set (numbered 0 50) 3 (record no_task { tid = 3; state = task_active })) 7 leaving

abbrev start : Kernel
start = record (kernel tasks (λ a. 0)) { pool = three_held }

running : IsRunning start 7
running = record {
  current = refl;
  place = omega arith;
  numbered = λ i h. Numbered-tid tasks 0 i (omega arith) h ∙ omega arith;
}

holding : Holds 8 ((0x40010000, 2) ∷ (0x40012000, 1) ∷ []) three_held
holding = three_held-Owned

task_exit-Ends_run :
    Ends
      (λ _ l.
        Holds 8 [] l.pool
        × (l
            ≡ set_task 7
                (record leaving { state = task_invalid })
                (record start { pool = l.pool })))
      (task_exit 7 start)
task_exit-Ends_run = task_exit-Ends {pages = 8} (omega arith) 7 [] start (omega arith) holding

sys_exit-Ends_example : Ends (λ _ l. Gone 7 8 [] l) (sys_exit 7 start)
sys_exit-Ends_example =
    sys_exit-Ends running refl {pages = 8} 3 [] (omega arith) (omega arith) (λ e. omega arith) refl
      holding

do_syscall-table_example :
    (do_syscall 9 0 7 start ≡ sys_print 9 7 start)
    × (do_syscall 9 1 7 start ≡ sys_exit 7 start)
    × (do_syscall 9 2 7 start ≡ sys_yield 7 start)
    × (do_syscall 9 3 7 start ≡ sys_mmap 7 start)
    × (do_syscall 9 4 7 start ≡ fault)
    × ((num : ℕ) → 4 < num → do_syscall 9 num 7 start ≡ ok tt start)
do_syscall-table_example = do_syscall-table 9 7 start

-- the task asks for 5000 bytes
abbrev asking : Kernel
asking =
    set_task 7 (record leaving { ctx = record leaving.ctx { gpr = set leaving.ctx.gpr 0 5000 } })
      start

mmap_outcome_example :
    ((asked 7 asking ≡ 0) ⊎ (2 ^ 32 < asked 7 asking + 4096)
      → do_syscall 9 3 7 asking ≡ panic no_continuous_memory)
    × (0 < asked 7 asking
        → asked 7 asking + 4096 ≤ 2 ^ 32
        → Settles
            (λ _ l.
              (a : ℕ) × Holds 8
                ((a, (asked 7 asking + 4095) / 4096) ∷ (0x40010000, 2) ∷ (0x40012000, 1) ∷ [])
                l.pool
              × (l ≡ record asking { pool = l.pool }))
            no_continuous_memory
            (do_syscall 9 3 7 asking))
mmap_outcome_example = mmap_outcome {pages = 8} 9 7 asking (omega arith) (omega arith) holding

asked_run : asked 7 asking ≡ 5000
asked_run = refl
