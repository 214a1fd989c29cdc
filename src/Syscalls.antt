-- ===== src/Syscalls.antt =====
-- kernel/core/syscalls.c: the calls of a task into the kernel.
pub mod Bounds
pub mod Leave
pub mod Mmap
pub mod Print
mod Tests
use mk_os.Base.{
  ℕ, zero, suc, ◌+◌, ◌/◌, ◌%◌, ◌^◌, Option, none, some, List, [], ◌∷◌, ltb, length, get_or,
  get_elem?, if◌then◌else◌,
}
use mk_os.Base.Run.{Run, ok, fault, Cmd, pure, ◌>>=◌, ◌>>◌}
use mk_os.Layout.{page_shift, align_pgup}
use mk_os.Page.{page_alloc}
use mk_os.Console.{puts}
use mk_os.Kernel.{Task, Kernel, task_dead, task, set_task}
use mk_os.Kernel.Parts.{in_pool, in_console}
use mk_os.Task.{task_next, task_exit}

-- `ctx.gpr[0]` of the task `i`
abbrev pub argument : ℕ → Kernel → ℕ
argument i k = get_or (task k i).ctx.gpr 0 0

-- The task is given by its place in `tasks`; `fuel` bounds the string printed.
pub sys_print : (fuel : ℕ) → ℕ → Cmd Kernel (Unit {0})
sys_print fuel i k = in_console (puts fuel (argument i k)) k

pub sys_yield : ℕ → Cmd Kernel (Unit {0})
sys_yield i = task_next

pub sys_exit : ℕ → Cmd Kernel (Unit {0})
sys_exit i =
    (λ k. ok tt (set_task i (record (task k i) { state = task_dead }) k))
    >> task_exit i
    >> task_next

-- The type of the table drops the address.
pub sys_mmap : ℕ → Cmd Kernel (Unit {0})
sys_mmap i k =
    (in_pool (page_alloc (align_pgup (argument i k % 2 ^ 32) / 2 ^ page_shift)) >> pure tt) k

-- the entries of `syscall_handlers`
pub data Handler : Type 0 where
  print_handler exit_handler yield_handler mmap_handler : Handler

abbrev pub syscall_handlers : List Handler
syscall_handlers = print_handler ∷ exit_handler ∷ yield_handler ∷ mmap_handler ∷ []

pub call : (fuel : ℕ) → Handler → ℕ → Cmd Kernel (Unit {0})
unfolding sys_print sys_exit sys_yield sys_mmap
call fuel print_handler = sys_print fuel
call fuel exit_handler = sys_exit
call fuel yield_handler = sys_yield
call fuel mmap_handler = sys_mmap

-- The number is the `size_t` that it is compared as; a call through what lies behind the table is
-- undefined.
pub do_syscall : (fuel num : ℕ) → ℕ → Cmd Kernel (Unit {0})
unfolding call
do_syscall fuel num i k =
    if ltb (length syscall_handlers) num
    then ok tt k
    else elim (get_elem? syscall_handlers num) [ none ↦ fault | some h ↦ call fuel h i k ]
