-- ===== src/Kernel.antt =====
-- The state that the parts of the kernel share: the allocators, the files, and the tasks with
-- their processor contexts (kernel/include/task.h, kernel/include/cpu.h, kernel/core/task.c).
pub mod Parts
use mk_os.Base.{ℕ, Option, none, some, List, ◌∷◌, Bool, true, false, get_or, set, replicate}
use mk_os.Base.Run.{Run, ok, panic, fault, out_of_fuel, Cmd}
use mk_os.Memory.{Memory}
use mk_os.Page.{Pool}
use mk_os.Vfs.{Vfs}
use mk_os.Kmalloc.{Memchunk}

-- `struct cpu_ctx`
pub record CpuCtx : Type 0 where
  pub gpr : List ℕ
  pub lr : ℕ
  pub sp : ℕ
  pub spsr : ℕ
  pub pc : ℕ

-- `enum task_state`
pub data TaskState : Type 0 where
  task_invalid task_active task_dead : TaskState

-- `struct task`; `name` gives the bytes of the array
pub record Task : Type 0 where
  pub ctx : CpuCtx
  pub name : Memory
  pub tid : ℕ
  pub state : TaskState
  pub vma_addr : ℕ
  pub vma_size : ℕ
  pub stack_base : ℕ
  pub stack_size : ℕ

abbrev pub max_tasks : ℕ
max_tasks = 50

-- The pool of page.c, the chunks of kmalloc.c, the tables of vfs.c with all memory, the static
-- variables of task.c, and the serial line. `current` is a place in `tasks`, or the null pointer.
pub record Kernel : Type 0 where
  pub pool : Pool
  pub mem : List Memchunk
  pub vfs : Vfs
  pub tasks : List Task
  pub idle : Task
  pub current : Option ℕ
  pub input : List ℕ
  pub output : List ℕ

-- a static variable before anything is stored in it
abbrev pub no_task : Task
no_task = record {
  ctx = record { gpr = replicate 30 0; lr = 0; sp = 0; spsr = 0; pc = 0 };
  name = λ i. 0;
  tid = 0;
  state = task_invalid;
  vma_addr = 0;
  vma_size = 0;
  stack_base = 0;
  stack_size = 0;
}

abbrev pub task : Kernel → ℕ → Task
task k i = get_or k.tasks i no_task

abbrev pub set_task : ℕ → Task → Kernel → Kernel
set_task i t k = record k { tasks = set k.tasks i t }

abbrev pub is_active : TaskState → Bool
is_active task_active = true
is_active task_invalid = false
is_active task_dead = false

abbrev pub is_invalid : TaskState → Bool
is_invalid task_invalid = true
is_invalid task_active = false
is_invalid task_dead = false
