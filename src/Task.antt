-- ===== src/Task.antt =====
-- kernel/core/task.c: the table of tasks, the choice of the next one, their beginning and end.
pub mod Begin
pub mod Exit
pub mod Fair
pub mod Load
pub mod Turns
mod Tests
use mk_os.Base.{
  ℕ, zero, suc, ◌+◌, ◌*◌, ◌/◌, ◌%◌, ◌^◌, Option, none, some, List, ◌∷◌, Bool, true, false, ltb,
  ◌==◌, if◌then◌else◌, get_or, set,
}
use mk_os.Base.Run.{Run, ok, panic, fault, no_active_task, Cmd, pure, and_then, ◌>>=◌, ◌>>◌}
use mk_os.Layout.{page_size, page_shift}
use mk_os.Page.{page_alloc, page_free}
use mk_os.Kernel.{
  CpuCtx, TaskState, task_invalid, task_active, task_dead, Task, Kernel, max_tasks, no_task, task,
  set_task, is_active, is_invalid,
}
use mk_os.Kernel.Parts.{in_pool}

-- the loop of `task_next`, from `i` on with `n` rounds left
pub next_active : List Task → (i n : ℕ) → Option ℕ
next_active ts i zero = none
next_active ts i (suc n) =
    let rest = next_active ts (i + 1) n in
    if is_active (get_or ts (i % max_tasks) no_task).state then some (i % max_tasks) else rest

-- `current` moves to the task found, if there is one
abbrev pub switch_to : Option ℕ → Kernel → Kernel
switch_to none k = k
switch_to (some i) k = record k { current = some i }

-- the test behind the loop; the assignment of `&idle` behind `panic` is never reached
check_current : ℕ → Cmd Kernel (Unit {0})
check_current c k = if is_active (task k c).state then ok tt k else panic no_active_task

abbrev pub or_else : Option ℕ → ℕ → ℕ
or_else none c = c
or_else (some i) c = i

pub task_next : Cmd Kernel (Unit {0})
unfolding next_active check_current
task_next k = elim k.current [
  | none ↦ fault
  | some c ↦
      let found = next_active k.tasks ((task k c).tid + 1) max_tasks in
      check_current (or_else found c) (switch_to found k)
]

-- the loop of `find_free_task`
pub find_free_from : List Task → (i n : ℕ) → Option ℕ
find_free_from ts i zero = none
find_free_from ts i (suc n) =
    let rest = find_free_from ts (i + 1) n in
    if is_invalid (get_or ts i no_task).state then some i else rest

pub find_free_task : Kernel → Option ℕ
unfolding find_free_from
find_free_task k = find_free_from k.tasks 0 max_tasks

-- The task is given by its place in `tasks`.
pub task_exit : ℕ → Cmd Kernel (Unit {0})
task_exit i k =
    (in_pool (page_free (task k i).stack_base ((task k i).stack_size / 2 ^ page_shift))
        >> in_pool (page_free (task k i).vma_addr ((task k i).vma_size / 2 ^ page_shift))
        >> λ l. ok tt (set_task i (record (task l i) { state = task_invalid }) l))
      k
