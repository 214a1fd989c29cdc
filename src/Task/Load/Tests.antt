-- ===== src/Task/Load/Tests.antt =====
-- Tasks are numbered and made on a small pool, with no file to load.
use mk_os.Base.{ℕ, replicate, length-replicate, ◌+◌, ◌*◌, ◌≤◌, ◌<◌, ◌≡◌, arith, [], ◌∷◌}
use mk_os.Base.Run.{ok, no_continuous_memory, Settles}
use mk_os.Layout.{page_size}
use mk_os.Page.Alloc.{Allocated}
use mk_os.Kernel.{Task, Kernel, task_active, task_invalid, max_tasks, no_task, task}
use mk_os.Task.{find_free_task}
use mk_os.Task.Begin.{FreeFrom, find_free_task-FreeFrom}
use mk_os.Task.Load.{number_tasks, add_idle, task_load, task_create}
use mk_os.Task.Load.Start.{
  number_tasks_lem, add_idle-Settles, task_load-missing, task_create-missing,
}
use mk_os.Fixtures.{pool, pool-IsSound, kernel}

abbrev busy : Task
busy = record no_task { state = task_active }

abbrev start : Kernel
start = kernel (busy ∷ no_task ∷ no_task ∷ []) (λ a. 0)

find_free_task-FreeFrom_run : FreeFrom start.tasks 0 max_tasks (find_free_task start)
find_free_task-FreeFrom_run = find_free_task-FreeFrom start

number_tasks_lem_run :
    (0 ≤ 1
      → 1 < 0 + 3
      → ((task (number_tasks 0 3 start) 1).tid ≡ 1)
        × ((task (number_tasks 0 3 start) 1).state ≡ task_invalid))
    × (1 < 0 → task (number_tasks 0 3 start) 1 ≡ no_task)
number_tasks_lem_run = number_tasks_lem 0 3 start 1 (omega arith)

add_idle-Settles_example :
    Settles
      (λ _ l.
        Allocated 8 1 pool l.idle.stack_base l.pool
        × (l.idle.stack_size ≡ 2 * page_size)
        × (l.idle.state ≡ task_active)
        × (l.tasks ≡ start.tasks))
      no_continuous_memory
      (add_idle 0x40001000 start)
add_idle-Settles_example = add_idle-Settles {lim = 8} (omega arith) 0x40001000 start pool-IsSound

task_load-missing_run : task_load 0x5000 (λ i. 0) start ≡ ok tt start
task_load-missing_run = task_load-missing 0x5000 (λ i. 0) start λ j h. absurd (omega arith)

-- a table of which no entry is in order yet
abbrev unset : Kernel
unset = kernel (replicate max_tasks busy) (λ a. 0)

task_create-missing_example :
    Settles
      (λ _ l.
        (l.idle.state ≡ task_active)
        × ((i : ℕ) → i < max_tasks → ((task l i).tid ≡ i) × ((task l i).state ≡ task_invalid))
        × (l.vfs ≡ unset.vfs))
      no_continuous_memory
      (task_create 0x5000 0x40001000 (λ i. 0) unset)
task_create-missing_example =
    task_create-missing {lim = 8} (omega arith) 0x5000 0x40001000 (λ i. 0) unset pool-IsSound
      (length-replicate max_tasks busy) (λ j h. absurd (omega arith))
