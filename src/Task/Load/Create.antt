-- ===== src/Task/Load/Create.antt =====
-- `task_create` with a program that is there: it is started twice.
use mk_os.Base.{
  ℕ, zero, suc, ◌+◌, ◌*◌, ◌^◌, ◌≤◌, ◌<◌, ◌≡◌, refl, ap, sym, ◌∙◌, arith, inl, inr, List, ◌∷◌,
  length, get_or, Option,
}
use mathlib.Core.Path.{subst}
use mk_os.Base.Run.{no_continuous_memory, ends, Ends-ok, Settles, Settles-and_then, Settles-mono}
use mk_os.Memory.{Memory}
use mk_os.Image.Same.{SameBytes}
use mk_os.Page.{Pool}
use mk_os.Page.Client.{Held}
use mk_os.Page.Holding.{Holds, taken}
use mk_os.Vfs.{Vfs}
use mk_os.Vfs.Counts.{IsValid}
use mk_os.Vfs.Session.{SameFiles, SameFiles-refl}
use mk_os.Kernel.{Task, Kernel, task_active, task_invalid, no_task, max_tasks}
use mk_os.Kernel.Parts.{merge, in_pool}
use mk_os.Elf.{Elf64Phdr}
use mk_os.Task.Load.{number_tasks, add_idle, task_load, task_create}
use mk_os.Task.Load.Launch.{IsInstalled, ProgramRuns, task_load-Settles}
use mk_os.Task.Load.Again.{IsInstalled-kept}
use mk_os.Task.Load.Twice.{AllFree, RunsTwice, RunsTwice-file, first_free, run_again}
use mk_os.Task.Load.Start.{
  numbered_create, task_create-numbered, number_tasks_lem, number_tasks-rest,
}

-- what `add_idle` leaves: the idle task is active, with a page for its stack
record IdleHeld (pages : ℕ) (hs : List Held) (k l : Kernel) : Type 0 where
  stack : ℕ
  held : Holds pages ((stack, 1) ∷ hs) l.pool
  start : l.pool.mem_pool_start ≡ k.pool.mem_pool_start
  active : l.idle.state ≡ task_active
  stack_at : l.idle.stack_base ≡ stack
  rest : l ≡ record k { pool = l.pool; idle = l.idle }

add_idle-Held :
    {pages : ℕ} {hs : List Held}
    → pages ≤ 2 ^ 20
    → (idle_loop : ℕ) (k : Kernel) → k.pool.mem_pool_start + pages * 4096 < 2 ^ 64
    → Holds pages hs k.pool
    → Settles (λ _ l. IdleHeld pages hs k l) no_continuous_memory (add_idle idle_loop k)
unfolding add_idle in_pool merge
add_idle-Held {hs} small idle_loop k fits o =
    elim (taken small 1 hs (omega arith) (omega arith) fits o) [
      | inl e ↦
          let (a, t, eq, (held, run)) = Ends-ok e in
          rw eq (
            inl (
              ends (record {
                stack = a;
                held = held;
                start = run.start;
                active = refl;
                stack_at = refl;
                rest = refl;
              })))
      | inr eq ↦ rw eq (inr refl)
    ]

number_tasks-current : (i n : ℕ) (k : Kernel) → (number_tasks i n k).current ≡ k.current
unfolding number_tasks
number_tasks-current i zero k = refl
number_tasks-current i (suc n) k = number_tasks-current (i + 1) n _

number_tasks-mem : (i n : ℕ) (k : Kernel) → (number_tasks i n k).mem ≡ k.mem
unfolding number_tasks
number_tasks-mem i zero k = refl
number_tasks-mem i (suc n) k = number_tasks-mem (i + 1) n _

-- what `task_create` leaves where the program is there
pub record Created (pages : ℕ) (hs : List Held) (m : Memory) (base : ℕ) (segment : Elf64Phdr)
    (before : Option ℕ) (l : Kernel) : Type 0 where
  pub idle : ℕ
  pub idle_active : l.idle.state ≡ task_active
  pub idle_stack : l.idle.stack_base ≡ idle
  pub twice : RunsTwice pages ((idle, 1) ∷ hs) m base segment before l

pub Created-file :
    {pages : ℕ} {hs : List Held} {m m' : Memory} {base size : ℕ} {segment : Elf64Phdr}
    {before : Option ℕ} {l : Kernel}
    → SameBytes (64 + size) m base m' base
    → segment.p_offset + segment.p_filesz ≤ size
    → Created pages hs m' base segment before l
    → Created pages hs m base segment before l
Created-file same inside c = record {
  idle = c.idle;
  idle_active = c.idle_active;
  idle_stack = c.idle_stack;
  twice = RunsTwice-file same inside c.twice;
}

AllFree-moved : (k l : Kernel) → l.tasks ≡ k.tasks → AllFree 0 k → AllFree 0 l
AllFree-moved k l e free i low high =
    subst
      (λ (ts : List Task).
        ((get_or ts i no_task).tid ≡ i) × ((get_or ts i no_task).state ≡ task_invalid))
      (sym e) (free i low high)

-- what the first of the two calls of `task_load` behind `add_idle` leaves
abbrev Started :
    (pages : ℕ) (hs : List Held) (frame base size : ℕ) (segment : Elf64Phdr) (k l : Kernel) → Type 0
Started pages hs frame base size segment k l =
    (j : Kernel) × (d : IdleHeld pages hs k j) × ProgramRuns pages ((d.stack, 1) ∷ hs) frame base
      size segment 0 j l

module _ {pages : ℕ} {hs : List Held} {frame : ℕ} {name : Memory} {node base size : ℕ}
    {segment : Elf64Phdr} {k : Kernel} where
  -- a state with the same tables, where other pages are held, and all entries free
  IsInstalled-moved :
      {js : List Held} {l : Kernel}
      → IsInstalled pages hs frame name node base size segment k
      → Holds pages js l.pool
      → l.pool.mem_pool_start ≡ k.pool.mem_pool_start
      → l.vfs ≡ k.vfs
      → IsInstalled pages js frame name node base size segment l
  IsInstalled-moved c held start e =
      IsInstalled-kept c held start (subst IsValid (sym e) c.tables)
        (subst (SameFiles k.vfs) (sym e) (SameFiles-refl k.vfs k.vfs.memory))
        (record { bytes = λ x h. ap (λ (v : Vfs). v.memory (base + x)) (sym e) })

  module _ (c : IsInstalled pages hs frame name node base size segment k)
      (room : k.vfs.fds_next + 2 ≤ k.vfs.fds_max) (full : length k.tasks ≡ max_tasks)
      (numbered : AllFree 0 k) {j : Kernel} (d : IdleHeld pages hs k j) where
    files : j.vfs ≡ k.vfs
    files = ap (λ (l : Kernel). l.vfs) d.rest

    tasks : j.tasks ≡ k.tasks
    tasks = ap (λ (l : Kernel). l.tasks) d.rest

    installed : IsInstalled pages ((d.stack, 1) ∷ hs) frame name node base size segment j
    installed = IsInstalled-moved c d.held d.start files

    still_room : j.vfs.fds_next + 2 ≤ j.vfs.fds_max
    still_room =
        omega (arith, room, ap (λ (v : Vfs). v.fds_next) files, ap (λ (v : Vfs). v.fds_max) files)

    still_full : length j.tasks ≡ max_tasks
    still_full = ap length tasks ∙ full

    first_load :
        Settles
          (λ _ l. Started pages hs frame base size segment k l)
          no_continuous_memory
          (task_load frame name j)
    first_load =
        Settles-mono
          (task_load-Settles installed (omega (arith, still_room))
            (first_free installed still_room still_full (AllFree-moved k j tasks numbered))
            (omega (arith, still_full)))
          λ a l runs. (j, d, runs)

    second_load :
        (l : Kernel)
        → ProgramRuns pages ((d.stack, 1) ∷ hs) frame base size segment 0 j l
        → Settles
            (λ _ l'. Created pages hs k.vfs.memory base segment k.current l' × (l'.mem ≡ k.mem))
            no_continuous_memory
            (task_load frame name l)
    second_load l runs =
        Settles-mono
          (run_again installed still_room still_full (AllFree-moved k j tasks numbered) l runs)
          λ a l' (twice, idle, mem). (
            record {
              idle = d.stack;
              idle_active = ap (λ (t : Task). t.state) idle ∙ d.active;
              idle_stack = ap (λ (t : Task). t.stack_base) idle ∙ d.stack_at;
              twice =
                  subst
                    (λ (o : Option ℕ).
                      RunsTwice pages ((d.stack, 1) ∷ hs) k.vfs.memory base segment o l')
                    (ap (λ (l : Kernel). l.current) d.rest)
                    (subst
                      (λ (v : Vfs).
                        RunsTwice pages ((d.stack, 1) ∷ hs) v.memory base segment j.current l')
                      files twice);
            },
            mem ∙ ap (λ (l : Kernel). l.mem) d.rest,
          )

  numbered_create-Settles :
      (idle_loop : ℕ)
      → IsInstalled pages hs frame name node base size segment k
      → k.vfs.fds_next + 2 ≤ k.vfs.fds_max
      → length k.tasks ≡ max_tasks
      → AllFree 0 k
      → Settles
          (λ _ l. Created pages hs k.vfs.memory base segment k.current l × (l.mem ≡ k.mem))
          no_continuous_memory
          (numbered_create frame idle_loop name k)
  numbered_create-Settles idle_loop c room full numbered =
      Settles-and_then
        (Settles-and_then (add_idle-Held c.small idle_loop k c.fits c.held)
          λ a j d. first_load c room full numbered d)
        λ a l (j, d, runs). second_load c room full numbered d l runs

-- Where a program that lies below the pool is the first file of the name, and two descriptors are
-- free, `task_create` starts it twice: it runs as the tasks 0 and 1, each with pages of its own for
-- its memory, with the bytes of the program and zeros behind them, and for its stack. The idle
-- task is active with a page for its stack, every other entry of the table is free, and task 0 is
-- current if there was no current task, and the chunks of `kmalloc` are as they were. Or the
-- kernel panics for want of pages.
pub task_create-Settles :
    {pages : ℕ} {hs : List Held} {frame : ℕ} {name : Memory} {node base size : ℕ}
    {segment : Elf64Phdr} {k : Kernel} (idle_loop : ℕ)
    → IsInstalled pages hs frame name node base size segment k
    → k.vfs.fds_next + 2 ≤ k.vfs.fds_max
    → length k.tasks ≡ max_tasks
    → Settles
        (λ _ l. Created pages hs k.vfs.memory base segment k.current l × (l.mem ≡ k.mem))
        no_continuous_memory
        (task_create frame idle_loop name k)
task_create-Settles {pages} {hs} {frame} {name} {node} {base} {size} {segment} {k} idle_loop c room
      full =
    let n = number_tasks 0 max_tasks k in
    let ((pool, vfs), len) = number_tasks-rest 0 max_tasks k in
    let numbered : AllFree 0 n =
      λ i low high. (number_tasks_lem 0 max_tasks k i (omega (arith, full))).0 (omega arith) high in
    let installed : IsInstalled pages hs frame name node base size segment n =
      IsInstalled-moved c (subst (Holds pages hs) (sym pool) c.held)
        (ap (λ (s : Pool). s.mem_pool_start) pool) vfs in
    let room' : n.vfs.fds_next + 2 ≤ n.vfs.fds_max =
      omega (arith, room, ap (λ (v : Vfs). v.fds_next) vfs, ap (λ (v : Vfs). v.fds_max) vfs) in
    subst (Settles _ no_continuous_memory) (sym (task_create-numbered frame idle_loop name k)) (
      Settles-mono (numbered_create-Settles idle_loop installed room' (len ∙ full) numbered)
        λ a l (d, mem). (
          subst (λ (o : Option ℕ). Created pages hs k.vfs.memory base segment o l)
              (number_tasks-current 0 max_tasks k)
              (subst (λ (v : Vfs). Created pages hs v.memory base segment n.current l) vfs d),
          mem ∙ number_tasks-mem 0 max_tasks k,
        ))
