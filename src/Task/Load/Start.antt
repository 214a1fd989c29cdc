-- ===== src/Task/Load/Start.antt =====
-- The numbers of the tasks, the idle task, and a program that is missing.
use mk_os.Base.{
  ℕ, zero, suc, ◌+◌, ◌*◌, ◌^◌, ◌≤◌, ◌<◌, ◌≡◌, refl, ap, sym, ◌∙◌, arith, inl, inr, Bool-cases, ◌==◌,
  ==_iff, length, length-set, get_or, get_or-set_self, get_or-set_ne,
}
use mathlib.Core.Path.{subst}
use mk_os.Vfs.{Vfs}
use mk_os.Base.Run.{
  Cmd, ◌>>◌, Settles-and_then, ok, no_continuous_memory, ends, Ends-ok, Ends-mono, Settles,
}
use mk_os.Layout.{page_size}
use mk_os.Memory.{Memory}
use mk_os.Page.Split.{IsSound}
use mk_os.Page.Alloc.{Allocated, page_alloc_outcome}
use mk_os.Vfs.Open.{HasName, vfs_open-missing}
use mk_os.Kernel.{Task, Kernel, task_invalid, task_active, no_task, max_tasks, task, set_task}
use mk_os.Kernel.Parts.{merge, in_pool, in_vfs}
use mk_os.Task.Load.{number_tasks, add_idle, load_opened, task_load, task_create}

-- The loop numbers the entries that it comes to, makes them free, and keeps the others.
pub number_tasks_lem :
    (i n : ℕ) (k : Kernel) (j : ℕ)
    → i + n ≤ length k.tasks
    → (i ≤ j
        → j < i + n
        → ((task (number_tasks i n k) j).tid ≡ j)
          × ((task (number_tasks i n k) j).state ≡ task_invalid))
      × (j < i → task (number_tasks i n k) j ≡ task k j)
unfolding number_tasks
number_tasks_lem i zero k j h = (λ low high. absurd (omega arith), λ below. refl)
number_tasks_lem i (suc n) k j h =
    let t = record (task k i) { tid = i; state = task_invalid } in
    let (inside, outside) =
      number_tasks_lem (i + 1) n (set_task i t k) j (omega (arith, length-set k.tasks i t)) in
    let kept : j ≡ i → task (number_tasks (i + 1) n (set_task i t k)) j ≡ t = λ e.
      outside (omega arith)
      ∙ ap (task (set_task i t k)) e
      ∙ get_or-set_self k.tasks i t no_task (omega arith) in
    (
      λ low high. elim (Bool-cases (i == j)) [
        | inl same ↦
            let e : j ≡ i = sym ((==_iff _ _).0 same) in
            (ap (λ (t : Task). t.tid) (kept e) ∙ sym e, ap (λ (t : Task). t.state) (kept e))
        | inr other ↦ inside (ground arith) (omega arith)
      ],
      λ below. outside (omega arith) ∙ get_or-set_ne k.tasks i j t no_task λ e. omega arith,
    )

-- On a sound pool `add_idle` makes the idle task active, with one fresh page for its stack where
-- the size that it notes for it is that of two pages, or it panics for want of a page.
pub add_idle-Settles :
    {lim : ℕ}
    → lim ≤ 2 ^ 30
    → (idle_loop : ℕ) (k : Kernel) → IsSound lim k.pool
    → Settles
        (λ _ l.
          Allocated lim 1 k.pool l.idle.stack_base l.pool
          × (l.idle.stack_size ≡ 2 * page_size)
          × (l.idle.state ≡ task_active)
          × (l.tasks ≡ k.tasks))
        no_continuous_memory
        (add_idle idle_loop k)
unfolding add_idle in_pool merge
add_idle-Settles {lim} small idle_loop k i =
    elim (page_alloc_outcome {lim = lim} (omega arith) 1 (omega arith) (omega arith) i) [
      | inl e ↦ let (addr, t, eq, l) = Ends-ok e in rw eq (inl (ends (l, refl, refl, refl)))
      | inr (eq, none_left) ↦ rw eq (inr refl)
    ]

-- With no file of the name, `task_load` changes nothing.
pub task_load-missing :
    (frame : ℕ) (name : Memory) (k : Kernel)
    → ((j : ℕ) → j < k.vfs.vfs_next → ¬ HasName name k.vfs j)
    → task_load frame name k ≡ ok tt k
unfolding task_load load_opened in_vfs merge
task_load-missing frame name k missing = rw (vfs_open-missing name k.vfs missing) refl

pub number_tasks-rest :
    (i n : ℕ) (k : Kernel)
    → (((number_tasks i n k).pool ≡ k.pool) × ((number_tasks i n k).vfs ≡ k.vfs))
      × (length (number_tasks i n k).tasks ≡ length k.tasks)
unfolding number_tasks
number_tasks-rest i zero k = ((refl, refl), refl)
number_tasks-rest i (suc n) k =
    let t = record (task k i) { tid = i; state = task_invalid } in
    let ((pool, vfs), len) = number_tasks-rest (i + 1) n (set_task i t k) in
    ((pool, vfs), len ∙ length-set k.tasks i t)

abbrev IsMissing : Memory → Vfs → Type 0
IsMissing name v = (j : ℕ) → j < v.vfs_next → ¬ HasName name v j

abbrev IdleAdded : Kernel → Unit {0} → Kernel → Type 0
IdleAdded k a l = (l.idle.state ≡ task_active) × (l.tasks ≡ k.tasks) × (l.vfs ≡ k.vfs)

idle_added :
    {lim : ℕ}
    → lim ≤ 2 ^ 30
    → (idle_loop : ℕ) (k : Kernel) → IsSound lim k.pool
    → Settles (IdleAdded k) no_continuous_memory (add_idle idle_loop k)
unfolding add_idle in_pool merge
idle_added {lim} small idle_loop k i =
    elim (page_alloc_outcome {lim = lim} (omega arith) 1 (omega arith) (omega arith) i) [
      | inl e ↦ let (addr, t, eq, l) = Ends-ok e in rw eq (inl (ends (refl, refl, refl)))
      | inr (eq, none_left) ↦ rw eq (inr refl)
    ]

-- what `task_create` does once the entries are numbered
abbrev pub numbered_create : (frame idle_loop : ℕ) → Memory → Cmd Kernel (Unit {0})
numbered_create frame idle_loop name =
    add_idle idle_loop >> task_load frame name >> task_load frame name

numbered_create-missing :
    {lim : ℕ}
    → lim ≤ 2 ^ 30
    → (frame idle_loop : ℕ) (name : Memory) (k : Kernel) → IsSound lim k.pool
    → IsMissing name k.vfs
    → Settles (IdleAdded k) no_continuous_memory (numbered_create frame idle_loop name k)
numbered_create-missing small frame idle_loop name k i missing =
    Settles-and_then (Settles-and_then (idle_added small idle_loop k i) load) load
  where
    load :
        (a : Unit {0}) (l : Kernel)
        → IdleAdded k a l
        → Settles (IdleAdded k) no_continuous_memory (task_load frame name l)
    load a l p =
        let still = subst (IsMissing name) (sym p.2) missing in
        subst (Settles (IdleAdded k) no_continuous_memory)
          (sym (task_load-missing frame name l still)) (inl (ends p))

pub task_create-numbered :
    (frame idle_loop : ℕ) (name : Memory) (k : Kernel)
    → task_create frame idle_loop name k
      ≡ numbered_create frame idle_loop name (number_tasks 0 max_tasks k)
unfolding task_create
task_create-numbered frame idle_loop name k = refl

-- Where no file has the name of the program and the pool is sound, `task_create` ends with the
-- idle task active, each entry of the table free and numbered by its place, and the files as they
-- were, or it panics for want of a page.
pub task_create-missing :
    {lim : ℕ}
    → lim ≤ 2 ^ 30
    → (frame idle_loop : ℕ) (name : Memory) (k : Kernel) → IsSound lim k.pool
    → length k.tasks ≡ max_tasks
    → ((j : ℕ) → j < k.vfs.vfs_next → ¬ HasName name k.vfs j)
    → Settles
        (λ _ l.
          (l.idle.state ≡ task_active)
          × ((i : ℕ) → i < max_tasks → ((task l i).tid ≡ i) × ((task l i).state ≡ task_invalid))
          × (l.vfs ≡ k.vfs))
        no_continuous_memory
        (task_create frame idle_loop name k)
task_create-missing {lim} small frame idle_loop name k i full missing =
    let numbered = number_tasks 0 max_tasks k in
    let ((pool, vfs), len) = number_tasks-rest 0 max_tasks k in
    let places : (i : ℕ)
        → i < max_tasks
        → ((task numbered i).tid ≡ i) × ((task numbered i).state ≡ task_invalid) =
      λ j h. (number_tasks_lem 0 max_tasks k j (omega (arith, full))).0 (omega arith) h in
    let ready =
      numbered_create-missing small frame idle_loop name numbered (subst (IsSound lim) (sym pool) i)
        (subst (IsMissing name) (sym vfs) missing) in
    subst (Settles _ no_continuous_memory) (sym (task_create-numbered frame idle_loop name k))
      (elim ready [
        | inl e ↦ inl (
            Ends-mono e λ a l (idle, same, files). (
              idle,
              λ j h.
                  subst
                    (λ ts.
                      ((get_or ts j no_task).tid ≡ j)
                      × ((get_or ts j no_task).state ≡ task_invalid))
                    (sym same) (places j h),
              files ∙ vfs,
            ))
        | inr e ↦ inr e
      ])
