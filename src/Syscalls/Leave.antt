-- ===== src/Syscalls/Leave.antt =====
-- A task that leaves: `sys_exit`.
use mk_os.Base.{
  true-false, ℕ, ◌+◌, ◌/◌, ◌^◌, ◌≤◌, ◌<◌, ◌≡◌, ◌≢◌, refl, ap, sym, ◌∙◌, arith, inl, inr, true,
  Bool-cases, some, List, ◌==◌, ==_iff, ◌∷◌, length, length-set, get_or, get_or-set_self,
  get_or-set_ne,
}
use mathlib.Core.Path.{subst}
use mk_os.Base.Run.{ok, Ends, Ends-ok, Ends-mono, Ends-after}
use mk_os.Layout.{page_shift}
use mk_os.Page.{Pool}
use mk_os.Page.Client.{Held}
use mk_os.Kernel.{
  Task, Kernel, task_invalid, task_dead, max_tasks, no_task, task, set_task, is_active,
}
use mk_os.Task.{task_next}
use mk_os.Task.Turns.{Active, Active-around, IsNext, IsRunning, task_next-Ends}
use mk_os.Page.Holding.{Holds}
use mk_os.Task.Exit.{task_exit-Ends}
use mk_os.Syscalls.{sys_exit}

-- the table behind the exit of task `i`
abbrev left : ℕ → Kernel → Pool → Kernel
left i k s =
    let dead = set_task i (record (task k i) { state = task_dead }) k in
    set_task i (record (task dead i) { state = task_invalid }) (record dead { pool = s })

abbrev BusyAt : List Task → ℕ → Type 0
BusyAt ts m = is_active (get_or ts m no_task).state ≡ true

-- The task `i` is gone, only `hs` are held still, and another active task is current.
pub record Gone (i pages : ℕ) (hs : List Held) (l : Kernel) : Type 0 where
  pub held : Holds pages hs l.pool
  pub free : (task l i).state ≡ task_invalid
  pub next : ℕ
  pub current : l.current ≡ some next
  pub other : next ≢ i
  pub active : Active l.tasks next

module _ {i : ℕ} {k : Kernel} (r : IsRunning k i) (full : length k.tasks ≡ max_tasks) where
  entry : (s : Pool) (j : ℕ) → j ≢ i → task (left i k s) j ≡ task k j
  entry s j other =
      get_or-set_ne _ i j _ no_task (λ e. other (sym e))
      ∙ get_or-set_ne k.tasks i j _ no_task (λ e. other (sym e))

  own : (s : Pool) → task (left i k s) i ≡ record (task k i) { state = task_invalid }
  own s =
      get_or-set_self _ i _ no_task (omega (arith, r.place, full, length-set k.tasks i _))
      ∙ ap (λ (t : Task). record t { state = task_invalid })
          (get_or-set_self k.tasks i _ no_task (omega (arith, r.place, full)))

  left-IsRunning : (s : Pool) → IsRunning (left i k s) i
  left-IsRunning s = record {
    current = r.current;
    place = r.place;
    numbered = λ j h. elim (Bool-cases (j == i)) [
      | inl same ↦
          let e : j ≡ i = (==_iff _ _).0 same in
          ap (λ m. (task (left i k s) m).tid) e
          ∙ ap (λ (t : Task). t.tid) (own s)
          ∙ r.numbered i r.place
          ∙ sym e
      | inr other ↦ ap (λ (t : Task). t.tid) (entry s j (ground arith)) ∙ r.numbered j h
    ];
  }

  -- the next task is another one
  other-active : (s : Pool) (d : ℕ) → d < max_tasks → Active (left i k s).tasks d → d ≢ i
  other-active s d h a e =
      let busy : is_active (task (left i k s) d).state ≡ true =
        subst (BusyAt (left i k s).tasks) (omega arith) a in
      true-false (
        sym busy
        ∙ ap (λ m. is_active (task (left i k s) m).state) e
        ∙ ap (λ (t : Task). is_active t.state) (own s))

  stays_active :
      (s : Pool) (j : ℕ) → j < max_tasks → j ≢ i → Active k.tasks j → Active (left i k s).tasks j
  stays_active s j h other a =
      let busy : is_active (task k j).state ≡ true = subst (BusyAt k.tasks) (omega arith) a in
      subst (BusyAt (left i k s).tasks) (omega arith)
        (ap (λ (t : Task). is_active t.state) (entry s j other) ∙ busy)

  gone :
      {pages : ℕ} {hs : List Held} (s : Pool) (d : ℕ)
      → Holds pages hs s
      → IsNext (left i k s).tasks (i + 1) max_tasks d
      → Gone i pages hs (record (left i k s) { current = some d })
  gone s d h f =
      let a : Active (left i k s).tasks d =
        Active-around (left i k s).tasks (i + 1 + f.step) d (omega (arith, f.place)) f.active in
      record {
        held = h;
        free = ap (λ (t : Task). t.state) (own s);
        next = d;
        current = refl;
        other = other-active s d (omega (arith, f.place)) a;
        active = a;
      }

  -- When the current task, which holds its stack and its memory, leaves and another one is active,
  -- `sys_exit` gives back what it holds, makes its entry free, and goes to another active task.
  pub sys_exit-Ends :
      {pages : ℕ} (j : ℕ) (hs : List Held)
      → pages ≤ 2 ^ 20
      → j < max_tasks
      → j ≢ i
      → Active k.tasks j
      → let t = task k i in
        Holds pages
          ((t.stack_base, t.stack_size / 2 ^ page_shift)
            ∷ (t.vma_addr, t.vma_size / 2 ^ page_shift)
            ∷ hs)
          k.pool
        → Ends (λ _ l. Gone i pages hs l) (sys_exit i k)
  unfolding sys_exit
  sys_exit-Ends {pages} j hs small hj other a o =
      let dead = set_task i (record (task k i) { state = task_dead }) k in
      let e : task dead i ≡ record (task k i) { state = task_dead } =
        get_or-set_self k.tasks i _ no_task (omega (arith, r.place, full)) in
      let (x, l, eq, (h, le)) = Ends-ok (
        task_exit-Ends small i hs dead (omega (arith, r.place, full, length-set k.tasks i _)) (
          subst
            (λ (t : Task).
              Holds pages
                ((t.stack_base, t.stack_size / 2 ^ page_shift)
                  ∷ (t.vma_addr, t.vma_size / 2 ^ page_shift)
                  ∷ hs)
                k.pool)
            (sym e) o)) in
      let s = l.pool in
      Ends-after (λ _. task_next) (eq ∙ ap (ok tt) le)
        (Ends-mono (task_next-Ends (left-IsRunning s) j (stays_active s j hj other a))
          λ y m (d, f, (same, running)). subst (Gone i pages hs) (sym same) (gone s d h f))
