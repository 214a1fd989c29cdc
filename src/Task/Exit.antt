-- ===== src/Task/Exit.antt =====
-- The end of a task: `task_exit` gives back what the task holds.
use mk_os.Base.{ℕ, ◌/◌, ◌^◌, ◌≤◌, ◌<◌, ◌≡◌, refl, List, [], ◌∷◌, length}
use mk_os.Base.Run.{Ends, ends}
use mk_os.Layout.{page_shift}
use mk_os.Page.Client.{Held}
use mk_os.Page.Holding.{Holds, freed}
use mk_os.Kernel.{Kernel, task_invalid, task, set_task}
use mk_os.Kernel.Parts.{merge, in_pool}
use mk_os.Task.{task_exit}

module _ {pages : ℕ} (small : pages ≤ 2 ^ 20) where
  -- `task_exit` gives back the stack and the memory of a task that holds them, so that neither
  -- is held any more, makes the entry free, and changes nothing else.
  pub task_exit-Ends :
      (i : ℕ) (hs : List Held) (k : Kernel)
      → i < length k.tasks
      → let t = task k i in
        Holds pages
          ((t.stack_base, t.stack_size / 2 ^ page_shift)
            ∷ (t.vma_addr, t.vma_size / 2 ^ page_shift)
            ∷ hs)
          k.pool
        → Ends
            (λ _ l.
              Holds pages hs l.pool
              × (l ≡ set_task i (record t { state = task_invalid }) (record k { pool = l.pool })))
            (task_exit i k)
  unfolding task_exit in_pool merge
  task_exit-Ends i hs k place o =
      let t = task k i in
      let (s, e, o', f) = freed small [] t.stack_base (t.stack_size / 2 ^ page_shift) _ o in
      let (s', e', o'', f') = freed small [] t.vma_addr (t.vma_size / 2 ^ page_shift) hs o' in
      rw (e, e') (ends (o'', refl))
