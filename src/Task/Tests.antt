-- ===== src/Task/Tests.antt =====
-- A table with three active tasks.
use mk_os.Base.{
  ℕ, zero, suc, ◌+◌, ◌%◌, ◌≡◌, refl, ◌∙◌, arith, some, List, [], ◌∷◌, true, false, set, get_or,
}
use mk_os.Base.Run.{ok, panic, no_active_task, Ends}
use mk_os.Kernel.{Task, task_active, Kernel, max_tasks, no_task, is_active}
use mk_os.Fixtures
use mk_os.Task.{next_active, task_next, find_free_task, find_free_from, check_current}
use mk_os.Task.Turns.{Active, IsNext, IsRunning, Switched, task_next-Ends, task_next-panics}
use mk_os.Task.Fair.{Comes, turns-fair}

abbrev active : ℕ → Task
active i = record no_task { tid = i; state = task_active }

-- the tasks 3, 7 and 40 are active
abbrev table : List Task
table = set (set (set (Fixtures.numbered 0 50) 3 (active 3)) 7 (active 7)) 40 (active 40)

abbrev AllIdle : List Task → Type 0
AllIdle [] = Unit {0}
AllIdle (t ∷ ts) = (is_active t.state ≡ false) × AllIdle ts

-- no memory is in question
abbrev kernel : List Task → Kernel
kernel ts = Fixtures.kernel ts (λ a. 0)

running : IsRunning (kernel table) 7
running = record {
  current = refl;
  place = omega arith;
  numbered = λ i h. Fixtures.Numbered-tid table 0 i (omega arith) h ∙ omega arith;
}

none-IsRunning : IsRunning (kernel (Fixtures.numbered 0 50)) 7
none-IsRunning = record {
  current = refl;
  place = omega arith;
  numbered =
      λ i h. Fixtures.Numbered-tid (Fixtures.numbered 0 50) 0 i (omega arith) h ∙ omega arith;
}

next_run : task_next (kernel table) ≡ ok tt (record (kernel table) { current = some 40 })
unfolding task_next next_active check_current
next_run = refl

free_run : find_free_task (kernel table) ≡ some 0
unfolding find_free_task find_free_from
free_run = refl

task_next-Ends_run :
    Ends
      (λ _ l. (d : ℕ) × IsNext table 8 max_tasks d × Switched (kernel table) d l)
      (task_next (kernel table))
task_next-Ends_run = task_next-Ends running 3 refl

none_active : (j : ℕ) → ¬ Active (Fixtures.numbered 0 50) j
none_active j a = all_idle (Fixtures.numbered 0 50) (j % 50) (numbered_idle 0 50) a
  where
    numbered_idle : (i n : ℕ) → AllIdle (Fixtures.numbered i n)
    numbered_idle i zero = tt
    numbered_idle i (suc n) = (refl, numbered_idle (i + 1) n)

    all_idle :
        (ts : List Task) (i : ℕ) → AllIdle ts → ¬ (is_active (get_or ts i no_task).state ≡ true)
    all_idle [] i n e = cc
    all_idle (t ∷ ts) zero (idle, n) e = cc
    all_idle (t ∷ ts) (suc i) (idle, n) e = all_idle ts i n e

task_next-panics_run : task_next (kernel (Fixtures.numbered 0 50)) ≡ panic no_active_task
task_next-panics_run = task_next-panics none-IsRunning none_active

turns-fair_run : Comes max_tasks 3 (kernel table)
turns-fair_run = turns-fair 3 (omega arith) running refl
