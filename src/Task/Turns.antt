-- ===== src/Task/Turns.antt =====
-- `task_next` is round robin: it goes to the next active task, and comes to each in its turn.
use mk_os.Base.{
  true-false, ℕ, zero, suc, ◌+◌, ◌-◌, ◌%◌, ◌<◌, ◌≡◌, refl, ap, sym, ◌∙◌, ◌⊎◌, arith, inl, inr,
  Option, none, some, List, true, false, Bool-cases, get_or,
}
use mathlib.Core.Path.{subst}
use mk_os.Base.Run.{ok, panic, no_active_task, Ends, ends}
use mk_os.Kernel.{Task, Kernel, max_tasks, no_task, task, is_active}
use mk_os.Task.{next_active, switch_to, check_current, or_else, task_next}

-- the task `i`, counted around the table, is active
abbrev pub Active : List Task → ℕ → Type 0
Active ts i = is_active (get_or ts (i % max_tasks) no_task).state ≡ true

-- What the loop finds in `n` rounds from `i` on: the first active task, or none as there is none.
pub record IsNext (ts : List Task) (i n d : ℕ) : Type 0 where
  pub step : ℕ
  pub within : step < n
  pub place : d ≡ (i + step) % max_tasks
  pub active : Active ts (i + step)
  pub first : (j : ℕ) → j < step → ¬ Active ts (i + j)

abbrev Found : List Task → (i n : ℕ) → Option ℕ → Type 0
Found ts i n none = (j : ℕ) → j < n → ¬ Active ts (i + j)
Found ts i n (some d) = IsNext ts i n d

moved : (ts : List Task) (i j : ℕ) → i ≡ j → Active ts i → Active ts j
moved ts i j e = subst (Active ts) e

-- only the place in the table counts
pub Active-around :
    (ts : List Task) (i j : ℕ) → i % max_tasks ≡ j % max_tasks → Active ts i → Active ts j
Active-around ts i j e = subst (λ m. is_active (get_or ts m no_task).state ≡ true) e

module _ (ts : List Task) (i n : ℕ)
    (idle : is_active (get_or ts (i % max_tasks) no_task).state ≡ false) where
  skips :
      (k : ℕ)
      → ((j : ℕ) → j < k → ¬ Active ts (i + 1 + j))
      → (j : ℕ) → j < suc k
      → ¬ Active ts (i + j)
  skips k none_behind zero h a = true-false (sym (moved ts (i + 0) i (omega arith) a) ∙ idle)
  skips k none_behind (suc j) h a =
      none_behind j (omega arith) (moved ts (i + suc j) (i + 1 + j) (omega arith) a)

  Found-later : (o : Option ℕ) → Found ts (i + 1) n o → Found ts i (suc n) o
  Found-later none f = skips n f
  Found-later (some d) f = record {
    step = suc f.step;
    within = omega (arith, f.within);
    place = f.place ∙ ap (λ (m : ℕ). m % max_tasks) (omega arith);
    active = moved ts (i + 1 + f.step) (i + suc f.step) (omega arith) f.active;
    first = skips f.step f.first;
  }

next_active-Found : (ts : List Task) (i n : ℕ) → Found ts i n (next_active ts i n)
unfolding next_active
next_active-Found ts i zero = λ j h. absurd (omega arith)
next_active-Found ts i (suc n) =
    elim (Bool-cases (is_active (get_or ts (i % max_tasks) no_task).state)) [
      | inl active ↦ rw active (record {
        step = 0;
        within = omega arith;
        place = ap (λ (m : ℕ). m % max_tasks) (omega arith);
        active = moved ts i (i + 0) (omega arith) active;
        first = λ j h. absurd (omega arith);
      })
      | inr idle ↦ rw idle (Found-later ts i n idle _ (next_active-Found ts (i + 1) n))
    ]

-- The table, and the place of the current task in it; each task's number is its place.
pub record IsRunning (k : Kernel) (c : ℕ) : Type 0 where
  pub current : k.current ≡ some c
  pub place : c < max_tasks
  pub numbered : (i : ℕ) → i < max_tasks → (task k i).tid ≡ i

-- `current` of the state `l` is the task `d`, and all else is as in `k`.
abbrev pub Switched : Kernel → ℕ → Kernel → Type 0
Switched k d l = (l ≡ record k { current = some d }) × IsRunning l d

module _ {k : Kernel} {c : ℕ} (r : IsRunning k c) where
  Switched-to : (d : ℕ) → d < max_tasks → Switched k d (record k { current = some d })
  Switched-to d h = (refl, record { current = refl; place = h; numbered = r.numbered })

  at_place : (i : ℕ) → i < max_tasks → is_active (task k i).state ≡ true → Active k.tasks i
  at_place i h a = subst (λ m. is_active (get_or k.tasks m no_task).state ≡ true) (omega arith) a

  -- the part of `task_next` behind its loop
  settles :
      (o : Option ℕ)
      → Found k.tasks (c + 1) max_tasks o
      → ((d : ℕ) × IsNext k.tasks (c + 1) max_tasks d
          × (check_current (or_else o c) (switch_to o k) ≡ ok tt (record k { current = some d })))
        ⊎ (((j : ℕ) → ¬ Active k.tasks j)
            × (check_current (or_else o c) (switch_to o k) ≡ panic no_active_task))
  unfolding check_current
  settles none f =
      let none_active : (j : ℕ) → ¬ Active k.tasks j = λ j a.
        f ((j % max_tasks + 49 - c) % max_tasks) (omega arith) (
          Active-around k.tasks j (c + 1 + (j % max_tasks + 49 - c) % max_tasks)
            (omega (arith, r.place)) a) in
      elim (Bool-cases (is_active (task k c).state)) [
        | inl busy ↦ absurd (none_active c (at_place c r.place busy))
        | inr idle ↦ inr (none_active, rw idle refl)
      ]
  settles (some d) f =
      let busy : is_active (task k d).state ≡ true =
        subst (λ m. is_active (get_or k.tasks m no_task).state ≡ true) (sym f.place) f.active in
      inl (d, f, rw busy refl)

  task_next-eq : task_next k ≡ (
      let o = next_active k.tasks (c + 1) max_tasks in check_current (or_else o c) (switch_to o k))
  unfolding task_next
  task_next-eq = rw (r.current, r.numbered c r.place) refl

  -- Where a task is active, `task_next` makes the next active one current, counted around the table
  -- from the current task on, which itself comes last.
  pub task_next-Ends :
      (j : ℕ)
      → Active k.tasks j
      → Ends (λ _ l. (d : ℕ) × IsNext k.tasks (c + 1) max_tasks d × Switched k d l) (task_next k)
  task_next-Ends j a = elim (settles _ (next_active-Found k.tasks (c + 1) max_tasks)) [
    | inl (d, f, e) ↦ rw (task_next-eq, e) (ends (d, f, Switched-to d (omega (arith, f.place))))
    | inr (idle, e) ↦ absurd (idle j a)
  ]

  -- Where no task is active, `task_next` panics.
  pub task_next-panics : ((j : ℕ) → ¬ Active k.tasks j) → task_next k ≡ panic no_active_task
  task_next-panics idle = elim (settles _ (next_active-Found k.tasks (c + 1) max_tasks)) [
    | inl (d, f, e) ↦ absurd (idle _ f.active)
    | inr (idle, e) ↦ task_next-eq ∙ e
  ]
