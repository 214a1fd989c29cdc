-- ===== src/Task/Begin.antt =====
-- `find_free_task`: the first free entry of the table.
use mk_os.Base.{
  ℕ, zero, suc, ◌+◌, ◌≤◌, ◌<◌, ◌≡◌, ap, sym, ◌∙◌, arith, inl, inr, Option, none, some, List, true,
  false, Bool-cases, ◌==◌, ==_iff, get_or,
}
use mk_os.Kernel.{Task, Kernel, max_tasks, no_task, is_invalid, task}
use mk_os.Task.{find_free_from, find_free_task}

-- What a search for a free entry from `i` on in `n` rounds has found.
abbrev pub FreeFrom : List Task → (i n : ℕ) → Option ℕ → Type 0
FreeFrom ts i n none = (j : ℕ) → i ≤ j → j < i + n → is_invalid (get_or ts j no_task).state ≡ false
FreeFrom ts i n (some f) =
    (i ≤ f)
    × (f < i + n)
    × (is_invalid (get_or ts f no_task).state ≡ true)
    × ((j : ℕ) → i ≤ j → j < f → is_invalid (get_or ts j no_task).state ≡ false)

module _ (ts : List Task) (i n : ℕ) (busy : is_invalid (get_or ts i no_task).state ≡ false) where
  busy_from :
      (top : ℕ)
      → ((j : ℕ) → i + 1 ≤ j → j < top → is_invalid (get_or ts j no_task).state ≡ false)
      → (j : ℕ) → i ≤ j
      → j < top
      → is_invalid (get_or ts j no_task).state ≡ false
  busy_from top later j low high = elim (Bool-cases (i == j)) [
    | inl same ↦
        ap (λ (m : ℕ). is_invalid (get_or ts m no_task).state) (sym ((==_iff _ _).0 same)) ∙ busy
    | inr other ↦ later j (ground arith) high
  ]

  FreeFrom-later : (o : Option ℕ) → FreeFrom ts (i + 1) n o → FreeFrom ts i (suc n) o
  FreeFrom-later none f = busy_from (i + suc n) λ j low high. f j low (omega arith)
  FreeFrom-later (some p) (low, high, free, first) =
      (omega arith, omega arith, free, busy_from p first)

find_free_from-FreeFrom : (ts : List Task) (i n : ℕ) → FreeFrom ts i n (find_free_from ts i n)
unfolding find_free_from
find_free_from-FreeFrom ts i zero = λ j low high. absurd (omega arith)
find_free_from-FreeFrom ts i (suc n) = elim (Bool-cases (is_invalid (get_or ts i no_task).state)) [
  | inl free ↦ rw free (omega arith, omega arith, free, λ j low high. absurd (omega arith))
  | inr busy ↦ rw busy (FreeFrom-later ts i n busy _ (find_free_from-FreeFrom ts (i + 1) n))
]

-- `find_free_task` finds the first free entry of the table, or there is none.
pub find_free_task-FreeFrom : (k : Kernel) → FreeFrom k.tasks 0 max_tasks (find_free_task k)
unfolding find_free_task
find_free_task-FreeFrom k = find_free_from-FreeFrom k.tasks 0 max_tasks

find_free_from-some :
    (ts : List Task) (j n i : ℕ)
    → j ≤ i
    → i < j + n
    → is_invalid (get_or ts i no_task).state ≡ true
    → ((x : ℕ) → j ≤ x → x < i → is_invalid (get_or ts x no_task).state ≡ false)
    → find_free_from ts j n ≡ some i
unfolding find_free_from
find_free_from-some ts j zero i low high free busy = absurd (omega arith)
find_free_from-some ts j (suc n) i low high free busy = elim (Bool-cases (j == i)) [
  | inl same ↦
      let e : j ≡ i = (==_iff _ _).0 same in
      let here : is_invalid (get_or ts j no_task).state ≡ true =
        ap (λ (x : ℕ). is_invalid (get_or ts x no_task).state) e ∙ free in
      rw here (ap some e)
  | inr other ↦ rw (busy j (omega arith) (ground arith)) (
      find_free_from-some ts (j + 1) n i (ground arith) (omega arith) free
        λ x h. busy x (omega arith))
]

-- An entry that is free with none free before it is the one that `find_free_task` finds.
pub find_free_task-some :
    (k : Kernel) (i : ℕ)
    → i < max_tasks
    → is_invalid (task k i).state ≡ true
    → ((x : ℕ) → x < i → is_invalid (task k x).state ≡ false)
    → find_free_task k ≡ some i
unfolding find_free_task
find_free_task-some k i h free busy =
    find_free_from-some k.tasks 0 max_tasks i (omega arith) (omega arith) free λ x low. busy x
