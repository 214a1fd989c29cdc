-- ===== src/Task/Load/Twice.antt =====
-- The two calls of `task_load` in `task_create`, with a program that is there.
use mk_os.Base.{
  ℕ, ◌+◌, ◌*◌, ◌≤◌, ◌<◌, ◌≡◌, refl, ap, ◌∙◌, arith, inr, false, List, [], ◌∷◌, length, length-set,
  Option, none, some,
}
use mathlib.Core.Path.{subst}
use mk_os.Base.Run.{no_continuous_memory, Settles, Settles-mono}
use mk_os.Image.Same.{SameBytes}
use mk_os.Memory.{Memory}
use mk_os.Page.Client.{Held}
use mk_os.Page.Holding.{Holds, Outside-held}
use mk_os.Vfs.Counts.{IsValid}
use mk_os.Kernel.{Task, Kernel, task_invalid, is_invalid, max_tasks, task}
use mk_os.Elf.{Elf64Phdr}
use mk_os.Task.{find_free_task}
use mk_os.Task.Begin.{find_free_task-some}
use mk_os.Task.Load.{task_load}
use mk_os.Task.Load.Finish.{pages_of}
use mk_os.Task.Load.Launch.{IsInstalled, ProgramRuns, task_load-Settles}
use mk_os.Task.Load.Again.{
  IsInstalled-kept, RunsProgram, RunsProgram-kept, RunsProgram-file, ProgramRuns-file,
  ProgramRuns-task, ProgramRuns-others,
}

-- each entry of the table from `from` on is free and has the number of its place
abbrev pub AllFree : ℕ → Kernel → Type 0
AllFree from k =
    (i : ℕ) → from ≤ i → i < max_tasks → ((task k i).tid ≡ i) × ((task k i).state ≡ task_invalid)

-- the current task behind the start of the task `i`
abbrev pub current_after : ℕ → Option ℕ → Option ℕ
current_after i o = elim o [ none ↦ some i | some x ↦ some x ]

-- The program runs as the tasks 0 and 1, each in pages of its own, and no other task is there.
pub record RunsTwice (pages : ℕ) (hs : List Held) (m : Memory) (base : ℕ) (segment : Elf64Phdr)
    (before : Option ℕ) (l : Kernel) : Type 0 where
  pub stack0 : ℕ
  pub vma0 : ℕ
  pub stack1 : ℕ
  pub vma1 : ℕ
  pub first : RunsProgram m base segment l 0 stack0 vma0
  pub second : RunsProgram m base segment l 1 stack1 vma1
  pub held :
      let n = pages_of segment.p_memsz in
      Holds pages ((vma1, n) ∷ (stack1, 2) ∷ (vma0, n) ∷ (stack0, 2) ∷ hs) l.pool
  pub free : AllFree 2 l
  pub current : l.current ≡ current_after 0 before
  pub tables : IsValid l.vfs

pub RunsTwice-file :
    {pages : ℕ} {hs : List Held} {m m' : Memory} {base size : ℕ} {segment : Elf64Phdr}
    {before : Option ℕ} {l : Kernel}
    → SameBytes (64 + size) m base m' base
    → segment.p_offset + segment.p_filesz ≤ size
    → RunsTwice pages hs m' base segment before l
    → RunsTwice pages hs m base segment before l
RunsTwice-file same inside r = record {
  stack0 = r.stack0;
  vma0 = r.vma0;
  stack1 = r.stack1;
  vma1 = r.vma1;
  first = RunsProgram-file same inside r.first;
  second = RunsProgram-file same inside r.second;
  held = r.held;
  free = r.free;
  current = r.current;
  tables = r.tables;
}

current_twice : (o c : Option ℕ) → c ≡ current_after 0 o → current_after 1 c ≡ current_after 0 o
current_twice none c e = rw e refl
current_twice (some x) c e = rw e refl

module _ {pages : ℕ} {hs : List Held} {frame : ℕ} {name : Memory} {node base size : ℕ}
    {segment : Elf64Phdr} {k : Kernel}
    (c : IsInstalled pages hs frame name node base size segment k)
    (room : k.vfs.fds_next + 2 ≤ k.vfs.fds_max) (full : length k.tasks ≡ max_tasks)
    (numbered : AllFree 0 k) where
  pub first_free : find_free_task k ≡ some 0
  first_free =
      find_free_task-some k 0 (omega arith)
        (ap is_invalid (numbered 0 (omega arith) (omega arith)).1) λ x h. absurd (omega arith)

  -- the second of the two calls
  pub run_again :
      (l : Kernel)
      → ProgramRuns pages hs frame base size segment 0 k l
      → Settles
          (λ _ l'.
            RunsTwice pages hs k.vfs.memory base segment k.current l'
            × (l'.idle ≡ k.idle)
            × (l'.mem ≡ k.mem))
          no_continuous_memory
          (task_load frame name l)
  run_again l (d, left) =
      let place : 0 < length k.tasks = omega (arith, full) in
      let n = pages_of segment.p_memsz in
      let file = ProgramRuns-file c place (d, left) in
      let c' : IsInstalled pages ((d.vma, n) ∷ (d.stack, 2) ∷ hs) frame name node base size segment
          l =
        IsInstalled-kept c d.held left.start d.tables left.files file in
      let full' : length l.tasks ≡ max_tasks = ap length d.entry ∙ length-set k.tasks 0 _ ∙ full in
      let first = ProgramRuns-task c place (d, left) (numbered 0 (omega arith) (omega arith)).0 in
      let others = ProgramRuns-others c place (d, left) in
      let other : task l 1 ≡ task k 1 = others 1 (λ e. omega arith) in
      let next : find_free_task l ≡ some 1 =
        find_free_task-some l 1 (omega arith)
          (ap (λ (t : Task). is_invalid t.state) other
            ∙ ap is_invalid (numbered 1 (omega arith) (omega arith)).1)
          λ x h.
            subst (λ (x : ℕ). is_invalid (task l x).state ≡ false) {x = 0} (omega arith)
              (ap is_invalid first.active) in
      Settles-mono
        (task_load-Settles c' (omega (arith, left.next, left.files.room)) next
          (omega (arith, full')))
        λ a l' (d', left').
          let place' : 1 < length l.tasks = omega (arith, full') in
          let others' = ProgramRuns-others c' place' (d', left') in
          let fits : segment.p_filesz ≤ n * 4096 = omega (arith, c.program.inside) in
          (
            record {
              stack0 = d.stack;
              vma0 = d.vma;
              stack1 = d'.stack;
              vma1 = d'.vma;
              first = RunsProgram-kept first fits (others' 0 (λ e. omega arith)) λ x h.
                  left'.elsewhere (d.vma + x)
                    (Outside-held c.small [] d.vma n _ (omega (arith, c.fits, left.start)) d.held
                      d.run x h)
                    (inr (omega (arith, d.run.at, c'.low_frame)));
              second = RunsProgram-file file c.program.whole (
                  ProgramRuns-task c' place' (d', left')
                    (ap (λ (t : Task). t.tid) other ∙ (numbered 1 (omega arith) (omega arith)).0));
              held = d'.held;
              free = λ i low high.
                  let same = others' i (λ e. omega arith) ∙ others i (λ e. omega arith) in
                  let (tid, state) = numbered i (omega arith) high in
                  (ap (λ (t : Task). t.tid) same ∙ tid, ap (λ (t : Task). t.state) same ∙ state);
              current = d'.current ∙ current_twice k.current l.current d.current;
              tables = d'.tables;
            },
            ap (λ (l : Kernel). l.idle) d'.rest ∙ ap (λ (l : Kernel). l.idle) d.rest,
            ap (λ (l : Kernel). l.mem) d'.rest ∙ ap (λ (l : Kernel). l.mem) d.rest,
          )
