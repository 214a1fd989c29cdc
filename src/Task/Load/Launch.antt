-- ===== src/Task/Load/Launch.antt =====
-- `task_load` of a program that is there: the task runs.
mod Tests
use mk_os.Base.{
  ℕ, ◌+◌, ◌-◌, ◌*◌, ◌^◌, ◌≤◌, ◌<◌, ◌≡◌, refl, ap, sym, ◌∙◌, ◌⊎◌, arith, inl, inr, none, some, List,
  length, if◌then◌else◌,
}
use mathlib.Core.Path.{subst}
use mk_os.Base.Int.{pos}
use mk_os.Base.Run.{ok, no_continuous_memory, Ends, ends, Ends-ok, Settles, Settles-mono}
use mk_os.Bitops.{ntohl}
use mk_os.Memory.{Memory, memcpy}
use mk_os.Memory.Copy.{in_range, memcpy_lem}
use mk_os.Image.{image_header}
use mk_os.Image.Same.{SameBytes}
use mk_os.Page.Client.{Held}
use mk_os.Page.Holding.{Holds, Outside}
use mk_os.Vfs.{Vfs, inode, config_max_files}
use mk_os.Vfs.Counts.{IsValid}
use mk_os.Vfs.Open.{HasName}
use mk_os.Vfs.Session.{Reading, SameFiles, SameFiles-trans, vfs_open-IsOpened, vfs_read-Reading}
use mk_os.Kernel.{Kernel}
use mk_os.Kernel.Parts.{merge, in_vfs, put_vfs}
use mk_os.Elf.{Elf64Phdr}
use mk_os.Elf.Program.{IsProgram}
use mk_os.Task.{find_free_task}
use mk_os.Task.Load.{close_and_return, load_opened, load_task, task_load}
use mk_os.Task.Load.Finish.{Kept}
use mk_os.Task.Load.Fetch.{Opened, Launched, load_task-Settles}

-- What is asked of the state: the pages `hs` of the pool are held; the first file of the name is
-- `node`, at `base`, with a program of `size` bytes; and the file and the header on the stack, at
-- `frame`, lie below the pool and apart from each other.
pub record IsInstalled (pages : ℕ) (hs : List Held) (frame : ℕ) (name : Memory) (node base size : ℕ)
    (segment : Elf64Phdr) (k : Kernel) : Type 0 where
  pub small : pages ≤ 2 ^ 20
  pub held : Holds pages hs k.pool
  pub start : 0 < k.pool.mem_pool_start
  pub fits : k.pool.mem_pool_start + pages * 4096 < 2 ^ 64
  pub tables : IsValid k.vfs
  pub low_node : node < config_max_files
  pub there : node < k.vfs.vfs_next
  pub named : HasName name k.vfs node
  pub first : (j : ℕ) → j < node → ¬ HasName name k.vfs j
  pub begins : (inode k.vfs node).blob_start ≡ base
  pub whole : (inode k.vfs node).blob_size ≡ 64 + size
  pub sized : ntohl (image_header k.vfs.memory base).ih_size ≡ size
  pub word : size + 4095 < 2 ^ 32
  pub program : IsProgram k.vfs.memory (base + 64) size segment
  pub low_file : base + 64 + size ≤ k.pool.mem_pool_start
  pub low_frame : frame + 64 ≤ k.pool.mem_pool_start
  pub apart : (frame + 64 ≤ base) ⊎ (base + 64 + size ≤ frame)

-- What `task_load` leaves as it was: the files, the memory outside the free pages and its own stack,
-- and the place of the pool. One more descriptor has been used.
pub record Left (frame : ℕ) (k l : Kernel) : Type 0 where
  pub files : SameFiles k.vfs l.vfs
  pub next : l.vfs.fds_next ≡ k.vfs.fds_next + 1
  pub elsewhere :
      (a : ℕ) → Outside k.pool a → (a < frame) ⊎ (frame + 64 ≤ a) → l.vfs.memory a ≡ k.vfs.memory a
  pub start : l.pool.mem_pool_start ≡ k.pool.mem_pool_start

-- The task `i` runs the program, of which the file is at `base`.
abbrev pub ProgramRuns :
    (pages : ℕ) (hs : List Held) (frame base size : ℕ) (segment : Elf64Phdr) (i : ℕ) (k l : Kernel)
    → Type 0
ProgramRuns pages hs frame base size segment i k l =
    Launched pages hs k.vfs.memory base size frame k.vfs.fds_next i segment k l × Left frame k l

module _ {pages : ℕ} {hs : List Held} {frame : ℕ} {name : Memory} {node base size : ℕ}
    {segment : Elf64Phdr} {i : ℕ} {k : Kernel}
    (c : IsInstalled pages hs frame name node base size segment k)
    (room : k.vfs.fds_next < k.vfs.fds_max) (free : find_free_task k ≡ some i)
    (place : i < length k.tasks) where
  apart_buffer : (frame ≤ base + 0) ⊎ (base + 0 + 64 ≤ frame)
  apart_buffer = elim c.apart [
    | inl below ↦ inl (omega (arith, below))
    | inr above ↦ inr (omega (arith, above))
  ]

  opened :
      {v : Vfs}
      → v.memory ≡ memcpy frame (base + 0) 64 k.vfs.memory
      → Reading base (64 + size) k.vfs.fds_next 64 v
      → Opened pages hs k.vfs.memory base size frame k.vfs.fds_next i segment hs (put_vfs v k)
  opened {v} copied reading =
      let at : (a : ℕ)
          → v.memory a ≡ (
              if in_range a frame 64
              then k.vfs.memory (base + 0 + (a - frame))
              else k.vfs.memory a) =
        λ a.
          ap (λ (n : Memory). n a) copied
          ∙ memcpy_lem frame (base + 0) 64 k.vfs.memory a apart_buffer in
      record {
        held = c.held;
        start = c.start;
        fits = c.fits;
        word = c.word;
        reading = reading;
        file = record { bytes = λ x h. sym (ground (arith, at (base + x), c.apart)) };
        header = record {
          bytes = λ x h.
              ap k.vfs.memory {y = base + 0 + (frame + x - frame)} (omega arith)
              ∙ sym (ground (arith, at (frame + x)));
        };
        sized = c.sized;
        low_file = c.low_file;
        low_frame = c.low_frame;
        place = place;
      }

  -- what is known of the task does not hang on the tables before
  Launched-files :
      {v : Vfs} {l : Kernel}
      → Launched pages hs k.vfs.memory base size frame k.vfs.fds_next i segment (put_vfs v k) l
      → Launched pages hs k.vfs.memory base size frame k.vfs.fds_next i segment k l
  Launched-files d = record {
    stack = d.stack;
    vma = d.vma;
    name = d.name;
    held = d.held;
    run = d.run;
    bytes = d.bytes;
    zeros = d.zeros;
    named = d.named;
    entry = d.entry;
    current = d.current;
    tables = d.tables;
    closed = d.closed;
    rest = d.rest;
  }

  find_free_task-files : (v : Vfs) → find_free_task (put_vfs v k) ≡ find_free_task k
  unfolding find_free_task
  find_free_task-files v = refl

  chosen :
      (l : Kernel)
      → find_free_task l ≡ some i
      → elim (find_free_task l) [
        | none ↦ close_and_return (pos k.vfs.fds_next) l
        | some j ↦ load_task frame (pos k.vfs.fds_next) j l
      ]
        ≡ load_task frame (pos k.vfs.fds_next) i l
  chosen l e = rw e refl

  abbrev Runs : Kernel → Type 0
  Runs l = ProgramRuns pages hs frame base size segment i k l

  left :
      {v : Vfs} {l : Kernel}
      → v.memory ≡ memcpy frame (base + 0) 64 k.vfs.memory
      → SameFiles k.vfs v
      → v.fds_next ≡ k.vfs.fds_next + 1
      → Kept (put_vfs v k) l
      → Left frame k l
  left {v} copied files next kept =
      let at = λ (a : ℕ) (out : (a < frame) ⊎ (frame + 64 ≤ a)).
        ap (λ (n : Memory). n a) copied
        ∙ ground (arith, memcpy_lem frame (base + 0) 64 k.vfs.memory a apart_buffer, out) in
      record {
        files = SameFiles-trans files kept.files;
        next = kept.next ∙ next;
        elsewhere = λ a h out. kept.elsewhere a h ∙ at a out;
        start = kept.start;
      }

  -- `load_opened` for the descriptor that `vfs_open` has returned
  load_opened-Settles :
      {v : Vfs}
      → v.memory ≡ k.vfs.memory
      → Reading base (64 + size) k.vfs.fds_next 0 v
      → SameFiles k.vfs v
      → v.fds_next ≡ k.vfs.fds_next + 1
      → Settles
          (λ _ l. Runs l)
          no_continuous_memory
          (load_opened frame (pos k.vfs.fds_next) (put_vfs v k))
  unfolding load_opened in_vfs merge
  load_opened-Settles {v} same reading files next =
      let (x, w, e, (ex, copied, reading', files', next')) =
        Ends-ok (vfs_read-Reading reading frame 64 (omega (arith, c.word)) (omega arith)) in
      let copied' = copied ∙ ap (memcpy frame (base + 0) 64) same in
      rw (e, ex)
        (subst (Settles (λ _ l. Runs l) no_continuous_memory)
          (sym (chosen (put_vfs w k) (find_free_task-files w ∙ free)))
          (Settles-mono
            (load_task-Settles pages hs k.vfs.memory base size frame k.vfs.fds_next i segment
              c.small c.program (opened copied' reading'))
            λ a l (d, kept).
              (Launched-files d, left copied' (SameFiles-trans files files') (next' ∙ next) kept)))

  -- Where the first file of the name is a program that lies below the pool, a task and a descriptor
  -- are free, and the pages of the pool are shared by its free blocks and the runs held, `task_load`
  -- makes the first free task active: its memory is fresh pages with the bytes of the program's
  -- first segment to be loaded and zeros behind them, its stack is two fresh pages, it begins at
  -- the entry point and has the name of the image. The pages of the image are given back, the
  -- descriptor is closed, the task is current if there was none, and the files, the other tasks and
  -- the memory outside the free pages and the stack are as before. Or the kernel panics for want of
  -- pages.
  pub task_load-Settles : Settles (λ _ l. Runs l) no_continuous_memory (task_load frame name k)
  unfolding task_load in_vfs merge
  task_load-Settles =
      let (x, v, e, (ex, (same, reading, files, next))) =
        Ends-ok (vfs_open-IsOpened c.tables node c.low_node name c.there c.named c.first room) in
      let reading' : Reading base (64 + size) k.vfs.fds_next 0 v =
        subst (λ (s : ℕ). Reading base s k.vfs.fds_next 0 v) c.whole
          (subst (λ (b : ℕ). Reading b (inode k.vfs node).blob_size k.vfs.fds_next 0 v) c.begins
            reading) in
      rw (e, ex) (load_opened-Settles same reading' files next)
