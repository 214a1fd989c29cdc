-- ===== src/Task/Load/Launch/Tests.antt =====
-- A program of five bytes and three more of memory is loaded from the file "a".
use mk_os.Base.{
  ℕ, zero, suc, ◌+◌, ◌<◌, ◌≡◌, refl, ap, sym, ◌∙◌, arith, inr, none, some, replicate, set,
  get_or-replicate, length, length-replicate, [],
}
use mk_os.Base.Run.{no_continuous_memory, Settles}
use mk_os.Memory.{from}
use mk_os.Page.Holding.{Holds}
use mk_os.Vfs.{Inode, Vfs, no_inode, no_descriptor, inode, descriptor, config_max_files}
use mk_os.Vfs.Counts.{IsValid, refs}
use mk_os.Kernel.{Kernel, no_task, max_tasks}
use mk_os.Task.{find_free_task}
use mk_os.Task.Load.{task_load, task_create}
use mk_os.Task.Load.Create.{Created, task_create-Settles}
use mk_os.Task.Load.Launch.{IsInstalled, ProgramRuns, task_load-Settles}
use mk_os.Fixtures.Flash.{base, flash, segment, flash-IsProgram, size_read}
use mk_os.Fixtures.{pool, pool-IsSound, kernel}

abbrev file : Inode
file = record { name = from flash (base + 32); blob_start = base; blob_size = 189; refcount = 0 }

abbrev files : Vfs
files = record {
  vfs = set (replicate config_max_files no_inode) 0 file;
  vfs_next = 1;
  fds = replicate 100 no_descriptor;
  fds_next = 0;
  fds_max = 100;
  memory = flash;
}

abbrev start : Kernel
start = record (kernel (replicate max_tasks no_task) flash) { vfs = files; current = none }

none_or_some : {node : ℕ} → none ≡ some node → ⊥
none_or_some e = cc

files-IsValid : IsValid files
files-IsValid = record {
  files = refl;
  slots = refl;
  few = omega arith;
  next = omega arith;
  fresh = λ i h. closed i;
  target = λ i node e. absurd (none_or_some (sym (closed i) ∙ e));
  counted = counted;
}
  where
    closed : (i : ℕ) → (descriptor files i).file ≡ none
    closed i = ap (λ (d : _). d.file) (get_or-replicate 100 no_descriptor i)

    counted :
        (node : ℕ) → node < config_max_files → (inode files node).refcount ≡ refs node files.fds
    counted zero h = refl
    counted (suc node) h = ap (λ (f : Inode). f.refcount) (get_or-replicate 63 no_inode node)

no_page_held : Holds 8 [] pool
no_page_held = record {
  sound = pool-IsSound;
  shared = λ g d. omega arith;
  roomy = omega arith;
  start = omega arith;
}

full : length start.tasks ≡ max_tasks
full = length-replicate max_tasks no_task

first_free : find_free_task start ≡ some 0
unfolding find_free_task
first_free = refl

start-IsInstalled : IsInstalled 8 [] 0x40008000 (from flash (base + 32)) 0 base 125 segment start
start-IsInstalled = record {
  small = omega arith;
  held = no_page_held;
  start = omega arith;
  fits = omega arith;
  tables = files-IsValid;
  low_node = omega arith;
  there = omega arith;
  named = (refl, λ h. (refl, λ h'. absurd (h' refl)));
  first = λ j h. absurd (omega arith);
  begins = refl;
  whole = refl;
  sized = size_read;
  word = omega arith;
  program = flash-IsProgram;
  low_file = omega arith;
  low_frame = omega arith;
  apart = inr (omega arith);
}

task_load-Settles_example :
    Settles
      (λ _ l. ProgramRuns 8 [] 0x40008000 base 125 segment 0 start l)
      no_continuous_memory
      (task_load 0x40008000 (from flash (base + 32)) start)
task_load-Settles_example =
    task_load-Settles start-IsInstalled (omega arith) first_free (omega (arith, full))

task_create-Settles_example :
    Settles
      (λ _ l. Created 8 [] flash base segment none l × (l.mem ≡ start.mem))
      no_continuous_memory
      (task_create 0x40008000 0x40001000 (from flash (base + 32)) start)
task_create-Settles_example = task_create-Settles 0x40001000 start-IsInstalled (omega arith) full
