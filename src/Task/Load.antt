-- ===== src/Task/Load.antt =====
-- The part of kernel/core/task.c that makes tasks: `add_idle`, `task_load` and `task_create`.
pub mod Start
pub mod Finish
pub mod Fetch
pub mod Launch
pub mod Again
pub mod Twice
pub mod Create
mod Tests
use mk_os.Base.{
  ℕ, zero, suc, ◌+◌, ◌*◌, ◌/◌, ◌%◌, ◌^◌, Option, none, some, Bool, true, false, ◌==◌, if◌then◌else◌,
  get_or, set,
}
use mk_os.Base.Int.{ℤ, pos, negsuc, to_word}
use mk_os.Base.Run.{Run, ok, panic, fault, Cmd, pure, and_then, ◌>>=◌, ◌>>◌}
use mk_os.Base.Word.{add64, sub64}
use mk_os.Bitops.{ntohl}
use mk_os.Layout.{page_size, page_shift, align_pgup}
use mk_os.Memory.{Memory, from}
use mk_os.Image.{ImageHeader, image_header, sizeof_image_header}
use mk_os.Page.{page_alloc, page_free}
use mk_os.Vfs.{vfs_open, vfs_read, vfs_close}
use mk_os.Kernel.{CpuCtx, task_invalid, task_active, Task, Kernel, max_tasks, task, set_task}
use mk_os.Kernel.Parts.{in_pool, in_vfs}
use mk_os.Elf.{load_elf}
use mk_os.Task.{find_free_task}

-- a state that only the static variables have changed
abbrev pub store_in : (Kernel → Kernel) → Cmd Kernel (Unit {0})
store_in f k = ok tt (f k)

-- the context that a new task begins with
abbrev pub first_ctx : Task → (x0 spsr pc : ℕ) → CpuCtx
first_ctx t x0 spsr pc = record {
  gpr = set t.ctx.gpr 0 x0;
  lr = 0;
  sp = page_size * 2;
  spsr = spsr;
  pc = pc;
}

-- `task_load` from the name to `ctx.pc`
pub prepare_task : ℕ → Memory → Cmd Kernel (Unit {0})
prepare_task i name = in_pool (page_alloc 2) >>= λ base k.
    store_in
      (set_task i (record (task k i) {
        name = name;
        vma_size = 0;
        vma_addr = 0;
        stack_base = base;
        stack_size = page_size * 2;
        ctx = first_ctx (task k i) (task k i).tid 0x200 0;
      }))
      k

-- The header of the image, which `task_load` has on its stack at `frame`
abbrev pub header_at : ℕ → Kernel → ImageHeader
header_at frame k = image_header k.vfs.memory frame

abbrev pub started : (frame i : ℕ) → Kernel → Task
started frame i k =
    let hdr = header_at frame k in
    let t = task k i in
    record t {
      ctx = record t.ctx { pc = sub64 (add64 t.vma_addr (ntohl hdr.ih_ep)) (ntohl hdr.ih_load) };
      state = task_active;
    }

-- `if (!current) current = task`
abbrev pub first_current : ℕ → Kernel → Kernel
first_current i k = record k { current = elim k.current [ none ↦ some i | some c ↦ some c ] }

pub start_task : (frame : ℕ) → ℤ → ℕ → Cmd Kernel (Unit {0})
start_task frame fd i =
    (λ k. store_in (set_task i (started frame i k)) k)
    >> in_vfs (vfs_close fd)
    >> store_in (first_current i)

-- `task_load` behind the read of the program
pub load_image : (frame : ℕ) → ℤ → (i blob size : ℕ) → Cmd Kernel (Unit {0})
unfolding start_task
load_image frame fd i blob size = load_elf i blob size >>= λ failed.
    in_pool (page_free blob (align_pgup size / 2 ^ page_shift))
    >> (if failed then pure tt else start_task frame fd i)

-- `task_load` for the free task `i`
pub load_task : (frame : ℕ) → ℤ → ℕ → Cmd Kernel (Unit {0})
unfolding prepare_task load_image
load_task frame fd i k =
    (prepare_task i (from k.vfs.memory (header_at frame k).ih_name) >> λ l.
    let size = ntohl (header_at frame l).ih_size in
    (in_pool (page_alloc (align_pgup size / 2 ^ page_shift)) >>= λ blob.
    in_vfs (vfs_read fd blob size) >>= λ ret m.
    if to_word ret == ntohl (header_at frame m).ih_size
    then load_image frame fd i blob size m
    else ok tt m)
      l)
      k

abbrev pub close_and_return : ℤ → Cmd Kernel (Unit {0})
close_and_return fd = in_vfs (vfs_close fd) >> pure tt

-- whether the whole header has been read
abbrev pub whole_header : ℤ → Bool
whole_header (pos n) = n == sizeof_image_header
whole_header (negsuc n) = false

pub load_opened : (frame : ℕ) → ℤ → Cmd Kernel (Unit {0})
unfolding load_task
load_opened frame (negsuc n) = pure tt
load_opened frame (pos n) =
    let fd = pos n in
    in_vfs (vfs_read fd frame sizeof_image_header) >>= λ ret.
    if whole_header ret
    then (λ k. elim (find_free_task k) [
      | none ↦ close_and_return fd k
      | some i ↦ load_task frame fd i k
    ])
    else close_and_return fd

pub task_load : (frame : ℕ) → Memory → Cmd Kernel (Unit {0})
unfolding load_opened
task_load frame name = in_vfs (vfs_open name) >>= load_opened frame

-- the bytes of "idle", with its end
abbrev pub idle_name : Memory → Memory
idle_name old i =
    if i == 0
    then 105
    else if i == 1
    then 100
    else if i == 2
    then 108
    else if i == 3
    then 101
    else if i == 4
    then 0
    else old i

-- `idle_loop` is the address of that function.
pub add_idle : ℕ → Cmd Kernel (Unit {0})
add_idle idle_loop = in_pool (page_alloc 1) >>= λ base k.
    store_in
      (λ l. record l {
        idle = record k.idle {
          name = idle_name k.idle.name;
          vma_size = 0;
          vma_addr = 0;
          stack_base = base;
          stack_size = page_size * 2;
          ctx = first_ctx k.idle 0 0x300 idle_loop;
          state = task_active;
        };
      })
      k

-- the first loop of `task_create`, from `i` on with `n` rounds left
pub number_tasks : (i n : ℕ) → Kernel → Kernel
number_tasks i zero k = k
number_tasks i (suc n) k =
    number_tasks (i + 1) n (set_task i (record (task k i) { tid = i; state = task_invalid }) k)

-- `name` gives the bytes of "test-app".
unfoldable pub task_create : (frame idle_loop : ℕ) → Memory → Cmd Kernel (Unit {0})
unfolding number_tasks add_idle task_load
task_create frame idle_loop name =
    store_in (number_tasks 0 max_tasks)
    >> add_idle idle_loop
    >> task_load frame name
    >> task_load frame name
