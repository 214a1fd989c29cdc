-- ===== src/Init.antt =====
-- kernel/init.c: the kernel's parts are set up in order.
pub mod Devices
pub mod Pieces
pub mod Interrupts
pub mod Bootable
pub mod Program
mod Tests
use mk_os.Base.{ℕ, none, List, [], replicate}
use mk_os.Base.Run.{Run, ok, panic, fault, out_of_fuel, Cmd, carry}
use mk_os.Memory.{Memory}
use mk_os.Page.{page_init}
use mk_os.Kmalloc.{Kmem, kmalloc_init, kzalloc}
use mk_os.Vfs.{Vfs, vfs_init}
use mk_os.Kernel.{Kernel, no_task, max_tasks}
use mk_os.Task.Load.{task_create}
use mk_os.Gic.{Gic, no_handler, gic_init, gic_enable_interrupts}
use mk_os.Timer.{Machine, IrqHandler, timer_init}
use mk_os.Mm.{Tables, mmu_init}
use mk_os.Mm.Dump.{Mmu}

-- What the kernel finds: the end of its image, memory, where the linker has put its tables and
-- functions, the MMU, and the values of GICD_TYPER and CNTFRQ_EL0.
pub record Board : Type 0 where
  pub heap_start : ℕ
  pub memory : Memory
  pub tables : Tables
  pub mmu : Mmu
  pub typer : ℕ
  pub frequency : ℕ
  pub input : List ℕ

-- the whole machine
pub record System : Type 0 where
  pub controller : Gic IrqHandler Machine
  pub mmu : Mmu

abbrev pub kmem_of : Kernel → Kmem
kmem_of k = record { pool = k.pool; mem = k.mem; memory = k.vfs.memory }

abbrev pub put_kmem : Kmem → Kernel → Kernel
put_kmem m k = record k { pool = m.pool; mem = m.mem; vfs = record k.vfs { memory = m.memory } }

abbrev pub put_kernel : Kernel → Gic IrqHandler Machine → Gic IrqHandler Machine
put_kernel k g = record g { rest = record g.rest { kernel = k } }

-- `kzalloc` as `gic_init` calls it
unfoldable pub kzalloc_for : ℕ → Cmd (Gic IrqHandler Machine) ℕ
kzalloc_for size g =
    carry (kzalloc size (kmem_of g.rest.kernel))
      (λ p m. ok p (put_kernel (put_kmem m g.rest.kernel) g))

-- the static variables of the other files when the first two parts are set up
abbrev pub first_kernel : Board → Kmem → Vfs → Kernel
first_kernel b m files = record {
  pool = m.pool;
  mem = m.mem;
  vfs = files;
  tasks = replicate max_tasks no_task;
  idle = no_task;
  current = none;
  input = b.input;
  output = [];
}

abbrev pub first_controller : Board → Kmem → Vfs → Gic IrqHandler Machine
first_controller b m files = record {
  irq_handlers = [];
  irq_count = 0;
  pending = [];
  writes = [];
  rest = record { kernel = first_kernel b m files; timer_frequency = 0; msrs = [] };
}

-- from `page_init` to `kmalloc_init`
unfoldable pub init_memory : Board → Run Kmem (Unit {0})
init_memory b =
    carry (page_init b.heap_start)
      (λ _ pool. kmalloc_init (record { pool = pool; mem = []; memory = b.memory }))

-- from `gic_init` to `gic_enable_interrupts`
unfoldable pub init_interrupts : Board → Cmd (Gic IrqHandler Machine) (Unit {0})
unfolding kzalloc_for
init_interrupts b g =
    carry (gic_init kzalloc_for b.typer g)
      (λ _ h. carry (timer_init b.frequency h) (λ _ h'. gic_enable_interrupts h'))

-- `init_kernel` before `task_create`. The result of `vfs_init` is not looked at. The loads whose
-- values are only printed are left out.
unfoldable pub init_devices : Board → Run System (Unit {0})
unfolding init_memory init_interrupts
init_devices b = carry (init_memory b) (λ _ m. carry (mmu_init b.tables b.mmu) (λ _ mmu.
    carry (vfs_init m) (λ _ (m', files).
      carry (init_interrupts b (first_controller b m' files))
        (λ _ g. ok tt (record { controller = g; mmu = mmu })))))

unfoldable pub init_kernel : (frame idle_loop : ℕ) (name : Memory) → Board → Run System (Unit {0})
unfolding init_devices
init_kernel frame idle_loop name b = carry (init_devices b) (λ _ s.
    carry (task_create frame idle_loop name s.controller.rest.kernel)
      (λ _ k. ok tt (record s { controller = put_kernel k s.controller })))
