-- ===== src/Init/Devices.antt =====
-- kernel/init.c: the state that the set-up ends in.
use mk_os.Base.{
  ℕ, ◌*◌, ◌%◌, ◌^◌, ◌≤◌, ◌<◌, ◌≡◌, refl, ap, ◌∙◌, inl, inr, [], ◌∷◌, ◌++◌, length, length-replicate,
  length-set, set, replicate, get_or-set_self, append_assoc, leb, false, some, ==_of_ne, arith,
}
use mk_os.Base.Run.{no_continuous_memory, carry-Settles, ends, Ends-ok, Settles}
use mk_os.Page.{pool_pages}
use mk_os.Page.Init.{IsHeap, page_init-Bounds, page_init-Owned}
use mk_os.Kmalloc.{Kmem}
use mk_os.Kmalloc.Outcome.{IsKmem, kmalloc_init-IsKmem}
use mk_os.Kmalloc.Steady.{kzalloc-IsKmem}
use mk_os.Base.Bits.{bit_and-mask}
use mk_os.Memory.{Memory}
use mk_os.Vfs.{Vfs}
use mk_os.Vfs.Counts.{IsValid}
use mk_os.Gic.{
  GicHandler, Gic, no_handler, count_for, init_writes, gicd_reg, gicd_isenabler, gicc_reg,
  gicc_ctlr, gic_init, gic_register_irq, gic_enable_irq, gic_enable_interrupts,
}
use mk_os.Gic.Serve.{IsServed}
use mk_os.Timer.{Machine, IrqHandler, timer_interrupt, next_tick, timer_init}
use mk_os.Vfs.Start.{vfs_init-Settles}
use mk_os.Mm.Build.{IsPlaced}
use mk_os.Mm.Space.{address_map}
use mk_os.Mm.Start.{mmu_init-refines}
use mk_os.Mm.Walk.{translate}
use mk_os.Init.{
  Board, kmem_of, first_controller, kzalloc_for, init_memory, init_interrupts, init_devices,
}

-- the number of interrupts that the controller reports
pub count_bounds : (typer : ℕ) → (32 ≤ count_for typer) × (count_for typer ≤ 512)
count_bounds typer = omega (arith, bit_and-mask 4 typer)

-- The controller serves the timer's interrupt and signals interrupts, and the kernel's memory and
-- its files are as they are to be.
pub record IsListening (b : Board) (lim : ℕ) (g : Gic IrqHandler Machine) : Type 0 where
  pub kmem : IsKmem lim (kmem_of g.rest.kernel)
  pub files : IsValid g.rest.kernel.vfs
  pub count : g.irq_count ≡ count_for b.typer
  pub handlers : length g.irq_handlers ≡ g.irq_count
  pub timer : IsServed g.irq_handlers g.irq_count 30
  pub frequency : g.rest.timer_frequency ≡ b.frequency
  pub started : g.rest.msrs ≡ next_tick b.frequency
  pub written :
      g.writes
      ≡ init_writes (count_for b.typer)
        ++ (gicd_reg (gicd_isenabler 0), 2 ^ 30) ∷ (gicc_reg gicc_ctlr, 1) ∷ []

IsKmem-memory :
    {lim : ℕ} {m : Kmem} (memory : Memory)
    → IsKmem lim m
    → IsKmem lim (record m { memory = memory })
IsKmem-memory memory i = record {
  sound = i.sound;
  started = i.started;
  aligned = i.aligned;
  fits = i.fits;
  some_chunk = i.some_chunk;
  chunks = i.chunks;
}

pub IsValid-memory :
    {s : Vfs} (memory : Memory) → IsValid s → IsValid (record s { memory = memory })
IsValid-memory memory v = record {
  files = v.files;
  slots = v.slots;
  few = v.few;
  next = v.next;
  fresh = v.fresh;
  target = v.target;
  counted = v.counted;
}

-- the handler of the timer in a fresh table
timer-IsServed :
    (count : ℕ)
    → 32 ≤ count
    → IsServed
        (set (replicate count no_handler) 30 (record { fcn = some timer_interrupt; arg = 0 }))
        count
        30
timer-IsServed count h = record {
  handler = timer_interrupt;
  real = λ e. omega arith;
  known = omega arith;
  registered =
      ap (λ (e : GicHandler IrqHandler). e.fcn)
        (get_or-set_self (replicate count no_handler) 30
          (record { fcn = some timer_interrupt; arg = 0 }) no_handler
          (omega (arith, length-replicate {A = GicHandler IrqHandler} count no_handler)));
}

module _ (b : Board) {lim : ℕ} (few : lim ≤ 2 ^ 20) where
  pub init_interrupts-IsListening :
      (m : Kmem) (files : Vfs)
      → IsKmem lim m
      → IsValid files
      → Settles
          (λ _. IsListening b lim)
          no_continuous_memory
          (init_interrupts b (first_controller b m files))
  unfolding init_interrupts kzalloc_for gic_init timer_init gic_register_irq gic_enable_irq
      gic_enable_interrupts
  init_interrupts-IsListening m files i v =
      let count = count_for b.typer in
      let bounds = count_bounds b.typer in
      elim (kzalloc-IsKmem few (count * 16) (omega (arith, bounds))
        (record m { memory = files.memory }) (IsKmem-memory files.memory i)) [
          | inl e ↦
              let (p, m', eq, (i', positive)) = Ends-ok e in
              let known : leb count 30 ≡ false = ground (arith, bounds) in
              rw (eq, ==_of_ne (λ (z : p ≡ 0). omega arith), known)
                (inl (
                  ends (record {
                    kmem = i';
                    files = IsValid-memory m'.memory v;
                    count = refl;
                    handlers =
                        length-set (replicate count no_handler) 30 _
                        ∙ length-replicate {A = GicHandler IrqHandler} count no_handler;
                    timer = timer-IsServed count bounds.0;
                    frequency = refl;
                    started = refl;
                    written = append_assoc (init_writes count) _ _;
                  })))
          | inr stopped ↦ rw stopped (inr refl)
        ]

module _ (b : Board) (heap : IsHeap b.heap_start) where
  abbrev pages : ℕ
  pages = pool_pages b.heap_start

  pages_few : pages ≤ 2 ^ 20
  pages_few = omega (arith, page_init-Bounds b.heap_start heap)

  init_memory-IsKmem : Settles (λ _ m. IsKmem pages m) no_continuous_memory (init_memory b)
  unfolding init_memory
  init_memory-IsKmem =
      let bounds = page_init-Bounds b.heap_start heap in
      carry-Settles (inl (page_init-Owned b.heap_start heap)) λ _ pool (owned, start).
        elim (kmalloc_init-IsKmem pages_few (record { pool = pool; mem = []; memory = b.memory })
          owned.sound (omega (arith, start, bounds, heap))
          (ap (λ (a : ℕ). a % 4096) start ∙ bounds.aligned) (omega (arith, start, bounds))) [
            | inl e ↦ inl e
            | inr (stopped, nothing) ↦ inr stopped
          ]

  -- With a heap in memory and the tables in place, all of `init_kernel` before `task_create` ends
  -- or panics for want of memory. Where it ends, the allocators and the table of files are as they
  -- are to be, the controller has a handler for the timer's interrupt and is switched on, the timer
  -- has been set, and every 64-bit address is translated by the kernel's address map.
  pub init_devices-Settles :
      IsPlaced b.tables
      → Settles
          (λ _ s.
            IsListening b (pool_pages b.heap_start) s.controller
            × ((va : ℕ) → va < 2 ^ 64 → translate s.mmu va ≡ address_map va))
          no_continuous_memory
          (init_devices b)
  unfolding init_devices
  init_devices-Settles placed = carry-Settles init_memory-IsKmem λ _ m i.
      carry-Settles (inl (mmu_init-refines b.tables placed b.mmu)) λ _ mmu space.
        carry-Settles (vfs_init-Settles pages_few m i) λ r (m', files) (zero, started).
          carry-Settles
            (init_interrupts-IsListening b pages_few m' files started.kmem started.valid)
            λ _ g ready. inl (ends (ready, space))
