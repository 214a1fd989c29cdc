-- ===== src/Init/Program.antt =====
-- kernel/init.c from its beginning to its end, with a program in flash.
use mk_os.Base.{
  ℕ, ◌^◌, ◌≤◌, ◌<◌, ◌≡◌, ap, sym, ◌∙◌, inl, arith, none, Option, List, length, length-replicate,
}
use mathlib.Core.Path.{subst}
use mk_os.Base.Run.{no_continuous_memory, ok, carry, carry-Settles, ends, Settles, Settles-both}
use mk_os.Memory.{Memory}
use mk_os.Page.{pool_pages}
use mk_os.Page.Init.{page_init-Bounds}
use mk_os.Kmalloc.{Kmem, Memchunk}
use mk_os.Kmalloc.Chunks.{chunk_runs}
use mk_os.Vfs.{Vfs, config_nor_cs1_start, config_nor_cs1_size}
use mk_os.Vfs.Images.{Images}
use mk_os.Vfs.Found.{Found, vfs_init-Found}
use mk_os.Kernel.{no_task, max_tasks}
use mk_os.Elf.{Elf64Phdr}
use mk_os.Mm.Space.{address_map}
use mk_os.Mm.Start.{mmu_init-refines}
use mk_os.Mm.Walk.{translate}
use mk_os.Gic.{count_for}
use mk_os.Gic.Serve.{IsServed}
use mk_os.Timer.{next_tick}
use mk_os.Task.Load.Create.{Created, Created-file, task_create-Settles}
use mk_os.Task.Load.{task_create}
use mk_os.Init.{Board, System, init_devices, init_kernel, put_kernel}
use mk_os.Init.Devices.{IsListening, init_interrupts-IsListening}
use mk_os.Init.Interrupts.{Wired, init_interrupts-Wired}
use mk_os.Init.Bootable.{
  file_base, IsBootable, Stocked, init_memory-Stocked, flash_below, Wired-IsInstalled, Wired-bytes,
  Wired-room,
}

-- What `init_kernel` leaves: two tasks that run the program at `base`, with the chunks and the
-- pages of the tasks held apart; a controller that serves the timer's interrupt, which has been set;
-- and the address map of the kernel.
pub record Booted (b : Board) (base : ℕ) (segment : Elf64Phdr) (s : System) : Type 0 where
  pub created :
      Created
        (pool_pages b.heap_start)
        (chunk_runs s.controller.rest.kernel.mem)
        b.memory
        base
        segment
        none
        s.controller.rest.kernel
  pub count : s.controller.irq_count ≡ count_for b.typer
  pub timer : IsServed s.controller.irq_handlers s.controller.irq_count 30
  pub started : s.controller.rest.msrs ≡ next_tick b.frequency
  pub space : (va : ℕ) → va < 2 ^ 64 → translate s.mmu va ≡ address_map va

module _ {b : Board} {frame : ℕ} {name : Memory} {at : List ℕ} {node : ℕ} {segment : Elf64Phdr}
    (idle_loop : ℕ) (c : IsBootable b frame name at node segment) where
  -- the last step: the program is started
  create_last :
      {m n : Kmem} {s : Vfs} (start : Stocked b m)
      → Found (pool_pages b.heap_start) at m n s
      → (t : System) → Wired (pool_pages b.heap_start) n s t.controller
      → IsListening b (pool_pages b.heap_start) t.controller
      → ((va : ℕ) → va < 2 ^ 64 → translate t.mmu va ≡ address_map va)
      → Settles
          (λ _. Booted b (file_base at node) segment)
          no_continuous_memory
          (carry
            (task_create frame idle_loop name t.controller.rest.kernel)
            (λ _ k. ok tt (record t { controller = put_kernel k t.controller })))
  create_last start d t w listening space =
      carry-Settles
        (task_create-Settles idle_loop (Wired-IsInstalled c start d w) (Wired-room c start d w)
          (ap length w.tasks ∙ length-replicate max_tasks no_task))
        λ _ k (made, mem). inl (
          ends (record {
            created =
                subst
                  (λ (ms : List Memchunk).
                    Created (pool_pages b.heap_start) (chunk_runs ms) b.memory (file_base at node)
                      segment none k)
                  (sym mem)
                  (Created-file (Wired-bytes c start d w) c.program.whole (
                    subst
                      (λ (o : Option ℕ).
                        Created (pool_pages b.heap_start) (chunk_runs t.controller.rest.kernel.mem)
                          t.controller.rest.kernel.vfs.memory (file_base at node) segment o k)
                      w.current made));
            count = listening.count;
            timer = listening.timer;
            started = listening.started;
            space = space;
          }))

-- On a board with its heap and tables in place, where flash begins with images, no more than 64,
-- and the first one of the name is a program, `init_kernel` ends or panics for want of pages. Where
-- it ends, the program runs as the tasks 0 and 1, each with pages of its own for its memory, with
-- the bytes of the program in flash and zeros behind them, and for its stack; no page of these or
-- of a chunk of `kmalloc` is free or in two of them; task 0 is current; the controller serves the
-- timer's interrupt, which is set; and every 64-bit address is translated by the address map.
pub init_kernel-Settles :
    {b : Board} {frame : ℕ} {name : Memory} {at : List ℕ} {node : ℕ} {segment : Elf64Phdr}
    (idle_loop : ℕ)
    → IsBootable b frame name at node segment
    → Settles
        (λ _. Booted b (file_base at node) segment)
        no_continuous_memory
        (init_kernel frame idle_loop name b)
unfolding init_kernel init_devices
init_kernel-Settles {b} {frame} {name} {at} {node} {segment} idle_loop c =
    let few : pool_pages b.heap_start ≤ 2 ^ 20 =
      omega (arith, page_init-Bounds b.heap_start c.heap) in
    carry-Settles
      (carry-Settles
        {Q = λ _ t.
          (m : Kmem) × (n : Kmem) × (s : Vfs) × Stocked b m
          × Found (pool_pages b.heap_start) at m n s
          × Wired (pool_pages b.heap_start) n s t.controller
          × IsListening b (pool_pages b.heap_start) t.controller
          × ((va : ℕ) → va < 2 ^ 64 → translate t.mmu va ≡ address_map va)}
        (init_memory-Stocked b c.heap)
        λ _ m start. carry-Settles (inl (mmu_init-refines b.tables c.placed b.mmu)) λ _ mmu space.
          carry-Settles
            (vfs_init-Found few m start.keeps (omega (arith, start.start, flash_below c))
              (subst (λ (x : Memory). Images x config_nor_cs1_start config_nor_cs1_size at)
                (sym start.memory) c.images)
              c.few)
            λ r (n, s) d.
              carry-Settles
                (Settles-both (init_interrupts-Wired b few n s d.grown.keeps)
                  (init_interrupts-IsListening b few n s d.grown.keeps.kmem d.valid))
                λ _ g (w, listening). inl (ends (m, n, s, start, d, w, listening, space)))
      λ _ t (m, n, s, start, d, w, listening, space).
        create_last idle_loop c start d t w listening space
