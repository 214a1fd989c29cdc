-- ===== src/Init/Interrupts.antt =====
-- What the set-up of the interrupts leaves of the other parts.
use mk_os.Base.{
  ℕ, ◌*◌, ◌^◌, ◌≤◌, ◌<◌, ◌≡◌, refl, inl, inr, arith, none, leb, false, replicate, ==_of_ne,
}
use mk_os.Base.Run.{no_continuous_memory, ends, Ends-ok, Settles}
use mk_os.Kmalloc.{Kmem}
use mk_os.Kmalloc.Held.{IsHeld, IsHeld-memory, kzalloc-Gave}
use mk_os.Vfs.{Vfs}
use mk_os.Kernel.{no_task, max_tasks}
use mk_os.Gic.{Gic, count_for, gic_init, gic_register_irq, gic_enable_irq, gic_enable_interrupts}
use mk_os.Timer.{Machine, IrqHandler, timer_init}
use mk_os.Init.{Board, kmem_of, first_controller, kzalloc_for, init_interrupts}
use mk_os.Init.Devices.{count_bounds}

-- the kernel behind it, set up from the chunks `m` and the files
pub record Wired (pages : ℕ) (m : Kmem) (s : Vfs) (g : Gic IrqHandler Machine) : Type 0 where
  pub keeps : IsHeld pages (kmem_of g.rest.kernel)
  pub start : g.rest.kernel.pool.mem_pool_start ≡ m.pool.mem_pool_start
  pub memory : (a : ℕ) → a < m.pool.mem_pool_start → g.rest.kernel.vfs.memory a ≡ s.memory a
  pub files : g.rest.kernel.vfs ≡ record s { memory = g.rest.kernel.vfs.memory }
  pub tasks : g.rest.kernel.tasks ≡ replicate max_tasks no_task
  pub current : g.rest.kernel.current ≡ none

pub init_interrupts-Wired :
    (b : Board) {pages : ℕ}
    → pages ≤ 2 ^ 20
    → (m : Kmem) (files : Vfs) → IsHeld pages m
    → Settles
        (λ _. Wired pages m files)
        no_continuous_memory
        (init_interrupts b (first_controller b m files))
unfolding init_interrupts kzalloc_for gic_init timer_init gic_register_irq gic_enable_irq
    gic_enable_interrupts
init_interrupts-Wired b {pages} small m files i =
    let count = count_for b.typer in
    let bounds = count_bounds b.typer in
    elim (kzalloc-Gave small (count * 16) (omega (arith, bounds))
      (record m { memory = files.memory }) (IsHeld-memory files.memory i)) [
        | inl e ↦
            let (p, m', eq, gave) = Ends-ok e in
            let known : leb count 30 ≡ false = ground (arith, bounds) in
            rw (eq, ==_of_ne (λ (z : p ≡ 0). omega (arith, z, gave.positive)), known)
              (inl (
                ends (record {
                  keeps = gave.keeps;
                  start = gave.start;
                  memory = gave.memory;
                  files = refl;
                  tasks = refl;
                  current = refl;
                })))
        | inr stopped ↦ rw stopped (inr refl)
      ]
