-- ===== src/Init/Pieces.antt =====
-- Kernel memory from the start on: what `kmalloc` gives once `page_init` and `kmalloc_init` have run.
use mk_os.Base.{ℕ, ◌-◌, ◌%◌, ◌^◌, ◌≤◌, refl, ap, ◌∙◌, inl, arith, List, []}
use mk_os.Base.Run.{no_continuous_memory, carry, carry-Settles, Settles}
use mk_os.Page.{pool_pages}
use mk_os.Page.Tally.{has_page, has_page-IsAdditive}
use mk_os.Page.Init.{IsHeap, page_init-Bounds, page_init-Owned}
use mk_os.Kmalloc.Outcome.{IsKmem}
use mk_os.Kmalloc.Apart.{Apart, kmalloc_init-Apart}
use mk_os.Kmalloc.Disjoint.{kmalloc_each, pieces_with, AllBelow, kmalloc_each-disjoint}
use mk_os.Init.{Board, init_memory}

module _ (b : Board) (heap : IsHeap b.heap_start) where
  abbrev pages : ℕ
  pages = pool_pages b.heap_start

  pages_few : pages ≤ 2 ^ 20
  pages_few = omega (arith, page_init-Bounds b.heap_start heap)

  init_memory-Apart : Settles (λ _ m. IsKmem pages m × Apart m) no_continuous_memory (init_memory b)
  unfolding init_memory
  init_memory-Apart =
      let bounds = page_init-Bounds b.heap_start heap in
      carry-Settles (inl (page_init-Owned b.heap_start heap)) λ _ pool (owned, start).
        kmalloc_init-Apart pages_few (record { pool = pool; mem = []; memory = b.memory })
          owned.sound (omega (arith, start, bounds, heap))
          (ap (λ (a : ℕ). a % 4096) start ∙ bounds.aligned) (omega (arith, start, bounds)) refl
          (λ y.
            let shared = owned.shared (has_page y) (has_page-IsAdditive y) in
            ground (arith, shared))

  -- With a heap in memory, no byte is in two of the pieces that `kmalloc` gives once `page_init` and
  -- `kmalloc_init` have run, for any sizes below `2^32 - 6000` one after the other, unless the
  -- kernel panics for want of pages.
  pub kmalloc-disjoint :
      (ns : List ℕ)
      → AllBelow (2 ^ 32 - 6000) ns
      → Settles
          (λ ps _. (x : ℕ) → pieces_with x ps ≤ 1)
          no_continuous_memory
          (carry (init_memory b) λ _ m. kmalloc_each ns m)
  kmalloc-disjoint ns below =
      carry-Settles init_memory-Apart
        λ _ m (kmem, apart). kmalloc_each-disjoint pages_few ns below m kmem apart
