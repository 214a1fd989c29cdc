-- ===== src/Kmalloc/Tests.antt =====
-- The chunk allocator on one chunk of four pages, with eight pages left.
use mk_os.Base.{◌≡◌, refl, ◌⊎◌, arith, [], ◌∷◌}
use mk_os.Base.Run.{ok, panic, no_continuous_memory, Ends}
use mk_os.Page.{zone_for}
use mk_os.Page.Split.{NoBlock}
use mk_os.Kmalloc.{
  Kmem, align_up, kmalloc_init, first_fit, kmalloc_aligned, kmalloc, kzalloc, kfree,
}
use mk_os.Fixtures.{pool, pool-IsSound, chunk, kmem, kmem-IsKmem}
use mk_os.Kmalloc.Chunks.{align_up_lem, align_up-overflow}
use mk_os.Kmalloc.Outcome.{IsKmem, Given, pages_for, kmalloc_outcome, kmalloc_init-IsKmem}
use mk_os.Memory.{memset}

abbrev start : Kmem
start = kmem (λ a. 1)

abbrev empty : Kmem
empty = record start { mem = [] }

kmalloc_outcome_example :
    Ends (Given 8 (align_up 20) start) (kmalloc 20 start)
    ⊎ ((kmalloc 20 start ≡ panic no_continuous_memory)
        × NoBlock (zone_for (pages_for (align_up 20))) pool)
kmalloc_outcome_example = kmalloc_outcome {lim = 8} (omega arith) 20 (omega arith) (kmem-IsKmem _)

align_up_lem_run : align_up 20 ≡ 32
align_up_lem_run = align_up_lem 20 (omega arith)

align_up-overflow_run : align_up 0xFFFFFFFE ≡ 0
align_up-overflow_run = align_up-overflow 0xFFFFFFFE (omega arith) (omega arith)

first_run :
    kmalloc 20 start ≡ ok 0x40000020 (record start { mem = record chunk { offset = 64 } ∷ [] })
unfolding kmalloc kmalloc_aligned first_fit align_up
first_run = refl

kzalloc_run :
    kzalloc 16 start
    ≡ ok 0x40000020 (record start {
      mem = record chunk { offset = 48 } ∷ [];
      memory = memset 0x40000020 0 16 start.memory;
    })
unfolding kzalloc kmalloc kmalloc_aligned first_fit align_up
kzalloc_run = refl

kfree_run : kfree 0x40000020 start ≡ ok tt start
unfolding kfree
kfree_run = refl

kmalloc_init-IsKmem_run :
    Ends (λ _ t. IsKmem 8 t) (kmalloc_init empty)
    ⊎ ((kmalloc_init empty ≡ panic no_continuous_memory) × NoBlock (zone_for 4) pool)
kmalloc_init-IsKmem_run =
    kmalloc_init-IsKmem {lim = 8} (omega arith) empty pool-IsSound (omega arith) refl (omega arith)
