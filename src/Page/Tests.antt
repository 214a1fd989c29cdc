-- ===== src/Page/Tests.antt =====
-- A pool of eight pages, and runs of the allocator on it.
use mk_os.Base.{◌+◌, ◌≡◌, refl, ◌⊎◌, arith, [], ◌∷◌, replicate, set}
use mk_os.Base.Run.{ok, panic, no_continuous_memory, Ends}
use mk_os.Bitops.{leading_zeros, clz}
use mk_os.Page.{
  Pool, page_number, zone_for, take_descriptor, link_zone, add_free_page_to_zone, unlink_zone,
  get_free_page_from_zone, add_blocks, split_block, split_orders, cut_block, get_memory_from_pool,
  page_alloc, page_free, page_init, pool_pages, pool_start, add_memory_to_pool, split_zone,
  dump_zones_from, max_zones,
}
use mk_os.Fixtures.{pool, pool-IsSound}
use mk_os.Page.Tally.{tally, by_pages, has_page}
use mk_os.Page.Fill.{Filled, add_memory_to_pool-Ends}
use mk_os.Page.Split.{Recut, NoBlock, SplitPost, split_zone-Ends}
use mk_os.Page.Alloc.{
  IsLeastOrder, Allocated, zone_for-IsLeastOrder, page_alloc_outcome, page_alloc-zero,
}
use mk_os.Page.Client.{
  Client, Owned, Reach, here, next, alloc, held_sum, Reach-Owned, Reach-partition, page_free-Ends,
}
use mk_os.Page.Dump.{dump_zones-tally, page_free-page_alloc}
use mk_os.Page.Init.{IsHeap, Bounds, page_init-Bounds, page_init-Owned}

-- what is left after three pages are taken
abbrev cut_pool : Pool
cut_pool = record pool {
  zones =
      set (set (replicate max_zones []) 0 (record { slot = 0; start_page_no = 7 } ∷ [])) 2
        (record { slot = 1; start_page_no = 0 } ∷ []);
  free = record { slot = 2; start_page_no = 4 } ∷ [];
  page_pool_next_free = 3;
}

alloc_run : page_alloc 3 pool ≡ ok 0x40014000 cut_pool
unfolding page_alloc get_memory_from_pool split_zone split_orders split_block cut_block zone_for clz
    leading_zeros get_free_page_from_zone unlink_zone add_free_page_to_zone take_descriptor
    link_zone add_memory_to_pool add_blocks
alloc_run = refl

no_room : page_alloc 9 pool ≡ panic no_continuous_memory
unfolding page_alloc get_memory_from_pool split_zone split_orders split_block cut_block zone_for clz
    leading_zeros
no_room = refl

abbrev client : Client
client = record { pool = pool; held = [] }

client-Owned : Owned 8 client
client-Owned = record {
  sound = pool-IsSound;
  shared = λ g d. omega (arith);
  roomy = omega arith;
  start = omega arith;
}

abbrev cut_client : Client
cut_client = record { pool = cut_pool; held = (0x40014000, 3) ∷ [] }

client_reaches : Reach client cut_client
client_reaches = next here (alloc (omega arith) (omega arith) alloc_run)

Reach-partition_example :
    tally (by_pages (has_page 5)) cut_pool + held_sum (has_page 5) cut_pool ((0x40014000, 3) ∷ [])
    ≡ 1
Reach-partition_example = Reach-partition {pages = 8} (omega arith) 5 client-Owned client_reaches

page_alloc_outcome_example :
    Ends (Allocated 8 3 pool) (page_alloc 3 pool)
    ⊎ ((page_alloc 3 pool ≡ panic no_continuous_memory) × NoBlock (zone_for 3) pool)
page_alloc_outcome_example =
    page_alloc_outcome {lim = 8} (omega arith) 3 (omega arith) (omega arith) pool-IsSound

page_alloc-zero_run : page_alloc 0 pool ≡ panic no_continuous_memory
page_alloc-zero_run = page_alloc-zero pool

split_zone-Ends_run : Ends (SplitPost 1 pool) (split_zone 1 pool)
split_zone-Ends_run = split_zone-Ends {lim = 8} (omega arith) 1 pool-IsSound

add_memory_to_pool-Ends_example : Ends (λ _ t. Filled 8 5 pool t) (add_memory_to_pool 8 5 pool)
add_memory_to_pool-Ends_example =
    add_memory_to_pool-Ends 8 5 pool-IsSound.valid (omega arith) (omega arith)

zone_for-IsLeastOrder_run : IsLeastOrder (zone_for 5) 5
zone_for-IsLeastOrder_run = zone_for-IsLeastOrder 5 (omega arith) (omega arith)

page_free-page_alloc_example : Ends (λ _ u. Recut pool u) (page_free 0x40014000 3 cut_pool)
page_free-page_alloc_example =
    page_free-page_alloc {lim = 8} 3 0x40014000 (omega arith) (omega arith) (omega arith)
      (omega arith) pool-IsSound alloc_run

page_free-Ends_example :
    Ends
      (λ _ t. Filled (page_number cut_pool 0x40014000) 3 cut_pool t)
      (page_free 0x40014000 3 cut_pool)
page_free-Ends_example =
    page_free-Ends {pages = 8} (omega arith) {c = cut_client} [] [] 0x40014000 3 refl
      (Reach-Owned {pages = 8} (omega arith) client-Owned client_reaches)

dump_zones-tally_run : dump_zones_from 0 cut_pool.zones ≡ 5
dump_zones-tally_run = dump_zones-tally {lim = 8} (omega arith) cut_pool (omega arith) (omega arith)

-- the heap of a kernel image of one megabyte
small-IsHeap : IsHeap 0x40100000
small-IsHeap = omega arith

page_init-Bounds_run : Bounds 0x40100000
page_init-Bounds_run = page_init-Bounds 0x40100000 small-IsHeap

page_init-Owned_example :
    Ends
      (λ _ s.
        Owned (pool_pages 0x40100000) (record { pool = s; held = [] })
        × (s.mem_pool_start ≡ pool_start 0x40100000))
      (page_init 0x40100000)
page_init-Owned_example = page_init-Owned 0x40100000 small-IsHeap
