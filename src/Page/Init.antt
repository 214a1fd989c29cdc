-- ===== src/Page/Init.antt =====
-- `page_init`: the pool that it sets up.
use mk_os.Base.{
  ℕ, zero, suc, ◌+◌, ◌-◌, ◌*◌, ◌/◌, ◌%◌, ◌^◌, ◌≤◌, ◌<◌, ◌≡◌, refl, ap, ◌∙◌, arith, [], replicate,
  length-replicate,
}
use mk_os.Base.Run.{Ends, Ends-mono}
use mk_os.Layout.{config_ram_start, config_ram_size}
use mk_os.Layout.Align.{align_pgup_lem, align_pgdown_lem}
use mk_os.Page.{Zone, max_zones, ram_available, pool_size, pool_start, pool_pages, page_init}
use mk_os.Page.Tally.{
  Weight, zones_sum, RunWeight, IsAdditive, by_pages, page_count, beyond, page_count-IsAdditive,
  beyond-IsAdditive, one,
}
use mk_os.Page.Fill.{add_memory_to_pool-Ends}
use mk_os.Page.Client.{Owned}

-- a page-aligned heap in the memory with at least two pages behind its start
pub record IsHeap (heap_start : ℕ) : Type 0 where
  pub aligned : heap_start % 4096 ≡ 0
  pub above : config_ram_start ≤ heap_start
  pub below : heap_start + 8192 ≤ config_ram_start + config_ram_size

pub record Bounds (heap_start : ℕ) : Type 0 where
  pub size : pool_size heap_start * 4096 + heap_start ≡ config_ram_start + config_ram_size
  pub behind : heap_start + 16 * pool_size heap_start ≤ pool_start heap_start
  pub aligned : pool_start heap_start % 4096 ≡ 0
  pub fits :
      pool_start heap_start + pool_pages heap_start * 4096 ≤ config_ram_start + config_ram_size
  pub fewer : pool_pages heap_start < pool_size heap_start

ram_available_lem : (h : ℕ) → IsHeap h → ram_available h + h ≡ config_ram_start + config_ram_size
unfolding ram_available
ram_available_lem h i = omega arith

pool_size_lem : (h : ℕ) → IsHeap h → pool_size h ≡ ram_available h / 4096
unfolding pool_size
pool_size_lem h i = ground (arith, ram_available_lem h i, align_pgup_lem (ram_available h))

pool_start_lem : (h : ℕ) → IsHeap h → pool_start h ≡ h + (16 * pool_size h + 4095) / 4096 * 4096
unfolding pool_start
pool_start_lem h i = omega (
  arith,
  ram_available_lem h i,
  pool_size_lem h i,
  align_pgup_lem (16 * pool_size h) (omega (arith, ram_available_lem h i, pool_size_lem h i)),
)

pool_pages_lem : (h : ℕ) → IsHeap h → pool_pages h ≡ pool_size h - (16 * pool_size h + 4095) / 4096
unfolding pool_pages
pool_pages_lem h i =
    let r = ram_available_lem h i in
    let n = pool_size_lem h i in
    let b = pool_start_lem h i in
    omega (
      arith,
      r,
      n,
      b,
      i,
      align_pgdown_lem
          ((ram_available h + 2 ^ 32 - (pool_start h + 2 ^ 64 - h) % 2 ^ 64 % 2 ^ 32) % 2 ^ 32)
          (omega arith),
    )

-- The descriptors and the pages behind them lie in the memory, in this order, and there are
-- more descriptors than pages.
pub page_init-Bounds : (heap_start : ℕ) → IsHeap heap_start → Bounds heap_start
page_init-Bounds h i =
    let r = ram_available_lem h i in
    let n = pool_size_lem h i in
    let b = pool_start_lem h i in
    let left : pool_pages h ≡ pool_size h - (16 * pool_size h + 4095) / 4096 = pool_pages_lem h i in
    record {
      size = omega (arith, r, n, i);
      behind = omega (arith, b);
      aligned = omega (arith, b, i);
      fits = omega (arith, r, n, b, left, i);
      fewer = omega (arith, r, n, left, i);
    }

zones_sum-empty : (w : Weight) (k n : ℕ) → zones_sum w k (replicate n []) ≡ 0
zones_sum-empty w k zero = refl
zones_sum-empty w k (suc n) = omega (arith, zones_sum-empty w (suc k) n)

-- `page_init` ends, and its pool owns the pages `0`, …, `pool_pages - 1`, all free, from
-- `pool_start` on.
pub page_init-Owned :
    (heap_start : ℕ)
    → IsHeap heap_start
    → Ends
        (λ _ s.
          Owned (pool_pages heap_start) (record { pool = s; held = [] })
          × (s.mem_pool_start ≡ pool_start heap_start))
        (page_init heap_start)
unfolding page_init
page_init-Owned h i =
    let b = page_init-Bounds h i in
    let none_yet = λ (w : Weight). zones_sum-empty w 0 max_zones in
    let size = pool_size h in
    Ends-mono
      (add_memory_to_pool-Ends 0 (pool_pages h)
        (record {
          zone_count = length-replicate {A = Zone} max_zones [];
          next_in_pool = omega arith;
        })
        (omega (arith, b)) (omega (arith, b)))
      λ _ s f.
        let gained = λ (g : RunWeight) (d : IsAdditive g).
          f.gained g d ∙ ap (λ (t : ℕ). t + g 0 (pool_pages h)) (none_yet (by_pages g)) in
        (
          record {
            sound = record {
              valid = f.valid;
              accounted = omega (arith, f.accounted, f.same, none_yet one);
              bounded =
                  omega (arith, gained (beyond (pool_pages h)) (beyond-IsAdditive (pool_pages h)));
              roomy = omega (arith, gained page_count page_count-IsAdditive, f.same, b);
            };
            shared = λ g d. omega (arith, gained g d);
            roomy = omega (arith, f.same, b);
            start = omega (arith, f.same, b);
          },
          f.same.same_start,
        )
