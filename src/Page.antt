-- ===== src/Page.antt =====
-- kernel/core/page.c: the page allocator. A linked list through `next_page` is the list of its
-- descriptors, head first; a descriptor is known by its place in `page_pool`.
pub mod Alloc
pub mod Blocks
pub mod Client
pub mod Holding
mod Dump
pub mod Fill
pub mod Init
pub mod Split
pub mod Tally
mod Tests
use mk_os.Base.{
  ℕ, zero, suc, ◌+◌, ◌-◌, ◌*◌, ◌/◌, ◌%◌, ◌^◌, Bool, true, false, not, Option, none, some, List, [],
  ◌∷◌, bit_and, ltb, leb, ◌==◌, if◌then◌else◌, length, get_or, set, replicate,
}
use mk_os.Base.Run.{
  page_pool_exhausted, no_continuous_memory, Run, ok, panic, fault, out_of_fuel, Cmd, pure,
  and_then, ◌>>=◌, ◌>>◌,
}
use mk_os.Base.Word.{add32, sub32, add64, sub64, shl_one}
use mk_os.Layout.{config_ram_start, config_ram_size, page_shift, align_pgup, align_pgdown}
use mk_os.Bitops.{clz}

abbrev pub max_zones : ℕ
max_zones = 53

-- `struct page`
pub record Page : Type 0 where
  pub slot : ℕ  -- the place in `page_pool`
  pub start_page_no : ℕ

abbrev pub Zone : Type 0
Zone = List Page

-- the static variables of page.c
pub record Pool : Type 0 where
  pub zones : List Zone
  pub free : List Page
  pub page_pool_size : ℕ
  pub page_pool_next_free : ℕ
  pub mem_pool_start : ℕ

abbrev pub zone : Pool → ℕ → Zone
zone s order = get_or s.zones order []

-- the descriptor that `add_free_page_to_zone` fills in
take_descriptor : List Page → Cmd Pool Page
take_descriptor (p ∷ rest) s = ok p (record s { free = rest })
take_descriptor [] s =
    if ltb s.page_pool_next_free s.page_pool_size
    then ok (record { slot = s.page_pool_next_free; start_page_no = 0 })
        (record s { page_pool_next_free = s.page_pool_next_free + 1 })
    else panic page_pool_exhausted

-- `p->next_page = zones[order]; zones[order] = p`
link_zone : ℕ → Page → Cmd Pool (Unit {0})
link_zone order p s =
    if ltb order max_zones
    then ok tt (record s { zones = set s.zones order (p ∷ zone s order) })
    else fault

pub add_free_page_to_zone : (page_offset order : ℕ) → Cmd Pool (Unit {0})
unfolding take_descriptor link_zone
add_free_page_to_zone page_offset order s =
    and_then (take_descriptor s.free s)
      (λ p. link_zone order (record p { start_page_no = page_offset }))

-- `r = zones[order]; zones[order] = r->next_page`, where `none` is the null pointer
unlink_zone : ℕ → Zone → Cmd Pool (Option Page)
unlink_zone order [] s = ok none s
unlink_zone order (r ∷ rest) s = ok (some r) (record s { zones = set s.zones order rest })

pub get_free_page_from_zone : ℕ → Cmd Pool (Option Page)
unfolding unlink_zone
get_free_page_from_zone order s =
    if leb max_zones order then ok none s else unlink_zone order (zone s order) s

-- a use of `p->…`
abbrev deref : Option Page → Cmd Pool Page
deref none s = fault
deref (some p) s = ok p s

-- `p->next_page = free; free = p`
abbrev put_back : Page → Cmd Pool (Unit {0})
put_back p s = ok tt (record s { free = p ∷ s.free })

-- `63 - clz(page_cnt)` in an `unsigned`
abbrev pub page_order : ℕ → ℕ
page_order page_cnt = sub32 63 (clz page_cnt)

-- the `while` of `add_memory_to_pool`
add_blocks : ℕ → (page_offset page_cnt : ℕ) → Cmd Pool (Unit {0})
add_blocks zero page_offset page_cnt s = out_of_fuel
add_blocks (suc fuel) page_offset page_cnt s =
    let order = page_order page_cnt in
    let more =
      and_then (add_free_page_to_zone page_offset order s) (λ _.
        add_blocks fuel (add32 page_offset (shl_one order)) (sub32 page_cnt (shl_one order))) in
    if page_cnt == 0 then ok tt s else more

-- Each round clears the topmost one of a 32-bit count, so 33 rounds are enough.
pub add_memory_to_pool : (page_offset page_cnt : ℕ) → Cmd Pool (Unit {0})
unfolding add_blocks
add_memory_to_pool = add_blocks 33

abbrev is_empty : Zone → Bool
is_empty [] = true
is_empty (p ∷ rest) = false

-- what `split_zone` does with the answer for the next order
split_block : ℕ → Bool → Cmd Pool Bool
split_block order false s = ok false s
split_block order true s =
    (do
      r ← get_free_page_from_zone (order + 1)
      p ← deref r
      add_free_page_to_zone p.start_page_no order
      add_free_page_to_zone (add32 p.start_page_no (shl_one order)) order
      put_back p
      pure true)
      s

split_orders : ℕ → ℕ → Cmd Pool Bool
unfolding split_block
split_orders zero order s = out_of_fuel
split_orders (suc fuel) order s =
    let split = and_then (split_orders fuel (order + 1) s) (split_block order) in
    if leb max_zones order then ok false s else if is_empty (zone s order) then split else ok true s

-- The recursion ends at `MAX_ZONES`, so 54 levels are enough.
pub split_zone : ℕ → Cmd Pool Bool
unfolding split_orders
split_zone = split_orders 54

-- `biggest_zone` of `get_memory_from_pool`: the order of the least block of `page_cnt` pages
pub zone_for : ℕ → ℕ
zone_for page_cnt =
    if bit_and page_cnt (shl_one (page_order page_cnt) - 1) == 0
    then page_order page_cnt
    else add32 (page_order page_cnt) 1

-- `mem_pool_start + (start_page_no << PAGE_SHIFT)`
abbrev pub page_address : Pool → ℕ → ℕ
page_address s start_page_no = add64 s.mem_pool_start (start_page_no * 2 ^ page_shift % 2 ^ 32)

-- The block is cut to `page_cnt` pages and the rest goes back to the pool.
cut_block : (order page_cnt : ℕ) → Bool → Cmd Pool ℕ
cut_block order page_cnt false s = panic no_continuous_memory
cut_block order page_cnt true s =
    (do
      r ← get_free_page_from_zone order
      p ← deref r
      add_memory_to_pool (add32 p.start_page_no page_cnt) (sub32 (shl_one order) page_cnt)
      put_back p
      pure (page_address s p.start_page_no))
      s

pub get_memory_from_pool : ℕ → Cmd Pool ℕ
unfolding zone_for cut_block
get_memory_from_pool page_cnt =
    split_zone (zone_for page_cnt) >>= cut_block (zone_for page_cnt) page_cnt

pub page_alloc : ℕ → Cmd Pool ℕ
page_alloc num_pages = get_memory_from_pool num_pages

-- `(uintptr_t)(paddr - mem_pool_start) >> PAGE_SHIFT`, passed as an `unsigned`
abbrev pub page_number : Pool → ℕ → ℕ
page_number s paddr = sub64 paddr s.mem_pool_start / 2 ^ page_shift % 2 ^ 32

pub page_free : (paddr num_pages : ℕ) → Cmd Pool (Unit {0})
page_free paddr num_pages s = add_memory_to_pool (page_number s paddr) num_pages s

-- the number of pages that `dump_zones` prints, order by order from `i`
pub dump_zones_from : ℕ → List Zone → ℕ
dump_zones_from i [] = 0
dump_zones_from i (z ∷ zs) = add32 (shl_one i * length z) (dump_zones_from (i + 1) zs)

abbrev sizeof_page : ℕ
sizeof_page = 16

-- `heap_start` is the linker's `_heap_start`. The `int` is a word here: it is not negative for a
-- heap inside the memory.
pub ram_available : ℕ → ℕ
ram_available heap_start = (config_ram_size + 2 ^ 64 - sub64 heap_start config_ram_start) % 2 ^ 32

pub pool_size : ℕ → ℕ
unfolding ram_available
pool_size heap_start =
    let size = align_pgup (ram_available heap_start) / 2 ^ page_shift in
    if ltb 65536 size then 65536 else size

pub pool_start : ℕ → ℕ
unfolding pool_size
pool_start heap_start = add64 heap_start (align_pgup (sizeof_page * pool_size heap_start))

-- what is left behind the descriptors, in pages
pub pool_pages : ℕ → ℕ
unfolding ram_available pool_start
pool_pages heap_start =
    align_pgdown
      (sub32 (ram_available heap_start) (sub64 (pool_start heap_start) heap_start % 2 ^ 32))
    / 2 ^ page_shift

abbrev pub empty_pool : ℕ → ℕ → Pool
empty_pool size start = record {
  zones = replicate max_zones [];
  free = [];
  page_pool_size = size;
  page_pool_next_free = 0;
  mem_pool_start = start;
}

-- On entry the variables of page.c are zero.
pub page_init : ℕ → Run Pool (Unit {0})
unfolding pool_size pool_start pool_pages
page_init heap_start =
    add_memory_to_pool 0 (pool_pages heap_start)
      (empty_pool (pool_size heap_start) (pool_start heap_start))
