-- ===== src/Fixtures.antt =====
-- States that the tests of several parts share.
pub mod Flash
use mk_os.Base.{
  ℕ, zero, suc, ◌+◌, ◌%◌, ◌^◌, ◌≤◌, ◌<◌, ◌≡◌, ◌≢◌, ◌⊎◌, inl, inr, refl, arith, some, List, [], ◌∷◌,
  length, get_or, replicate, set,
}
use mk_os.Page.{Pool, max_zones}
use mk_os.Page.Split.{IsSound}
use mk_os.Page.Client.{Owned}
use mk_os.Memory.{Memory}
use mk_os.Vfs.{Vfs}
use mk_os.Kmalloc.{Kmem, Memchunk, sizeof_memchunk}
use mk_os.Kmalloc.Outcome.{IsKmem}
use mk_os.Kernel.{Task, Kernel, no_task}
use mk_os.Mm.{TableName, l0table_ttbr0, l1table_ttbr0, l0table_ttbr1, l1table_ttbr1, Tables, place}
use mk_os.Mm.Build.{IsPlaced}
use mk_os.Mm.Dump.{Mmu}

-- pages 0 to 7 in one block of order 3
abbrev pub pool : Pool
pool = record {
  zones = set (replicate max_zones []) 3 (record { slot = 0; start_page_no = 0 } ∷ []);
  free = [];
  page_pool_size = 9;
  page_pool_next_free = 1;
  mem_pool_start = 0x40010000;
}

pub pool-IsSound : IsSound 8 pool
pool-IsSound = omega arith

-- a chunk of four pages of which only the header is in use
abbrev pub chunk : Memchunk
chunk = record { base = 0x40000000; offset = sizeof_memchunk; total_size = 0x4000 }

abbrev pub kmem : Memory → Kmem
kmem m = record { pool = pool; mem = chunk ∷ []; memory = m }

pub kmem-IsKmem : (m : Memory) → IsKmem 8 (kmem m)
kmem-IsKmem m = record {
  sound = omega arith;
  started = omega arith;
  aligned = refl;
  fits = omega arith;
  some_chunk = λ e. cc;
  chunks = (omega arith, tt);
}

abbrev pub no_files : Memory → Vfs
no_files m = record { vfs = []; vfs_next = 0; fds = []; fds_next = 0; fds_max = 0; memory = m }

-- the task 7 is current
abbrev pub kernel : List Task → Memory → Kernel
kernel ts m = record {
  pool = pool;
  mem = chunk ∷ [];
  vfs = no_files m;
  tasks = ts;
  idle = no_task;
  current = some 7;
  input = [];
  output = [];
}

-- free tasks with the numbers from `i` on
abbrev pub numbered : ℕ → ℕ → List Task
numbered i zero = []
numbered i (suc n) = record no_task { tid = i } ∷ numbered (i + 1) n

-- Each task's number is its place, counted from `from`.
abbrev pub Numbered : List Task → ℕ → Type 0
Numbered [] from = Unit {0}
Numbered (t ∷ ts) from = (t.tid ≡ from) × Numbered ts (from + 1)

pub Numbered-tid :
    (ts : List Task) (from i : ℕ)
    → Numbered ts from
    → i < length ts
    → (get_or ts i no_task).tid ≡ from + i
Numbered-tid [] from i n h = absurd (omega arith)
Numbered-tid (t ∷ ts) from zero (first, n) h = omega (arith, first)
Numbered-tid (t ∷ ts) from (suc i) (first, n) h =
    omega (arith, Numbered-tid ts (from + 1) i n (omega arith))

-- the pool behind two runs taken from it, of two pages and of one
abbrev pub three_held : Pool
three_held = record pool {
  zones =
      set (set (replicate max_zones []) 0 (record { slot = 2; start_page_no = 3 } ∷ [])) 2
        (record { slot = 1; start_page_no = 4 } ∷ []);
  free = record { slot = 0; start_page_no = 0 } ∷ [];
  page_pool_next_free = 3;
}

pub three_held-Owned :
    Owned 8 (record { pool = three_held; held = (0x40010000, 2) ∷ (0x40012000, 1) ∷ [] })
three_held-Owned = record {
  sound = omega arith;
  shared = λ g d. omega (arith, d.join 0 2 1, d.join 0 3 1, d.join 0 4 4);
  roomy = omega arith;
  start = omega arith;
}

-- four tables in a row, each with room for eight
abbrev pub tables : Tables
tables = record {
  l0_ttbr0 = 0x40010000;
  l1_ttbr0 = 0x40018000;
  l0_ttbr1 = 0x40020000;
  l1_ttbr1 = 0x40028000;
}

-- the MMU off, with the data cache on
abbrev pub reset : Mmu
reset = record {
  memory = λ a. 0xDEAD;
  ttbr0 = 0;
  ttbr1 = 0;
  tcr = 0;
  mair = 0;
  sctlr = 4;
  trace = [];
}

tables-aligned : (x : TableName) → place tables x % 4096 ≡ 0
tables-aligned l0table_ttbr0 = omega arith
tables-aligned l1table_ttbr0 = omega arith
tables-aligned l0table_ttbr1 = omega arith
tables-aligned l1table_ttbr1 = omega arith

tables_low : (x : TableName) → place tables x < 2 ^ 32
tables_low l0table_ttbr0 = omega arith
tables_low l1table_ttbr0 = omega arith
tables_low l0table_ttbr1 = omega arith
tables_low l1table_ttbr1 = omega arith

tables_apart :
    (x y : TableName)
    → x ≢ y
    → (place tables x + 4096 ≤ place tables y) ⊎ (place tables y + 4096 ≤ place tables x)
tables_apart l0table_ttbr0 l0table_ttbr0 n = absurd (n refl)
tables_apart l0table_ttbr0 l1table_ttbr0 n = inl (omega arith)
tables_apart l0table_ttbr0 l0table_ttbr1 n = inl (omega arith)
tables_apart l0table_ttbr0 l1table_ttbr1 n = inl (omega arith)
tables_apart l1table_ttbr0 l0table_ttbr0 n = inr (omega arith)
tables_apart l1table_ttbr0 l1table_ttbr0 n = absurd (n refl)
tables_apart l1table_ttbr0 l0table_ttbr1 n = inl (omega arith)
tables_apart l1table_ttbr0 l1table_ttbr1 n = inl (omega arith)
tables_apart l0table_ttbr1 l0table_ttbr0 n = inr (omega arith)
tables_apart l0table_ttbr1 l1table_ttbr0 n = inr (omega arith)
tables_apart l0table_ttbr1 l0table_ttbr1 n = absurd (n refl)
tables_apart l0table_ttbr1 l1table_ttbr1 n = inl (omega arith)
tables_apart l1table_ttbr1 l0table_ttbr0 n = inr (omega arith)
tables_apart l1table_ttbr1 l1table_ttbr0 n = inr (omega arith)
tables_apart l1table_ttbr1 l0table_ttbr1 n = inr (omega arith)
tables_apart l1table_ttbr1 l1table_ttbr1 n = absurd (n refl)

pub tables-IsPlaced : IsPlaced tables
tables-IsPlaced = record { aligned = tables-aligned; low = tables_low; apart = tables_apart }
