-- ===== src/Kmalloc.antt =====
-- kernel/lib/kmalloc.c: memory in small pieces out of chunks of pages, never given back.
pub mod Chunks
pub mod Outcome
pub mod Steady
pub mod Apart
pub mod Disjoint
pub mod Held
mod Tests
use mk_os.Base.{
  ℕ, ◌+◌, ◌*◌, ◌/◌, ◌%◌, ◌^◌, Option, none, some, List, [], ◌∷◌, ◌++◌, bit_and, ltb, ◌==◌,
  if◌then◌else◌,
}
use mk_os.Base.Run.{kmalloc_pool_failed, Run, ok, panic, fault, out_of_fuel, Cmd, pure, and_then}
use mk_os.Base.Word.{add32, sub32, add64, sub64}
use mk_os.Layout.{page_shift, align_pgup64}
use mk_os.Memory.{Memory, memset}
use mk_os.Page.{Pool, page_alloc}

-- `ALIGN_UP` on an `unsigned`, where `~0xF` is the rest of the word
pub align_up : ℕ → ℕ
align_up x = bit_and (add32 x 0xF) 0xFFFFFFF0

-- `ALIGN_UP(sizeof(struct memchunk))`
abbrev pub sizeof_memchunk : ℕ
sizeof_memchunk = 32

-- `struct memchunk`; the list through `next` is a list of chunks
pub record Memchunk : Type 0 where
  pub base : ℕ  -- `data`, where the chunk's own fields lie too
  pub offset : ℕ
  pub total_size : ℕ

-- `mem`, the pages that it grows by, and the memory behind all pointers
pub record Kmem : Type 0 where
  pub pool : Pool
  pub mem : List Memchunk
  pub memory : Memory

-- a call of page.c
pub with_pool : {A : Type 0} → Run Pool A → Cmd Kmem A
with_pool (ok a p) s = ok a (record s { pool = p })
with_pool (panic why) s = panic why
with_pool fault s = fault
with_pool out_of_fuel s = out_of_fuel

pub kmalloc_init : Cmd Kmem (Unit {0})
unfolding with_pool
kmalloc_init s = and_then (with_pool (page_alloc 4 s.pool) s) (λ m t.
    if m == 0
    then panic kmalloc_pool_failed
    else ok tt (record t {
      mem = record { base = m; offset = sizeof_memchunk; total_size = 4 * 2 ^ page_shift } ∷ [];
    }))

-- `m->data + m->offset - size` behind `m->offset += size`
abbrev pub piece : Memchunk → ℕ → ℕ
piece m size = sub64 (add64 m.base (add32 m.offset size)) size

abbrev pub bump : Memchunk → ℕ → Memchunk
bump m size = record m { offset = add32 m.offset size }

-- the loop of `kmalloc`: the first chunk with more room than `size`
pub first_fit : ℕ → List Memchunk → Option (ℕ × List Memchunk)
first_fit size [] = none
first_fit size (m ∷ ms) =
    if ltb size (sub32 m.total_size m.offset)
    then some (piece m size, bump m size ∷ ms)
    else mathlib.Core.Option.map (λ (p, rest). (p, m ∷ rest)) (first_fit size ms)

-- the bytes of a new chunk, in `size_t`
abbrev pub chunk_bytes : ℕ → ℕ
chunk_bytes size = align_pgup64 (size + sizeof_memchunk)

-- The chunk is linked behind the last one; with no chunk at all `mem_last` is a null pointer.
add_chunk : ℕ → ℕ → Cmd Kmem ℕ
add_chunk size base s =
    let c : Memchunk = record {
      base = base;
      offset = sizeof_memchunk;
      total_size = chunk_bytes size % 2 ^ 32;
    } in
    elim s.mem [
      | [] ↦ fault
      | m ∷ ms ↦ ok (piece c size) (record s { mem = (m ∷ ms) ++ bump c size ∷ [] })
    ]

-- the part of `kmalloc` behind its loop, by what the loop has found
pub kmalloc_aligned : ℕ → Option (ℕ × List Memchunk) → Cmd Kmem ℕ
unfolding with_pool add_chunk
kmalloc_aligned size (some (p, mem)) s = ok p (record s { mem = mem })
kmalloc_aligned size none s =
    and_then (with_pool (page_alloc (chunk_bytes size / 2 ^ page_shift % 2 ^ 32) s.pool) s)
      (λ m t. if m == 0 then ok 0 t else add_chunk size m t)

pub kmalloc : ℕ → Cmd Kmem ℕ
kmalloc size s = kmalloc_aligned (align_up size) (first_fit (align_up size) s.mem) s

pub kzalloc : ℕ → Cmd Kmem ℕ
kzalloc size s =
    and_then (kmalloc size s)
      (λ p t. if p == 0 then ok p t else ok p (record t { memory = memset p 0 size t.memory }))

pub kfree : ℕ → Cmd Kmem (Unit {0})
kfree d s = ok tt s
