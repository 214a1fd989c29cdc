-- ===== src/Kmalloc/Outcome.antt =====
-- What a call of `kmalloc` comes to: a piece of a chunk, a new chunk, or the allocator's panic.
use mk_os.Base.{
  ℕ, ◌+◌, ◌*◌, ◌/◌, ◌%◌, ◌^◌, ◌≤◌, ◌<◌, ◌≡◌, ◌≢◌, refl, ap, ◌∙◌, ◌⊎◌, arith, inl, inr, List, [],
  ◌∷◌, ◌++◌, Option, none, some, ==_of_ne, ◌==◌, if◌then◌else◌,
}
use mk_os.Base.Run.{ok, panic, no_continuous_memory, Ends, ends, Ends-mono, Ends-ok}
use mk_os.Page.{Pool, zone_for}
use mk_os.Page.Split.{IsSound, NoBlock}
use mk_os.Page.Alloc.{Allocated, page_alloc_outcome}
use mk_os.Base.Word.{add32}
use mk_os.Layout.{page_shift}
use mk_os.Layout.Align.{align_pgup64_lem}
use mk_os.Kmalloc.{
  Memchunk, Kmem, align_up, sizeof_memchunk, with_pool, kmalloc_init, chunk_bytes, piece, bump,
  first_fit, add_chunk, kmalloc_aligned, kmalloc,
}
use mk_os.Kmalloc.Chunks.{IsChunk, AllChunks, Taken, Found, align_up_lem, first_fit-Found}

-- the pages of a new chunk for a piece of `size` bytes
abbrev pub pages_for : ℕ → ℕ
pages_for size = chunk_bytes size / 2 ^ page_shift % 2 ^ 32

-- the chunk as it is when its first piece has been taken
abbrev pub chunk_for : (base size : ℕ) → Memchunk
chunk_for base size = record {
  base = base;
  offset = sizeof_memchunk + size;
  total_size = pages_for size * 4096;
}

-- A new chunk has been taken from the pool and stands behind the others, and `p` is its first piece.
pub record Grown (lim size : ℕ) (s : Kmem) (p : ℕ) (t : Kmem) : Type 0 where
  pub base : ℕ
  pub pages : Allocated lim (pages_for size) s.pool base t.pool
  pub linked : t.mem ≡ s.mem ++ chunk_for base size ∷ []
  pub chunk : IsChunk (chunk_for base size)
  pub at : p ≡ base + sizeof_memchunk

-- A sound pool of at most `lim` pages, and chunks of which there is one.
pub record IsKmem (lim : ℕ) (s : Kmem) : Type 0 where
  pub sound : IsSound lim s.pool
  pub started : 0 < s.pool.mem_pool_start
  pub aligned : s.pool.mem_pool_start % 4096 ≡ 0
  pub fits : s.pool.mem_pool_start + lim * 4096 < 2 ^ 64
  pub some_chunk : s.mem ≢ []
  pub chunks : AllChunks s.mem

pages_for_lem :
    (size : ℕ)
    → size + 5000 < 2 ^ 32
    → (chunk_bytes size ≡ pages_for size * 4096)
      × (sizeof_memchunk + size ≤ pages_for size * 4096)
      × (pages_for size * 4096 < 2 ^ 32)
pages_for_lem size h =
    let rounded : chunk_bytes size ≡ (size + 32 + 4095) / 4096 * 4096 =
      align_pgup64_lem (size + 32) (omega arith) in
    (omega (arith, rounded), omega (arith, rounded), omega (arith, rounded))

add_chunk-linked :
    (size base : ℕ) {s : Kmem} (ms : List Memchunk)
    → s.mem ≡ ms
    → ms ≢ []
    → (c : Memchunk)
    → c ≡ record { base = base; offset = sizeof_memchunk; total_size = chunk_bytes size % 2 ^ 32 }
    → add_chunk size base s ≡ ok (piece c size) (record s { mem = ms ++ bump c size ∷ [] })
unfolding add_chunk
add_chunk-linked size base [] e n c f = absurd (n refl)
add_chunk-linked size base (m ∷ ms) e n c f = rw (e, f) refl

module _ {lim : ℕ} (small : lim ≤ 2 ^ 20) (size : ℕ) (a : size % 16 ≡ 0)
    (h : size + 5000 < 2 ^ 32) where
  pub Allocated-address :
      {s : Kmem} {base : ℕ} {t : Pool}
      → IsKmem lim s
      → (l : Allocated lim (pages_for size) s.pool base t)
      → base ≡ s.pool.mem_pool_start + l.first * 4096
  Allocated-address k l =
      let (exact, roomy, word) = pages_for_lem size h in omega (arith, l, k, word, roomy)

  chunk_for-IsChunk :
      {s : Kmem} {base : ℕ} {t : Pool}
      → IsKmem lim s
      → Allocated lim (pages_for size) s.pool base t
      → IsChunk (chunk_for base size)
  chunk_for-IsChunk k l =
      let (exact, roomy, word) = pages_for_lem size h in
      let at = Allocated-address k l in
      record {
        aligned = omega (arith, k, at);
        stepped = omega (arith, a);
        header = omega arith;
        inside = roomy;
        word = word;
        fits = omega (arith, k, at, l);
      }

  grow :
      {s : Kmem} {base : ℕ} {t : Pool}
      → IsKmem lim s
      → Allocated lim (pages_for size) s.pool base t
      → Ends (Grown lim size s) (
          if base == 0
          then ok 0 (record s { pool = t })
          else add_chunk size base (record s { pool = t }))
  grow {s} {base} {t} k l =
      let (exact, roomy, word) = pages_for_lem size h in
      let at = Allocated-address k l in
      let c : Memchunk = record {
        base = base;
        offset = sizeof_memchunk;
        total_size = chunk_bytes size % 2 ^ 32;
      } in
      let is = chunk_for-IsChunk k l in
      let bumped : bump c size ≡ chunk_for base size =
        let eo : add32 sizeof_memchunk size ≡ sizeof_memchunk + size = omega arith in
        let et : chunk_bytes size % 2 ^ 32 ≡ pages_for size * 4096 = omega (arith, exact, word) in
        rw (eo, et) refl in
      rw
        (
          ==_of_ne (λ (e : base ≡ 0). omega (arith, at, e, k)),
          add_chunk-linked size base {s = record s { pool = t }} s.mem refl k.some_chunk c refl,
        )
        (ends (record {
          base = base;
          pages = l;
          linked = ap (λ m. s.mem ++ m ∷ []) bumped;
          chunk = is;
          at = omega (arith, is);
        }))

  search_failed :
      {s : Kmem}
      → IsKmem lim s
      → Ends (Grown lim size s) (kmalloc_aligned size none s)
        ⊎ ((kmalloc_aligned size none s ≡ panic no_continuous_memory)
            × NoBlock (zone_for (pages_for size)) s.pool)
  unfolding kmalloc_aligned with_pool
  search_failed {s} k =
      let (exact, roomy, word) = pages_for_lem size h in
      elim (page_alloc_outcome {lim = lim} (omega (arith, small)) (pages_for size)
        (omega (arith, roomy)) (omega (arith, word)) k.sound) [
          | inl e ↦ let (b, t, eq, l) = Ends-ok e in rw eq (inl (grow k l))
          | inr (eq, none_left) ↦ rw eq (inr (refl, none_left))
        ]

-- what `kmalloc` gives for `size` bytes, rounded up already
abbrev pub Given : ℕ → ℕ → Kmem → ℕ → Kmem → Type 0
Given lim size s p t = ((t.pool ≡ s.pool) × Taken size p s.mem t.mem) ⊎ Grown lim size s p t

kmalloc_cases :
    {lim : ℕ}
    → lim ≤ 2 ^ 20
    → (size : ℕ) → size % 16 ≡ 0
    → size + 5000 < 2 ^ 32
    → {s : Kmem} → IsKmem lim s
    → (o : Option (ℕ × List Memchunk)) → Found size s.mem o
    → Ends (Given lim size s) (kmalloc_aligned size o s)
      ⊎ ((kmalloc_aligned size o s ≡ panic no_continuous_memory)
          × NoBlock (zone_for (pages_for size)) s.pool)
unfolding kmalloc_aligned
kmalloc_cases small size a h k (some (p, ns)) f = inl (ends (inl (refl, f)))
kmalloc_cases small size a h k none f = elim (search_failed small size a h k) [
  | inl e ↦ inl (Ends-mono e (λ _ _ g. inr g))
  | inr n ↦ inr n
]

-- With a chunk at hand and a sound pool of at most `2^20` pages, `kmalloc` of a size below
-- `2^32 - 6000` gives a piece at a multiple of 16 inside a chunk, and adds exactly its bytes to
-- those in use, or it gives the first piece of a new chunk made of fresh pages, linked behind the
-- others; or it panics because the pool has no block for a new chunk.
pub kmalloc_outcome :
    {lim : ℕ}
    → lim ≤ 2 ^ 20
    → (size : ℕ) → size + 6000 < 2 ^ 32
    → {s : Kmem} → IsKmem lim s
    → Ends (Given lim (align_up size) s) (kmalloc size s)
      ⊎ ((kmalloc size s ≡ panic no_continuous_memory)
          × NoBlock (zone_for (pages_for (align_up size))) s.pool)
unfolding kmalloc
kmalloc_outcome small size h {s} k =
    let e : align_up size ≡ (size + 15) / 16 * 16 = align_up_lem size (omega arith) in
    let a : align_up size % 16 ≡ 0 = omega (arith, e) in
    kmalloc_cases small (align_up size) a (omega (arith, e)) k (first_fit (align_up size) s.mem)
      (first_fit-Found (align_up size) s.mem a k.chunks)

-- the first chunk
pub first_chunk :
    {lim base : ℕ} (s : Kmem) {t : Pool}
    → lim ≤ 2 ^ 20
    → 0 < s.pool.mem_pool_start
    → s.pool.mem_pool_start % 4096 ≡ 0
    → s.pool.mem_pool_start + lim * 4096 < 2 ^ 64
    → (l : Allocated lim 4 s.pool base t)
    → (base ≡ s.pool.mem_pool_start + l.first * 4096)
      × IsKmem lim (record s {
        pool = t;
        mem =
            record { base = base; offset = sizeof_memchunk; total_size = 4 * 2 ^ page_shift } ∷ [];
      })
first_chunk {base} s small pos aligned fits l =
    let at : base ≡ s.pool.mem_pool_start + l.first * 4096 = omega (arith, l) in
    (
      at,
      record {
        sound = l.sound;
        started = omega (arith, l.same, pos);
        aligned = ap (λ (m : ℕ). m % 4096) l.same.same_start ∙ aligned;
        fits = omega (arith, l.same, fits);
        some_chunk = λ e. cc;
        chunks = (omega (arith, l, aligned, fits, at), tt);
      },
    )

-- On a sound pool that begins at a page, `kmalloc_init` leaves one chunk of four pages of the
-- pool, or panics because no block of four pages is free.
pub kmalloc_init-IsKmem :
    {lim : ℕ}
    → lim ≤ 2 ^ 20
    → (s : Kmem) → IsSound lim s.pool
    → 0 < s.pool.mem_pool_start
    → s.pool.mem_pool_start % 4096 ≡ 0
    → s.pool.mem_pool_start + lim * 4096 < 2 ^ 64
    → Ends (λ _ t. IsKmem lim t) (kmalloc_init s)
      ⊎ ((kmalloc_init s ≡ panic no_continuous_memory) × NoBlock (zone_for 4) s.pool)
unfolding kmalloc_init with_pool
kmalloc_init-IsKmem {lim} small s i pos aligned fits =
    elim (page_alloc_outcome {lim = lim} (omega (arith, small)) 4 (omega arith) (omega arith) i) [
      | inl e ↦
          let (b, t, eq, l) = Ends-ok e in
          let (at, k) = first_chunk s small pos aligned fits l in
          rw (eq, ==_of_ne (λ (z : b ≡ 0). omega (arith, at, z, pos))) (inl (ends k))
      | inr (eq, none_left) ↦ rw eq (inr (refl, none_left))
    ]
