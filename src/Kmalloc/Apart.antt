-- ===== src/Kmalloc/Apart.antt =====
-- The chunks of kmalloc.c and the pages that are free in the pool are apart.
use mk_os.Base.{
  ℕ, ◌+◌, ◌-◌, ◌*◌, ◌/◌, ◌%◌, ◌^◌, ◌≤◌, ◌<◌, ◌≡◌, refl, ap, sym, ◌∙◌, arith, inl, inr, ltb,
  ==_of_ne, Bool-cases, List, [], ◌∷◌, ◌++◌, if◌then◌else◌,
}
use mk_os.Base.Run.{no_continuous_memory, ends, Ends-ok, Settles}
use mk_os.Memory.Copy.{in_range}
use mk_os.Page.{Pool}
use mk_os.Page.Tally.{tally, by_pages, has_page, has_page-IsAdditive}
use mk_os.Page.Split.{IsSound}
use mk_os.Page.Alloc.{page_alloc_outcome}
use mk_os.Kmalloc.{Memchunk, Kmem, sizeof_memchunk, kmalloc_init, with_pool}
use mk_os.Kmalloc.Chunks.{AllChunks, used, covers}
use mk_os.Kmalloc.Outcome.{IsKmem, first_chunk}

-- No page of a chunk is free in the pool or in another chunk: `tally` counts the free blocks with
-- page `y`. There is no chunk below the pool.
pub record Apart (s : Kmem) : Type 0 where
  pub above :
      (y o : ℕ)
      → o < 4096
      → tally (by_pages (has_page y)) s.pool + covers (s.pool.mem_pool_start + (y * 4096 + o)) s.mem
        ≤ 1
  pub below : (x : ℕ) → x < s.pool.mem_pool_start → covers x s.mem ≡ 0

pub covers-le-one : {s : Kmem} → Apart s → (x : ℕ) → covers x s.mem ≤ 1
covers-le-one {s} a x = elim (Bool-cases (ltb x s.pool.mem_pool_start)) [
  | inl low ↦ let none_there = a.below x (ground arith) in omega (arith, none_there)
  | inr high ↦
      let off = x - s.pool.mem_pool_start in
      let there : s.pool.mem_pool_start + (off / 4096 * 4096 + off % 4096) ≡ x = ground arith in
      omega (
        arith,
        a.above (off / 4096) (off % 4096) (omega arith),
        ap (λ (z : ℕ). covers z s.mem) there,
      )
]

pub used-le-covers : (x : ℕ) (ms : List Memchunk) → AllChunks ms → used x ms ≤ covers x ms
used-le-covers x [] c = omega arith
used-le-covers x (m ∷ ms) (c, cs) = let rest = used-le-covers x ms cs in ground (arith, c, rest)

covers-append :
    (x : ℕ) (ms : List Memchunk) (c : Memchunk)
    → covers x (ms ++ c ∷ []) ≡ covers x ms + (if in_range x c.base c.total_size then 1 else 0)
covers-append x [] c = omega arith
covers-append x (m ∷ ms) c = omega (arith, covers-append x ms c)

pub used-append :
    (x : ℕ) (ms : List Memchunk) (c : Memchunk)
    → used x (ms ++ c ∷ []) ≡ used x ms + (if in_range x c.base c.offset then 1 else 0)
used-append x [] c = omega arith
used-append x (m ∷ ms) c = omega (arith, used-append x ms c)

-- a page of a run, as an address
page_in_range :
    (start first n y o : ℕ)
    → o < 4096
    → (if in_range (start + (y * 4096 + o)) (start + first * 4096) (n * 4096) then 1 else 0)
      ≡ has_page y first n
page_in_range start first n y o h = ground arith

-- A chunk made of pages just taken from the pool keeps all apart.
pub new_chunk-Apart :
    (s : Kmem) (t : Pool) (c : Memchunk) (first n : ℕ)
    → Apart s
    → ((y : ℕ)
        → tally (by_pages (has_page y)) s.pool
          ≡ tally (by_pages (has_page y)) t + has_page y first n)
    → t.mem_pool_start ≡ s.pool.mem_pool_start
    → c.base ≡ s.pool.mem_pool_start + first * 4096
    → c.total_size ≡ n * 4096
    → Apart (record s { pool = t; mem = s.mem ++ c ∷ [] })
new_chunk-Apart s t c first n a taken same eb et = record {
  above = λ y o h.
      let x = s.pool.mem_pool_start + (y * 4096 + o) in
      let moved = ap (λ (m : ℕ). covers (m + (y * 4096 + o)) (s.mem ++ c ∷ [])) same in
      let at = ap {B = ℕ} (λ (b : ℕ). if in_range x b c.total_size then 1 else 0) eb in
      let size =
        ap {B = ℕ} (λ (k : ℕ). if in_range x (s.pool.mem_pool_start + first * 4096) k then 1 else 0)
          et in
      omega (
        arith,
        a.above y o h,
        taken y,
        moved,
        covers-append x s.mem c,
        at,
        size,
        page_in_range s.pool.mem_pool_start first n y o h,
      );
  below = λ x h. covers-append x s.mem c ∙ ground (arith, a.below x (omega (arith, same)), eb);
}

pub Apart-same :
    {s t : Kmem} → t.pool ≡ s.pool → ((x : ℕ) → covers x t.mem ≡ covers x s.mem) → Apart s → Apart t
Apart-same {s} {t} same room a = record {
  above = λ y o h.
      let start = ap (λ (q : Pool). covers (q.mem_pool_start + (y * 4096 + o)) s.mem) same in
      let free = ap (λ (q : Pool). tally (by_pages (has_page y)) q) same in
      omega (arith, a.above y o h, room (t.pool.mem_pool_start + (y * 4096 + o)), start, free);
  below = λ x h. room x ∙ a.below x (omega (arith, ap (λ (q : Pool). q.mem_pool_start) same));
}

-- The first chunk is apart from the rest of a pool that has no page in two free blocks.
pub kmalloc_init-Apart :
    {lim : ℕ}
    → lim ≤ 2 ^ 20
    → (s : Kmem) → IsSound lim s.pool
    → 0 < s.pool.mem_pool_start
    → s.pool.mem_pool_start % 4096 ≡ 0
    → s.pool.mem_pool_start + lim * 4096 < 2 ^ 64
    → s.mem ≡ []
    → ((y : ℕ) → tally (by_pages (has_page y)) s.pool ≤ 1)
    → Settles (λ _ t. IsKmem lim t × Apart t) no_continuous_memory (kmalloc_init s)
unfolding kmalloc_init with_pool
kmalloc_init-Apart {lim} small s i pos aligned fits fresh once =
    let empty_apart : Apart s = record {
      above = λ y o h.
          let bare =
            ap (λ (ms : List Memchunk). covers (s.pool.mem_pool_start + (y * 4096 + o)) ms) fresh in
          omega (arith, once y, bare);
      below = λ x h. ap (λ (ms : List Memchunk). covers x ms) fresh;
    } in
    elim (page_alloc_outcome {lim = lim} (omega (arith, small)) 4 (omega arith) (omega arith) i) [
      | inl e ↦
          let (b, t, eq, l) = Ends-ok e in
          let (at, k) = first_chunk s small pos aligned fits l in
          let c : Memchunk = record {
            base = b;
            offset = sizeof_memchunk;
            total_size = 4 * 2 ^ 12;
          } in
          let grown =
            new_chunk-Apart s t c l.first 4 empty_apart
              (λ y. l.taken (has_page y) (has_page-IsAdditive y)) l.same.same_start at refl in
          let linked : s.mem ++ c ∷ [] ≡ c ∷ [] = ap (λ ms. ms ++ c ∷ []) fresh in
          rw (eq, ==_of_ne (λ (z : b ≡ 0). omega (arith, at, z, pos)))
            (inl (
              ends (
                k,
                Apart-same refl (λ x. ap (λ (ms : List Memchunk). covers x ms) (sym linked)) grown,
              )))
      | inr (eq, none_left) ↦ rw eq (inr refl)
    ]
