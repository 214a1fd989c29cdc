-- ===== src/Kmalloc/Held.antt =====
-- The pages of the chunks are held, so that no other part is given them.
use mk_os.Base.{
  ℕ, ◌+◌, ◌-◌, ◌*◌, ◌/◌, ◌%◌, ◌^◌, ◌≤◌, ◌<◌, ◌≡◌, refl, ap, sym, ◌∙◌, arith, inl, inr, List, [],
  ◌∷◌, ◌++◌, ◌≢◌, ltb, Bool-cases, Option, none, some, ==_of_ne, ◌==◌, if◌then◌else◌,
}
use mathlib.Core.Path.{subst}
use mk_os.Base.Run.{
  Run, ok, panic, fault, out_of_fuel, no_continuous_memory, and_then, ends, Ends-ok, Settles,
  Settles-and_then, Settles_at,
}
use mk_os.Layout.{page_shift}
use mk_os.Memory.{Memory, memset}
use mk_os.Memory.Copy.{memset_lem}
use mk_os.Page.{Pool, page_alloc}
use mk_os.Page.Tally.{has_page, has_page-IsAdditive}
use mk_os.Page.Alloc.{page_alloc_outcome}
use mk_os.Page.Holding.{Holds, Holds-last, Allocated-Holds}
use mk_os.Kmalloc.{
  Memchunk, Kmem, align_up, chunk_bytes, add_chunk, with_pool, first_fit, kmalloc_aligned, kmalloc,
  kzalloc, kmalloc_init, sizeof_memchunk,
}
use mk_os.Kmalloc.Chunks.{align_up_lem, chunk_runs, covers, InChunk}
use mk_os.Kmalloc.Outcome.{Allocated-address, IsKmem, Given, pages_for, chunk_for, kmalloc_outcome}
use mk_os.Kmalloc.Steady.{Given-IsKmem}
use mk_os.Kmalloc.Apart.{Apart, kmalloc_init-Apart}
use mk_os.Kmalloc.Disjoint.{Given-Apart}

-- The chunks are held in the pool, and as they are to be.
pub record IsHeld (pages : ℕ) (s : Kmem) : Type 0 where
  pub kmem : IsKmem pages s
  pub apart : Apart s
  pub held : Holds pages (chunk_runs s.mem) s.pool

pub IsHeld-memory :
    {pages : ℕ} {s : Kmem} (m : Memory) → IsHeld pages s → IsHeld pages (record s { memory = m })
IsHeld-memory m i = record {
  kmem = record {
    sound = i.kmem.sound;
    started = i.kmem.started;
    aligned = i.kmem.aligned;
    fits = i.kmem.fits;
    some_chunk = i.kmem.some_chunk;
    chunks = i.kmem.chunks;
  };
  apart = record { above = i.apart.above; below = i.apart.below };
  held = i.held;
}

-- A run that ends leaves memory as it was.
abbrev Remembers : {A : Type 0} → Memory → Run Kmem A → Type 0
Remembers m (ok a s) = s.memory ≡ m
Remembers m (panic why) = Unit {0}
Remembers m fault = Unit {0}
Remembers m out_of_fuel = Unit {0}

add_chunk-Remembers :
    (size base : ℕ) (s : Kmem) (ms : List Memchunk)
    → s.mem ≡ ms
    → Remembers s.memory (add_chunk size base s)
unfolding add_chunk
add_chunk-Remembers size base s [] e = rw e tt
add_chunk-Remembers size base s (m ∷ ms) e = rw e refl

new_chunk-Remembers :
    (size : ℕ) (s : Kmem) (r : Run Pool ℕ)
    → Remembers s.memory
        (and_then (with_pool r s) (λ m t. if m == 0 then ok 0 t else add_chunk size m t))
unfolding with_pool
new_chunk-Remembers size s (ok m p) = elim (Bool-cases (m == 0)) [
  | inl zero_page ↦ rw zero_page refl
  | inr page ↦ rw page (add_chunk-Remembers size m (record s { pool = p }) s.mem refl)
]
new_chunk-Remembers size s (panic why) = tt
new_chunk-Remembers size s fault = tt
new_chunk-Remembers size s out_of_fuel = tt

kmalloc_aligned-Remembers :
    (size : ℕ) (o : Option (ℕ × List Memchunk)) (s : Kmem)
    → Remembers s.memory (kmalloc_aligned size o s)
unfolding kmalloc_aligned
kmalloc_aligned-Remembers size (some (p, ms)) s = refl
kmalloc_aligned-Remembers size none s =
    new_chunk-Remembers size s (page_alloc (chunk_bytes size / 2 ^ page_shift % 2 ^ 32) s.pool)

kmalloc-Remembers : (size : ℕ) (s : Kmem) → Remembers s.memory (kmalloc size s)
unfolding kmalloc
kmalloc-Remembers size s =
    kmalloc_aligned-Remembers (align_up size) (first_fit (align_up size) s.mem) s

-- a piece of a chunk lies in the pool
InChunk-above :
    (start p size : ℕ) (ms : List Memchunk)
    → InChunk p size ms
    → ((x : ℕ) → x < start → covers x ms ≡ 0)
    → start ≤ p
InChunk-above start p size [] i below = absurd i
InChunk-above start p size (m ∷ ms) (inl (low, high)) below =
    elim (Bool-cases (ltb (p - 1) start)) [
      | inl lower ↦
          let none_there = below (p - 1) (ground (arith, lower)) in
          absurd (ground (arith, none_there))
      | inr above ↦ ground (arith, above)
    ]
InChunk-above start p size (m ∷ ms) (inr i) below =
    InChunk-above start p size ms i λ x h. let none_there = below x h in omega (arith, none_there)

chunk_runs-append :
    (ms : List Memchunk) (c : Memchunk)
    → chunk_runs (ms ++ c ∷ []) ≡ chunk_runs ms ++ (c.base, c.total_size / 4096) ∷ []
chunk_runs-append [] c = refl
chunk_runs-append (m ∷ ms) c =
    ap (λ rs. (m.base, m.total_size / 4096) ∷ rs) (chunk_runs-append ms c)

-- what a call has given: the piece lies in the pool, and memory is as it was
pub record Gave (pages : ℕ) (s : Kmem) (p : ℕ) (t : Kmem) : Type 0 where
  pub keeps : IsHeld pages t
  pub start : t.pool.mem_pool_start ≡ s.pool.mem_pool_start
  pub memory : (a : ℕ) → a < s.pool.mem_pool_start → t.memory a ≡ s.memory a
  pub above : s.pool.mem_pool_start ≤ p
  pub positive : 0 < p

-- the piece cleared
pub cleared :
    {pages p : ℕ} {s t : Kmem} (size : ℕ)
    → Gave pages s p t
    → Gave pages s p (record t { memory = memset p 0 size t.memory })
cleared {p} {t} size g = record {
  keeps = IsHeld-memory _ g.keeps;
  start = g.start;
  memory = λ a h. ground (arith, memset_lem p 0 size t.memory a, g.above) ∙ g.memory a h;
  above = g.above;
  positive = g.positive;
}

module _ {pages : ℕ} (small : pages ≤ 2 ^ 20) where
  Given-held :
      (size : ℕ) {p : ℕ} {s t : Kmem}
      → size + 6000 < 2 ^ 32
      → IsHeld pages s
      → Given pages (align_up size) s p t
      → Holds pages (chunk_runs t.mem) t.pool
        × (t.pool.mem_pool_start ≡ s.pool.mem_pool_start)
        × (s.pool.mem_pool_start ≤ p)
  Given-held size {p} {s} {t} h i (inl (same, taken)) =
      let apart = (Given-Apart small size {t = t} h i.kmem i.apart (inl (same, taken))).0 in
      let start = ap (λ (q : Pool). q.mem_pool_start) same in
      let high =
        InChunk-above t.pool.mem_pool_start p (align_up size) t.mem taken.inside apart.below in
      (
        subst (λ (q : Pool). Holds pages (chunk_runs t.mem) q) (sym same)
            (subst (λ rs. Holds pages rs s.pool) (sym taken.runs) i.held),
        start,
        omega (arith, start, high),
      )
  Given-held size {p} {s} {t} h i (inr g) =
      let rounded = align_up_lem size (omega arith) in
      let whole : align_up size % 16 ≡ 0 = omega (arith, rounded) in
      let at =
        Allocated-address small (align_up size) whole (omega (arith, rounded)) i.kmem g.pages in
      let n = pages_for (align_up size) in
      let runs : chunk_runs t.mem ≡ chunk_runs s.mem ++ (g.base, n) ∷ [] =
        ap chunk_runs g.linked
        ∙ chunk_runs-append s.mem (chunk_for g.base (align_up size))
        ∙ ap (λ (k : ℕ). chunk_runs s.mem ++ (g.base, k) ∷ []) {x = n * 4096 / 4096}
            (omega arith) in
      (
        subst (λ rs. Holds pages rs t.pool) (sym runs)
            (Holds-last (Allocated-Holds small (omega (arith, g.chunk.inside)) i.held g.pages)),
        g.pages.same.same_start,
        omega (arith, g.at, at),
      )

  -- A call of `kmalloc` gives a piece inside the pool and keeps the chunks held, or panics.
  pub kmalloc-Gave :
      (size : ℕ)
      → size + 6000 < 2 ^ 32
      → (s : Kmem) → IsHeld pages s
      → Settles (λ p t. Gave pages s p t) no_continuous_memory (kmalloc size s)
  kmalloc-Gave size h s i = elim (kmalloc_outcome small size h {s = s} i.kmem) [
    | inl e ↦
        let (p, t, eq, g) = Ends-ok e in
        let (held, start, above) = Given-held size h i g in
        let (kmem, positive) = Given-IsKmem i.kmem g in
        let same : t.memory ≡ s.memory = subst (Remembers s.memory) eq (kmalloc-Remembers size s) in
        rw eq (
          inl (
            ends (record {
              keeps = record {
                kmem = kmem;
                apart = (Given-Apart small size {t = t} h i.kmem i.apart g).0;
                held = held;
              };
              start = start;
              memory = λ a low. ap (λ (m : Memory). m a) same;
              above = above;
              positive = positive;
            })))
    | inr (e, none_left) ↦ inr e
  ]

  first_kmalloc :
      {b : ℕ} {q : Pool} (s : Kmem)
      → page_alloc 4 s.pool ≡ ok b q
      → b ≢ 0
      → kmalloc_init s
        ≡ ok tt (record s {
          pool = q;
          mem = record { base = b; offset = sizeof_memchunk; total_size = 4 * 2 ^ page_shift } ∷ [];
        })
  unfolding kmalloc_init with_pool
  first_kmalloc s eq page = rw (eq, ==_of_ne page) refl

  no_first :
      (s : Kmem)
      → page_alloc 4 s.pool ≡ panic no_continuous_memory
      → kmalloc_init s ≡ panic no_continuous_memory
  unfolding kmalloc_init with_pool
  no_first s eq = rw eq refl

  -- `kmalloc_init` on a pool of which no page is held leaves the first chunk, held.
  pub kmalloc_init-IsHeld :
      (s : Kmem)
      → Holds pages [] s.pool
      → 0 < s.pool.mem_pool_start
      → s.pool.mem_pool_start % 4096 ≡ 0
      → s.pool.mem_pool_start + pages * 4096 < 2 ^ 64
      → s.mem ≡ []
      → Settles
          (λ _ t.
            IsHeld pages t
            × (t.pool.mem_pool_start ≡ s.pool.mem_pool_start)
            × (t.memory ≡ s.memory))
          no_continuous_memory
          (kmalloc_init s)
  kmalloc_init-IsHeld s o pos aligned fits fresh =
      let known =
        kmalloc_init-Apart small s o.sound pos aligned fits fresh λ y.
          let shared = o.shared (has_page y) (has_page-IsAdditive y) in ground (arith, shared) in
      elim (page_alloc_outcome {lim = pages} (omega (arith, small)) 4 (omega arith) (omega arith)
        o.sound) [
          | inl e ↦
              let (b, q, eq, l) = Ends-ok e in
              let done =
                first_kmalloc s eq (λ z. omega (arith, l.address, l.inside, z, pos, fits)) in
              let (kmem, apart) = Settles_at done known in
              rw done (
                inl (
                  ends (
                    record {
                      kmem = kmem;
                      apart = apart;
                      held = Allocated-Holds small (omega arith) o l;
                    },
                    l.same.same_start,
                    refl,
                  )))
          | inr (eq, none_left) ↦ inr (no_first s eq)
        ]

  -- `kzalloc` gives a piece as `kmalloc` does, and writes into it.
  pub kzalloc-Gave :
      (size : ℕ)
      → size + 6000 < 2 ^ 32
      → (s : Kmem) → IsHeld pages s
      → Settles (λ p t. Gave pages s p t) no_continuous_memory (kzalloc size s)
  unfolding kzalloc
  kzalloc-Gave size h s i = Settles-and_then (kmalloc-Gave size h s i) λ p t g.
      rw (==_of_ne (λ (e : p ≡ 0). omega (arith, e, g.positive))) (inl (ends (cleared size g)))
