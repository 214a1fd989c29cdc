-- ===== src/Kmalloc/Steady.antt =====
-- `kmalloc` keeps the chunks and the pool as they are to be, and never gives the null pointer then.
use mk_os.Base.{
  ℕ, ◌+◌, ◌%◌, ◌^◌, ◌≤◌, ◌<◌, ◌≢◌, ◌≡◌, ==_of_ne, ap, sym, ◌∙◌, arith, inl, inr, List, [], ◌∷◌,
  ◌++◌,
}
use mathlib.Core.Path.{subst}
use mk_os.Base.Run.{no_continuous_memory, Ends-mono, ends, Settles, Settles-and_then}
use mk_os.Page.{Pool}
use mk_os.Page.Split.{IsSound}
use mk_os.Kmalloc.{Memchunk, Kmem, kmalloc, kzalloc}
use mk_os.Kmalloc.Chunks.{IsChunk, AllChunks, InChunk}
use mk_os.Kmalloc.Outcome.{Given, IsKmem, chunk_for, kmalloc_outcome}

InChunk-pos : (p size : ℕ) (ms : List Memchunk) → InChunk p size ms → (0 < p) × (ms ≢ [])
InChunk-pos p size [] i = absurd i
InChunk-pos p size (m ∷ ms) (inl (low, high)) = (omega arith, λ e. cc)
InChunk-pos p size (m ∷ ms) (inr i) = ((InChunk-pos p size ms i).0, λ e. cc)

AllChunks-append :
    (ms : List Memchunk) (c : Memchunk) → AllChunks ms → IsChunk c → AllChunks (ms ++ c ∷ [])
AllChunks-append [] c all is = (is, tt)
AllChunks-append (m ∷ ms) c (first, all) is = (first, AllChunks-append ms c all is)

append_not_nil : (ms : List Memchunk) (c : Memchunk) → ms ++ c ∷ [] ≢ []
append_not_nil [] c = λ e. cc
append_not_nil (m ∷ ms) c = λ e. cc

pub Given-IsKmem :
    {lim size p : ℕ} {s t : Kmem} → IsKmem lim s → Given lim size s p t → IsKmem lim t × (0 < p)
Given-IsKmem {lim} {size} {p} {t} k (inl (same, taken)) =
    let (positive, some_chunk) = InChunk-pos p size t.mem taken.inside in
    (
      record {
        sound = subst (IsSound lim) (sym same) k.sound;
        started = omega (arith, k, ap (λ (q : Pool). q.mem_pool_start) same);
        aligned = ap (λ (q : Pool). q.mem_pool_start % 4096) same ∙ k.aligned;
        fits = omega (arith, k, ap (λ (q : Pool). q.mem_pool_start) same);
        some_chunk = some_chunk;
        chunks = taken.chunks;
      },
      positive,
    )
Given-IsKmem {size} {s} k (inr g) = (
  record {
    sound = g.pages.sound;
    started = omega (arith, k, g.pages);
    aligned = ap (λ (m : ℕ). m % 4096) g.pages.same.same_start ∙ k.aligned;
    fits = omega (arith, k, g.pages);
    some_chunk = λ e. append_not_nil s.mem (chunk_for g.base size) (sym g.linked ∙ e);
    chunks =
        subst AllChunks (sym g.linked)
          (AllChunks-append s.mem (chunk_for g.base size) k.chunks g.chunk);
  },
  omega (arith, g),
)

-- A call leaves the chunks and the pool as they are to be, with a pointer that is not null, or panics.
pub kmalloc-IsKmem :
    {lim : ℕ}
    → lim ≤ 2 ^ 20
    → (size : ℕ) → size + 6000 < 2 ^ 32
    → (s : Kmem) → IsKmem lim s
    → Settles (λ p t. IsKmem lim t × (0 < p)) no_continuous_memory (kmalloc size s)
kmalloc-IsKmem small size h s k = elim (kmalloc_outcome small size h {s = s} k) [
  | inl e ↦ inl (Ends-mono e λ p t g. Given-IsKmem k g)
  | inr (e, none_left) ↦ inr e
]

-- So does `kzalloc`, which clears the bytes of the piece besides.
pub kzalloc-IsKmem :
    {lim : ℕ}
    → lim ≤ 2 ^ 20
    → (size : ℕ) → size + 6000 < 2 ^ 32
    → (s : Kmem) → IsKmem lim s
    → Settles (λ p t. IsKmem lim t × (0 < p)) no_continuous_memory (kzalloc size s)
unfolding kzalloc
kzalloc-IsKmem small size h s k =
    Settles-and_then (kmalloc-IsKmem small size h s k) λ p t (i, positive).
      rw (==_of_ne (λ (e : p ≡ 0). omega arith)) (
        inl (
          ends (
            record {
              sound = i.sound;
              started = i.started;
              aligned = i.aligned;
              fits = i.fits;
              some_chunk = i.some_chunk;
              chunks = i.chunks;
            },
            positive,
          )))
