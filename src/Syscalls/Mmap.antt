-- ===== src/Syscalls/Mmap.antt =====
-- The system call `mmap`: which sizes stop the kernel, and what happens for the others.
use mk_os.Base.{ℕ, ◌+◌, ◌*◌, ◌/◌, ◌%◌, ◌^◌, ◌≤◌, ◌<◌, ◌≡◌, refl, ◌⊎◌, arith, inl, inr, List, ◌∷◌}
use mk_os.Base.Run.{panic, no_continuous_memory, ends, Ends-ok, Settles}
use mk_os.Layout.{align_pgup, page_shift}
use mk_os.Layout.Align.{align_pgup_lem, align_pgup_overflow}
use mk_os.Page.Alloc.{page_alloc-zero}
use mk_os.Page.Client.{Held}
use mk_os.Page.Holding.{Holds, taken}
use mk_os.Kernel.{Kernel}
use mk_os.Kernel.Parts.{in_pool, merge}
use mk_os.Syscalls.{argument, sys_mmap, call, do_syscall}

-- the size that `mmap` is called with
abbrev pub asked : ℕ → Kernel → ℕ
asked i k = argument i k % 2 ^ 32

-- `ALIGN_PGUP` leaves nothing of 0, nor of a size in the last page of the word.
align_pgup-empty :
    (x : ℕ) → x < 2 ^ 32 → (x ≡ 0) ⊎ (2 ^ 32 < x + 4096) → align_pgup x / 2 ^ page_shift ≡ 0
align_pgup-empty x word (inl none_asked) = omega (arith, align_pgup_lem x (omega arith))
align_pgup-empty x word (inr most) = omega (arith, align_pgup_overflow x word (omega arith))

mmap-empty :
    (fuel i : ℕ) (k : Kernel)
    → (asked i k ≡ 0) ⊎ (2 ^ 32 < asked i k + 4096)
    → do_syscall fuel 3 i k ≡ panic no_continuous_memory
unfolding do_syscall call sys_mmap in_pool merge
mmap-empty fuel i k h =
    let pages = align_pgup-empty (asked i k) (omega arith) h in
    rw (pages, page_alloc-zero k.pool) refl

mmap-pages :
    {pages : ℕ} {hs : List Held} (fuel i : ℕ) (k : Kernel)
    → pages ≤ 2 ^ 20
    → k.pool.mem_pool_start + pages * 4096 < 2 ^ 64
    → Holds pages hs k.pool
    → 0 < asked i k
    → asked i k + 4096 ≤ 2 ^ 32
    → Settles
        (λ _ l.
          (a : ℕ) × Holds pages ((a, (asked i k + 4095) / 4096) ∷ hs) l.pool
          × (l ≡ record k { pool = l.pool }))
        no_continuous_memory
        (do_syscall fuel 3 i k)
unfolding do_syscall call sys_mmap in_pool merge
mmap-pages {hs} fuel i k small fits o some_asked room =
    let size = asked i k in
    let n : align_pgup size / 2 ^ page_shift ≡ (size + 4095) / 4096 =
      omega (arith, align_pgup_lem size (omega arith)) in
    rw n (elim (taken small ((size + 4095) / 4096) hs (omega arith) (omega arith) fits o) [
      | inl e ↦ let (a, t, eq, (held, run)) = Ends-ok e in rw eq (inl (ends (a, held, refl)))
      | inr eq ↦ rw eq (inr refl)
    ])

-- Where a pool of at most `2^20` pages below `2^64` is shared by its free blocks and the runs that are
-- held, `mmap` of 0 bytes, or of more than `2^32 - 4096` of them, panics. For any other size the
-- pages that it needs are taken from the pool, and nothing else changes: the task is not told where
-- they are. Or the kernel panics for want of them.
pub mmap_outcome :
    {pages : ℕ} {hs : List Held} (fuel i : ℕ) (k : Kernel)
    → pages ≤ 2 ^ 20
    → k.pool.mem_pool_start + pages * 4096 < 2 ^ 64
    → Holds pages hs k.pool
    → ((asked i k ≡ 0) ⊎ (2 ^ 32 < asked i k + 4096)
        → do_syscall fuel 3 i k ≡ panic no_continuous_memory)
      × (0 < asked i k
          → asked i k + 4096 ≤ 2 ^ 32
          → Settles
              (λ _ l.
                (a : ℕ) × Holds pages ((a, (asked i k + 4095) / 4096) ∷ hs) l.pool
                × (l ≡ record k { pool = l.pool }))
              no_continuous_memory
              (do_syscall fuel 3 i k))
mmap_outcome fuel i k small fits o = (mmap-empty fuel i k, mmap-pages fuel i k small fits o)
