-- ===== src/Elf/Segments.antt =====
-- What a loaded segment holds, and where its bounds fail.
use mk_os.Base.{
  ℕ, ◌+◌, ◌-◌, ◌*◌, ◌/◌, ◌%◌, ◌^◌, ◌≤◌, ◌<◌, ◌≡◌, refl, ap, ◌∙◌, ◌⊎◌, arith, inl, inr,
  if◌then◌else◌,
}
use mk_os.Base.Run.{no_continuous_memory, ends, Ends-ok, Settles}
use mk_os.Base.Word.{add64, sub64}
use mk_os.Layout.{page_shift, align_pgup64}
use mk_os.Layout.Align.{align_pgup64_lem}
use mk_os.Memory.{Memory, memcpy}
use mk_os.Memory.Copy.{in_range, memcpy_lem, memset_lem}
use mk_os.Page.{Pool}
use mk_os.Page.Tally.{tally, by_pages, has_page, has_page-IsAdditive}
use mk_os.Page.Split.{IsSound}
use mk_os.Page.Holding.{IsFree, Outside, Outside-run, Allocated-IsTaken}
use mk_os.Page.Alloc.{Allocated, page_alloc_outcome}
use mk_os.Kernel.{Kernel, task, set_task}
use mk_os.Kernel.Parts.{merge, in_pool}
use mk_os.Elf.{Elf64Phdr, vma_size_for, set_memory, fill, load_segment}

-- For a file part no longer than the memory of the program, and not beginning behind the bytes that
-- it is copied from, `fill` copies it and clears the rest, and writes nothing else.
pub fill_lem :
    (addr size src filesz : ℕ) (m : Memory) (a : ℕ)
    → filesz ≤ size
    → size < 2 ^ 32
    → addr + size < 2 ^ 64
    → (addr ≤ src) ⊎ (src + filesz ≤ addr)
    → fill addr size src filesz m a ≡ (
        if in_range a addr filesz
        then m (src + (a - addr))
        else if in_range a addr size
        then 0
        else m a)
fill_lem addr size src filesz m a fits word high apart =
    let e1 : add64 addr filesz ≡ addr + filesz = omega arith in
    let e2 : sub64 size filesz % 2 ^ 32 ≡ size - filesz = omega arith in
    let e3 : filesz % 2 ^ 32 ≡ filesz = omega arith in
    rw (e1, e2, e3)
      (memset_lem (addr + filesz) 0 (size - filesz) (memcpy addr src filesz m) a
        ∙ ground (arith, memcpy_lem addr src filesz m a apart))

-- The segment stands in fresh pages: the bytes of the file from `src` on, and zeros behind them.
pub record Loaded (lim i : ℕ) (hdr : Elf64Phdr) (src : ℕ) (k l : Kernel) : Type 0 where
  pub addr : ℕ
  pub pages : Allocated lim ((hdr.p_memsz + 4095) / 4096) k.pool addr l.pool
  pub at : addr ≡ k.pool.mem_pool_start + pages.first * 4096
  pub file : (x : ℕ) → x < hdr.p_filesz → l.vfs.memory (addr + x) ≡ k.vfs.memory (src + x)
  pub zeros :
      (x : ℕ)
      → hdr.p_filesz ≤ x
      → x < (hdr.p_memsz + 4095) / 4096 * 4096
      → l.vfs.memory (addr + x) ≡ 0
  pub elsewhere : (a : ℕ) → Outside k.pool a → l.vfs.memory a ≡ k.vfs.memory a
  pub rest :
      l
      ≡ set_memory l.vfs.memory (
          set_task i
            (record (task k i) { vma_size = (hdr.p_memsz + 4095) / 4096 * 4096; vma_addr = addr })
            (record k { pool = l.pool }))

-- What the image and the pool are to be like: no free page begins inside the file part.
pub record IsLoadable (lim : ℕ) (hdr : Elf64Phdr) (src : ℕ) (s : Pool) : Type 0 where
  pub sound : IsSound lim s
  pub small : lim ≤ 2 ^ 20
  pub fits : s.mem_pool_start + lim * 4096 < 2 ^ 64
  pub some_memory : 0 < hdr.p_memsz
  pub word : hdr.p_memsz + 4095 < 2 ^ 32
  pub inside : hdr.p_filesz ≤ hdr.p_memsz
  pub apart :
      (p : ℕ)
      → IsFree p s
      → (src + hdr.p_filesz ≤ s.mem_pool_start + p * 4096) ⊎ (s.mem_pool_start + p * 4096 ≤ src)

sized_pages :
    (memsz : ℕ) → memsz + 4095 < 2 ^ 32 → vma_size_for memsz ≡ (memsz + 4095) / 4096 * 4096
sized_pages memsz h =
    let e : align_pgup64 memsz ≡ (memsz + 4095) / 4096 * 4096 =
      align_pgup64_lem memsz (omega arith) in
    omega (arith, e)

counted_pages :
    (memsz : ℕ)
    → memsz + 4095 < 2 ^ 32
    → vma_size_for memsz / 2 ^ page_shift ≡ (memsz + 4095) / 4096
counted_pages memsz h = omega (arith, sized_pages memsz h)

-- the state behind `load_segment`, where the pages are at `addr`
abbrev loaded : ℕ → Elf64Phdr → ℕ → ℕ → Pool → Kernel → Kernel
loaded i hdr src addr t k =
    let size = vma_size_for hdr.p_memsz in
    set_memory (fill addr size src hdr.p_filesz k.vfs.memory)
      (set_task i (record (task k i) { vma_size = size; vma_addr = addr }) (record k { pool = t }))

apart_at :
    (src filesz : ℕ) {addr start : ℕ}
    → (src + filesz ≤ start) ⊎ (start ≤ src)
    → addr ≡ start
    → (addr ≤ src) ⊎ (src + filesz ≤ addr)
apart_at src filesz (inl h) e = inr (omega (arith, h, e))
apart_at src filesz (inr h) e = inl (omega (arith, h, e))

loaded-Loaded :
    {lim i : ℕ} (hdr : Elf64Phdr) (src addr : ℕ) (t : Pool) (k : Kernel)
    → IsLoadable lim hdr src k.pool
    → Allocated lim ((hdr.p_memsz + 4095) / 4096) k.pool addr t
    → Loaded lim i hdr src k (loaded i hdr src addr t k)
loaded-Loaded {lim} {i} hdr src addr t k c l =
    let size = vma_size_for hdr.p_memsz in
    let exact : size ≡ (hdr.p_memsz + 4095) / 4096 * 4096 = sized_pages hdr.p_memsz c.word in
    let at : addr ≡ k.pool.mem_pool_start + l.first * 4096 = omega (arith, l, c) in
    let gain : tally (by_pages (has_page l.first)) k.pool
        ≡ tally (by_pages (has_page l.first)) t
          + has_page l.first l.first ((hdr.p_memsz + 4095) / 4096) =
      l.taken (has_page l.first) (has_page-IsAdditive l.first) in
    let apart = c.apart l.first (ground (arith, gain, c.some_memory)) in
    let taken = Allocated-IsTaken c.small c.fits (omega (arith, c.some_memory)) l in
    let written : (a : ℕ)
        → fill addr size src hdr.p_filesz k.vfs.memory a ≡ (
            if in_range a addr hdr.p_filesz
            then k.vfs.memory (src + (a - addr))
            else if in_range a addr size
            then 0
            else k.vfs.memory a) =
      λ a.
        fill_lem addr size src hdr.p_filesz k.vfs.memory a (omega (arith, c, exact))
          (omega (arith, exact, c)) (omega (arith, exact, at, l, c))
          (apart_at src hdr.p_filesz apart at) in
    record {
      addr = addr;
      pages = l;
      at = at;
      file = λ x h. ground (arith, written (addr + x));
      zeros = λ x low high. ground (arith, written (addr + x), exact);
      elsewhere = λ a h. elim (Outside-run taken a h) [
        | inl before ↦ ground (arith, written a, before)
        | inr behind ↦ ground (arith, written a, behind, exact, c)
      ];
      rest =
          ap
            (λ (size' : ℕ). set_memory (fill addr size src hdr.p_filesz k.vfs.memory) (
              set_task i (record (task k i) { vma_size = size'; vma_addr = addr })
                (record k { pool = t })))
            exact;
    }

-- A segment with no more bytes in the file than in memory is loaded into fresh pages of a sound
-- pool, with the file's bytes and zeros behind them, or there is no block for it and the kernel
-- panics.
pub load_segment-Settles :
    {lim : ℕ} (i : ℕ) (hdr : Elf64Phdr) (blob offset : ℕ) (k : Kernel)
    → let src = sub64 (add64 blob hdr.p_offset) offset in
      IsLoadable lim hdr src k.pool
      → Settles
          (λ _ l. Loaded lim i hdr src k l)
          no_continuous_memory
          (load_segment i hdr blob offset k)
unfolding load_segment in_pool merge
load_segment-Settles {lim} i hdr blob offset k c =
    let pages : vma_size_for hdr.p_memsz / 2 ^ page_shift ≡ (hdr.p_memsz + 4095) / 4096 =
      counted_pages hdr.p_memsz c.word in
    elim (page_alloc_outcome {lim = lim} (omega (arith, c)) ((hdr.p_memsz + 4095) / 4096)
      (omega (arith, c)) (omega (arith, c)) c.sound) [
        | inl e ↦
            let (addr, t, eq, l) = Ends-ok e in
            rw (pages, eq) (inl (ends (loaded-Loaded hdr _ addr t k c l)))
        | inr (eq, none_left) ↦ rw (pages, eq) (inr refl)
      ]
