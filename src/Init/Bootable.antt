-- ===== src/Init/Bootable.antt =====
-- kernel/init.c where there is a program in flash: what its steps leave of the file.
use mk_os.Base.{
  ℕ, ◌+◌, ◌%◌, ◌^◌, ◌≤◌, ◌<◌, ◌≡◌, refl, ap, sym, ◌∙◌, inl, inr, arith, List, [], length, get_or,
}
use mathlib.Core.Path.{subst}
use mk_os.Base.Run.{no_continuous_memory, carry-Settles, Settles, Settles-mono}
use mk_os.Layout.{config_ram_start}
use mk_os.Memory.{Memory, from}
use mk_os.Memory.Compare.{SameString, SameString-same}
use mk_os.Bitops.{ntohl}
use mk_os.Image.{ImageHeader}
use mk_os.Image.Same.{SameBytes, image_header-same}
use mk_os.Page.{pool_pages, pool_start}
use mk_os.Page.Init.{IsHeap, page_init-Bounds, page_init-Owned}
use mk_os.Kmalloc.{Kmem}
use mk_os.Kmalloc.Chunks.{chunk_runs}
use mk_os.Kmalloc.Held.{IsHeld, kmalloc_init-IsHeld}
use mk_os.Vfs.{
  Vfs, Inode, inode, file_at, config_max_files, config_nor_cs1_start, config_nor_cs1_size,
}
use mk_os.Vfs.Images.{Images, Images-inside, image_size}
use mk_os.Vfs.Found.{Found}
use mk_os.Vfs.Counts.{IsValid}
use mk_os.Vfs.Session.{SameFiles, SameFiles-refl}
use mk_os.Elf.{Elf64Phdr, elf64_ehdr}
use mk_os.Elf.Checks.{is_supported-IsSupported}
use mk_os.Elf.Program.{IsProgram, IsProgram-same}
use mk_os.Mm.Build.{IsPlaced}
use mk_os.Gic.{Gic}
use mk_os.Timer.{Machine, IrqHandler}
use mk_os.Task.Load.Launch.{IsInstalled}
use mk_os.Task.Load.Again.{IsInstalled-kept}
use mk_os.Init.{Board, first_kernel, init_memory}
use mk_os.Init.Devices.{IsValid-memory}
use mk_os.Init.Interrupts.{Wired}

-- where the file `node` begins
abbrev pub file_base : List ℕ → ℕ → ℕ
file_base at node = get_or at node 0

-- whether the image at `base` has the name
abbrev pub IsNamed : Memory → Memory → ℕ → Type 0
IsNamed name m base = SameString name (from m (base + 32)) 32

-- What is asked of the board: its heap and its tables are in place, flash begins with images at the
-- addresses `at`, no more than the table has room for, and the first with the name is `node`, a
-- program. The header that `task_load` has on its stack is in memory below the pool.
pub record IsBootable (b : Board) (frame : ℕ) (name : Memory) (at : List ℕ) (node : ℕ)
    (segment : Elf64Phdr) : Type 0 where
  pub heap : IsHeap b.heap_start
  pub placed : IsPlaced b.tables
  pub images : Images b.memory config_nor_cs1_start config_nor_cs1_size at
  pub few : length at ≤ config_max_files
  pub there : node < length at
  pub named : IsNamed name b.memory (file_base at node)
  pub first : (j : ℕ) → j < node → ¬ IsNamed name b.memory (file_base at j)
  pub program :
      IsProgram b.memory (file_base at node + 64) (image_size b.memory (file_base at node)) segment
  pub in_ram : config_ram_start ≤ frame
  pub low_frame : frame + 64 ≤ pool_start b.heap_start

-- what `init_memory` leaves
pub record Stocked (b : Board) (m : Kmem) : Type 0 where
  pub keeps : IsHeld (pool_pages b.heap_start) m
  pub start : m.pool.mem_pool_start ≡ pool_start b.heap_start
  pub memory : m.memory ≡ b.memory

pub init_memory-Stocked :
    (b : Board)
    → IsHeap b.heap_start
    → Settles (λ _. Stocked b) no_continuous_memory (init_memory b)
unfolding init_memory
init_memory-Stocked b heap =
    let bounds = page_init-Bounds b.heap_start heap in
    carry-Settles (inl (page_init-Owned b.heap_start heap)) λ _ pool (owned, start).
      Settles-mono
        (kmalloc_init-IsHeld (omega (arith, bounds))
          (record { pool = pool; mem = []; memory = b.memory }) owned
          (omega (arith, start, bounds, heap)) (ap (λ (a : ℕ). a % 4096) start ∙ bounds.aligned)
          (omega (arith, start, bounds)) refl)
        λ _ m (keeps, same, memory). record { keeps = keeps; start = same ∙ start; memory = memory }

module _ {b : Board} {frame : ℕ} {name : Memory} {at : List ℕ} {node : ℕ} {segment : Elf64Phdr}
    (c : IsBootable b frame name at node segment) where
  abbrev pages : ℕ
  pages = pool_pages b.heap_start

  abbrev base : ℕ
  base = file_base at node

  abbrev size : ℕ
  size = image_size b.memory base

  pages_few : pages ≤ 2 ^ 20
  pages_few = omega (arith, page_init-Bounds b.heap_start c.heap)

  pub flash_below : config_nor_cs1_start + config_nor_cs1_size ≤ pool_start b.heap_start
  flash_below = omega (arith, page_init-Bounds b.heap_start c.heap, c.heap)

  -- a file of the list lies in flash
  inside :
      (i : ℕ)
      → i < length at
      → (config_nor_cs1_start ≤ file_base at i)
        × (file_base at i + 64 + image_size b.memory (file_base at i)
            ≤ config_nor_cs1_start + config_nor_cs1_size)
  inside = Images-inside b.memory at config_nor_cs1_start config_nor_cs1_size c.images

  module _ {m n : Kmem} {s : Vfs} (start : Stocked b m) (d : Found pages at m n s) where
    pool_at : n.pool.mem_pool_start ≡ pool_start b.heap_start
    pool_at = d.grown.start ∙ start.start

    low : (a : ℕ) → a < pool_start b.heap_start → b.memory a ≡ s.memory a
    low a h = sym (
        ap (λ (x : Memory). x a) d.memory
        ∙ d.grown.memory a (omega (arith, h, start.start))
        ∙ ap (λ (x : Memory). x a) start.memory)

    -- the bytes of flash from an address on
    kept_bytes :
        (count p : ℕ)
        → p + count ≤ config_nor_cs1_start + config_nor_cs1_size
        → SameBytes count b.memory p s.memory p
    kept_bytes count p h = record {
      bytes = λ x hx. low (p + x) (omega (arith, h, hx, flash_below));
    }

    -- the entry of a file of the list
    entry : (i : ℕ) → i < length at → inode s i ≡ file_at n.memory (file_base at i)
    entry i h = ap (inode s) {y = 0 + i} (omega arith) ∙ d.lists.file i h

    name_at :
        (i : ℕ)
        → i < length at
        → (x : ℕ) → x < 32
        → from b.memory (file_base at i + 32) x ≡ (inode s i).name x
    name_at i h x hx =
        low (file_base at i + 32 + x) (omega (arith, inside i h, hx, flash_below))
        ∙ ap (λ (y : Memory). y (file_base at i + 32 + x)) d.memory
        ∙ sym (ap (λ (f : Inode). f.name x) (entry i h))

    size_at : image_size s.memory base ≡ size
    size_at =
        ap (λ (h : ImageHeader). ntohl h.ih_size)
          (sym (
            image_header-same (kept_bytes 64 base (omega (arith, inside node c.there)))
              (omega arith) refl))

    -- the program is there when the files have been found
    Found-IsInstalled :
        IsInstalled pages (chunk_runs n.mem) frame name node base size segment (first_kernel b n s)
    Found-IsInstalled =
        let bounds = page_init-Bounds b.heap_start c.heap in
        let lies = inside node c.there in
        record {
          small = pages_few;
          held = d.grown.keeps.held;
          start = omega (arith, pool_at, flash_below);
          fits = omega (arith, pool_at, bounds);
          tables = d.valid;
          low_node = omega (arith, c.there, c.few);
          there = omega (arith, c.there, d.lists.enough);
          named = SameString-same 32 name _ _ (name_at node c.there) c.named;
          first = λ j h n. c.first j h (
              SameString-same 32 name _ _ (λ x hx. sym (name_at j (omega (arith, h, c.there)) x hx))
                n);
          begins = ap (λ (f : Inode). f.blob_start) (entry node c.there);
          whole = whole;
          sized = size_at;
          word = omega (arith, lies);
          program =
              IsProgram-same (kept_bytes size (base + 64) (omega (arith, lies)))
                (is_supported-IsSupported (elf64_ehdr b.memory (base + 64)) size
                  c.program.supported).long
                c.program;
          low_file = omega (arith, lies, pool_at, flash_below);
          low_frame = omega (arith, c.low_frame, pool_at);
          apart = inr (omega (arith, lies, c.in_ram));
        }
      where
        whole : (inode s node).blob_size ≡ 64 + size
        whole =
            let lies = inside node c.there in
            let stored = ap (λ (x : Memory). image_size x base) (sym d.memory) ∙ size_at in
            ap (λ (f : Inode). f.blob_size) (entry node c.there) ∙ omega (arith, lies, stored)

    -- and it still is when the interrupts have been set up
    pub Wired-IsInstalled :
        {g : Gic IrqHandler Machine}
        → Wired pages n s g
        → IsInstalled pages
            (chunk_runs g.rest.kernel.mem)
            frame
            name
            node
            base
            size
            segment
            g.rest.kernel
    Wired-IsInstalled {g} w =
        let lies = inside node c.there in
        IsInstalled-kept Found-IsInstalled w.keeps.held w.start
          (subst IsValid (sym w.files) (IsValid-memory g.rest.kernel.vfs.memory d.valid))
          (subst (SameFiles s) (sym w.files) (SameFiles-refl s g.rest.kernel.vfs.memory))
          (record {
            bytes = λ x h. sym (w.memory (base + x) (omega (arith, h, lies, pool_at, flash_below)));
          })

    pub Wired-bytes :
        {g : Gic IrqHandler Machine}
        → Wired pages n s g
        → SameBytes (64 + size) b.memory base g.rest.kernel.vfs.memory base
    Wired-bytes w =
        let lies = inside node c.there in
        record {
          bytes = λ x h.
              low (base + x) (omega (arith, h, lies, flash_below))
              ∙ sym (w.memory (base + x) (omega (arith, h, lies, pool_at, flash_below)));
        }

    pub Wired-room :
        {g : Gic IrqHandler Machine}
        → Wired pages n s g
        → g.rest.kernel.vfs.fds_next + 2 ≤ g.rest.kernel.vfs.fds_max
    Wired-room w = omega (
      arith,
      ap (λ (v : Vfs). v.fds_next) w.files,
      ap (λ (v : Vfs). v.fds_max) w.files,
      d.next,
      d.most,
    )
