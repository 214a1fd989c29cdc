-- ===== src/Vfs/Found.antt =====
-- `vfs_init` in memory where flash begins with images: they are the first files.
use mk_os.Base.{
  ℕ, ◌+◌, ◌*◌, ◌^◌, ◌≤◌, ◌<◌, ◌≡◌, refl, sym, ◌∙◌, arith, inl, inr, List, length, ==_of_ne,
}
use mk_os.Base.Run.{
  Run, no_continuous_memory, Ends, ends, Ends-ok, Ends-both, Settles, Settles-and_then,
}
use mk_os.Image.Same.{SameBytes}
use mk_os.Kmalloc.{Kmem}
use mk_os.Kmalloc.Held.{IsHeld, cleared, kmalloc-Gave}
use mk_os.Vfs.{
  Vfs, config_max_files, config_nor_cs1_start, config_nor_cs1_size, sizeof_inode,
  sizeof_file_descriptor, fds_limit, allocate_tables, empty_tables, beside, scan, vfs_init,
}
use mk_os.Vfs.Counts.{IsValid}
use mk_os.Vfs.Scan.{Scanned, parse_flash-Ends}
use mk_os.Vfs.Images.{Images, Images-same, Lists, parse_flash-Lists}
use mk_os.Vfs.Start.{nothing_listed, Scanned-IsValid}

-- a state of the chunks that a part is set up in, with what it has kept
pub record Grown (pages : ℕ) (k l : Kmem) : Type 0 where
  pub keeps : IsHeld pages l
  pub start : l.pool.mem_pool_start ≡ k.pool.mem_pool_start
  pub memory : (a : ℕ) → a < k.pool.mem_pool_start → l.memory a ≡ k.memory a

module _ {pages : ℕ} (small : pages ≤ 2 ^ 20) where
  allocate_tables-Grown :
      (k : Kmem)
      → IsHeld pages k
      → Settles (λ _ l. Grown pages k l) no_continuous_memory (allocate_tables k)
  unfolding allocate_tables
  allocate_tables-Grown k i =
      Settles-and_then (kmalloc-Gave small (config_max_files * sizeof_inode) (omega arith) k i)
        λ p k1 g1. rw (==_of_ne (λ (e : p ≡ 0). omega (arith, e, g1.positive))) (
          Settles-and_then
            (kmalloc-Gave small (sizeof_file_descriptor * fds_limit) (omega arith) k1 g1.keeps)
            λ q k2 g2. rw (==_of_ne (λ (e : q ≡ 0). omega (arith, e, g2.positive))) (
              let c = cleared (sizeof_file_descriptor * fds_limit) g2 in
              inl (
                ends (record {
                  keeps = c.keeps;
                  start = c.start ∙ g1.start;
                  memory = λ a h. c.memory a (omega (arith, h, g1.start)) ∙ g1.memory a h;
                }))))

-- What `vfs_init` leaves: the images at the beginning of flash are the first files.
pub record Found (pages : ℕ) (at : List ℕ) (k l : Kmem) (s : Vfs) : Type 0 where
  pub grown : Grown pages k l
  pub valid : IsValid s
  pub lists : Lists l.memory 0 at s
  pub memory : s.memory ≡ l.memory
  pub next : s.fds_next ≡ 0
  pub most : s.fds_max ≡ fds_limit

beside-Found :
    {pages : ℕ} {at : List ℕ} {k : Kmem} (l : Kmem) {r : Run Vfs (Unit {0})}
    → Grown pages k l
    → Ends
        (λ _ s.
          Lists l.memory 0 at s
          × Scanned config_nor_cs1_start
              (config_nor_cs1_start + config_nor_cs1_size)
              (empty_tables l.memory)
              s)
        r
    → Ends (λ _ (l, s). Found pages at k l s) (beside l r)
unfolding beside
beside-Found l g (ends {s} (c, d)) = ends (record {
  grown = g;
  valid = Scanned-IsValid s d;
  lists = c;
  memory = d.same;
  next = d.next;
  most = d.most;
})

-- With the chunks held in a pool behind flash, which begins with images, `vfs_init` lists them as
-- the first files, or it panics for want of memory.
pub vfs_init-Found :
    {pages : ℕ} {at : List ℕ}
    → pages ≤ 2 ^ 20
    → (k : Kmem) → IsHeld pages k
    → config_nor_cs1_start + config_nor_cs1_size ≤ k.pool.mem_pool_start
    → Images k.memory config_nor_cs1_start config_nor_cs1_size at
    → length at ≤ config_max_files
    → Settles (λ _ (l, s). Found pages at k l s) no_continuous_memory (vfs_init k)
unfolding vfs_init scan
vfs_init-Found {at} small k i behind images few = elim (allocate_tables-Grown small k i) [
  | inl e ↦
      let (a, l, eq, g) = Ends-ok e in
      let same : SameBytes config_nor_cs1_size k.memory config_nor_cs1_start l.memory
          config_nor_cs1_start =
        record { bytes = λ x h. sym (g.memory (config_nor_cs1_start + x) (omega arith)) } in
      let there = Images-same at config_nor_cs1_start config_nor_cs1_size same images in
      let none_yet = nothing_listed l.memory in
      rw eq (
        inl (
          beside-Found l g (
            Ends-both
              (parse_flash-Lists {s = empty_tables l.memory} 65 config_nor_cs1_size (omega arith)
                (omega arith) (omega arith) none_yet there (omega arith))
              (parse_flash-Ends 65 config_nor_cs1_size (omega arith) (omega arith) (omega arith)
                none_yet))))
  | inr eq ↦ rw eq (inr refl)
]
