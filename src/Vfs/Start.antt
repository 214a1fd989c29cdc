-- ===== src/Vfs/Start.antt =====
-- `vfs_init`: the tables it leaves.
use mk_os.Base.{
  ℕ, ◌+◌, ◌*◌, ◌^◌, ◌≤◌, ◌≡◌, refl, ap, sym, ◌∙◌, arith, inl, inr, none, get_or, get_or-replicate,
  List, ltb, Bool-cases, length, ==_of_ne,
}
use mk_os.Base.Int.{pos}
use mk_os.Base.Run.{Run, no_continuous_memory, Ends, ends, Ends-ok, Settles, Settles-and_then}
use mk_os.Memory.{Memory}
use mk_os.Kmalloc.{Kmem}
use mk_os.Kmalloc.Outcome.{IsKmem}
use mk_os.Kmalloc.Steady.{kmalloc-IsKmem}
use mk_os.Vfs.{
  Inode, FileDescriptor, Vfs, no_inode, no_descriptor, inode, descriptor, config_max_files,
  config_nor_cs1_start, config_nor_cs1_size, sizeof_inode, sizeof_file_descriptor, fds_limit,
  allocate_tables, empty_tables, beside, scan, vfs_init,
}
use mk_os.Vfs.Scan.{Listed, Scanned, parse_flash-Ends}
use mk_os.Vfs.Counts.{IsValid, refs, none_or_some}

module _ {lim : ℕ} (small : lim ≤ 2 ^ 20) where
  allocate_tables-IsKmem :
      (k : Kmem)
      → IsKmem lim k
      → Settles (λ _ l. IsKmem lim l) no_continuous_memory (allocate_tables k)
  unfolding allocate_tables
  allocate_tables-IsKmem k i =
      Settles-and_then (kmalloc-IsKmem small (config_max_files * sizeof_inode) (omega arith) k i)
        λ p k1 (i1, pos1). rw (==_of_ne (λ (e : p ≡ 0). omega arith)) (
          Settles-and_then
            (kmalloc-IsKmem small (sizeof_file_descriptor * fds_limit) (omega arith) k1 i1)
            λ q k2 (i2, pos2). rw (==_of_ne (λ (e : q ≡ 0). omega arith)) (
              inl (
                ends (record {
                  sound = i2.sound;
                  started = i2.started;
                  aligned = i2.aligned;
                  fits = i2.fits;
                  some_chunk = i2.some_chunk;
                  chunks = i2.chunks;
                }))))

-- What `vfs_init` leaves: files that lie in flash, and no open descriptor.
pub record Started (lim : ℕ) (k : Kmem) (s : Vfs) : Type 0 where
  pub kmem : IsKmem lim k
  pub end : ℕ
  pub within : end ≤ config_nor_cs1_start + config_nor_cs1_size
  pub listed : Listed config_nor_cs1_start end s
  pub valid : IsValid s
  pub most : s.fds_max ≡ fds_limit

pub nothing_listed :
    (m : Memory) → Listed config_nor_cs1_start config_nor_cs1_start (empty_tables m)
nothing_listed m = record {
  room = refl;
  few = omega arith;
  file = λ i h. absurd (omega arith);
  ordered = λ i j h h'. absurd (omega arith);
}

-- the scan leaves no file in use and no descriptor open
pub Scanned-IsValid :
    {m : Memory} {lo limit : ℕ} (s : Vfs) → Scanned lo limit (empty_tables m) s → IsValid s
Scanned-IsValid {m} s c = record {
  files = c.listed.room;
  slots = ap length c.descriptors ∙ sym c.most;
  few = omega (arith, c.most);
  next = omega (arith, c.next, c.most);
  fresh = λ i h. closed i;
  target = λ i node e. absurd (none_or_some (sym (closed i) ∙ e));
  counted = λ node h. unused node ∙ sym (ap (refs node) c.descriptors);
}
  where
    closed : (i : ℕ) → (descriptor s i).file ≡ none
    closed i =
        ap (λ (ds : List FileDescriptor). (get_or ds i no_descriptor).file) c.descriptors
        ∙ ap (λ (d : FileDescriptor). d.file) (get_or-replicate fds_limit no_descriptor i)

    unused : (node : ℕ) → (inode s node).refcount ≡ 0
    unused node = elim (Bool-cases (ltb node s.vfs_next)) [
      | inl old ↦ (c.listed.file node (ground arith)).unused
      | inr other ↦
          ap (λ (f : Inode). f.refcount)
            (c.unlisted node (ground arith) ∙ get_or-replicate config_max_files no_inode node)
    ]

beside-Ends :
    {lim : ℕ} (k : Kmem) {r : Run Vfs (Unit {0})}
    → IsKmem lim k
    → Ends
        (λ _ s.
          Scanned config_nor_cs1_start
            (config_nor_cs1_start + config_nor_cs1_size)
            (empty_tables k.memory)
            s)
        r
    → Ends (λ r (l, s). (r ≡ pos 0) × Started lim l s) (beside k r)
unfolding beside
beside-Ends k i (ends {s} c) = ends (
  refl,
  record {
    kmem = i;
    end = c.end;
    within = c.within;
    listed = c.listed;
    valid = Scanned-IsValid s c;
    most = c.most;
  },
)

-- With a chunk at hand and a sound pool, `vfs_init` returns 0 and leaves a valid table whose files
-- lie in flash one behind the other and are all closed, or it panics for want of memory.
pub vfs_init-Settles :
    {lim : ℕ}
    → lim ≤ 2 ^ 20
    → (k : Kmem) → IsKmem lim k
    → Settles (λ r (l, s). (r ≡ pos 0) × Started lim l s) no_continuous_memory (vfs_init k)
unfolding vfs_init scan
vfs_init-Settles small k i = elim (allocate_tables-IsKmem small k i) [
  | inl e ↦
      let (a, l, eq, il) = Ends-ok e in
      rw eq (
        inl (
          beside-Ends l il (
            parse_flash-Ends 65 config_nor_cs1_size (omega arith) (omega arith) (omega arith)
              (nothing_listed l.memory))))
  | inr eq ↦ rw eq (inr refl)
]
