-- ===== src/Vfs/Descriptors.antt =====
-- What the operations on descriptors in vfs.c leave.
use mk_os.Base.{
  ℕ, suc, ◌+◌, ◌≤◌, ◌<◌, ◌≡◌, refl, sym, ◌∙◌, ◌⊎◌, arith, ◌==◌, ltb, leb, leb_of_le, leb_of_lt,
  ltb_of_lt, ltb_of_le, Bool-cases, Option-cases, inl, inr, none, some, length, get_or-set_self,
  if◌then◌else◌,
}
use mk_os.Base.Int.{ℤ, pos, negsuc, to_word}
use mk_os.Base.Run.{ok, fault, Ends, ends}
use mk_os.Base.Word.{add32, sub32}
use mk_os.Vfs.{
  FileDescriptor, Vfs, no_descriptor, inode, descriptor, create_fd, get_descriptor, with_file,
  delete_fd, vfs_close, config_max_files,
}
use mk_os.Vfs.Counts.{points, refs_pos, IsValid, none_or_some, refcount-set, replaced, small_count}

module _ {s : Vfs} (v : IsValid s) where
  create_balance :
      (node : ℕ)
      → node < config_max_files
      → (k : ℕ)
      → (if node == k then add32 (inode s node).refcount 1 else (inode s k).refcount)
          + points k (descriptor s s.fds_next).file
        ≡ (inode s k).refcount + (if node == k then 1 else 0)
  create_balance node h k =
      rw (v.fresh s.fds_next (omega arith)) (ground (arith, small_count v node h))

  -- `create_fd` takes the next descriptor for the file, at its beginning, or fails and changes
  -- nothing where all have been used.
  pub create_fd-Ends :
      (node : ℕ)
      → node < config_max_files
      → Ends
          (λ r t.
            IsValid t
            × (((r ≡ pos s.fds_next)
                  × (s.fds_next < s.fds_max)
                  × (descriptor t s.fds_next
                      ≡ record { file = some node; offset = 0; fd = s.fds_next })
                  × (t.fds_next ≡ s.fds_next + 1))
                ⊎ ((r ≡ negsuc 0) × (s.fds_max ≤ s.fds_next) × (t ≡ s))))
          (create_fd node s)
  unfolding create_fd
  create_fd-Ends node h = elim (Bool-cases (leb s.fds_max s.fds_next)) [
    | inl full ↦ rw full (ends (v, inr (refl, ground arith, refl)))
    | inr room ↦
        let d : FileDescriptor = record { file = some node; offset = 0; fd = s.fds_next } in
        let free : (descriptor s s.fds_next).file ≡ none = v.fresh s.fds_next (omega arith) in
        let lt : s.fds_next < s.fds_max = ground arith in
        rw room (
          ends (
            replaced v s.fds_next (s.fds_next + 1) d node (add32 (inode s node).refcount 1)
                (omega arith) (omega arith) (omega arith) h (λ k e. ground arith)
                (λ k. create_balance node h k),
            inl (
              refl,
              lt,
              get_or-set_self s.fds s.fds_next d no_descriptor (omega (arith, v.slots)),
              refl,
            ),
          ))
  ]

  -- On a descriptor number inside the table `get_descriptor` finds the open descriptor or says
  -- that there is none.
  pub get_descriptor_lem :
      (fd : ℕ)
      → fd < s.fds_max
      → get_descriptor (pos fd) s
        ≡ ok (elim (descriptor s fd).file [ none ↦ none | some _ ↦ some fd ]) s
  unfolding get_descriptor
  get_descriptor_lem fd h = elim (Option-cases (descriptor s fd).file) [
    | inl closed ↦ rw (
      ltb_of_le {a = s.fds_max} {b = fd} (omega arith),
      leb_of_lt {a = length s.fds} {b = fd} (omega (arith, v.slots)),
      closed,
    )
    | inr (node, opened) ↦ rw (
      ltb_of_le {a = s.fds_max} {b = fd} (omega arith),
      leb_of_lt {a = length s.fds} {b = fd} (omega (arith, v.slots)),
      opened,
    )
  ]

  close_balance :
      (i node : ℕ)
      → i < s.fds_max
      → (descriptor s i).file ≡ some node
      → (k : ℕ)
      → (if node == k then sub32 (inode s node).refcount 1 else (inode s k).refcount)
          + points k (descriptor s i).file
        ≡ (inode s k).refcount + 0
  close_balance i node h e k = rw e (
      ground (
        arith,
        small_count v node (v.target i node e),
        v.counted node (v.target i node e),
        refs_pos node s.fds i (omega (arith, v.slots)) e,
      ))

  pub open-lt : (fd node : ℕ) → (descriptor s fd).file ≡ some node → fd < s.fds_next
  open-lt fd node e = elim (Bool-cases (ltb fd s.fds_next)) [
    | inl old ↦ ground arith
    | inr fresh ↦ absurd (none_or_some (sym (v.fresh fd (ground arith)) ∙ e))
  ]

  pub get_descriptor-open :
      (fd node : ℕ)
      → (descriptor s fd).file ≡ some node
      → get_descriptor (pos fd) s ≡ ok (some fd) s
  get_descriptor-open fd node e =
      rw (get_descriptor_lem fd (omega (arith, open-lt fd node e, v.next)), e)

  -- `vfs_close` of an open descriptor closes it, and the count of its file goes down by one.
  pub vfs_close-open :
      (fd node : ℕ)
      → (descriptor s fd).file ≡ some node
      → Ends
          (λ r t.
            (r ≡ pos 0)
            × IsValid t
            × (descriptor t fd ≡ no_descriptor)
            × (suc (inode t node).refcount ≡ (inode s node).refcount))
          (vfs_close (pos fd) s)
  unfolding vfs_close delete_fd
  vfs_close-open fd node e =
      let lt = open-lt fd node e in
      let inside : fd < length s.fds = omega (arith, v.slots, v.next) in
      let hn = v.target fd node e in
      let less = sub32 (inode s node).refcount 1 in
      rw (get_descriptor_lem fd (omega (arith, v.next)), e, with_file, e)
        (ends (
          refl,
          replaced v fd s.fds_next no_descriptor node less lt (omega arith) v.next hn
              (λ k h. ground arith) (close_balance fd node (omega (arith, v.next)) e),
          get_or-set_self s.fds fd no_descriptor no_descriptor inside,
          ground (
            arith,
            refcount-set v node node less hn,
            small_count v node hn,
            v.counted node hn,
            refs_pos node s.fds fd inside e,
          ),
        ))

  -- `vfs_close` of a number inside the table that is not open fails and changes nothing.
  pub vfs_close-closed :
      (fd : ℕ)
      → fd < s.fds_max
      → (descriptor s fd).file ≡ none
      → vfs_close (pos fd) s ≡ ok (negsuc 0) s
  unfolding vfs_close delete_fd
  vfs_close-closed fd h e = rw (get_descriptor_lem fd h, e)

  -- `get_descriptor` refuses every number above the size of the table, negative ones among them.
  -- The size itself passes the test, and the access behind the end of the table is undefined.
  pub get_descriptor_bounds :
      (fd : ℤ)
      → (s.fds_max < to_word fd → get_descriptor fd s ≡ ok none s)
        × (to_word fd ≡ s.fds_max → get_descriptor fd s ≡ fault)
  unfolding get_descriptor
  get_descriptor_bounds fd = (
    λ h. rw (ltb_of_lt h),
    λ e. rw (
      ltb_of_le {a = s.fds_max} {b = to_word fd} (omega arith),
      leb_of_le {a = length s.fds} {b = to_word fd} (omega (arith, v.slots)),
    ),
  )
