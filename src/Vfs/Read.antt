-- ===== src/Vfs/Read.antt =====
-- `vfs_read`: what it copies, and where its bound fails.
use mk_os.Base.{
  ℕ, ◌+◌, ◌-◌, ◌^◌, ◌≤◌, ◌<◌, ◌≡◌, refl, ap, ◌∙◌, ◌⊎◌, arith, min, some, length, length-set, set,
  get_or-set_self,
}
use mk_os.Base.Int.{pos}
use mk_os.Base.Run.{ok, Ends, ends}
use mk_os.Base.Word.{add32}
use mk_os.Memory.{memcpy}
use mk_os.Memory.Copy.{memcpy_lem}
use mk_os.Vfs.{
  failed, FileDescriptor, Vfs, no_descriptor, inode, descriptor, read_size, read_file, vfs_read,
}
use mk_os.Vfs.Counts.{IsValid, with_file-open, refs-set, descriptor-set}
use mk_os.Vfs.Descriptors.{get_descriptor-open, open-lt}

abbrev offset_of : Vfs → ℕ → ℕ
offset_of s fd = (descriptor s fd).offset

-- the state behind a read of `n` bytes
abbrev pub after_read : (fd node buf n : ℕ) → Vfs → Vfs
after_read fd node buf n s = record s {
  memory = memcpy buf ((inode s node).blob_start + offset_of s fd) n s.memory;
  fds = set s.fds fd (record (descriptor s fd) { offset = add32 (offset_of s fd) n });
}

module _ {s : Vfs} (v : IsValid s) (fd node : ℕ) (e : (descriptor s fd).file ≡ some node) where
  pub vfs_read-after :
      (buf size : ℕ)
      → let n = read_size (offset_of s fd) (inode s node).blob_size size in
        vfs_read (pos fd) buf size s ≡ ok (pos n) (after_read fd node buf n s)
  unfolding vfs_read
  vfs_read-after buf size =
      rw (get_descriptor-open v fd node e) (with_file-open failed (read_file buf size) fd node s e)

  pub after_read-IsValid : (buf n : ℕ) → IsValid (after_read fd node buf n s)
  after_read-IsValid buf n =
      let d = record (descriptor s fd) { offset = add32 (offset_of s fd) n } in
      let inside : fd < length s.fds = omega (arith, open-lt v fd node e, v.slots, v.next) in
      let lt = open-lt v fd node e in
      record {
        files = v.files;
        slots = length-set s.fds fd d ∙ v.slots;
        few = v.few;
        next = v.next;
        fresh = λ j h. ground (arith, descriptor-set v fd j d inside, v.fresh j);
        target =
            λ j k h. ground (arith, descriptor-set v fd j d inside, v.target j k, v.target fd k);
        counted = λ k h. omega (arith, v.counted k h, refs-set k s.fds fd d inside);
      }

  -- `vfs_read` of an open file copies the bytes from the offset on, as many as are asked for and
  -- left, moves the offset behind them, and keeps the table valid. The buffer is to lie outside
  -- what is read, and the sum of offset and size is not to overflow.
  pub vfs_read-bytes :
      (buf size : ℕ)
      → let f = inode s node in
        let n = min size (f.blob_size - offset_of s fd) in
        f.blob_size < 2 ^ 32
        → offset_of s fd ≤ f.blob_size
        → offset_of s fd + size < 2 ^ 32
        → (buf + n ≤ f.blob_start + offset_of s fd) ⊎ (f.blob_start + offset_of s fd + n ≤ buf)
        → Ends
            (λ r t.
              (r ≡ pos n)
              × IsValid t
              × (offset_of t fd ≡ offset_of s fd + n)
              × ((i : ℕ)
                  → i < n
                  → t.memory (buf + i) ≡ s.memory (f.blob_start + offset_of s fd + i)))
            (vfs_read (pos fd) buf size s)
  vfs_read-bytes buf size word inside small apart =
      let n = min size ((inode s node).blob_size - offset_of s fd) in
      let lt = open-lt v fd node e in
      let sized : read_size (offset_of s fd) (inode s node).blob_size size ≡ n = ground arith in
      rw (vfs_read-after buf size, sized)
        (ends (
          refl,
          after_read-IsValid buf n,
          ap (λ (d : FileDescriptor). d.offset)
                (get_or-set_self s.fds fd _ no_descriptor (omega (arith, v.slots, v.next)))
              ∙ omega arith,
          λ i h. ground (
            arith,
            memcpy_lem buf ((inode s node).blob_start + offset_of s fd) n s.memory (buf + i),
          ),
        ))

  -- Where the sum of offset and size overflows, to no more than the size of the file, the bound
  -- fails: `vfs_read` copies all the bytes asked for, more than the file has left.
  pub vfs_read-overflow :
      (buf size : ℕ)
      → size < 2 ^ 32
      → offset_of s fd ≤ (inode s node).blob_size
      → 2 ^ 32 ≤ offset_of s fd + size
      → offset_of s fd + size ≤ 2 ^ 32 + (inode s node).blob_size
      → (inode s node).blob_size < 2 ^ 32
      → Ends
          (λ r t.
            (r ≡ pos size)
            × ((inode s node).blob_size < offset_of s fd + size)
            × (t.memory ≡ memcpy buf ((inode s node).blob_start + offset_of s fd) size s.memory))
          (vfs_read (pos fd) buf size s)
  vfs_read-overflow buf size word inside big back small =
      let sized : read_size (offset_of s fd) (inode s node).blob_size size ≡ size = ground arith in
      rw (vfs_read-after buf size, sized) (ends (refl, omega arith, refl))
