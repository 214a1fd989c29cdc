-- ===== src/Vfs/Session.antt =====
-- One descriptor from `vfs_open` to `vfs_close`, as a caller of vfs.c sees it.
use mk_os.Base.{
  ℕ, ◌+◌, ◌^◌, ◌≤◌, ◌<◌, ◌≡◌, refl, ap, sym, ◌∙◌, arith, inl, inr, some, get_or, leb_of_lt,
  get_or-set_self, get_or-set_ne, Bool-cases, ◌==◌, ==_iff,
}
use mathlib.Core.Path.{subst}
use mk_os.Base.Int.{pos}
use mk_os.Base.Run.{Ends, ends, Ends-mono, Ends-both}
use mk_os.Base.Word.{add32}
use mk_os.Memory.{Memory, memcpy}
use mk_os.Vfs.{
  FileDescriptor, Inode, Vfs, no_inode, no_descriptor, inode, descriptor, read_size, set_refcount,
  create_fd, vfs_open, vfs_read, delete_fd, with_file, vfs_close, config_max_files,
}
use mk_os.Vfs.Counts.{IsValid}
use mk_os.Vfs.Descriptors.{create_fd-Ends, open-lt, vfs_close-open, get_descriptor-open}
use mk_os.Vfs.Open.{HasName, vfs_open-found}
use mk_os.Vfs.Read.{after_read, after_read-IsValid, vfs_read-after}

-- The descriptor `fd` is open at `offset` of a file of `size` bytes from `start` on.
pub record Reading (start size fd offset : ℕ) (s : Vfs) : Type 0 where
  pub valid : IsValid s
  pub node : ℕ
  pub opened : descriptor s fd ≡ record { file = some node; offset = offset; fd = fd }
  pub begins : (inode s node).blob_start ≡ start
  pub sized : (inode s node).blob_size ≡ size

-- The tables do not depend on memory.
pub IsValid-memory : {s : Vfs} (m : Memory) → IsValid s → IsValid (record s { memory = m })
IsValid-memory m v = record {
  files = v.files;
  slots = v.slots;
  few = v.few;
  next = v.next;
  fresh = v.fresh;
  target = v.target;
  counted = v.counted;
}

pub Reading-memory :
    {start size fd offset : ℕ} {s : Vfs} (m : Memory)
    → Reading start size fd offset s
    → Reading start size fd offset (record s { memory = m })
Reading-memory m r = record {
  valid = IsValid-memory m r.valid;
  node = r.node;
  opened = r.opened;
  begins = r.begins;
  sized = r.sized;
}

-- The files are those of before, but for their counts.
pub record SameFiles (s t : Vfs) : Type 0 where
  pub count : t.vfs_next ≡ s.vfs_next
  pub room : t.fds_max ≡ s.fds_max
  pub same :
      (node : ℕ) → inode t node ≡ record (inode s node) { refcount = (inode t node).refcount }

pub SameFiles-refl : (s : Vfs) (m : Memory) → SameFiles s (record s { memory = m })
SameFiles-refl s m = record { count = refl; room = refl; same = λ node. refl }

pub SameFiles-trans : {s t u : Vfs} → SameFiles s t → SameFiles t u → SameFiles s u
SameFiles-trans {s} {t} {u} a b = record {
  count = b.count ∙ a.count;
  room = b.room ∙ a.room;
  same = λ node.
      b.same node
      ∙ ap (λ (f : Inode). record f { refcount = (inode u node).refcount }) (a.same node);
}

-- an entry of which only the count may have changed
counted_again :
    (f : Inode) {g : Inode} {n : ℕ}
    → g ≡ record f { refcount = n }
    → g ≡ record f { refcount = g.refcount }
counted_again f e =
    e ∙ ap (λ (c : ℕ). record f { refcount = c }) (sym (ap (λ (g : Inode). g.refcount) e))

-- one count stored
set_refcount-same :
    {s : Vfs} (node n : ℕ)
    → IsValid s
    → node < config_max_files
    → (j : ℕ)
    → let f = get_or (set_refcount s node n) j no_inode in
      f ≡ record (inode s j) { refcount = f.refcount }
set_refcount-same {s} node n v h j = elim (Bool-cases (node == j)) [
  | inl hit ↦ counted_again (inode s j) (
      subst
        (λ (j : ℕ). get_or (set_refcount s node n) j no_inode ≡ record (inode s j) { refcount = n })
        ((==_iff _ _).0 hit) (get_or-set_self s.vfs node _ no_inode (omega (arith, v.files))))
  | inr miss ↦ counted_again (inode s j) (get_or-set_ne s.vfs node j _ no_inode (λ e. ground arith))
]

-- What a descriptor just taken for the file `node` is like.
abbrev IsOpened : Vfs → ℕ → ℕ → Vfs → Type 0
IsOpened s node fd t =
    (t.memory ≡ s.memory)
    × Reading (inode s node).blob_start (inode s node).blob_size fd 0 t
    × SameFiles s t
    × (t.fds_next ≡ s.fds_next + 1)

module _ {s : Vfs} (v : IsValid s) (node : ℕ) (h : node < config_max_files) where
  create_fd-kept :
      s.fds_next < s.fds_max
      → Ends (λ r t. (t.memory ≡ s.memory) × SameFiles s t) (create_fd node s)
  unfolding create_fd
  create_fd-kept room = rw (leb_of_lt room) (
      ends (refl, record { count = refl; room = refl; same = λ j. set_refcount-same node _ v h j }))

  -- `vfs_open` of the name of a file, with a descriptor left
  pub vfs_open-IsOpened :
      (name : Memory)
      → node < s.vfs_next
      → HasName name s node
      → ((j : ℕ) → j < node → ¬ HasName name s j)
      → s.fds_next < s.fds_max
      → Ends (λ r t. (r ≡ pos s.fds_next) × IsOpened s node s.fds_next t) (vfs_open name s)
  vfs_open-IsOpened name there named first room =
      rw (vfs_open-found name s node there named first) (
        Ends-mono (Ends-both (create_fd-Ends v node h) (create_fd-kept room))
          λ r t ((valid, out), (same, kept)). elim out [
            | inl (er, lt, d, next) ↦ (
              er,
              (
                same,
                record {
                  valid = valid;
                  node = node;
                  opened = d;
                  begins = ap (λ (f : Inode). f.blob_start) (kept.same node);
                  sized = ap (λ (f : Inode). f.blob_size) (kept.same node);
                },
                kept,
                next,
              ),
            )
            | inr (er, full, et) ↦ absurd (omega arith)
          ])

module _ {start size fd offset : ℕ} {s : Vfs} (r : Reading start size fd offset s) where
  opened_file : (descriptor s fd).file ≡ some r.node
  opened_file = ap (λ (d : FileDescriptor). d.file) r.opened

  -- `vfs_read` of no more than the file has left
  pub vfs_read-Reading :
      (buf n : ℕ)
      → size < 2 ^ 32
      → offset + n ≤ size
      → Ends
          (λ x t.
            (x ≡ pos n)
            × (t.memory ≡ memcpy buf (start + offset) n s.memory)
            × Reading start size fd (offset + n) t
            × SameFiles s t
            × (t.fds_next ≡ s.fds_next))
          (vfs_read (pos fd) buf n s)
  vfs_read-Reading buf n word fits =
      let at : (descriptor s fd).offset ≡ offset = ap (λ (d : FileDescriptor). d.offset) r.opened in
      let count : read_size (descriptor s fd).offset (inode s r.node).blob_size n ≡ n =
        ground (arith, at, r.sized) in
      let lt = open-lt r.valid fd r.node opened_file in
      let t = after_read fd r.node buf n s in
      let moved : descriptor t fd
          ≡ record (descriptor s fd) { offset = add32 (descriptor s fd).offset n } =
        get_or-set_self s.fds fd _ no_descriptor (omega (arith, r.valid.slots, r.valid.next)) in
      let next : add32 (descriptor s fd).offset n ≡ offset + n = omega (arith, at) in
      rw (vfs_read-after r.valid fd r.node opened_file buf n, count)
        (ends (
          refl,
          ap (λ (a : ℕ). memcpy buf a n s.memory) (omega (arith, at, r.begins)),
          record {
            valid = after_read-IsValid r.valid fd r.node opened_file buf n;
            node = r.node;
            opened =
                moved
                ∙ ap
                    (λ (d : FileDescriptor). record d { offset = add32 (descriptor s fd).offset n })
                    r.opened
                ∙ ap (λ (o : ℕ). record { file = some r.node; offset = o; fd = fd }) next;
            begins = r.begins;
            sized = r.sized;
          },
          record { count = refl; room = refl; same = λ j. refl },
          refl,
        ))

  vfs_close-kept :
      Ends
        (λ x t. (t.memory ≡ s.memory) × SameFiles s t × (t.fds_next ≡ s.fds_next))
        (vfs_close (pos fd) s)
  unfolding vfs_close delete_fd
  vfs_close-kept =
      rw (get_descriptor-open r.valid fd r.node opened_file, with_file, opened_file)
        (ends (
          refl,
          record {
            count = refl;
            room = refl;
            same = λ j. set_refcount-same r.node _ r.valid (r.valid.target fd r.node opened_file) j;
          },
          refl,
        ))

  -- `vfs_close` closes the descriptor and writes no memory but its tables.
  pub vfs_close-Reading :
      Ends
        (λ x t.
          (t.memory ≡ s.memory)
          × IsValid t
          × (descriptor t fd ≡ no_descriptor)
          × SameFiles s t
          × (t.fds_next ≡ s.fds_next))
        (vfs_close (pos fd) s)
  vfs_close-Reading =
      Ends-mono (Ends-both vfs_close-kept (vfs_close-open r.valid fd r.node opened_file))
        λ x t ((same, files, next), done). (same, done.1, done.2, files, next)
