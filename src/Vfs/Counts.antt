-- ===== src/Vfs/Counts.antt =====
-- The reference counts of vfs.c: each is the number of open descriptors of its file.
use mk_os.Base.{
  ℕ, zero, suc, ◌+◌, ◌^◌, ◌≤◌, ◌<◌, ◌≡◌, ◌∙◌, arith, ◌==◌, List, [], ◌∷◌, Option, none, some,
  length, length-set, get_or, set, get_or-set_self, get_or-set_ne, if◌then◌else◌,
}
use mk_os.Base.Run.{Cmd}
use mk_os.Vfs.{
  FileDescriptor, Vfs, no_inode, no_descriptor, inode, descriptor, set_refcount, with_file,
  config_max_files,
}

-- one for a descriptor of the file `node`
abbrev pub points : ℕ → Option ℕ → ℕ
points node none = 0
points node (some k) = if k == node then 1 else 0

abbrev pub refs : ℕ → List FileDescriptor → ℕ
refs node [] = 0
refs node (d ∷ ds) = points node d.file + refs node ds

points-le-one : (node : ℕ) (f : Option ℕ) → points node f ≤ 1
points-le-one node none = omega arith
points-le-one node (some k) = ground arith

refs-le-length : (node : ℕ) (ds : List FileDescriptor) → refs node ds ≤ length ds
refs-le-length node [] = omega arith
refs-le-length node (d ∷ ds) = omega (arith, points-le-one node d.file, refs-le-length node ds)

pub refs-set :
    (node : ℕ) (ds : List FileDescriptor) (i : ℕ) (d : FileDescriptor)
    → i < length ds
    → refs node (set ds i d) + points node (get_or ds i no_descriptor).file
      ≡ refs node ds + points node d.file
refs-set node [] i d h = absurd (omega arith)
refs-set node (c ∷ ds) zero d h = omega arith
refs-set node (c ∷ ds) (suc i) d h = omega (arith, refs-set node ds i d (omega arith))

pub refs_pos :
    (node : ℕ) (ds : List FileDescriptor) (i : ℕ)
    → i < length ds
    → (get_or ds i no_descriptor).file ≡ some node
    → 0 < refs node ds
refs_pos node ds i h e =
    let one : points node (get_or ds i no_descriptor).file ≡ 1 = rw e (ground arith) in
    omega (arith, refs-set node ds i no_descriptor h, one)

pub record IsValid (s : Vfs) : Type 0 where
  pub files : length s.vfs ≡ config_max_files
  pub slots : length s.fds ≡ s.fds_max
  pub few : s.fds_max < 2 ^ 31
  pub next : s.fds_next ≤ s.fds_max
  pub fresh : (i : ℕ) → s.fds_next ≤ i → (descriptor s i).file ≡ none
  pub target : (i node : ℕ) → (descriptor s i).file ≡ some node → node < config_max_files
  pub counted : (node : ℕ) → node < config_max_files → (inode s node).refcount ≡ refs node s.fds

pub none_or_some : {A : Type 0} {a : A} → none ≡ some a → ⊥
none_or_some h = cc

pub with_file-open :
    {A : Type 0} (bad : Cmd Vfs A) (good : ℕ → ℕ → Cmd Vfs A) (i node : ℕ) (s : Vfs)
    → (descriptor s i).file ≡ some node
    → with_file bad good (some i) s ≡ good i node s
unfolding with_file
with_file-open bad good i node s e = rw (with_file, e)

module _ {s : Vfs} (v : IsValid s) where
  pub descriptor-set :
      (i j : ℕ) (d : FileDescriptor)
      → i < length s.fds
      → get_or (set s.fds i d) j no_descriptor ≡ (if i == j then d else descriptor s j)
  descriptor-set i j d h =
      ground
        (arith, get_or-set_self s.fds i d no_descriptor h, get_or-set_ne s.fds i j d no_descriptor)

  pub refcount-set :
      (i j n : ℕ)
      → i < config_max_files
      → (get_or (set_refcount s i n) j no_inode).refcount
        ≡ (if i == j then n else (inode s j).refcount)
  refcount-set i j n h =
      let f = record (inode s i) { refcount = n } in
      ground (
        arith,
        get_or-set_self s.vfs i f no_inode (omega (arith, v.files)),
        get_or-set_ne s.vfs i j f no_inode,
      )

  -- a descriptor `i` replaced by `d`, and the count of one file adjusted
  pub replaced :
      (i next : ℕ) (d : FileDescriptor) (node n : ℕ)
      → i < next
      → s.fds_next ≤ next
      → next ≤ s.fds_max
      → node < config_max_files
      → ((k : ℕ) → d.file ≡ some k → k < config_max_files)
      → ((k : ℕ)
          → (if node == k then n else (inode s k).refcount) + points k (descriptor s i).file
            ≡ (inode s k).refcount + points k d.file)
      → IsValid (record s { fds = set s.fds i d; vfs = set_refcount s node n; fds_next = next })
  replaced i next d node n hi grow hn hnode target balance =
      let inside : i < length s.fds = omega (arith, v.slots) in
      record {
        files = length-set s.vfs node (record (inode s node) { refcount = n }) ∙ v.files;
        slots = length-set s.fds i d ∙ v.slots;
        few = v.few;
        next = hn;
        fresh = λ j h. ground (arith, descriptor-set i j d inside, v.fresh j);
        target = λ j k h. ground (arith, descriptor-set i j d inside, v.target j k, target k);
        counted = λ k h. omega (
          arith,
          refcount-set node k n hnode,
          balance k,
          refs-set k s.fds i d inside,
          v.counted k h,
        );
      }

  pub small_count : (node : ℕ) → node < config_max_files → (inode s node).refcount < 2 ^ 31
  small_count node h = omega (arith, v.counted node h, refs-le-length node s.fds, v.slots, v.few)
