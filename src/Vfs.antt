-- ===== src/Vfs.antt =====
-- kernel/core/vfs.c: the files found in flash, and the table of open descriptors.
pub mod Tables
pub mod Scan
pub mod Start
pub mod Counts
pub mod Descriptors
pub mod Read
pub mod Open
pub mod Session
pub mod Images
pub mod Found
pub mod Client
pub mod Lifetime
mod Tests
use mk_os.Base.{
  ℕ, zero, suc, ◌+◌, ◌-◌, ◌*◌, ◌%◌, ◌^◌, Bool, true, false, Option, none, some, List, [], ◌∷◌, ltb,
  leb, ◌==◌, if◌then◌else◌, length, get_or, set, replicate, not,
}
use mk_os.Base.Int.{ℤ, pos, negsuc, to_word, is_zero}
use mk_os.Base.Run.{
  Run, ok, panic, fault, vfs_init_failed, fds_init_failed, out_of_fuel, Cmd, pure, and_then, ◌>>=◌,
  ◌>>◌,
}
use mk_os.Base.Word.{add32, sub32}
use mk_os.Bitops.{ntohl}
use mk_os.Memory.{Memory, from, memcpy, memset, strncmp}
use mk_os.Kmalloc.{Kmem, kmalloc}
use mk_os.Image.{
  ImageHeader, image_header, sizeof_image_header, ih_magic_value, ih_arch_arm64, ih_comp_none,
}
pub use mk_os.Vfs.Tables.{
  config_max_files, config_max_file_name, config_nor_cs1_start, config_nor_cs1_size, Inode,
  FileDescriptor, Vfs, no_inode, no_descriptor, inode, descriptor,
}

-- whether `parse_flash` accepts the file whose header begins at `base`, with `size` bytes behind it
abbrev pub accepts : ImageHeader → ℕ → Bool
accepts hdr size =
    if not (hdr.ih_arch == ih_arch_arm64)
    then false
    else if not (hdr.ih_comp == ih_comp_none)
    then false
    else if ltb size (ntohl hdr.ih_size)
    then false
    else true

-- the entry that `parse_flash` fills in
abbrev pub file_at : Memory → ℕ → Inode
file_at m base =
    let hdr = image_header m base in
    record {
      name = from m hdr.ih_name;
      blob_start = base;
      blob_size = add32 sizeof_image_header (ntohl hdr.ih_size);
      refcount = 0;
    }

abbrev add_file : Vfs → ℕ → Vfs
add_file s base = record s {
  vfs = set s.vfs s.vfs_next (file_at s.memory base);
  vfs_next = s.vfs_next + 1;
}

pub parse_flash : ℕ → (base size : ℕ) → Cmd Vfs (Unit {0})
parse_flash zero base size s = out_of_fuel
parse_flash (suc fuel) base size s =
    let hdr = image_header s.memory base in
    let left = sub32 size sizeof_image_header in
    let file = file_at s.memory base in
    let more =
      parse_flash fuel (base + file.blob_size) (sub32 left (ntohl hdr.ih_size)) (add_file s base) in
    if ltb size sizeof_image_header
    then ok tt s
    else if s.vfs_next == config_max_files
    then ok tt s
    else if ntohl hdr.ih_magic == ih_magic_value
    then (if accepts hdr left then more else ok tt s)
    else ok tt s

-- `sizeof(struct inode)` and `sizeof(struct file_descriptor)`
abbrev pub sizeof_inode : ℕ
sizeof_inode = 48

abbrev pub sizeof_file_descriptor : ℕ
sizeof_file_descriptor = 16

abbrev pub fds_limit : ℕ
fds_limit = 100

-- the two arrays of `vfs_init`, of which the second is set to zero
pub allocate_tables : Cmd Kmem (Unit {0})
allocate_tables k = and_then (kmalloc (config_max_files * sizeof_inode) k) (λ vfs k1.
    if vfs == 0
    then panic vfs_init_failed
    else and_then (kmalloc (sizeof_file_descriptor * fds_limit) k1) (λ fds k2.
      if fds == 0
      then panic fds_init_failed
      else ok tt
          (record k2 { memory = memset fds 0 (sizeof_file_descriptor * fds_limit) k2.memory })))

-- the tables before the scan; an entry of `vfs` is not read before it is written
abbrev pub empty_tables : Memory → Vfs
empty_tables m = record {
  vfs = replicate config_max_files no_inode;
  vfs_next = 0;
  fds = replicate fds_limit no_descriptor;
  fds_next = 0;
  fds_max = fds_limit;
  memory = m;
}

-- Each round adds a file and the table has room for 64, so 65 rounds are enough.
pub beside : Kmem → Run Vfs (Unit {0}) → Run (Kmem × Vfs) ℤ
beside k (ok a s) = ok (pos 0) (k, s)
beside k (panic why) = panic why
beside k fault = fault
beside k out_of_fuel = out_of_fuel

pub scan : Run Kmem (Unit {0}) → Run (Kmem × Vfs) ℤ
unfolding beside
scan (ok a k) =
    beside k (parse_flash 65 config_nor_cs1_start config_nor_cs1_size (empty_tables k.memory))
scan (panic why) = panic why
scan fault = fault
scan out_of_fuel = out_of_fuel

pub vfs_init : Kmem → Run (Kmem × Vfs) ℤ
unfolding allocate_tables scan
vfs_init k = scan (allocate_tables k)

abbrev set_refcount : Vfs → ℕ → ℕ → List Inode
set_refcount s node n = set s.vfs node (record (inode s node) { refcount = n })

pub create_fd : ℕ → Cmd Vfs ℤ
create_fd node s =
    if leb s.fds_max s.fds_next
    then ok (negsuc 0) s
    else ok (pos s.fds_next) (record s {
      fds = set s.fds s.fds_next (record { file = some node; offset = 0; fd = s.fds_next });
      vfs = set_refcount s node (add32 (inode s node).refcount 1);
      fds_next = s.fds_next + 1;
    })

-- The comparison is of `unsigned`s. Behind the end of `fds` the access is undefined.
pub get_descriptor : ℤ → Cmd Vfs (Option ℕ)
get_descriptor fd s =
    if ltb s.fds_max (to_word fd)
    then ok none s
    else if leb (length s.fds) (to_word fd)
    then fault
    else elim (descriptor s (to_word fd)).file [
      | none ↦ ok none s
      | some _ ↦ ok (some (to_word fd)) s
    ]

-- what a call does on a descriptor that `get_descriptor` has found
pub with_file : {A : Type 0} → Cmd Vfs A → (ℕ → ℕ → Cmd Vfs A) → Option ℕ → Cmd Vfs A
with_file bad good none s = bad s
with_file bad good (some i) s = elim (descriptor s i).file [
  | none ↦ bad s
  | some node ↦ good i node s
]

abbrev failed : Cmd Vfs ℤ
failed = pure (negsuc 0)

close_file : ℕ → ℕ → Cmd Vfs ℤ
close_file i node s = ok (pos 0) (record s {
  vfs = set_refcount s node (sub32 (inode s node).refcount 1);
  fds = set s.fds i no_descriptor;
})

pub delete_fd : ℤ → Cmd Vfs ℤ
unfolding with_file close_file
delete_fd fd = get_descriptor fd >>= with_file failed close_file

-- the loop of `vfs_open` over the entries from `i` on, with `n` left
open_from : Memory → ℕ → ℕ → Cmd Vfs ℤ
open_from name zero i s = ok (negsuc 0) s
open_from name (suc n) i s =
    let rest = open_from name n (i + 1) s in
    if is_zero (strncmp name (inode s i).name config_max_file_name) then create_fd i s else rest

-- The string is given by its bytes.
pub vfs_open : Memory → Cmd Vfs ℤ
unfolding open_from
vfs_open name s = open_from name s.vfs_next 0 s

-- the number of bytes that `vfs_read` copies
abbrev pub read_size : (offset blob_size size : ℕ) → ℕ
read_size offset blob_size size =
    if ltb blob_size (add32 offset size) then sub32 blob_size offset else size

read_file : (buf size : ℕ) → ℕ → ℕ → Cmd Vfs ℤ
read_file buf size i node s =
    let d = descriptor s i in
    let f = inode s node in
    let n = read_size d.offset f.blob_size size in
    ok (pos n) (record s {
      memory = memcpy buf (f.blob_start + d.offset) n s.memory;
      fds = set s.fds i (record d { offset = add32 d.offset n });
    })

-- The result is the `unsigned` that the `int` stands for.
pub vfs_read : ℤ → (buf size : ℕ) → Cmd Vfs ℤ
unfolding with_file read_file
vfs_read fd buf size = get_descriptor fd >>= with_file failed (read_file buf size)

pub vfs_write : ℤ → (buf count : ℕ) → Cmd Vfs ℤ
vfs_write fd buf count s = ok (negsuc 0) s

pub vfs_close : ℤ → Cmd Vfs ℤ
vfs_close fd = delete_fd fd

-- `stat` is none for a null pointer; what is stored in it comes beside the result.
pub vfs_stat : ℤ → Option ℕ → Cmd Vfs (ℤ × Option ℕ)
unfolding with_file
vfs_stat fd stat =
    get_descriptor fd
    >>= with_file (pure (negsuc 0, stat)) (λ i node s. elim stat [
      | none ↦ ok (negsuc 0, none) s
      | some old ↦ ok (pos 0, some (inode s node).blob_size) s
    ])
