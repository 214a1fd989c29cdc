-- ===== src/Vfs/Tables.antt =====
-- kernel/core/vfs.c: the table of files and the table of open descriptors.
use mk_os.Base.{ℕ, Option, none, List, get_or}
use mk_os.Memory.{Memory}

abbrev pub config_max_files : ℕ
config_max_files = 64

abbrev pub config_max_file_name : ℕ
config_max_file_name = 32

abbrev pub config_nor_cs1_start : ℕ
config_nor_cs1_start = 0x04000000

abbrev pub config_nor_cs1_size : ℕ
config_nor_cs1_size = 0x04000000

-- `struct inode`; `name` gives the bytes of the array
pub record Inode : Type 0 where
  pub name : Memory
  pub blob_start : ℕ
  pub blob_size : ℕ
  pub refcount : ℕ

-- `struct file_descriptor`; `file` is a place in `vfs`, or the null pointer
pub record FileDescriptor : Type 0 where
  pub file : Option ℕ
  pub offset : ℕ
  pub fd : ℕ

-- the static variables of vfs.c, with the memory that the files and buffers lie in
pub record Vfs : Type 0 where
  pub vfs : List Inode
  pub vfs_next : ℕ
  pub fds : List FileDescriptor
  pub fds_next : ℕ
  pub fds_max : ℕ
  pub memory : Memory

abbrev pub no_inode : Inode
no_inode = record { name = λ i. 0; blob_start = 0; blob_size = 0; refcount = 0 }

abbrev pub no_descriptor : FileDescriptor
no_descriptor = record { file = none; offset = 0; fd = 0 }

abbrev pub inode : Vfs → ℕ → Inode
inode s i = get_or s.vfs i no_inode

abbrev pub descriptor : Vfs → ℕ → FileDescriptor
descriptor s i = get_or s.fds i no_descriptor
