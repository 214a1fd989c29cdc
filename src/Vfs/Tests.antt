-- ===== src/Vfs/Tests.antt =====
-- A flash device with one file, and calls on its table.
use mk_os.Base.{
  ℕ, zero, suc, ◌+◌, ◌≤◌, ◌<◌, ◌≡◌, refl, ◌⊎◌, arith, inl, none, some, replicate, set,
  get_or-replicate, ap, sym, ◌∙◌, ◌-◌, true, [], ◌∷◌,
}
use mk_os.Base.Int.{pos, negsuc, to_word}
use mk_os.Base.Run.{ok, fault, no_continuous_memory, Ends, Settles}
use mk_os.Fixtures.{kmem, kmem-IsKmem}
use mk_os.Vfs.Start.{Started, vfs_init-Settles}
use mk_os.Bitops.{ntohl}
use mk_os.Memory.{Memory, store, from, memcpy}
use mk_os.Vfs.{
  Inode, FileDescriptor, Vfs, no_inode, no_descriptor, inode, descriptor, parse_flash, vfs_init,
  create_fd, get_descriptor, with_file, vfs_open, vfs_read, vfs_write, vfs_close, vfs_stat,
  config_max_files, config_nor_cs1_start, config_nor_cs1_size,
}
use mk_os.Image.{image_header, ih_magic_value, sizeof_image_header}
use mk_os.Vfs.{accepts}
use mk_os.Vfs.Images.{Images, Lists, parse_flash-Lists}
use mk_os.Vfs.Scan.{Listed, Scanned, parse_flash-Ends}
use mk_os.Vfs.Counts.{IsValid, refs}
use mk_os.Vfs.Descriptors.{
  create_fd-Ends, get_descriptor_lem, vfs_close-open, vfs_close-closed, get_descriptor_bounds,
}
use mk_os.Vfs.Read.{vfs_read-bytes, vfs_read-overflow}
use mk_os.Vfs.Open.{HasName, vfs_open-found, vfs_open-missing}

abbrev start : ℕ
start = config_nor_cs1_start

-- the file "a" of four bytes, behind its header
abbrev flash : Memory
flash =
    store
      (store
        (store
          (store
            (store
              (store (store (store (store (λ a. 0) start 0x27) (start + 1) 0x05) (start + 2) 0x19)
                (start + 3) 0x56)
              (start + 15) 4)
            (start + 29) 22)
          (start + 32) 97)
        (start + 64) 11)
      (start + 66) 13

-- nothing listed yet
abbrev empty : Vfs
empty = record {
  vfs = replicate config_max_files no_inode;
  vfs_next = 0;
  fds = replicate 100 no_descriptor;
  fds_next = 0;
  fds_max = 100;
  memory = flash;
}

abbrev file : Inode
file = record { name = from flash (start + 32); blob_start = start; blob_size = 68; refcount = 0 }

-- the file is listed
abbrev listed : Vfs
listed = record empty { vfs = set empty.vfs 0 file; vfs_next = 1 }

-- it is open, at an offset
abbrev pub opened : ℕ → Vfs
opened offset = record listed {
  vfs = set empty.vfs 0 (record file { refcount = 1 });
  fds = set empty.fds 0 (record { file = some 0; offset = offset; fd = 0 });
  fds_next = 1;
}

scan_run : parse_flash 65 start config_nor_cs1_size empty ≡ ok tt listed
unfolding parse_flash ntohl
scan_run = refl

none_or_some : {node : ℕ} → none ≡ some node → ⊥
none_or_some e = cc

pub opened-IsValid : (offset : ℕ) → IsValid (opened offset)
opened-IsValid offset = record {
  files = refl;
  slots = refl;
  few = omega arith;
  next = omega arith;
  fresh = fresh;
  target = target;
  counted = counted;
}
  where
    closed : (i : ℕ) → (descriptor (opened offset) (suc i)).file ≡ none
    closed i = ap (λ (d : FileDescriptor). d.file) (get_or-replicate 99 no_descriptor i)

    fresh : (i : ℕ) → 1 ≤ i → (descriptor (opened offset) i).file ≡ none
    fresh zero h = absurd (omega arith)
    fresh (suc i) h = closed i

    target :
        (i node : ℕ) → (descriptor (opened offset) i).file ≡ some node → node < config_max_files
    target zero zero e = omega arith
    target zero (suc node) e = absurd cc
    target (suc i) node e = absurd (none_or_some (sym (closed i) ∙ e))

    counted :
        (node : ℕ)
        → node < config_max_files
        → (inode (opened offset) node).refcount ≡ refs node (opened offset).fds
    counted zero h = refl
    counted (suc node) h =
        ap (λ (f : Inode). f.refcount) (get_or-replicate 63 no_inode node) ∙ ground arith

nothing_listed : Listed start start empty
nothing_listed = record {
  room = refl;
  few = omega arith;
  file = λ i h. absurd (omega arith);
  ordered = λ i j h h'. absurd (omega arith);
}

parse_flash-Ends_example :
    Ends
      (λ _ t. Scanned start (start + config_nor_cs1_size) empty t)
      (parse_flash 65 start config_nor_cs1_size empty)
parse_flash-Ends_example =
    parse_flash-Ends 65 config_nor_cs1_size (omega arith) (omega arith) (omega arith) nothing_listed

create_fd-Ends_run :
    Ends
      (λ r t.
        IsValid t
        × (((r ≡ pos 1)
              × (1 < 100)
              × (descriptor t 1 ≡ record { file = some 0; offset = 0; fd = 1 })
              × (t.fds_next ≡ 2))
            ⊎ ((r ≡ negsuc 0) × (100 ≤ 1) × (t ≡ opened 2))))
      (create_fd 0 (opened 2))
create_fd-Ends_run = create_fd-Ends (opened-IsValid 2) 0 (omega arith)

get_descriptor_lem_run : get_descriptor (pos 0) (opened 2) ≡ ok (some 0) (opened 2)
get_descriptor_lem_run = get_descriptor_lem (opened-IsValid 2) 0 (omega arith)

vfs_close-open_run :
    Ends
      (λ r t.
        (r ≡ pos 0) × IsValid t × (descriptor t 0 ≡ no_descriptor) × (suc (inode t 0).refcount ≡ 1))
      (vfs_close (pos 0) (opened 2))
vfs_close-open_run = vfs_close-open (opened-IsValid 2) 0 0 refl

vfs_close-closed_run : vfs_close (pos 7) (opened 2) ≡ ok (negsuc 0) (opened 2)
vfs_close-closed_run = vfs_close-closed (opened-IsValid 2) 7 (omega arith) refl

get_descriptor_bounds_example :
    (100 < 100 → get_descriptor (pos 100) (opened 2) ≡ ok none (opened 2))
    × (to_word (pos 100) ≡ 100 → get_descriptor (pos 100) (opened 2) ≡ fault)
get_descriptor_bounds_example = get_descriptor_bounds (opened-IsValid 2) (pos 100)

vfs_read-bytes_example :
    Ends
      (λ r t.
        (r ≡ pos 4)
        × IsValid t
        × ((descriptor t 0).offset ≡ 68)
        × ((i : ℕ) → i < 4 → t.memory (0x1000 + i) ≡ flash (start + 64 + i)))
      (vfs_read (pos 0) 0x1000 32 (opened 64))
vfs_read-bytes_example =
    vfs_read-bytes (opened-IsValid 64) 0 0 refl 0x1000 32 (omega arith) (omega arith) (omega arith)
      (inl (omega arith))

vfs_read-overflow_example :
    Ends
      (λ r t.
        (r ≡ pos 0xFFFFFFFF)
        × (68 < 2 + 0xFFFFFFFF)
        × (t.memory ≡ memcpy 0x1000 (start + 2) 0xFFFFFFFF flash))
      (vfs_read (pos 0) 0x1000 0xFFFFFFFF (opened 2))
vfs_read-overflow_example =
    vfs_read-overflow (opened-IsValid 2) 0 0 refl 0x1000 0xFFFFFFFF (omega arith) (omega arith)
      (omega arith) (omega arith) (omega arith)

-- the strings "a" and "b"
abbrev a_name : Memory
a_name = store (λ i. 0) 0 97

abbrev b_name : Memory
b_name = store (λ i. 0) 0 98

vfs_open-found_run : vfs_open a_name listed ≡ create_fd 0 listed
vfs_open-found_run =
    vfs_open-found a_name listed 0 (omega arith) (refl, λ h. (refl, λ h'. absurd (h' refl)))
      λ j h. absurd (omega arith)

not_b : (j : ℕ) → j < 1 → ¬ HasName b_name listed j
not_b zero h (e, more) = omega arith
not_b (suc j) h n = absurd (omega arith)

vfs_open-missing_run : vfs_open b_name listed ≡ ok (negsuc 0) listed
vfs_open-missing_run = vfs_open-missing b_name listed not_b

write_run : vfs_write (pos 0) 0x1000 4 (opened 2) ≡ ok (negsuc 0) (opened 2)
unfolding vfs_write
write_run = refl

stat_run : vfs_stat (pos 0) (some 0) (opened 2) ≡ ok (pos 0, some 68) (opened 2)
unfolding vfs_stat get_descriptor with_file
stat_run = refl

vfs_init-Settles_run :
    Settles (λ r (l, s). (r ≡ pos 0) × Started 8 l s) no_continuous_memory (vfs_init (kmem flash))
vfs_init-Settles_run = vfs_init-Settles {lim = 8} (omega arith) (kmem flash) (kmem-IsKmem flash)

magic_read : ntohl (image_header flash start).ih_magic ≡ ih_magic_value
unfolding ntohl
magic_read = refl

flash-accepted :
    accepts (image_header flash start) (config_nor_cs1_size - sizeof_image_header) ≡ true
unfolding ntohl
flash-accepted = refl

flash-Images : Images flash start config_nor_cs1_size (start ∷ [])
flash-Images =
    (refl, record { room = omega arith; magic = magic_read; accepted = flash-accepted }, tt)

parse_flash-Lists_example :
    Ends (λ _ t. Lists flash 0 (start ∷ []) t) (parse_flash 65 start config_nor_cs1_size empty)
parse_flash-Lists_example =
    parse_flash-Lists {s = empty} 65 config_nor_cs1_size (omega arith) (omega arith) (omega arith)
      nothing_listed flash-Images (omega arith)
