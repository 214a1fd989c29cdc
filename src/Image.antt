-- ===== src/Image.antt =====
-- The header of a U-Boot image (kernel/include/u-boot-image.h, boot/image.h), read from memory.
pub mod Same
use mk_os.Base.{ℕ, ◌+◌, ◌*◌, ◌^◌}
use mk_os.Memory.{Memory}

-- a little-endian load
abbrev pub load32 : Memory → ℕ → ℕ
load32 m p = m p + m (p + 1) * 2 ^ 8 + m (p + 2) * 2 ^ 16 + m (p + 3) * 2 ^ 24

-- `image_header_t`, with the fields that the code reads; words are as they stand in memory
pub record ImageHeader : Type 0 where
  pub ih_magic : ℕ
  pub ih_size : ℕ
  pub ih_load : ℕ
  pub ih_ep : ℕ
  pub ih_os : ℕ
  pub ih_arch : ℕ
  pub ih_type : ℕ
  pub ih_comp : ℕ
  pub ih_name : ℕ  -- the address of the 32 bytes of the name

abbrev pub sizeof_image_header : ℕ
sizeof_image_header = 64

abbrev pub ih_magic_value : ℕ
ih_magic_value = 0x27051956

abbrev pub ih_arch_arm64 : ℕ
ih_arch_arm64 = 22

abbrev pub ih_comp_none : ℕ
ih_comp_none = 0

abbrev pub ih_os_firmware : ℕ
ih_os_firmware = 17

abbrev pub ih_type_kernel : ℕ
ih_type_kernel = 2

abbrev pub image_header : Memory → ℕ → ImageHeader
image_header m base = record {
  ih_magic = load32 m base;
  ih_size = load32 m (base + 12);
  ih_load = load32 m (base + 16);
  ih_ep = load32 m (base + 20);
  ih_os = m (base + 28);
  ih_arch = m (base + 29);
  ih_type = m (base + 30);
  ih_comp = m (base + 31);
  ih_name = base + 32;
}
