-- ===== src/Boot.antt =====
-- boot/main.c: the boot loader's checks of the kernel's image, and its copy into memory.
pub mod Checks
pub mod Report
mod Tests
use mk_os.Base.{
  List, [], ◌∷◌, ℕ, ◌+◌, ◌*◌, ◌/◌, ◌%◌, ◌^◌, Bool, true, false, not, ◌||◌, Option, none, some,
  bit_and, bit_or, ltb, leb, ◌==◌, if◌then◌else◌,
}
use mk_os.Base.Word.{add32}
use mk_os.Layout.{config_ram_start, config_ram_size}
use mk_os.Memory.{Memory, memcpy}
use mk_os.Image.{
  ImageHeader, image_header, sizeof_image_header, ih_magic_value, ih_arch_arm64, ih_comp_none,
  ih_os_firmware, ih_type_kernel,
}
use mk_os.Vfs.{config_nor_cs1_start}

-- `image_header_t` of boot/image.h, which has the layout of the kernel's
abbrev pub LoaderHeader : Type 0
LoaderHeader = ImageHeader

-- The loader's own `ntohl`, with masks and shifts
unfoldable pub mask_ntohl : ℕ → ℕ
mask_ntohl d =
    bit_or (bit_or (bit_and d 0x000000FF * 2 ^ 24) (bit_and d 0x0000FF00 * 2 ^ 8))
      (bit_or (bit_and d 0x00FF0000 / 2 ^ 8) (bit_and d 0xFF000000 / 2 ^ 24))

-- the end of the part of memory that an image may take
abbrev pub image_limit : ℕ
image_limit = config_ram_start + config_ram_size / 2

-- The lines of `load_kernel`. A number stands for what `puthex` sends for it; `loading_image` has
-- the address of the name.
pub data Message : Type 0 where
  loading_from : ℕ → Message
  invalid_magic : (expected got : ℕ) → Message
  invalid_architecture invalid_os compressed invalid_type outside_ram too_large : Message
  loading_image : ℕ → Message
  to_address : (load size : ℕ) → Message
  running_at : ℕ → Message

-- the message of the first test that an image fails
unfoldable pub refusal : LoaderHeader → Option Message
refusal hdr =
    let load = mask_ntohl hdr.ih_load in
    let size = mask_ntohl hdr.ih_size in
    if not (mask_ntohl hdr.ih_magic == ih_magic_value)
    then some (invalid_magic ih_magic_value hdr.ih_magic)
    else if not (hdr.ih_arch == ih_arch_arm64)
    then some invalid_architecture
    else if not (hdr.ih_os == ih_os_firmware)
    then some invalid_os
    else if not (hdr.ih_comp == ih_comp_none)
    then some compressed
    else if not (hdr.ih_type == ih_type_kernel)
    then some invalid_type
    else if ltb load config_ram_start || leb image_limit load
    then some outside_ram
    else if ltb image_limit (add32 load size)
    then some too_large
    else none

-- the loader's own `memcpy`, byte by byte as the kernel's
abbrev pub loader_memcpy : (dest src cnt : ℕ) → Memory → Memory
loader_memcpy = memcpy

-- the part of `load_kernel` behind the tests, by the message of the one that has failed
abbrev pub load_checked : ℕ → Memory → Option Message → Option (ℕ × Memory)
load_checked at m (some why) = none
load_checked at m none =
    let hdr : LoaderHeader = image_header m at in
    let load = mask_ntohl hdr.ih_load in
    let size = mask_ntohl hdr.ih_size in
    some (mask_ntohl hdr.ih_ep, loader_memcpy load (at + sizeof_image_header) size m)

-- `none` where the loader gives up; else the address that it jumps to, and memory as it is then
pub load_kernel : ℕ → Memory → Option (ℕ × Memory)
unfolding refusal
load_kernel at m = load_checked at m (refusal (image_header m at))

-- `main`, up to the endless loop behind a kernel that is refused
unfoldable pub main : Memory → Option (ℕ × Memory)
unfolding load_kernel
main = load_kernel config_nor_cs1_start
