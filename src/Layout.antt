-- ===== src/Layout.antt =====
-- The constants of kernel/include/config.h and the macros of kernel/include/page.h.
pub mod Align
use mk_os.Base.{ℕ, ◌+◌, ◌*◌, ◌/◌, ◌%◌, ◌^◌, bit_and}
use mk_os.Base.Word.{add32, add64}

abbrev pub config_ram_start : ℕ
config_ram_start = 0x40000000

abbrev pub config_ram_size : ℕ
config_ram_size = 0x8000000

abbrev pub page_size : ℕ
page_size = 4096

abbrev pub page_shift : ℕ
page_shift = 12

abbrev pub page_mask : ℕ
page_mask = 0xFFF

-- `ALIGN_PGUP` and `ALIGN_PGDOWN` on an `unsigned`, where `~PAGE_MASK` is the rest of the word
pub align_pgup : ℕ → ℕ
align_pgup x = bit_and (add32 x page_mask) 0xFFFFF000

pub align_pgdown : ℕ → ℕ
align_pgdown x = bit_and x 0xFFFFF000

-- `ALIGN_PGUP` on a 64-bit operand
pub align_pgup64 : ℕ → ℕ
align_pgup64 x = bit_and (add64 x page_mask) 0xFFFFFFFFFFFFF000
