-- ===== src/Mm/Entry.antt =====
-- kernel/core/mm.c: the entries of translation tables.
use mk_os.Base.{ℕ, ◌*◌, ◌^◌, ◌==◌, if◌then◌else◌, Option, none, some, bit_and, bit_or}
use mk_os.Base.Run.{ok, panic, invalid_entry, Cmd}

-- `enum granule`
pub data Granule : Type 0 where
  pg_4k pg_16k pg_64k : Granule

-- The bits of an address that a block at a level keeps. Other blocks are refused.
unfoldable pub block_mask : Granule → ℕ → Option ℕ
block_mask pg_4k level =
    if level == 1
    then some (0x3FFFF * 2 ^ 30)
    else if level == 2
    then some (0x7FFFFFF * 2 ^ 21)
    else none
block_mask pg_16k level = if level == 2 then some (0x7FFFFF * 2 ^ 25) else none
block_mask pg_64k level = if level == 2 then some (0x7FFFF * 2 ^ 29) else none

-- the entry before the address is added
abbrev pub block_flags : ℕ → ℕ → ℕ
block_flags uba lba = bit_or (bit_or 1 (bit_and uba 0xFFF * 2 ^ 52)) (bit_and lba 0x3FF * 2 ^ 2)

abbrev pub with_address : {S : Type 0} → ℕ → ℕ → Option ℕ → Cmd S ℕ
with_address r addr (some mask) s = ok (bit_or r (bit_and addr mask)) s
with_address r addr none s = panic invalid_entry

unfoldable pub make_block : {S : Type 0} → ℕ → ℕ → ℕ → Granule → ℕ → Cmd S ℕ
unfolding block_mask
make_block addr uba lba g level = with_address (block_flags uba lba) addr (block_mask g level)

-- `enum table_flag`
abbrev pub table_ns : ℕ
table_ns = 0x10

abbrev pub table_ap3 : ℕ
table_ap3 = 0xC

abbrev pub table_ap2 : ℕ
table_ap2 = 8

abbrev pub table_ap1 : ℕ
table_ap1 = 4

abbrev pub table_xn : ℕ
table_xn = 2

abbrev pub table_pxn : ℕ
table_pxn = 1

abbrev pub table_mask : Granule → ℕ
table_mask pg_4k = 0xFFFFFFFFF * 2 ^ 12
table_mask pg_16k = 0x3FFFFFFFF * 2 ^ 14
table_mask pg_64k = 0xFFFFFFFF * 2 ^ 16

-- `flags` is the bit pattern of the code's `int`
unfoldable pub make_table : ℕ → ℕ → Granule → ℕ
make_table next_table_addr flags g =
    bit_or (bit_or 3 (bit_and flags 0x1F * 2 ^ 59)) (bit_and next_table_addr (table_mask g))
