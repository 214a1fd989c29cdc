-- ===== src/Mm.antt =====
-- kernel/core/mm.c: the translation tables of the memory management unit, its registers, and the
-- dump of both.
pub mod Entry
pub mod Fields
pub mod Walk
pub mod Build
pub mod Listing
pub mod Space
pub mod Start
mod Tests
pub mod Prints
pub mod Depth
pub mod Dump
use mk_os.Base.{
  ℕ, zero, suc, ◌+◌, ◌-◌, ◌*◌, ◌^◌, ◌≤◌, ◌<◌, ◌%◌, ◌≢◌, ◌≡◌, ◌⊎◌, Bool, true, false, ◌&&◌, leb, ltb,
  ◌==◌, if◌then◌else◌, List, ◌∷◌, bit_and, bit_or,
}
use mk_os.Base.Run.{Run, ok, panic, fault, out_of_fuel, Cmd, pure, and_then, ◌>>=◌, ◌>>◌, when}
use mk_os.Mm.Entry.{pg_4k, make_block, make_table}
use mk_os.Mm.Dump.{
  Mmu, Event, printed, wrote, barrier, ttbr0_el1, ttbr1_el1, tcr_el1, mair_el1, sctlr_el1, dmb_sy,
  dsb_sy, isb, initializing_mmu, start_mmu, log, dump_mmu,
}

-- the four static tables, of 512 entries each
pub data TableName : Type 0 where
  l0table_ttbr0 l1table_ttbr0 l0table_ttbr1 l1table_ttbr1 : TableName

-- where the linker puts them
pub record Tables : Type 0 where
  pub l0_ttbr0 : ℕ
  pub l1_ttbr0 : ℕ
  pub l0_ttbr1 : ℕ
  pub l1_ttbr1 : ℕ

abbrev pub place : Tables → TableName → ℕ
place t l0table_ttbr0 = t.l0_ttbr0
place t l1table_ttbr0 = t.l1_ttbr0
place t l0table_ttbr1 = t.l0_ttbr1
place t l1table_ttbr1 = t.l1_ttbr1

-- an assignment to a 64-bit entry at an address that 8 divides
abbrev pub update : (ℕ → ℕ) → ℕ → ℕ → ℕ → ℕ
update memory a v b = if b == a then v else memory b

-- `memset` of a table to 0
abbrev pub cleared : (ℕ → ℕ) → ℕ → ℕ → ℕ
cleared memory a b = if leb a b && ltb b (a + 4096) then 0 else memory b

abbrev pub store_entry : ℕ → ℕ → Mmu → Mmu
store_entry a v m = record m { memory = update m.memory a v }

abbrev pub clear_table : ℕ → Mmu → Mmu
clear_table a m = record m { memory = cleared m.memory a }

abbrev pub table_desc_flags : ℕ
table_desc_flags = 0

abbrev pub block_flags_upper : ℕ
block_flags_upper = 0

-- 1 << 8 | 1 << 4 | 3: accessed, AP 01, attributes 3
abbrev pub block_flags_lower : ℕ
block_flags_lower = 0x113

-- 2 << 30 | 24 << 16 | 24: granules of 4 KB, 40 bits of address on both sides
abbrev pub tcr_value : ℕ
tcr_value = 2 * 2 ^ 30 + 24 * 2 ^ 16 + 24

abbrev pub mair_value : ℕ
mair_value = 0xFF440C0400

-- the tables at level 0 point to those at level 1
unfoldable pub link_tables : Tables → Cmd Mmu Unit
unfolding make_table
link_tables t =
    when (store_entry t.l0_ttbr0 (make_table t.l1_ttbr0 table_desc_flags pg_4k))
    >> when (store_entry t.l0_ttbr1 (make_table t.l1_ttbr1 table_desc_flags pg_4k))

-- one round of the loop over the blocks of 1 GB
unfoldable pub map_block : Tables → ℕ → Cmd Mmu Unit
map_block t i =
    make_block (i * 2 ^ 30) block_flags_upper block_flags_lower pg_4k 1
    >>= (λ e. when (store_entry (t.l1_ttbr0 + 8 * i) e))
    >> make_block (i * 2 ^ 30) block_flags_upper block_flags_lower pg_4k 1
    >>= (λ e. when (store_entry (t.l1_ttbr1 + 8 * i) e))

unfoldable pub map_blocks : Tables → ℕ → ℕ → Cmd Mmu Unit
map_blocks t zero i = pure tt
map_blocks t (suc n) i = map_block t i >> map_blocks t n (i + 1)

unfoldable pub write_ttbr0_el1 : ℕ → Mmu → Mmu
write_ttbr0_el1 v m = log (wrote ttbr0_el1 v) (record m { ttbr0 = v })

unfoldable pub write_ttbr1_el1 : ℕ → Mmu → Mmu
write_ttbr1_el1 v m = log (wrote ttbr1_el1 v) (record m { ttbr1 = v })

unfoldable pub write_tcr_el1 : ℕ → Mmu → Mmu
write_tcr_el1 v m = log (wrote tcr_el1 v) (record m { tcr = v })

unfoldable pub write_mair_el1 : ℕ → Mmu → Mmu
write_mair_el1 v m = log (wrote mair_el1 v) (record m { mair = v })

unfoldable pub write_sctlr_el1 : ℕ → Mmu → Mmu
write_sctlr_el1 v m = log (wrote sctlr_el1 v) (record m { sctlr = v })

-- `(sctlr & ~4) | 1`
abbrev pub enabled : ℕ → ℕ
enabled sctlr = bit_or (bit_and sctlr (2 ^ 64 - 1 - 4)) 1

-- the tables, from the first `memset` to the end of the loop
unfoldable pub build_tables : Tables → Cmd Mmu Unit
build_tables t =
    when (clear_table t.l0_ttbr0)
    >> when (clear_table t.l1_ttbr0)
    >> when (clear_table t.l0_ttbr1)
    >> when (clear_table t.l1_ttbr1)
    >> link_tables t
    >> map_blocks t 4 0

unfoldable pub set_registers : Tables → Cmd Mmu Unit
unfolding write_ttbr0_el1 write_ttbr1_el1 write_tcr_el1 write_mair_el1
set_registers t =
    when (write_ttbr0_el1 t.l0_ttbr0)
    >> when (write_ttbr1_el1 t.l0_ttbr1)
    >> when (write_tcr_el1 tcr_value)
    >> when (write_mair_el1 mair_value)

unfoldable pub enable : Cmd Mmu Unit
unfolding write_sctlr_el1
enable =
    when (log (printed start_mmu))
    >> when (log (barrier dmb_sy))
    >> when (log (barrier dsb_sy))
    >> when (log (barrier isb))
    >> when (λ m. write_sctlr_el1 (enabled m.sctlr) m)
    >> when (log (barrier isb))

unfoldable pub mmu_init : Tables → Cmd Mmu Unit
mmu_init t =
    when (log (printed initializing_mmu)) >> build_tables t >> set_registers t >> dump_mmu >> enable
