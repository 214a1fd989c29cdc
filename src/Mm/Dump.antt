-- ===== src/Mm/Dump.antt =====
-- kernel/core/mm.c: the state of the memory management unit, and its dump as data.
use mk_os.Base.{
  ℕ, zero, suc, ◌+◌, ◌-◌, ◌*◌, ◌/◌, ◌%◌, ◌^◌, ltb, ◌==◌, if◌then◌else◌, List, [], ◌∷◌, bit_and,
}
use mk_os.Base.Run.{ok, fault, out_of_fuel, Cmd, pure, ◌>>◌, when}
use mk_os.Base.Word.{add64}

pub data Register : Type 0 where
  ttbr0_el1 ttbr1_el1 tcr_el1 mair_el1 sctlr_el1 : Register

pub data Barrier : Type 0 where
  dmb_sy dsb_sy isb : Barrier

-- The arguments of the code's calls of `printk`, in their order.
pub data Line : Type 0 where
  initializing_mmu mmu_dump lower_table upper_table start_mmu : Line
  -- the table's level and address
  dumping_table : ℕ → ℕ → Line
  -- the entry's place, VA, PA, UXN, PXN, Cont, nG, AF, SH, AP, NS and AttrIndx
  block_entry : ℕ → ℕ → ℕ → ℕ → ℕ → ℕ → ℕ → ℕ → ℕ → ℕ → ℕ → ℕ → Line
  -- the entry's place, NS, AP, UXN and PXN
  table_entry : ℕ → ℕ → ℕ → ℕ → ℕ → Line
  unknown_entry : ℕ → Line
  -- the lowest bit of SCTLR, TTBR0, TTBR1 and TCR
  mmu_state : ℕ → ℕ → ℕ → ℕ → Line
  -- the seventeen fields of TCR
  tcr_fields : List ℕ → Line

pub data Event : Type 0 where
  printed : Line → Event
  wrote : Register → ℕ → Event
  barrier : Barrier → Event

-- `memory` gives the 64 bits stored at an address that 8 divides; `trace` is what has happened, the
-- newest first.
pub record Mmu : Type 0 where
  pub memory : ℕ → ℕ
  pub ttbr0 : ℕ
  pub ttbr1 : ℕ
  pub tcr : ℕ
  pub mair : ℕ
  pub sctlr : ℕ
  pub trace : List Event

abbrev pub log : Event → Mmu → Mmu
log e m = record m { trace = e ∷ m.trace }

abbrev pub print : Line → Cmd Mmu Unit
print l = when (log (printed l))

-- `e >> s & (2^n - 1)`
abbrev pub field : ℕ → ℕ → ℕ → ℕ
field e s n = e / 2 ^ s % 2 ^ n

-- the line about a block
abbrev pub block_line : ℕ → ℕ → ℕ → Line
block_line i va_offset ent =
    block_entry i (add64 va_offset (i * 2 ^ 30)) (bit_and ent (0x3FFFF * 2 ^ 30)) (field ent 54 1)
      (field ent 53 1) (field ent 52 1) (field ent 11 1) (field ent 10 1) (field ent 8 2)
      (field ent 6 2) (field ent 5 1) (field ent 2 3)

abbrev pub table_line : ℕ → ℕ → Line
table_line i ent = table_entry i (ent / 2 ^ 63) (field ent 61 2) (field ent 60 1) (field ent 59 1)

-- The walk into the next table. A shift by a negative number, from level 5 on, is undefined in C.
abbrev pub descend : (ℕ → ℕ → ℕ → Cmd Mmu Unit) → ℕ → ℕ → ℕ → ℕ → Cmd Mmu Unit
descend below i ent va_offset level m =
    if ltb 4 level
    then fault
    else below (bit_and ent (0xFFFFFFFFF * 2 ^ 12)) (add64 va_offset (i * 2 ^ (39 - level * 9)))
        (level + 1) m

-- one round of the loop over a table; `below` is the recursive call
unfoldable pub dump_entry : (ℕ → ℕ → ℕ → Cmd Mmu Unit) → ℕ → ℕ → ℕ → ℕ → Cmd Mmu Unit
dump_entry below i table va_offset level m =
    let ent = m.memory (table + 8 * i) in
    if ent == 0
    then ok tt m
    else if bit_and ent 3 == 1
    then print (block_line i va_offset ent) m
    else if bit_and ent 3 == 3
    then (print (table_line i ent) >> descend below i ent va_offset level) m
    else print (unknown_entry ent) m

unfoldable pub dump_entries : (ℕ → ℕ → ℕ → Cmd Mmu Unit) → ℕ → ℕ → ℕ → ℕ → ℕ → Cmd Mmu Unit
dump_entries below zero i table va_offset level = pure tt
dump_entries below (suc n) i table va_offset level =
    dump_entry below i table va_offset level >> dump_entries below n (i + 1) table va_offset level

-- the first number bounds the depth of the recursion
unfoldable pub dump_table : ℕ → ℕ → ℕ → ℕ → ℕ → Cmd Mmu Unit
dump_table zero table no_entries va_offset level = λ m. out_of_fuel
dump_table (suc depth) table no_entries va_offset level =
    print (dumping_table level table)
    >> dump_entries (λ t va l. dump_table depth t 512 va l) no_entries 0 table va_offset level

abbrev pub tcr_line : ℕ → Line
tcr_line reg = tcr_fields (
    field reg 38 1
    ∷ field reg 37 1
    ∷ field reg 36 1
    ∷ field reg 32 3
    ∷ field reg 30 2
    ∷ field reg 28 2
    ∷ field reg 26 2
    ∷ field reg 24 2
    ∷ field reg 23 1
    ∷ field reg 22 1
    ∷ field reg 16 6
    ∷ field reg 14 2
    ∷ field reg 12 2
    ∷ field reg 10 2
    ∷ field reg 8 2
    ∷ field reg 7 1
    ∷ field reg 0 6
    ∷ [])

-- Tables at level 5 are the last that the walk can reach.
abbrev pub max_depth : ℕ
max_depth = 6

unfoldable pub dump_mmu : Cmd Mmu Unit
dump_mmu =
    print mmu_dump
    >> (λ m. print (mmu_state (m.sctlr % 2) m.ttbr0 m.ttbr1 m.tcr) m)
    >> (λ m. print (tcr_line m.tcr) m)
    >> print lower_table
    >> (λ m. dump_table max_depth m.ttbr0 512 0 0 m)
    >> print upper_table
    >> (λ m. dump_table max_depth m.ttbr1 512 0xFFFF000000000000 0 m)
