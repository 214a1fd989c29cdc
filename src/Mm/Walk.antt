-- ===== src/Mm/Walk.antt =====
-- What the processor does with an address: the translation of the ARMv8-A architecture for stage 1
-- with granules of 4 KB, as the tables and registers of Mm lead it.
use mk_os.Base.{
  ℕ, zero, suc, ◌+◌, ◌-◌, ◌*◌, ◌/◌, ◌%◌, ◌^◌, ltb, leb, ◌==◌, ◌&&◌, if◌then◌else◌, Option, none,
  some,
}
use mk_os.Mm.Dump.{Mmu, field}

-- an address that a walk has found, with the attributes of the entry that it ended at
pub record Mapping : Type 0 where
  pub pa : ℕ
  pub attr_indx : ℕ
  pub ns : ℕ
  pub ap : ℕ
  pub sh : ℕ
  pub ng : ℕ
  pub pxn : ℕ
  pub uxn : ℕ

abbrev pub mapping : ℕ → ℕ → Mapping
mapping ent pa = record {
  pa = pa;
  attr_indx = field ent 2 3;
  ns = field ent 5 1;
  ap = field ent 6 2;
  sh = field ent 8 2;
  ng = field ent 11 1;
  pxn = field ent 53 1;
  uxn = field ent 54 1;
}

-- The end of a walk at an entry for 2^shift bytes. An address past the output size is refused, and
-- so is an entry whose access flag is clear.
unfoldable pub leaf : ℕ → ℕ → ℕ → ℕ → Option Mapping
leaf out shift ent offset =
    let pa = field ent shift (48 - shift) * 2 ^ shift + offset % 2 ^ shift in
    if field ent 10 1 == 1 && ltb pa (2 ^ out) then some (mapping ent pa) else none

-- A walk with `k` levels below this one. Blocks stand where one or two levels are below.
unfoldable pub walk : ℕ → (ℕ → ℕ) → ℕ → ℕ → ℕ → Option Mapping
unfolding leaf
walk zero memory out table offset =
    let ent = memory (table + 8 * (offset / 2 ^ 12 % 512)) in
    if ent % 4 == 3 then leaf out 12 ent offset else none
walk (suc k) memory out table offset =
    let shift = 12 + 9 * suc k in
    let ent = memory (table + 8 * (offset / 2 ^ shift % 512)) in
    let next = field ent 12 36 * 2 ^ 12 in
    let below = walk k memory out next offset in
    if ent % 4 == 3
    then if ltb next (2 ^ out) then below else none
    else if ent % 4 == 1 && ltb k 2
    then leaf out shift ent offset
    else none

-- the levels below the first one, for addresses of 64 - `size` bits
abbrev pub levels_below : ℕ → ℕ
levels_below size = if ltb 39 (64 - size) then 3 else if ltb 30 (64 - size) then 2 else 1

-- the bits of a physical address that IPS allows
abbrev pub out_bits : ℕ → ℕ
out_bits ips =
    if ips == 0
    then 32
    else if ips == 1
    then 36
    else if ips == 2
    then 40
    else if ips == 3
    then 42
    else if ips == 4
    then 44
    else 48

-- The translation of a virtual address while the MMU is on. TG0 has to be 0 and TG1 2 for granules
-- of 4 KB; EPD0 and EPD1 switch walks off.
unfoldable pub translate_by : ℕ → ℕ → ℕ → ℕ → (ℕ → ℕ) → ℕ → Option Mapping
translate_by sctlr tcr ttbr0 ttbr1 memory va =
    let size0 = field tcr 0 6 in
    let size1 = field tcr 16 6 in
    let upper = 2 ^ 64 - 2 ^ (64 - size1) in
    let out = out_bits (field tcr 32 3) in
    if sctlr % 2 == 1
    then (if ltb va (2 ^ (64 - size0))
        then (if field tcr 14 2 == 0 && field tcr 7 1 == 0
            then walk (levels_below size0) memory out ttbr0 va
            else none)
        else if leb upper va && field tcr 30 2 == 2 && field tcr 23 1 == 0
        then walk (levels_below size1) memory out ttbr1 (va - upper)
        else none)
    else none

unfoldable pub translate : Mmu → ℕ → Option Mapping
unfolding walk translate_by
translate m = translate_by m.sctlr m.tcr m.ttbr0 m.ttbr1 m.memory
