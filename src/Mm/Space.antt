-- ===== src/Mm/Space.antt =====
-- kernel/core/mm.c: the address space that `mmu_init` sets up.
use mk_os.Base.{
  ℕ, ◌+◌, ◌-◌, ◌*◌, ◌/◌, ◌%◌, ◌^◌, ◌<◌, ◌≡◌, refl, ◌∙◌, ltb, leb, ◌==◌, if◌then◌else◌, ltb_of_lt,
  Bool-cases, inl, inr, Option, none, some, arith,
}
use mk_os.Mm.Dump.{field}
use mk_os.Mm.Walk.{Mapping, mapping, leaf, walk}

-- one block of memory, open to all: attributes 3, AP 01, no XN, not shareable, global
abbrev pub open_to_all : ℕ → Mapping
open_to_all pa = record { pa = pa; attr_indx = 3; ns = 0; ap = 1; sh = 0; ng = 0; pxn = 0; uxn = 0 }

-- where the upper half of the address space begins
abbrev pub upper_base : ℕ
upper_base = 0xFFFFFF0000000000

-- the first 4 GB as they are
abbrev pub identity : ℕ → Option Mapping
identity offset = if ltb offset (2 ^ 32) then some (open_to_all offset) else none

-- What the kernel's address space is meant to be: the first 4 GB, from address 0 on and again in
-- the upper half.
abbrev pub address_map : ℕ → Option Mapping
address_map va =
    if ltb va (2 ^ 40)
    then identity va
    else if leb upper_base va
    then identity (va - upper_base)
    else none

module _ (j off : ℕ) (hj : j < 4) (e : off / 2 ^ 30 ≡ j) where
  block_address : field (j * 2 ^ 30 + 0x44D) 30 18 * 2 ^ 30 + off % 2 ^ 30 ≡ off
  block_address = omega arith

  block_mapping : mapping (j * 2 ^ 30 + 0x44D) off ≡ open_to_all off
  block_mapping =
      let e2 : field (j * 2 ^ 30 + 0x44D) 2 3 ≡ 3 = omega arith in
      let e5 : field (j * 2 ^ 30 + 0x44D) 5 1 ≡ 0 = omega arith in
      let e6 : field (j * 2 ^ 30 + 0x44D) 6 2 ≡ 1 = omega arith in
      let e8 : field (j * 2 ^ 30 + 0x44D) 8 2 ≡ 0 = omega arith in
      let e11 : field (j * 2 ^ 30 + 0x44D) 11 1 ≡ 0 = omega arith in
      let e53 : field (j * 2 ^ 30 + 0x44D) 53 1 ≡ 0 = omega arith in
      let e54 : field (j * 2 ^ 30 + 0x44D) 54 1 ≡ 0 = omega arith in
      rw (e2, e5, e6, e8, e11, e53, e54) refl

  leaf-block : leaf 32 30 (j * 2 ^ 30 + 0x44D) off ≡ some (open_to_all off)
  unfolding leaf
  leaf-block =
      let accessed : field (j * 2 ^ 30 + 0x44D) 10 1 ≡ 1 = omega arith in
      let small : off < 2 ^ 32 = omega arith in
      rw (block_address, accessed, ltb_of_lt small, block_mapping) refl

-- The walk from a table at level 0 that leads to the four blocks.
module _ (memory : ℕ → ℕ) (table0 table1 : ℕ) (aligned : table1 % 4096 ≡ 0) (low : table1 < 2 ^ 32)
    (level0 : (j : ℕ) → j < 512 → memory (table0 + 8 * j) ≡ (if j == 0 then table1 + 3 else 0))
    (level1 : (j : ℕ)
      → j < 512
      → memory (table1 + 8 * j) ≡ (if ltb j 4 then j * 2 ^ 30 + 0x44D else 0)) where
  walk-level1 : (off : ℕ) → off < 2 ^ 39 → walk 2 memory 32 table1 off ≡ identity off
  unfolding walk
  walk-level1 off h =
      let index : off / 2 ^ 30 % 512 ≡ off / 2 ^ 30 = omega arith in
      elim (Bool-cases (ltb (off / 2 ^ 30) 4)) [
        | inl near ↦
            let j4 : off / 2 ^ 30 < 4 = ground arith in
            let kind : (off / 2 ^ 30 * 2 ^ 30 + 0x44D) % 4 ≡ 1 = omega arith in
            rw (index, level1 (off / 2 ^ 30) (omega arith), near, kind)
              (leaf-block (off / 2 ^ 30) off j4 refl ∙ ground arith)
        | inr far ↦ rw (index, level1 (off / 2 ^ 30) (omega arith), far) (ground arith)
      ]

  pub walk-level0 : (off : ℕ) → off < 2 ^ 40 → walk 3 memory 32 table0 off ≡ identity off
  unfolding walk
  walk-level0 off h = elim (Bool-cases (ltb off (2 ^ 39))) [
    | inl near ↦
        let below : off < 2 ^ 39 = ground arith in
        let index : off / 2 ^ 39 % 512 ≡ 0 = omega arith in
        let kind : (table1 + 3) % 4 ≡ 3 = omega arith in
        let next : field (table1 + 3) 12 36 * 2 ^ 12 ≡ table1 = omega arith in
        rw (index, level0 0 (omega arith), kind, next, ltb_of_lt low) (walk-level1 off below)
    | inr far ↦
        let index : off / 2 ^ 39 % 512 ≡ 1 = ground arith in
        rw (index, level0 1 (omega arith)) (ground arith)
  ]
