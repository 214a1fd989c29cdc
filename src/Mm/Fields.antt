-- ===== src/Mm/Fields.antt =====
-- kernel/core/mm.c: what the fields of an entry hold that `make_block` or `make_table` composed.
use mk_os.Base.{
  ℕ, ◌+◌, ◌*◌, ◌/◌, ◌%◌, ◌^◌, ◌≤◌, ◌<◌, ◌≡◌, ◌-◌, ◌==◌, if◌then◌else◌, Bool-cases, inl, inr, refl,
  ap, ◌∙◌, Option, none, some, bit_and, bit_or, arith,
}
use mk_os.Base.Bits.{bit_and-mask, bit_and-high_mask}
use mk_os.Base.Ors.{bit_or-high, bit_or-apart}
use mk_os.Base.Run.{Run, panic, invalid_entry, Ends, ends}
use mk_os.Mm.Dump.{field}
use mk_os.Mm.Entry.{Granule, pg_4k, pg_16k, pg_64k, block_flags, make_block, make_table}

pub block_flags_lem :
    (uba lba : ℕ) → block_flags uba lba ≡ uba % 2 ^ 12 * 2 ^ 52 + (lba % 2 ^ 10 * 2 ^ 2 + 1)
block_flags_lem uba lba =
    let eu : bit_and uba 0xFFF ≡ uba % 2 ^ 12 = bit_and-mask 12 uba in
    let el : bit_and lba 0x3FF ≡ lba % 2 ^ 10 = bit_and-mask 10 lba in
    rw
      (
        eu,
        el,
        bit_or-apart 52 1 (uba % 2 ^ 12) (omega arith),
        bit_or-high 52 (uba % 2 ^ 12) 1 (lba % 2 ^ 10 * 2 ^ 2) (omega arith) (omega arith),
        bit_or-apart 2 1 (lba % 2 ^ 10) (omega arith),
      )
      refl

-- A number between bits `s` and `k` stands above a lower part and below a higher one.
pub bit_or-between :
    (k h x s a : ℕ)
    → x < 2 ^ s
    → 2 ^ s ≤ 2 ^ k
    → a * 2 ^ s < 2 ^ k
    → bit_or (h * 2 ^ k + x) (a * 2 ^ s) ≡ h * 2 ^ k + (a * 2 ^ s + x)
bit_or-between k h x s a hx hs ha =
    bit_or-high k h x (a * 2 ^ s) (omega arith) ha
    ∙ ap (λ (t : ℕ). h * 2 ^ k + t) (bit_or-apart s x a hx)

-- the lowest bit of the address that a block keeps
abbrev pub block_shift : Granule → ℕ → Option ℕ
block_shift pg_4k level = if level == 1 then some 30 else if level == 2 then some 21 else none
block_shift pg_16k level = if level == 2 then some 25 else none
block_shift pg_64k level = if level == 2 then some 29 else none

-- A block's parts: its address from bit `shift` to bit 47, the attributes on both sides, the kind 1,
-- and zeros elsewhere.
pub record IsBlock (addr uba lba shift ent : ℕ) : Type 0 where
  pub kind : ent % 4 ≡ 1
  pub lower : field ent 2 10 ≡ lba % 2 ^ 10
  pub gap : field ent 12 (shift - 12) ≡ 0
  pub address : field ent shift (48 - shift) ≡ field addr shift (48 - shift)
  pub above : field ent 48 4 ≡ 0
  pub upper : field ent 52 12 ≡ uba % 2 ^ 12
  pub fits : ent < 2 ^ 64

abbrev pub MakesBlock : {S : Type 0} → ℕ → ℕ → ℕ → Option ℕ → Run S ℕ → Type 0
MakesBlock addr uba lba (some shift) run = Ends (λ ent _. IsBlock addr uba lba shift ent) run
MakesBlock addr uba lba none run = run ≡ panic invalid_entry

module _ (addr uba lba : ℕ) where
  block_parts :
      (n s mask : ℕ)
      → bit_and addr mask ≡ addr / 2 ^ s % 2 ^ n * 2 ^ s
      → 2 ^ 12 ≤ 2 ^ s
      → 2 ^ s ≤ 2 ^ 52
      → addr / 2 ^ s % 2 ^ n * 2 ^ s < 2 ^ 52
      → bit_or (block_flags uba lba) (bit_and addr mask)
        ≡ uba % 2 ^ 12 * 2 ^ 52 + (addr / 2 ^ s % 2 ^ n * 2 ^ s + (lba % 2 ^ 10 * 2 ^ 2 + 1))
  block_parts n s mask em h1 h2 h3 =
      rw (em, block_flags_lem uba lba)
        (bit_or-between 52 (uba % 2 ^ 12) (lba % 2 ^ 10 * 2 ^ 2 + 1) s (addr / 2 ^ s % 2 ^ n)
          (omega arith) h2 h3)

  pub block_1g :
      bit_or (block_flags uba lba) (bit_and addr (0x3FFFF * 2 ^ 30))
      ≡ uba % 2 ^ 12 * 2 ^ 52 + (addr / 2 ^ 30 % 2 ^ 18 * 2 ^ 30 + (lba % 2 ^ 10 * 2 ^ 2 + 1))
  block_1g =
      block_parts 18 30 (0x3FFFF * 2 ^ 30) (bit_and-high_mask 30 18 addr) (omega arith)
        (omega arith) (omega arith)

  -- On every granule and level `make_block` gives an entry of the address and the attributes
  -- asked for, where the architecture knows such blocks, or else panics.
  pub make_block-MakesBlock :
      {S : Type 0} (g : Granule) (level : ℕ) (s : S)
      → MakesBlock addr uba lba (block_shift g level) (make_block addr uba lba g level s)
  unfolding make_block
  make_block-MakesBlock pg_4k level s = elim (Bool-cases (level == 1)) [
    | inl e1 ↦ rw e1 (ends (rw block_1g (omega arith)))
    | inr n1 ↦ elim (Bool-cases (level == 2)) [
      | inl e2 ↦
          rw (n1, e2)
            (ends (
              rw
                (block_parts 27 21 (0x7FFFFFF * 2 ^ 21) (bit_and-high_mask 21 27 addr) (omega arith)
                  (omega arith) (omega arith))
                (omega arith)))
      | inr n2 ↦ rw (n1, n2) refl
    ]
  ]
  make_block-MakesBlock pg_16k level s = elim (Bool-cases (level == 2)) [
    | inl e2 ↦ rw e2 (
        ends (
          rw
            (block_parts 23 25 (0x7FFFFF * 2 ^ 25) (bit_and-high_mask 25 23 addr) (omega arith)
              (omega arith) (omega arith))
            (omega arith)))
    | inr n2 ↦ rw n2 refl
  ]
  make_block-MakesBlock pg_64k level s = elim (Bool-cases (level == 2)) [
    | inl e2 ↦ rw e2 (
        ends (
          rw
            (block_parts 19 29 (0x7FFFF * 2 ^ 29) (bit_and-high_mask 29 19 addr) (omega arith)
              (omega arith) (omega arith))
            (omega arith)))
    | inr n2 ↦ rw n2 refl
  ]

-- the lowest bit of the address of a next table
abbrev pub table_shift : Granule → ℕ
table_shift pg_4k = 12
table_shift pg_16k = 14
table_shift pg_64k = 16

-- An entry for a next table: its address from bit `shift` to bit 47, the flags on top, the kind 3,
-- and zeros elsewhere.
pub record IsTable (addr flags shift ent : ℕ) : Type 0 where
  pub kind : ent % 4 ≡ 3
  pub gap : field ent 2 (shift - 2) ≡ 0
  pub address : field ent shift (48 - shift) ≡ field addr shift (48 - shift)
  pub above : field ent 48 11 ≡ 0
  pub flagged : field ent 59 5 ≡ flags % 2 ^ 5
  pub fits : ent < 2 ^ 64

module _ (addr flags : ℕ) where
  table_parts :
      (n s mask : ℕ)
      → bit_and addr mask ≡ addr / 2 ^ s % 2 ^ n * 2 ^ s
      → 2 ^ 12 ≤ 2 ^ s
      → 2 ^ s ≤ 2 ^ 59
      → addr / 2 ^ s % 2 ^ n * 2 ^ s < 2 ^ 59
      → bit_or (bit_or 3 (bit_and flags 0x1F * 2 ^ 59)) (bit_and addr mask)
        ≡ flags % 2 ^ 5 * 2 ^ 59 + (addr / 2 ^ s % 2 ^ n * 2 ^ s + 3)
  table_parts n s mask em h1 h2 h3 =
      let ef : bit_and flags 0x1F ≡ flags % 2 ^ 5 = bit_and-mask 5 flags in
      rw (em, ef, bit_or-apart 59 3 (flags % 2 ^ 5) (omega arith))
        (bit_or-between 59 (flags % 2 ^ 5) 3 s (addr / 2 ^ s % 2 ^ n) (omega arith) h2 h3)

  pub make_table_4k :
      make_table addr flags pg_4k ≡ flags % 2 ^ 5 * 2 ^ 59 + (addr / 2 ^ 12 % 2 ^ 36 * 2 ^ 12 + 3)
  unfolding make_table
  make_table_4k =
      table_parts 36 12 (0xFFFFFFFFF * 2 ^ 12) (bit_and-high_mask 12 36 addr) (omega arith)
        (omega arith) (omega arith)

  -- An entry that `make_table` composes has the table's address and the flags, for every granule.
  pub make_table-IsTable :
      (g : Granule) → IsTable addr flags (table_shift g) (make_table addr flags g)
  unfolding make_table
  make_table-IsTable pg_4k = rw make_table_4k (omega arith)
  make_table-IsTable pg_16k =
      rw
        (table_parts 34 14 (0x3FFFFFFFF * 2 ^ 14) (bit_and-high_mask 14 34 addr) (omega arith)
          (omega arith) (omega arith))
        (omega arith)
  make_table-IsTable pg_64k =
      rw
        (table_parts 32 16 (0xFFFFFFFF * 2 ^ 16) (bit_and-high_mask 16 32 addr) (omega arith)
          (omega arith) (omega arith))
        (omega arith)
