-- ===== src/Mm/Listing.antt =====
-- kernel/core/mm.c: what `dump_table` and `dump_mmu` print.
use mk_os.Base.{
  ℕ, zero, suc, ◌+◌, ◌*◌, ◌/◌, ◌%◌, ◌^◌, ◌≤◌, ◌<◌, ◌≡◌, false, refl, ap, ◌∙◌, List, [], ◌∷◌, ltb,
  ◌==◌, if◌then◌else◌, bit_and, arith,
}
use mk_os.Base.Bits.{bit_and-mask, bit_and-high_mask}
use mk_os.Base.Run.{ok, Cmd, and_then}
use mk_os.Base.Word.{add64}
use mk_os.Mm.{l0table_ttbr0, l1table_ttbr0, l0table_ttbr1, l1table_ttbr1, Tables}
use mk_os.Mm.Dump.{
  Mmu, Line, Event, printed, dumping_table, block_entry, table_entry, mmu_dump, lower_table,
  upper_table, mmu_state, tcr_line, table_line, field, dump_entry, dump_entries, dump_table,
  dump_mmu, print, max_depth,
}
use mk_os.Mm.Build.{IsPlaced, Holds, content}

-- the trace behind lines that are printed in this order
abbrev pub lines : List Line → List Event → List Event
lines [] trace = trace
lines (l ∷ ls) trace = lines ls (printed l ∷ trace)

abbrev pub with_lines : List Line → Mmu → Mmu
with_lines ls m = record m { trace = lines ls m.trace }

module _ (below : ℕ → ℕ → ℕ → Cmd Mmu Unit) (table va level : ℕ) where
  -- Entries that are 0 leave no line.
  dump_entries-zero :
      (n i : ℕ) (m : Mmu)
      → ((j : ℕ) → i ≤ j → j < i + n → m.memory (table + 8 * j) ≡ 0)
      → dump_entries below n i table va level m ≡ ok tt m
  unfolding dump_entries dump_entry
  dump_entries-zero zero i m h = refl
  dump_entries-zero (suc n) i m h =
      rw (h i (omega arith) (omega arith))
        (dump_entries-zero n (i + 1) m (λ j p q. h j (omega arith) (omega arith)))

-- the line about the `i`th block of the tables
abbrev pub gigabyte : ℕ → ℕ → Line
gigabyte va i = block_entry i (add64 va (i * 2 ^ 30)) (i * 2 ^ 30) 0 0 0 0 1 0 1 0 3

abbrev pub blocks : ℕ → ℕ → List Line
blocks va table =
    dumping_table 1 table ∷ gigabyte va 0 ∷ gigabyte va 1 ∷ gigabyte va 2 ∷ gigabyte va 3 ∷ []

dump_entries_blocks :
    (below : ℕ → ℕ → ℕ → Cmd Mmu Unit) (table va level n : ℕ) (m : Mmu)
    → n ≤ 508
    → ((j : ℕ) → j < 512 → m.memory (table + 8 * j) ≡ (if ltb j 4 then j * 2 ^ 30 + 0x44D else 0))
    → dump_entries below (suc (suc (suc (suc n)))) 0 table va level m
      ≡ ok tt (with_lines (gigabyte va 0 ∷ gigabyte va 1 ∷ gigabyte va 2 ∷ gigabyte va 3 ∷ []) m)
unfolding dump_entries dump_entry
dump_entries_blocks below table va level n m hn h =
    rw (h 0 (omega arith), h 1 (omega arith), h 2 (omega arith), h 3 (omega arith))
      (dump_entries-zero below table va level n 4 _ (λ j p q. h j (omega arith) ∙ ground arith))

dump_table-blocks :
    (depth table va : ℕ) (m : Mmu)
    → ((j : ℕ) → j < 512 → m.memory (table + 8 * j) ≡ (if ltb j 4 then j * 2 ^ 30 + 0x44D else 0))
    → dump_table (suc depth) table 512 va 1 m ≡ ok tt (with_lines (blocks va table) m)
unfolding dump_table
dump_table-blocks depth table va m h = dump_entries_blocks _ table va 1 508 _ (omega arith) h

-- what is printed about a table at level 0 and the one that its first entry leads to
abbrev pub linked : ℕ → ℕ → ℕ → List Line
linked va table0 table1 =
    dumping_table 0 table0 ∷ table_entry 0 0 0 0 0 ∷ blocks (add64 va 0) table1

module _ (table0 table1 : ℕ) (aligned : table1 % 4096 ≡ 0) (low : table1 < 2 ^ 32) where
  kind_bits : bit_and (table1 + 3) 3 ≡ 3
  kind_bits = bit_and-mask 2 (table1 + 3) ∙ omega arith

  address_bits : bit_and (table1 + 3) (0xFFFFFFFFF * 2 ^ 12) ≡ table1
  address_bits = bit_and-high_mask 12 36 (table1 + 3) ∙ omega arith

  table_line-zero : table_line 0 (table1 + 3) ≡ table_entry 0 0 0 0 0
  table_line-zero =
      let e63 : (table1 + 3) / 2 ^ 63 ≡ 0 = omega arith in
      let e61 : field (table1 + 3) 61 2 ≡ 0 = omega arith in
      let e60 : field (table1 + 3) 60 1 ≡ 0 = omega arith in
      let e59 : field (table1 + 3) 59 1 ≡ 0 = omega arith in rw (e63, e61, e60, e59) refl

  first_entry :
      (below : ℕ → ℕ → ℕ → Cmd Mmu Unit) (va n : ℕ) (m : Mmu)
      → m.memory (table0 + 8 * 0) ≡ table1 + 3
      → dump_entries below (suc n) 0 table0 va 0 m
        ≡ and_then
            (below table1 (add64 va 0) 1 (with_lines (table_entry 0 0 0 0 0 ∷ []) m))
            (λ _. dump_entries below n 1 table0 va 0)
  unfolding dump_entries dump_entry
  first_entry below va n m h =
      let some_entry : (table1 + 3 == 0) ≡ false = ground arith in
      rw (h, some_entry, kind_bits, address_bits, table_line-zero) refl

  pub dump_table-linked :
      (depth va : ℕ) (m : Mmu)
      → ((j : ℕ) → j < 512 → m.memory (table0 + 8 * j) ≡ (if j == 0 then table1 + 3 else 0))
      → ((j : ℕ)
          → j < 512
          → m.memory (table1 + 8 * j) ≡ (if ltb j 4 then j * 2 ^ 30 + 0x44D else 0))
      → dump_table (suc (suc depth)) table0 512 va 0 m
        ≡ ok tt (with_lines (linked va table0 table1) m)
  unfolding dump_table
  dump_table-linked depth va m h0 h1 =
      let below : ℕ → ℕ → ℕ → Cmd Mmu Unit = λ t v l. dump_table (suc depth) t 512 v l in
      first_entry below va 511 _ (h0 0 (omega arith))
      ∙ ap (λ r. and_then r (λ _. dump_entries below 511 1 table0 va 0))
          (dump_table-blocks depth table1 (add64 va 0) _ h1)
      ∙ dump_entries-zero below table0 va 0 511 1 _ (λ j p q. h0 j (omega arith) ∙ ground arith)

-- All lines of the dump of the tables that `mmu_init` builds.
abbrev pub whole_dump : Tables → Mmu → List Line
whole_dump t m =
    mmu_dump
    ∷ mmu_state (m.sctlr % 2) m.ttbr0 m.ttbr1 m.tcr
    ∷ tcr_line m.tcr
    ∷ lower_table
    ∷ dumping_table 0 t.l0_ttbr0
    ∷ table_entry 0 0 0 0 0
    ∷ dumping_table 1 t.l1_ttbr0
    ∷ gigabyte 0 0
    ∷ gigabyte 0 1
    ∷ gigabyte 0 2
    ∷ gigabyte 0 3
    ∷ upper_table
    ∷ dumping_table 0 t.l0_ttbr1
    ∷ table_entry 0 0 0 0 0
    ∷ dumping_table 1 t.l1_ttbr1
    ∷ gigabyte 0xFFFF000000000000 0
    ∷ gigabyte 0xFFFF000000000000 1
    ∷ gigabyte 0xFFFF000000000000 2
    ∷ gigabyte 0xFFFF000000000000 3
    ∷ []

module _ (t : Tables) (placed : IsPlaced t) where
  from_ttbr0 :
      (m : Mmu) (trace : List Event)
      → Holds t m.memory (content t)
      → m.ttbr0 ≡ t.l0_ttbr0
      → dump_table max_depth m.ttbr0 512 0 0 (record m { trace = trace })
        ≡ ok tt (with_lines (linked 0 t.l0_ttbr0 t.l1_ttbr0) (record m { trace = trace }))
  from_ttbr0 m trace h e =
      ap (λ a. dump_table max_depth a 512 0 0 (record m { trace = trace })) e
      ∙ dump_table-linked t.l0_ttbr0 t.l1_ttbr0 (placed.aligned l1table_ttbr0)
          (placed.low l1table_ttbr0) 4 0 _ (h.reads l0table_ttbr0) (h.reads l1table_ttbr0)

  from_ttbr1 :
      (m : Mmu) (trace : List Event)
      → Holds t m.memory (content t)
      → m.ttbr1 ≡ t.l0_ttbr1
      → dump_table max_depth m.ttbr1 512 0xFFFF000000000000 0 (record m { trace = trace })
        ≡ ok tt (
            with_lines
              (linked 0xFFFF000000000000 t.l0_ttbr1 t.l1_ttbr1)
              (record m { trace = trace }))
  from_ttbr1 m trace h e =
      ap (λ a. dump_table max_depth a 512 0xFFFF000000000000 0 (record m { trace = trace })) e
      ∙ dump_table-linked t.l0_ttbr1 t.l1_ttbr1 (placed.aligned l1table_ttbr1)
          (placed.low l1table_ttbr1) 4 0xFFFF000000000000 _ (h.reads l0table_ttbr1)
          (h.reads l1table_ttbr1)

  pub dump_mmu_lem :
      (m : Mmu)
      → Holds t m.memory (content t)
      → m.ttbr0 ≡ t.l0_ttbr0
      → m.ttbr1 ≡ t.l0_ttbr1
      → dump_mmu m ≡ ok tt (with_lines (whole_dump t m) m)
  unfolding dump_mmu
  dump_mmu_lem m h e0 e1 =
      ap
        (λ r.
          and_then (and_then r (λ _. print upper_table))
            (λ _ m'. dump_table max_depth m'.ttbr1 512 0xFFFF000000000000 0 m'))
        (from_ttbr0 m _ h e0)
      ∙ from_ttbr1 m _ h e1
