-- ===== src/Mm/Depth.antt =====
-- kernel/core/mm.c: what the dump of arbitrary tables prints, by the entries that lead to a line.
use mk_os.Base.{
  ℕ, zero, suc, ◌+◌, ◌-◌, ◌*◌, ◌/◌, ◌%◌, ◌^◌, ◌≤◌, ◌<◌, ◌≡◌, ◌≢◌, ◌⊎◌, inl, inr, refl, sym, ◌∙◌,
  List, ltb, ◌==◌, ==_iff, Bool-cases, bit_and, arith,
}
use mathlib.Core.Path.{subst}
use mk_os.Base.Bits.{bit_and-mask, bit_and-high_mask}
use mk_os.Base.Run.{Cmd}
use mk_os.Mm.Dump.{
  Mmu, Line, Event, dumping_table, block_line, table_line, unknown_entry, descend, dump_entry,
  dump_entries, dump_table,
}
use mk_os.Mm.Prints.{Dumps, Dumps-mono, Dumps-nothing, Dumps-line, Dumps-and_then}

-- the table that an entry leads to, and the address that entry `i` of a table stands for
abbrev next_table : ℕ → ℕ
next_table ent = ent / 2 ^ 12 % 2 ^ 36 * 2 ^ 12

abbrev next_va : (va i level : ℕ) → ℕ
next_va va i level = (va + i * 2 ^ (39 - level * 9)) % 2 ^ 64

-- A line that entry `i` of the table at level `level` gives, or one of an entry that it leads to.
pub data Due (mem : ℕ → ℕ) : (table va level i : ℕ) → Line → Type 0 where
  of_block :
      {table va level i : ℕ}
      → mem (table + 8 * i) % 4 ≡ 1
      → Due mem table va level i (block_line i va (mem (table + 8 * i)))
  of_unknown :
      {table va level i : ℕ}
      → mem (table + 8 * i) ≢ 0
      → mem (table + 8 * i) % 2 ≡ 0
      → Due mem table va level i (unknown_entry (mem (table + 8 * i)))
  of_table :
      {table va level i : ℕ}
      → mem (table + 8 * i) % 4 ≡ 3
      → Due mem table va level i (table_line i (mem (table + 8 * i)))
  of_next :
      {table va level i : ℕ}
      → mem (table + 8 * i) % 4 ≡ 3
      → level ≤ 4
      → Due mem table va level i (dumping_table (level + 1) (next_table (mem (table + 8 * i))))
  of_entry :
      {table va level i : ℕ} (j : ℕ) {l : Line}
      → mem (table + 8 * i) % 4 ≡ 3
      → level ≤ 4
      → j < 512
      → Due mem (next_table (mem (table + 8 * i))) (next_va va i level) (level + 1) j l
      → Due mem table va level i l

-- Entry `i` of the table leads to a table entry below level 4.
pub data TooDeep (mem : ℕ → ℕ) : (table level i : ℕ) → Type 0 where
  deep : {table level i : ℕ} → mem (table + 8 * i) % 4 ≡ 3 → 4 < level → TooDeep mem table level i
  deeper :
      {table level i : ℕ} (j : ℕ)
      → mem (table + 8 * i) % 4 ≡ 3
      → level ≤ 4
      → j < 512
      → TooDeep mem (next_table (mem (table + 8 * i))) (level + 1) j
      → TooDeep mem table level i

-- A line that the dump of a table of `n` entries gives: the first one, or one that an entry gives.
abbrev pub TableDue : (mem : ℕ → ℕ) (n table va level : ℕ) → Line → Type 0
TableDue mem n table va level l =
    (l ≡ dumping_table level table) ⊎ ((j : ℕ) × (j < n) × Due mem table va level j l)

abbrev pub TableTooDeep : (mem : ℕ → ℕ) (n table level : ℕ) → Type 0
TableTooDeep mem n table level = (j : ℕ) × (j < n) × TooDeep mem table level j

-- the lines that a table entry leads to
abbrev Below : (mem : ℕ → ℕ) (table va level i : ℕ) → Line → Type 0
Below mem table va level i l =
    (level ≤ 4)
    × TableDue mem 512 (next_table (mem (table + 8 * i))) (next_va va i level) (level + 1) l

module _ {mem : ℕ → ℕ} {table va level i : ℕ} where
  Due-zero : mem (table + 8 * i) ≡ 0 → (l : Line) → ¬ Due mem table va level i l
  Due-zero e l (of_block h) = omega (arith, e, h)
  Due-zero e l (of_unknown h h') = h e
  Due-zero e l (of_table h) = omega (arith, e, h)
  Due-zero e l (of_next h low) = omega (arith, e, h)
  Due-zero e l (of_entry j h low lt d) = omega (arith, e, h)

  Due-block :
      mem (table + 8 * i) % 4 ≡ 1
      → (l : Line) → Due mem table va level i l
      → l ≡ block_line i va (mem (table + 8 * i))
  Due-block e l (of_block h) = refl
  Due-block e l (of_unknown h h') = absurd (omega (arith, e, h'))
  Due-block e l (of_table h) = absurd (omega (arith, e, h))
  Due-block e l (of_next h low) = absurd (omega (arith, e, h))
  Due-block e l (of_entry j h low lt d) = absurd (omega (arith, e, h))

  Due-unknown :
      mem (table + 8 * i) % 2 ≡ 0
      → (l : Line) → Due mem table va level i l
      → l ≡ unknown_entry (mem (table + 8 * i))
  Due-unknown e l (of_block h) = absurd (omega (arith, e, h))
  Due-unknown e l (of_unknown h h') = refl
  Due-unknown e l (of_table h) = absurd (omega (arith, e, h))
  Due-unknown e l (of_next h low) = absurd (omega (arith, e, h))
  Due-unknown e l (of_entry j h low lt d) = absurd (omega (arith, e, h))

  Due-table :
      mem (table + 8 * i) % 4 ≡ 3
      → (l : Line) → Due mem table va level i l
      → (l ≡ table_line i (mem (table + 8 * i))) ⊎ Below mem table va level i l
  Due-table e l (of_block h) = absurd (omega (arith, e, h))
  Due-table e l (of_unknown h h') = absurd (omega (arith, e, h'))
  Due-table e l (of_table h) = inl refl
  Due-table e l (of_next h low) = inr (low, inl refl)
  Due-table e l (of_entry j h low lt d) = inr (low, inr (j, lt, d))

  table-Due :
      mem (table + 8 * i) % 4 ≡ 3
      → (l : Line) → (l ≡ table_line i (mem (table + 8 * i))) ⊎ Below mem table va level i l
      → Due mem table va level i l
  table-Due e l (inl same) = subst (Due mem table va level i) (sym same) (of_table e)
  table-Due e l (inr (low, inl same)) = subst (Due mem table va level i) (sym same) (of_next e low)
  table-Due e l (inr (low, inr (j, lt, d))) = of_entry j e low lt d

module _ (m : Mmu) (below : ℕ → ℕ → ℕ → Cmd Mmu Unit) (level : ℕ) where
  abbrev mem : ℕ → ℕ
  mem = m.memory

  -- the state with another trace
  abbrev at : List Event → Mmu
  at trace = record m { trace = trace }

  module _
      (deeper_table : level ≤ 4
        → (t va : ℕ) (trace : List Event)
        → Dumps
            (TableDue mem 512 t va (level + 1))
            (TableTooDeep mem 512 t (level + 1))
            (at trace)
            (below t va (level + 1) (at trace))) where
    descend-Dumps :
        (i table va : ℕ) (trace : List Event)
        → mem (table + 8 * i) % 4 ≡ 3
        → Dumps
            (Below mem table va level i)
            (TooDeep mem table level i)
            (at trace)
            (descend below i (mem (table + 8 * i)) va level (at trace))
    descend-Dumps i table va trace e =
        let ent = mem (table + 8 * i) in
        let next : bit_and ent (0xFFFFFFFFF * 2 ^ 12) ≡ next_table ent =
          bit_and-high_mask 12 36 ent in
        elim (Bool-cases (ltb 4 level)) [
          | inl low ↦ rw low (inr (refl, deep e (ground (arith, low))))
          | inr flat ↦
              let shallow : level ≤ 4 = ground (arith, flat) in
              rw (flat, next)
                (Dumps-mono (deeper_table shallow (next_table ent) (next_va va i level) trace)
                  (λ l d. (shallow, d)) (λ l d. d.1) λ (j, lt, d). deeper j e shallow lt d)
        ]

    dump_entry-Dumps :
        (i table va : ℕ) (trace : List Event)
        → Dumps
            (Due mem table va level i)
            (TooDeep mem table level i)
            (at trace)
            (dump_entry below i table va level (at trace))
    unfolding dump_entry
    dump_entry-Dumps i table va trace =
        let ent = mem (table + 8 * i) in
        let kind : bit_and ent 3 ≡ ent % 4 = bit_and-mask 2 ent in
        elim (Bool-cases (ent == 0)) [
          | inl e ↦ rw e (Dumps-nothing (at trace) (Due-zero ((==_iff _ _).0 e)))
          | inr n ↦ elim (Bool-cases (bit_and ent 3 == 1)) [
            | inl e1 ↦
                let block : ent % 4 ≡ 1 = sym kind ∙ (==_iff _ _).0 e1 in
                rw (n, e1) (Dumps-line _ (at trace) (of_block block) (Due-block block))
            | inr n1 ↦ elim (Bool-cases (bit_and ent 3 == 3)) [
              | inl e3 ↦
                  let link : ent % 4 ≡ 3 = sym kind ∙ (==_iff _ _).0 e3 in
                  rw (n, n1, e3)
                    (Dumps-mono
                      (Dumps-and_then {P = λ l. l ≡ table_line i ent} (at trace)
                        (descend below i ent va level)
                        (Dumps-line (table_line i ent) (at trace) refl (λ l e. e))
                        (λ t. descend-Dumps i table va t link))
                      (table-Due link) (Due-table link) (λ d. d))
              | inr n3 ↦
                  let even : ent % 2 ≡ 0 = ground (arith, n, n1, n3, kind) in
                  let some_entry : ent ≢ 0 = ground (arith, n) in
                  rw (n, n1, n3)
                    (Dumps-line _ (at trace) (of_unknown some_entry even) (Due-unknown even))
            ]
          ]
        ]

    dump_entries-Dumps :
        (n i table va : ℕ) (trace : List Event)
        → Dumps
            (λ l. (j : ℕ) × (i ≤ j) × (j < i + n) × Due mem table va level j l)
            (TableTooDeep mem (i + n) table level)
            (at trace)
            (dump_entries below n i table va level (at trace))
    unfolding dump_entries
    dump_entries-Dumps zero i table va trace =
        Dumps-nothing (at trace) λ l (j, low, high, d). omega (arith, low, high)
    dump_entries-Dumps (suc n) i table va trace =
        Dumps-mono
          (Dumps-and_then (at trace) _
            (Dumps-mono (dump_entry-Dumps i table va trace) (λ l d. d) (λ l d. d)
              λ d. (i, omega arith, d))
            λ t.
              Dumps-mono (dump_entries-Dumps n (i + 1) table va t) (λ l d. d) (λ l d. d)
                λ (j, lt, d). (j, omega (arith, lt), d))
          (λ l d. elim d [
            | inl here ↦ (i, omega arith, omega arith, here)
            | inr (j, low, high, later) ↦ (j, omega (arith, low), omega (arith, high), later)
          ])
          (λ l (j, low, high, d). elim (Bool-cases (j == i)) [
            | inl same ↦ inl (subst (λ (x : ℕ). Due mem table va level x l) ((==_iff _ _).0 same) d)
            | inr other ↦ inr (j, ground (arith, other, low), omega (arith, high), d)
          ])
          λ d. d

-- With a depth of 6 less the level, the dump of any table in any memory is over within the depth
-- given. Where it ends, the lines of the table have been printed and no others, and nothing else has
-- changed: the first line, one for each entry that is not 0, by its two lowest bits as a block, a
-- table or unknown, and the lines of the 512 entries of each table that is led to. It goes below
-- level 4, where the code's shift is undefined, only where a chain of table entries does.
pub dump_table-Dumps :
    (depth table no_entries va level : ℕ) (m : Mmu)
    → 6 ≤ level + depth
    → level ≤ 5
    → Dumps
        (TableDue m.memory no_entries table va level)
        (TableTooDeep m.memory no_entries table level)
        m
        (dump_table depth table no_entries va level m)
unfolding dump_table
dump_table-Dumps zero table no_entries va level m h hl = absurd (omega arith)
dump_table-Dumps (suc depth) table no_entries va level m h hl =
    let below : ℕ → ℕ → ℕ → Cmd Mmu Unit = λ t v l. dump_table depth t 512 v l in
    Dumps-mono
      (Dumps-and_then {P = λ l. l ≡ dumping_table level table} m
        (dump_entries below no_entries 0 table va level)
        (Dumps-line (dumping_table level table) m refl (λ l e. e))
        λ trace.
          dump_entries-Dumps m below level
            (λ flat t v tr.
              dump_table-Dumps depth t 512 v (level + 1) (record m { trace = tr }) (omega arith)
                (omega arith))
            no_entries 0 table va trace)
      (λ l d. elim d [
        | inl first ↦ inl first
        | inr (j, low, high, due) ↦ inr (j, omega (arith, high), due)
      ])
      (λ l d. elim d [
        | inl first ↦ inl first
        | inr (j, high, due) ↦ inr (j, omega arith, omega (arith, high), due)
      ])
      λ (j, high, d). (j, omega (arith, high), d)
