-- ===== src/Mm/Tests.antt =====
-- Concrete runs of Mm.
use mk_os.Base.{ℕ, ◌+◌, ◌*◌, ◌^◌, ◌<◌, ◌≡◌, refl, none, some, arith}
use mk_os.Base.Run.{ok, panic, invalid_entry, Ends}
use mk_os.Mm.{mmu_init}
use mk_os.Mm.Prints.{Dumps}
use mk_os.Mm.Depth.{TableDue, TableTooDeep, dump_table-Dumps}
use mk_os.Mm.Dump.{printed, dump_table}
use mk_os.Mm.Entry.{pg_4k, pg_16k, make_block, make_table}
use mk_os.Mm.Fields.{MakesBlock, IsTable, make_block-MakesBlock, make_table-IsTable}
use mk_os.Mm.Listing.{gigabyte}
use mk_os.Mm.Space.{address_map, upper_base, open_to_all}
use mk_os.Mm.Start.{IsStarted, Occurs, mmu_init-IsStarted, mmu_init-refines, mmu_init-upper_dump}
use mk_os.Mm.Walk.{translate}
use mk_os.Fixtures.{tables, tables-IsPlaced, reset}

mmu_init-refines_example :
    Ends (λ _ m'. (va : ℕ) → va < 2 ^ 64 → translate m' va ≡ address_map va) (mmu_init tables reset)
mmu_init-refines_example = mmu_init-refines tables tables-IsPlaced reset

mmu_init-IsStarted_run : Ends (λ _. IsStarted tables reset) (mmu_init tables reset)
mmu_init-IsStarted_run = mmu_init-IsStarted tables tables-IsPlaced reset

mmu_init-upper_dump_example :
    Ends
      (λ _ m'.
        Occurs (printed (gigabyte 0xFFFF000000000000 1)) m'.trace
        × (translate m' (0xFFFF000000000000 + 1 * 2 ^ 30) ≡ none)
        × (translate m' (upper_base + 1 * 2 ^ 30) ≡ some (open_to_all (1 * 2 ^ 30))))
      (mmu_init tables reset)
mmu_init-upper_dump_example = mmu_init-upper_dump tables tables-IsPlaced reset 1 (omega arith)

make_block-MakesBlock_example :
    MakesBlock 0x40000000 0 0x113 (some 30) (make_block 0x40000000 0 0x113 pg_4k 1 reset)
make_block-MakesBlock_example = make_block-MakesBlock 0x40000000 0 0x113 pg_4k 1 reset

make_table-IsTable_run : IsTable 0x40018000 0 14 (make_table 0x40018000 0 pg_16k)
make_table-IsTable_run = make_table-IsTable 0x40018000 0 pg_16k

dump_table-Dumps_example :
    Dumps
      (TableDue reset.memory 512 0x40010000 0 0)
      (TableTooDeep reset.memory 512 0x40010000 0)
      reset
      (dump_table 6 0x40010000 512 0 0 reset)
dump_table-Dumps_example = dump_table-Dumps 6 0x40010000 512 0 0 reset (omega arith) (omega arith)

-- a block of 1 GB at the third gigabyte
block_run : make_block 0x80000000 0 0x113 pg_4k 1 reset ≡ ok 0x8000044D reset
unfolding make_block
block_run = refl

refused_run : make_block 0x80000000 0 0x113 pg_16k 1 reset ≡ panic invalid_entry
unfolding make_block
refused_run = refl
