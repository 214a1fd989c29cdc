-- ===== src/Mm/Start.antt =====
-- kernel/core/mm.c: `mmu_init`, and the addresses that are translated after it.
use mk_os.Base.{
  ℕ, zero, suc, ◌+◌, ◌-◌, ◌*◌, ◌%◌, ◌^◌, ◌<◌, ◌⊎◌, ◌≡◌, refl, ap, ◌∙◌, List, [], ◌∷◌, true, false,
  ltb, leb, if◌then◌else◌, Bool-cases, inl, inr, none, some, bit_and, arith,
}
use mk_os.Base.Run.{and_then, Ends, ends, Ends-after, Ends-mono}
use mk_os.Mm.{
  l0table_ttbr0, l1table_ttbr0, l0table_ttbr1, l1table_ttbr1, Tables, tcr_value, mair_value,
  enabled, mmu_init, set_registers, enable, write_ttbr0_el1, write_ttbr1_el1, write_tcr_el1,
  write_mair_el1, write_sctlr_el1,
}
use mk_os.Mm.Dump.{
  Mmu, Event, printed, wrote, barrier, ttbr0_el1, ttbr1_el1, tcr_el1, mair_el1, sctlr_el1, dmb_sy,
  dsb_sy, isb, initializing_mmu, start_mmu, dump_mmu,
}
use mk_os.Mm.Listing.{lines, gigabyte, whole_dump, dump_mmu_lem}
use mk_os.Base.Ors.{bit_or_low}
use mk_os.Mm.Build.{IsPlaced, Holds, content, build_tables-Holds}
use mk_os.Mm.Walk.{walk, translate_by, translate}
use mk_os.Mm.Space.{open_to_all, upper_base, address_map, walk-level0}

-- What `mmu_init` leaves behind, where it starts in `m`.
pub record IsStarted (t : Tables) (m m' : Mmu) : Type 0 where
  pub tables : Holds t m'.memory (content t)
  pub lower_base : m'.ttbr0 ≡ t.l0_ttbr0
  pub upper_base : m'.ttbr1 ≡ t.l0_ttbr1
  pub control : m'.tcr ≡ tcr_value
  pub attributes : m'.mair ≡ mair_value
  pub on : m'.sctlr ≡ enabled m.sctlr
  pub happened :
      m'.trace
      ≡ barrier isb
        ∷ wrote sctlr_el1 (enabled m.sctlr)
        ∷ barrier isb
        ∷ barrier dsb_sy
        ∷ barrier dmb_sy
        ∷ printed start_mmu
        ∷ lines
            (whole_dump t (record m { ttbr0 = t.l0_ttbr0; ttbr1 = t.l0_ttbr1; tcr = tcr_value }))
            (wrote mair_el1 mair_value
              ∷ wrote tcr_el1 tcr_value
              ∷ wrote ttbr1_el1 t.l0_ttbr1
              ∷ wrote ttbr0_el1 t.l0_ttbr0
              ∷ printed initializing_mmu
              ∷ m.trace)

enabled-odd : (s : ℕ) → enabled s % 2 ≡ 1
enabled-odd s = omega (arith, bit_or_low (bit_and s (2 ^ 64 - 1 - 4)) 1)

translate_by-start :
    (s b0 b1 : ℕ) (memory : ℕ → ℕ) (va : ℕ)
    → s % 2 ≡ 1
    → translate_by s tcr_value b0 b1 memory va ≡ (
        if ltb va (2 ^ 40)
        then walk 3 memory 32 b0 va
        else if leb upper_base va
        then walk 3 memory 32 b1 (va - upper_base)
        else none)
unfolding translate_by
translate_by-start s b0 b1 memory va odd = rw odd (ground arith)

module _ (t : Tables) (placed : IsPlaced t) where
  -- the state before the dump
  abbrev configured : Mmu → (ℕ → ℕ) → Mmu
  configured m memory = record m {
    memory = memory;
    ttbr0 = t.l0_ttbr0;
    ttbr1 = t.l0_ttbr1;
    tcr = tcr_value;
    mair = mair_value;
    trace =
        wrote mair_el1 mair_value
        ∷ wrote tcr_el1 tcr_value
        ∷ wrote ttbr1_el1 t.l0_ttbr1
        ∷ wrote ttbr0_el1 t.l0_ttbr0
        ∷ printed initializing_mmu
        ∷ m.trace;
  }

  dump_and_enable :
      (m : Mmu) (memory : ℕ → ℕ)
      → Holds t memory (content t)
      → Ends (λ _. IsStarted t m) (and_then (dump_mmu (configured m memory)) (λ _. enable))
  unfolding enable write_sctlr_el1
  dump_and_enable m memory h =
      Ends-after (λ _. enable) (dump_mmu_lem t placed (configured m memory) h refl refl)
        (ends (record {
          tables = h;
          lower_base = refl;
          upper_base = refl;
          control = refl;
          attributes = refl;
          on = refl;
          happened = refl;
        }))

  pub mmu_init-IsStarted : (m : Mmu) → Ends (λ _. IsStarted t m) (mmu_init t m)
  unfolding mmu_init set_registers write_ttbr0_el1 write_ttbr1_el1 write_tcr_el1 write_mair_el1
  mmu_init-IsStarted m =
      let (memory, built, h) =
        build_tables-Holds t placed (record m { trace = printed initializing_mmu ∷ m.trace }) in
      rw built (dump_and_enable m memory h)

  both_walks :
      (memory : ℕ → ℕ) (va : ℕ)
      → Holds t memory (content t)
      → va < 2 ^ 64
      → (if ltb va (2 ^ 40)
          then walk 3 memory 32 t.l0_ttbr0 va
          else if leb upper_base va
          then walk 3 memory 32 t.l0_ttbr1 (va - upper_base)
          else none)
        ≡ address_map va
  both_walks memory va h hv = elim (Bool-cases (ltb va (2 ^ 40))) [
    | inl near ↦ rw near (
        walk-level0 memory t.l0_ttbr0 t.l1_ttbr0 (placed.aligned l1table_ttbr0)
          (placed.low l1table_ttbr0) (h.reads l0table_ttbr0) (h.reads l1table_ttbr0) va
          (ground arith))
    | inr far ↦ elim (Bool-cases (leb upper_base va)) [
      | inl above ↦
          rw (far, above)
            (walk-level0 memory t.l0_ttbr1 t.l1_ttbr1 (placed.aligned l1table_ttbr1)
              (placed.low l1table_ttbr1) (h.reads l0table_ttbr1) (h.reads l1table_ttbr1)
              (va - upper_base) (ground arith))
      | inr between ↦ rw (far, between) refl
    ]
  ]

  pub translate-address_map :
      {m m' : Mmu} (va : ℕ) → IsStarted t m m' → va < 2 ^ 64 → translate m' va ≡ address_map va
  unfolding translate
  translate-address_map {m} {m'} va st hv =
      let odd : m'.sctlr % 2 ≡ 1 = ap (λ (s : ℕ). s % 2) st.on ∙ enabled-odd m.sctlr in
      ap (λ c. translate_by m'.sctlr c m'.ttbr0 m'.ttbr1 m'.memory va) st.control
      ∙ ap (λ b. translate_by m'.sctlr tcr_value b m'.ttbr1 m'.memory va) st.lower_base
      ∙ ap (λ b. translate_by m'.sctlr tcr_value t.l0_ttbr0 b m'.memory va) st.upper_base
      ∙ translate_by-start m'.sctlr t.l0_ttbr0 t.l0_ttbr1 m'.memory va odd
      ∙ both_walks m'.memory va st.tables hv

  -- With the tables aligned, apart and below 4 GB, `mmu_init` ends with the MMU on, and from then
  -- on the hardware's walk through the tables translates every 64-bit address as the kernel's
  -- address map says: the first 4 GB to themselves, the same memory again from 0xFFFFFF0000000000
  -- on, and no other address.
  pub mmu_init-refines :
      (m : Mmu)
      → Ends (λ _ m'. (va : ℕ) → va < 2 ^ 64 → translate m' va ≡ address_map va) (mmu_init t m)
  mmu_init-refines m =
      Ends-mono (mmu_init-IsStarted m) (λ _ m' st va h. translate-address_map va st h)

-- an event of a trace
abbrev pub Occurs : Event → List Event → Type 0
Occurs e [] = ⊥
Occurs e (x ∷ xs) = (e ≡ x) ⊎ Occurs e xs

upper-address_map :
    (i : ℕ) → i < 4 → address_map (upper_base + i * 2 ^ 30) ≡ some (open_to_all (i * 2 ^ 30))
upper-address_map i h =
    let high : ltb (upper_base + i * 2 ^ 30) (2 ^ 40) ≡ false = ground arith in
    let above : leb upper_base (upper_base + i * 2 ^ 30) ≡ true = ground arith in
    let offset : upper_base + i * 2 ^ 30 - upper_base ≡ i * 2 ^ 30 = omega arith in
    let small : ltb (i * 2 ^ 30) (2 ^ 32) ≡ true = ground arith in
    rw (high, above, offset, small) refl

module _ (t : Tables) (placed : IsPlaced t) where
  gigabyte_listed :
      (m m' : Mmu) (i : ℕ)
      → i < 4
      → IsStarted t m m'
      → Occurs (printed (gigabyte 0xFFFF000000000000 i)) m'.trace
  gigabyte_listed m m' zero h st =
      rw st.happened (inr (inr (inr (inr (inr (inr (inr (inr (inr (inl refl))))))))))
  gigabyte_listed m m' (suc zero) h st =
      rw st.happened (inr (inr (inr (inr (inr (inr (inr (inr (inl refl)))))))))
  gigabyte_listed m m' (suc (suc zero)) h st =
      rw st.happened (inr (inr (inr (inr (inr (inr (inr (inl refl))))))))
  gigabyte_listed m m' (suc (suc (suc zero))) h st =
      rw st.happened (inr (inr (inr (inr (inr (inr (inl refl)))))))
  gigabyte_listed m m' (suc (suc (suc (suc i)))) h st = absurd (omega arith)

  -- With the tables placed so, the dump in `mmu_init` lists each of the four upper blocks at
  -- 0xFFFF000000000000 + i * 2^30, an address that stays untranslated; the block is what
  -- 0xFFFFFF0000000000 + i * 2^30 is translated to.
  pub mmu_init-upper_dump :
      (m : Mmu) (i : ℕ)
      → i < 4
      → Ends
          (λ _ m'.
            Occurs (printed (gigabyte 0xFFFF000000000000 i)) m'.trace
            × (translate m' (0xFFFF000000000000 + i * 2 ^ 30) ≡ none)
            × (translate m' (upper_base + i * 2 ^ 30) ≡ some (open_to_all (i * 2 ^ 30))))
          (mmu_init t m)
  mmu_init-upper_dump m i h = Ends-mono (mmu_init-IsStarted t placed m) (λ _ m' st. (
    gigabyte_listed m m' i h st,
    translate-address_map t placed (0xFFFF000000000000 + i * 2 ^ 30) st (omega arith)
        ∙ ground arith,
    translate-address_map t placed (upper_base + i * 2 ^ 30) st (omega arith)
        ∙ upper-address_map i h,
  ))
