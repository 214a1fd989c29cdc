-- ===== src/Mm/Build.antt =====
-- kernel/core/mm.c: what the four tables hold once `mmu_init` has filled them.
use mk_os.Base.{
  ℕ, zero, suc, ◌+◌, ◌*◌, ◌%◌, ◌^◌, ◌≤◌, ◌<◌, ◌≡◌, ◌≢◌, ◌⊎◌, inl, inr, refl, sym, ap, ◌∙◌, true,
  false, ◌&&◌, ltb, ◌==◌, if◌then◌else◌, Bool-cases, ==_iff, ==_of_eq, true-false, arith,
}
use mk_os.Base.Run.{ok}
use mk_os.Mm.{
  TableName, l0table_ttbr0, l1table_ttbr0, l0table_ttbr1, l1table_ttbr1, Tables, place, update,
  cleared, build_tables, link_tables, map_blocks, map_block,
}
use mk_os.Mm.Dump.{Mmu}
use mk_os.Mm.Entry.{pg_4k, make_block, make_table}
use mk_os.Mm.Fields.{make_table_4k}

-- Every table starts at a page of the first 4 GB, and no two of them overlap.
pub record IsPlaced (t : Tables) : Type 0 where
  pub aligned : (x : TableName) → place t x % 4096 ≡ 0
  pub low : (x : TableName) → place t x < 2 ^ 32
  pub apart :
      (x y : TableName) → x ≢ y → (place t x + 4096 ≤ place t y) ⊎ (place t y + 4096 ≤ place t x)

abbrev table_no : TableName → ℕ
table_no l0table_ttbr0 = 0
table_no l1table_ttbr0 = 1
table_no l0table_ttbr1 = 2
table_no l1table_ttbr1 = 3

abbrev named : ℕ → TableName
named zero = l0table_ttbr0
named (suc zero) = l1table_ttbr0
named (suc (suc zero)) = l0table_ttbr1
named (suc (suc (suc n))) = l1table_ttbr1

named-table_no : (x : TableName) → named (table_no x) ≡ x
named-table_no l0table_ttbr0 = refl
named-table_no l1table_ttbr0 = refl
named-table_no l0table_ttbr1 = refl
named-table_no l1table_ttbr1 = refl

same-eq : (x y : TableName) → table_no x ≡ table_no y → x ≡ y
same-eq x y e = sym (named-table_no x) ∙ ap named e ∙ named-table_no y

same_cases :
    (x y : TableName)
    → ((table_no y == table_no x) ≡ true) × (x ≡ y) ⊎ ((table_no y == table_no x) ≡ false) × (x ≢ y)
same_cases x y = elim (Bool-cases (table_no y == table_no x)) [
  | inl e ↦ inl (e, same-eq x y (sym ((==_iff (table_no y) (table_no x)).0 e)))
  | inr n ↦ inr (n, λ q. true-false (sym (==_of_eq (ap table_no (sym q))) ∙ n))
]

-- the entry at each place of each table
abbrev Content : Type 0
Content = TableName → ℕ → ℕ

abbrev put : Content → TableName → ℕ → ℕ → Content
put c x i v y j = if table_no y == table_no x && j == i then v else c y j

abbrev wipe : Content → TableName → Content
wipe c x y j = if table_no y == table_no x then 0 else c y j

nothing_left :
    (x : TableName) (c : Content) (j : ℕ)
    → wipe (wipe (wipe (wipe c l0table_ttbr0) l1table_ttbr0) l0table_ttbr1) l1table_ttbr1 x j ≡ 0
nothing_left l0table_ttbr0 c j = refl
nothing_left l1table_ttbr0 c j = refl
nothing_left l0table_ttbr1 c j = refl
nothing_left l1table_ttbr1 c j = refl

-- what the tables hold in the end
abbrev pub content : Tables → TableName → ℕ → ℕ
content t l0table_ttbr0 j = if j == 0 then t.l1_ttbr0 + 3 else 0
content t l1table_ttbr0 j = if ltb j 4 then j * 2 ^ 30 + 0x44D else 0
content t l0table_ttbr1 j = if j == 0 then t.l1_ttbr1 + 3 else 0
content t l1table_ttbr1 j = if ltb j 4 then j * 2 ^ 30 + 0x44D else 0

-- Memory holds this content in the tables.
pub record Holds (t : Tables) (memory : ℕ → ℕ) (c : TableName → ℕ → ℕ) : Type 0 where
  pub reads : (x : TableName) (j : ℕ) → j < 512 → memory (place t x + 8 * j) ≡ c x j

module _ (t : Tables) (placed : IsPlaced t) where
  Holds-update :
      (memory : ℕ → ℕ) (c : Content) (x : TableName) (i v : ℕ)
      → i < 512
      → Holds t memory c
      → Holds t (update memory (place t x + 8 * i) v) (put c x i v)
  Holds-update memory c x i v hi h = record {
    reads = λ y j hj. elim (same_cases x y) [
      | inl (e, q) ↦ rw (e, ap (place t) q) (ground (arith, h.reads y j))
      | inr (e, q) ↦ rw e (ground (arith, h.reads y j, placed.apart x y q))
    ];
  }

  Holds-cleared :
      (memory : ℕ → ℕ) (c : Content) (x : TableName)
      → Holds t memory c
      → Holds t (cleared memory (place t x)) (wipe c x)
  Holds-cleared memory c x h = record {
    reads = λ y j hj. elim (same_cases x y) [
      | inl (e, q) ↦ rw (e, ap (place t) q) (ground arith)
      | inr (e, q) ↦ rw e (ground (arith, h.reads y j, placed.apart x y q))
    ];
  }

  make_table-at : (x : TableName) → make_table (place t x) 0 pg_4k ≡ place t x + 3
  make_table-at x = make_table_4k (place t x) 0 ∙ omega (arith, placed.aligned x, placed.low x)

  Holds-first :
      {memory : ℕ → ℕ} {c : Content} (x : TableName) (v : ℕ)
      → Holds t memory c
      → Holds t (update memory (place t x) v) (put c x 0 v)
  Holds-first {memory} {c} x v h =
      let e : place t x + 8 * 0 ≡ place t x = omega arith in
      rw e at (Holds-update memory c x 0 v (omega arith) h)

  Holds-put :
      {memory : ℕ → ℕ} {c : Content} (x : TableName) (i v : ℕ)
      → i < 512
      → Holds t memory c
      → Holds t (update memory (place t x + 8 * i) v) (put c x i v)
  Holds-put x i v hi h = Holds-update _ _ x i v hi h

  Holds-wiped :
      {memory : ℕ → ℕ} {c : Content} (x : TableName)
      → Holds t memory c
      → Holds t (cleared memory (place t x)) (wipe c x)
  Holds-wiped x h = Holds-cleared _ _ x h

  -- the four calls of `memset`
  all_cleared : (ℕ → ℕ) → ℕ → ℕ
  all_cleared memory =
      cleared (cleared (cleared (cleared memory t.l0_ttbr0) t.l1_ttbr0) t.l0_ttbr1) t.l1_ttbr1

  Holds-all_cleared : (memory : ℕ → ℕ) → Holds t (all_cleared memory) (λ x j. 0)
  unfolding all_cleared
  Holds-all_cleared memory =
      let h0 : Holds t memory (λ x j. memory (place t x + 8 * j)) = record {
        reads = λ x j hj. refl;
      } in
      let h =
        Holds-wiped l1table_ttbr1
          (Holds-wiped l0table_ttbr1 (Holds-wiped l1table_ttbr0 (Holds-wiped l0table_ttbr0 h0))) in
      record {
        reads = λ x j hj. h.reads x j hj ∙ nothing_left x (λ y i. memory (place t y + 8 * i)) j;
      }

  -- the same entry in both tables at level 1
  abbrev mirrored : Content → ℕ → ℕ → Content
  mirrored c i v = put (put c l1table_ttbr0 i v) l1table_ttbr1 i v

  Holds-mirrored :
      {memory : ℕ → ℕ} {c : Content} (i v : ℕ)
      → i < 512
      → Holds t memory c
      → Holds t
          (update (update memory (t.l1_ttbr0 + 8 * i) v) (t.l1_ttbr1 + 8 * i) v)
          (mirrored c i v)
  Holds-mirrored i v hi h = Holds-put l1table_ttbr1 i v hi (Holds-put l1table_ttbr0 i v hi h)

  abbrev linked : Content
  linked = put (put (λ x j. 0) l0table_ttbr0 0 (t.l1_ttbr0 + 3)) l0table_ttbr1 0 (t.l1_ttbr1 + 3)

  filled :
      (x : TableName) (j : ℕ)
      → mirrored
          (mirrored (mirrored (mirrored linked 0 0x44D) 1 (2 ^ 30 + 0x44D)) 2 (2 * 2 ^ 30 + 0x44D))
          3
          (3 * 2 ^ 30 + 0x44D)
          x
          j
        ≡ content t x j
  filled l0table_ttbr0 j = refl
  filled l1table_ttbr0 j = ground arith
  filled l0table_ttbr1 j = refl
  filled l1table_ttbr1 j = ground arith

  -- After `build_tables` the tables hold the links and the blocks and nothing else, and the
  -- registers and the trace are as before.
  pub build_tables-Holds :
      (m : Mmu)
      → (memory : ℕ → ℕ) × (build_tables t m ≡ ok tt (record m { memory = memory }))
        × Holds t memory (content t)
  unfolding build_tables link_tables map_blocks map_block make_block all_cleared
  build_tables-Holds m = (
    _,
    refl,
    (let h0 = Holds-first l0table_ttbr1 (make_table t.l1_ttbr1 0 pg_4k) (
          Holds-first l0table_ttbr0 (make_table t.l1_ttbr0 0 pg_4k) (Holds-all_cleared m.memory)) in
        let h1 = rw (make_table-at l1table_ttbr0, make_table-at l1table_ttbr1) at h0 in
        let h3 = Holds-mirrored 3 (3 * 2 ^ 30 + 0x44D) (omega arith) (
          Holds-mirrored 2 (2 * 2 ^ 30 + 0x44D) (omega arith) (
            Holds-mirrored 1 (2 ^ 30 + 0x44D) (omega arith)
              (Holds-mirrored 0 0x44D (omega arith) h1))) in
        rw (make_table-at l1table_ttbr0, make_table-at l1table_ttbr1)
          (record { reads = λ x j hj. h3.reads x j hj ∙ filled x j })),
  )
