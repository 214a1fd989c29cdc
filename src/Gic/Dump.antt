-- ===== src/Gic/Dump.antt =====
-- kernel/drivers/gic.c: what the dump of the controller takes from it.
use mk_os.Base.{
  ℕ, zero, suc, ◌+◌, ◌/◌, ◌≤◌, ◌<◌, ◌≡◌, ◌≢◌, refl, ap, ◌∙◌, List, [], ◌∷◌, ◌++◌, ==_of_ne,
  if◌then◌else◌, arith,
}
use mk_os.Gic.{
  Gic, gicd_reg, gicc_reg, gicc_iar, gicc_hppir, gicc_aiar, gicd_ipriorityr, gicd_itargetsr,
  gicd_isenabler, gicd_ispendr, gicd_isactiver, read_iar, read_each, read_all, gic_dump,
}

module _ {H S : Type 0} where
  -- Other registers give nothing away.
  read_all-each :
      (f : ℕ → ℕ) (i n : ℕ) (rest : List ℕ) (g : Gic H S)
      → ((j : ℕ) → j < i + n → f j ≢ gicc_reg gicc_iar)
      → read_all (read_each f i n ++ rest) g ≡ read_all rest g
  unfolding read_all
  read_all-each f i zero rest g h = refl
  read_all-each f i (suc n) rest g h =
      ap (λ b. read_all (read_each f (i + 1) n ++ rest) (if b then (read_iar g).1 else g))
        (==_of_ne (h i (omega arith)))
      ∙ read_all-each f (i + 1) n rest g (λ j p. h j (omega arith))

  -- the last three reads
  read_all-last :
      (g : Gic H S)
      → read_all (gicc_reg gicc_iar ∷ gicc_reg gicc_hppir ∷ gicc_reg gicc_aiar ∷ []) g
        ≡ (read_iar g).1
  unfolding read_all
  read_all-last g = refl

  -- For up to 1020 interrupts, which is all that a controller can have, the dump takes exactly two
  -- values from GICC_IAR, and with each one acknowledges an interrupt; it changes nothing else.
  pub gic_dump-acknowledges :
      (g : Gic H S) → g.irq_count ≤ 1020 → gic_dump g ≡ (read_iar (read_iar g).1).1
  unfolding gic_dump read_all
  gic_dump-acknowledges g h =
      let few : g.irq_count / 4 ≤ 255 = omega arith in
      let fewer : g.irq_count / 32 ≤ 31 = omega arith in
      read_all-each (λ i. gicd_reg (gicd_ipriorityr i)) 0 (g.irq_count / 4) _ (read_iar g).1
        (λ j p e. omega arith)
      ∙ read_all-each (λ i. gicd_reg (gicd_itargetsr i)) 0 (g.irq_count / 4) _ (read_iar g).1
          (λ j p e. omega arith)
      ∙ read_all-each (λ i. gicd_reg (gicd_isenabler i)) 0 (g.irq_count / 32) _ (read_iar g).1
          (λ j p e. omega arith)
      ∙ read_all-each (λ i. gicd_reg (gicd_ispendr i)) 0 (g.irq_count / 32) _ (read_iar g).1
          (λ j p e. omega arith)
      ∙ read_all-each (λ i. gicd_reg (gicd_isactiver i)) 0 (g.irq_count / 32) _ (read_iar g).1
          (λ j p e. omega arith)
      ∙ read_all-last (read_iar g).1
