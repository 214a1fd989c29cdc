-- ===== src/Gic.antt =====
-- kernel/drivers/gic.c: the interrupt controller, as what is read from its registers and what is
-- written to them, in order.
pub mod Registers
pub mod Dump
pub mod Serve
mod Tests
use mk_os.Base.{
  ℕ, zero, suc, ◌+◌, ◌*◌, ◌/◌, ◌%◌, ◌^◌, Bool, true, false, ◌||◌, Option, none, some, List, [], ◌∷◌,
  ◌++◌, leb, ◌==◌, if◌then◌else◌, bit_and, get_or, set, replicate,
}
use mk_os.Base.Run.{
  Run, ok, panic, fault, out_of_fuel, no_such_interrupt, handlers_failed, Cmd, pure, and_then,
  ◌>>=◌, ◌>>◌,
}
pub use mk_os.Gic.Registers.{
  gicd_reg, gicc_reg, gicd_ctlr, gicd_typer, gicd_iidr, gicd_igroupr, gicd_isenabler,
  gicd_icenabler, gicd_ispendr, gicd_isactiver, gicd_ipriorityr, gicd_itargetsr, gicd_icfgr,
  gicc_ctlr, gicc_pmr, gicc_iar, gicc_hppir, gicc_aiar, gicc_iidr, gicc_eoir,
}

-- `struct gic_handler`, for handlers `H`
pub record GicHandler (H : Type 0) : Type 0 where
  pub fcn : Option H
  pub arg : ℕ

-- the static variables of gic.c, what later reads of GICC_IAR give before no interrupt is pending,
-- the writes so far, and the state `S` that the handlers work on
pub record Gic (H S : Type 0) : Type 0 where
  pub irq_handlers : List (GicHandler H)
  pub irq_count : ℕ
  pub pending : List ℕ
  pub writes : List (ℕ × ℕ)
  pub rest : S

abbrev pub no_handler : {H : Type 0} → GicHandler H
no_handler = record { fcn = none; arg = 0 }

-- the writes of one loop of `gic_init`, for `i` from `i` on in `n` rounds
abbrev pub write_all : (ℕ → List (ℕ × ℕ)) → (i n : ℕ) → List (ℕ × ℕ)
write_all f i zero = []
write_all f i (suc n) = f i ++ write_all f (i + 1) n

-- `irq_count` for the value of GICD_TYPER
abbrev pub count_for : ℕ → ℕ
count_for typer = 32 * (bit_and typer 0xF + 1)

abbrev pub init_writes : ℕ → List (ℕ × ℕ)
init_writes count =
    write_all (λ i. (gicd_reg (gicd_igroupr i), 0) ∷ []) 0 (count / 32)
    ++ (write_all
          (λ i. (gicd_reg (gicd_ipriorityr i), 0) ∷ (gicd_reg (gicd_itargetsr i), 0xFFFFFFFF) ∷ [])
          0 (count / 4)
        ++ (write_all (λ i. (gicd_reg (gicd_icfgr i), 0xAAAAAAAA) ∷ []) 0 (count / 16)
            ++ (gicd_reg gicd_ctlr, 1) ∷ (gicc_reg gicc_pmr, 1) ∷ []))

-- the registers that one loop of `gic_dump` reads, for `i` from `i` on in `n` rounds
abbrev pub read_each : (ℕ → ℕ) → (i n : ℕ) → List ℕ
read_each f i zero = []
read_each f i (suc n) = f i ∷ read_each f (i + 1) n

-- the registers that `gic_dump` reads for the calls of `printk`, in their order
abbrev pub dump_reads : ℕ → List ℕ
dump_reads count =
    (gicd_reg gicd_iidr ∷ gicd_reg gicd_typer ∷ gicc_reg gicc_iidr ∷ gicc_reg gicc_iar ∷ [])
    ++ (read_each (λ i. gicd_reg (gicd_ipriorityr i)) 0 (count / 4)
        ++ (read_each (λ i. gicd_reg (gicd_itargetsr i)) 0 (count / 4)
            ++ (read_each (λ i. gicd_reg (gicd_isenabler i)) 0 (count / 32)
                ++ (read_each (λ i. gicd_reg (gicd_ispendr i)) 0 (count / 32)
                    ++ (read_each (λ i. gicd_reg (gicd_isactiver i)) 0 (count / 32)
                        ++ gicc_reg gicc_iar ∷ gicc_reg gicc_hppir ∷ gicc_reg gicc_aiar ∷ [])))))

module _ {H S : Type 0} where
  abbrev pub iowrite32 : (reg v : ℕ) → Gic H S → Gic H S
  iowrite32 reg v g = record g { writes = g.writes ++ (reg, v) ∷ [] }

  unfoldable pub gic_enable_interrupts : Cmd (Gic H S) (Unit {0})
  gic_enable_interrupts g = ok tt (iowrite32 (gicc_reg gicc_ctlr) 1 g)

  unfoldable pub gic_disable_interrupts : Cmd (Gic H S) (Unit {0})
  gic_disable_interrupts g = ok tt (iowrite32 (gicc_reg gicc_ctlr) 0 g)

  -- the register and the bit of an interrupt
  unfoldable pub gic_enable_irq : ℕ → Cmd (Gic H S) (Unit {0})
  gic_enable_irq num g =
      if leb g.irq_count num
      then panic no_such_interrupt
      else ok tt (iowrite32 (gicd_reg (gicd_isenabler (num / 32))) (2 ^ (num % 32)) g)

  unfoldable pub gic_disable_irq : ℕ → Cmd (Gic H S) (Unit {0})
  gic_disable_irq num g =
      if leb g.irq_count num
      then panic no_such_interrupt
      else ok tt (iowrite32 (gicd_reg (gicd_icenabler (num / 32))) (2 ^ (num % 32)) g)

  unfoldable pub gic_register_irq : ℕ → H → ℕ → Cmd (Gic H S) (Unit {0})
  unfolding gic_enable_irq
  gic_register_irq num fcn parm g =
      if leb g.irq_count num
      then ok tt g
      else gic_enable_irq num (record g {
        irq_handlers = set g.irq_handlers num (record { fcn = some fcn; arg = parm });
      })

  unfoldable pub gic_unregister_irq : ℕ → Cmd (Gic H S) (Unit {0})
  unfolding gic_disable_irq
  gic_unregister_irq num g =
      if leb g.irq_count num
      then ok tt g
      else and_then (gic_disable_irq num g)
          (λ _ h. ok tt (record h { irq_handlers = set h.irq_handlers num no_handler }))

  -- `GICC_IAR`, which gives 0x3FF where nothing is pending
  abbrev pub read_iar : Gic H S → ℕ × Gic H S
  read_iar g = elim g.pending [ [] ↦ (0x3FF, g) | r ∷ rs ↦ (r, record g { pending = rs }) ]

  -- Reads that are only printed: GICC_IAR alone changes by being read.
  unfoldable pub read_all : List ℕ → Gic H S → Gic H S
  read_all [] g = g
  read_all (r ∷ rs) g = read_all rs (if r == gicc_reg gicc_iar then (read_iar g).1 else g)

  unfoldable pub gic_dump : Gic H S → Gic H S
  unfolding read_all
  gic_dump g = read_all (dump_reads g.irq_count) g

  -- The loop of `gic_do`, by the values that it reads from GICD_ISPENDR(0)
  unfoldable pub wait_pending : List ℕ → Cmd (Gic H S) (Unit {0})
  wait_pending [] g = out_of_fuel
  wait_pending (v ∷ vs) g = let rest = wait_pending vs g in if v == 0 then rest else ok tt g

  unfoldable pub gic_do : List ℕ → Cmd (Gic H S) (Unit {0})
  unfolding gic_dump wait_pending
  gic_do values g = and_then (wait_pending values (gic_dump g)) (λ _ h. ok tt (gic_dump h))

  -- `kzalloc` of the handlers' bytes, and the value read from GICD_TYPER
  unfoldable pub gic_init : (ℕ → Cmd (Gic H S) ℕ) → ℕ → Cmd (Gic H S) (Unit {0})
  gic_init kzalloc typer g =
      let count = count_for typer in
      and_then (kzalloc (count * 16) (record g { irq_count = count })) (λ p h.
        if p == 0
        then panic handlers_failed
        else ok tt (record h {
          irq_handlers = replicate count no_handler;
          writes = h.writes ++ init_writes count;
        }))

  module _ (invoke : H → ℕ → Cmd S (Unit {0})) where
    on_rest : Gic H S → Run S (Unit {0}) → Run (Gic H S) (Unit {0})
    on_rest g (ok a s) = ok a (record g { rest = s })
    on_rest g (panic why) = panic why
    on_rest g fault = fault
    on_rest g out_of_fuel = out_of_fuel

    -- the call of a handler, on the rest of the state
    pub run_handler : H → ℕ → Cmd (Gic H S) (Unit {0})
    unfolding on_rest
    run_handler h arg g = on_rest g (invoke h arg g.rest)

    -- the loop of `gic_handle_irq`, by the values still to be read
    pub handle_from : List ℕ → Cmd (Gic H S) (Unit {0})
    unfolding run_handler gic_dump
    handle_from [] g = ok tt g
    handle_from (r ∷ rs) g =
        let irqno = r % 2 ^ 10 in
        let read = record g { pending = rs } in
        let h = get_or g.irq_handlers irqno no_handler in
        let spurious = ok tt (gic_dump read) in
        if irqno == 0x3FF
        then ok tt read
        else if leb g.irq_count irqno
        then spurious
        else elim h.fcn [
          | none ↦ spurious
          | some f ↦
              and_then (run_handler f h.arg read)
                (λ _ t. handle_from rs (iowrite32 (gicc_reg gicc_eoir) irqno t))
        ]

    pub gic_handle_irq : Cmd (Gic H S) (Unit {0})
    unfolding handle_from
    gic_handle_irq g = handle_from g.pending g
