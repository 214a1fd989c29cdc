-- ===== src/Gic/Tests.antt =====
-- A controller of 32 interrupts, of which number 30 counts how often it comes.
use mk_os.Base.{ℕ, ◌+◌, ◌^◌, ◌≡◌, refl, arith, some, [], ◌∷◌, replicate, set}
use mk_os.Base.Run.{Cmd, ok, panic, no_such_interrupt, Ends, ends}
use mk_os.Gic.{
  Gic, no_handler, gicd_reg, gicd_isenabler, gicd_icenabler, gicc_reg, gicc_ctlr, gicc_eoir,
  iowrite32, init_writes, gic_init, gic_disable_interrupts, gic_disable_irq, gic_register_irq,
  gic_unregister_irq, run_handler, on_rest, handle_from, gic_handle_irq, gic_do,
}
use mk_os.Gic.Serve.{IsServed, Served, gic_handle_irq-Served, gic_register_irq-IsServed}

-- the only handler
data TestHandler : Type 0 where
  counting : TestHandler

abbrev count : TestHandler → ℕ → Cmd ℕ (Unit {0})
count h arg n = ok tt (n + arg)

abbrev empty : Gic TestHandler ℕ
empty = record {
  irq_handlers = replicate 32 no_handler;
  irq_count = 32;
  pending = [];
  writes = [];
  rest = 0;
}

-- number 30 comes twice
abbrev busy : Gic TestHandler ℕ
busy = record empty {
  irq_handlers = set (replicate 32 no_handler) 30 (record { fcn = some counting; arg = 1 });
  pending = 30 ∷ 30 ∷ [];
}

thirty-IsServed : IsServed busy.irq_handlers 32 30
thirty-IsServed = record {
  handler = counting;
  real = λ e. omega arith;
  known = omega arith;
  registered = refl;
}

gic_handle_irq-Served_example :
    Ends (λ _ t. Served (λ n. Unit {0}) (30 ∷ 30 ∷ []) busy t) (gic_handle_irq count busy)
gic_handle_irq-Served_example =
    gic_handle_irq-Served (λ n. Unit {0}) count (λ h arg s p. ends tt) busy tt
      (thirty-IsServed, (thirty-IsServed, tt))

gic_register_irq-IsServed_run :
    Ends
      (λ _ t.
        IsServed t.irq_handlers t.irq_count 30
        × (t.writes ≡ (gicd_reg (gicd_isenabler 0), 2 ^ 30) ∷ []))
      (gic_register_irq 30 counting 1 empty)
gic_register_irq-IsServed_run =
    gic_register_irq-IsServed 30 1 counting empty (omega arith) (omega arith) refl

handle_run :
    gic_handle_irq count busy
    ≡ ok tt (record busy {
      pending = [];
      writes = (gicc_reg gicc_eoir, 30) ∷ (gicc_reg gicc_eoir, 30) ∷ [];
      rest = 2;
    })
unfolding gic_handle_irq handle_from run_handler on_rest
handle_run = refl

unregister_run :
    gic_unregister_irq 30 busy
    ≡ ok tt (record empty {
      pending = busy.pending;
      writes = (gicd_reg (gicd_icenabler 0), 2 ^ 30) ∷ [];
    })
unfolding gic_unregister_irq gic_disable_irq
unregister_run = refl

disable_run : gic_disable_irq 32 busy ≡ panic no_such_interrupt
unfolding gic_disable_irq
disable_run = refl

switch_run :
    gic_disable_interrupts (iowrite32 (gicc_reg gicc_ctlr) 1 empty)
    ≡ ok tt (record empty { writes = (gicc_reg gicc_ctlr, 1) ∷ (gicc_reg gicc_ctlr, 0) ∷ [] })
unfolding gic_disable_interrupts
switch_run = refl

-- one register of 32 interrupts, with the table at 0x1000
init_run :
    gic_init (λ size g. ok 0x1000 g) 0 empty ≡ ok tt (record empty { writes = init_writes 32 })
unfolding gic_init
init_run = refl

-- number 5 has no handler, and number 30 comes behind it
abbrev spurious : Gic TestHandler ℕ
spurious = record busy { pending = 5 ∷ 30 ∷ 30 ∷ 30 ∷ [] }

do_run : gic_do (0 ∷ 0 ∷ 4 ∷ []) busy ≡ ok tt (record busy { pending = [] })
unfolding gic_do
do_run = refl
