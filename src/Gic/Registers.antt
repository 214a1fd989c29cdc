-- ===== src/Gic/Registers.antt =====
-- kernel/drivers/gic.c: the registers of the interrupt controller.
use mk_os.Base.{ℕ, ◌+◌, ◌*◌}

-- registers of the distributor (`CONFIG_GICD_CPU_BASE`) and of the processor's interface
abbrev pub gicd_reg : ℕ → ℕ
gicd_reg r = 0x08000000 + r

abbrev pub gicc_reg : ℕ → ℕ
gicc_reg r = 0x08010000 + r

abbrev pub gicd_ctlr : ℕ
gicd_ctlr = 0

abbrev pub gicd_typer : ℕ
gicd_typer = 4

abbrev pub gicd_iidr : ℕ
gicd_iidr = 8

abbrev pub gicd_igroupr : ℕ → ℕ
gicd_igroupr n = 0x80 + n * 4

abbrev pub gicd_isenabler : ℕ → ℕ
gicd_isenabler n = 0x100 + n * 4

abbrev pub gicd_icenabler : ℕ → ℕ
gicd_icenabler n = 0x180 + n * 4

abbrev pub gicd_ispendr : ℕ → ℕ
gicd_ispendr n = 0x200 + n * 4

abbrev pub gicd_isactiver : ℕ → ℕ
gicd_isactiver n = 0x300 + n * 4

abbrev pub gicd_ipriorityr : ℕ → ℕ
gicd_ipriorityr n = 0x400 + n * 4

abbrev pub gicd_itargetsr : ℕ → ℕ
gicd_itargetsr n = 0x800 + n * 4

abbrev pub gicd_icfgr : ℕ → ℕ
gicd_icfgr n = 0xC00 + n * 4

abbrev pub gicc_ctlr : ℕ
gicc_ctlr = 0

abbrev pub gicc_pmr : ℕ
gicc_pmr = 4

abbrev pub gicc_iar : ℕ
gicc_iar = 0xC

abbrev pub gicc_hppir : ℕ
gicc_hppir = 0x18

abbrev pub gicc_aiar : ℕ
gicc_aiar = 0x20

abbrev pub gicc_iidr : ℕ
gicc_iidr = 0xFC

abbrev pub gicc_eoir : ℕ
gicc_eoir = 0x10
