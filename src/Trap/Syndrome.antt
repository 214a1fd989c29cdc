-- ===== src/Trap/Syndrome.antt =====
-- The explanations of an exception (kernel/core/trap.c): the lines that `parse_dabt` and
-- `translate_exception_syndrome` print, by names.
use mk_os.Base.{ℕ, ◌%◌, ◌^◌, Option, none, some, ◌==◌, if◌then◌else◌}
use mk_os.Trap.{exception_class, syndrome}

-- the lines for a data fault status code
pub data FaultStatus : Type 0 where
  address_size_level_0 address_size_level_1 address_size_level_2 address_size_level_3 : FaultStatus
  translation_level_0 translation_level_1 translation_level_2 translation_level_3 : FaultStatus
  access_flag_level_1 access_flag_level_2 access_flag_level_3 permission_level_1 : FaultStatus
  permission_level_2 permission_level_3 unknown_status : FaultStatus

unfoldable pub parse_dabt : ℕ → FaultStatus
parse_dabt iss =
    let dfsc = iss % 2 ^ 6 in
    if dfsc == 0
    then address_size_level_0
    else if dfsc == 1
    then address_size_level_1
    else if dfsc == 2
    then address_size_level_2
    else if dfsc == 3
    then address_size_level_3
    else if dfsc == 4
    then translation_level_0
    else if dfsc == 5
    then translation_level_1
    else if dfsc == 6
    then translation_level_2
    else if dfsc == 7
    then translation_level_3
    else if dfsc == 9
    then access_flag_level_1
    else if dfsc == 10
    then access_flag_level_2
    else if dfsc == 11
    then access_flag_level_3
    else if dfsc == 13
    then permission_level_1
    else if dfsc == 14
    then permission_level_2
    else if dfsc == 15
    then permission_level_3
    else unknown_status

-- instruction aborts are read as data aborts are
unfoldable pub parse_iabt : ℕ → FaultStatus
unfolding parse_dabt
parse_iabt = parse_dabt

-- the lines for an exception class
pub data ExceptionClass : Type 0 where
  unknown_reason wfi_or_wfe mcr_cp15 mcrr_cp15 mcr_cp14 ldc_cp14 simd_disabled mrc_cp10 :
      ExceptionClass
  mrrc_cp14 illegal_state svc_aa32 hvc_aa32 smc_aa32 svc_aa64 hvc_aa64 smc_aa64 : ExceptionClass
  msr_or_system el3_defined iabt_lower iabt_current misaligned_pc dabt_lower dabt_current :
      ExceptionClass
  stack_alignment floating_point_1 floating_point_2 serror breakpoint_lower : ExceptionClass
  breakpoint_current step_lower step_current watchpoint_lower watchpoint_current : ExceptionClass
  bkpt_aa32 vector_catch_aa32 brk_aa64 unknown_class : ExceptionClass

unfoldable pub explain_class : ℕ → ExceptionClass
explain_class ec =
    if ec == 0x0
    then unknown_reason
    else if ec == 0x1
    then wfi_or_wfe
    else if ec == 0x3
    then mcr_cp15
    else if ec == 0x4
    then mcrr_cp15
    else if ec == 0x5
    then mcr_cp14
    else if ec == 0x6
    then ldc_cp14
    else if ec == 0x7
    then simd_disabled
    else if ec == 0x8
    then mrc_cp10
    else if ec == 0xC
    then mrrc_cp14
    else if ec == 0xE
    then illegal_state
    else if ec == 0x11
    then svc_aa32
    else if ec == 0x12
    then hvc_aa32
    else if ec == 0x13
    then smc_aa32
    else if ec == 0x15
    then svc_aa64
    else if ec == 0x16
    then hvc_aa64
    else if ec == 0x17
    then smc_aa64
    else if ec == 0x18
    then msr_or_system
    else if ec == 0x1F
    then el3_defined
    else if ec == 0x20
    then iabt_lower
    else if ec == 0x21
    then iabt_current
    else if ec == 0x22
    then misaligned_pc
    else if ec == 0x24
    then dabt_lower
    else if ec == 0x25
    then dabt_current
    else if ec == 0x26
    then stack_alignment
    else if ec == 0x28
    then floating_point_1
    else if ec == 0x2C
    then floating_point_2
    else if ec == 0x2F
    then serror
    else if ec == 0x30
    then breakpoint_lower
    else if ec == 0x31
    then breakpoint_current
    else if ec == 0x32
    then step_lower
    else if ec == 0x33
    then step_current
    else if ec == 0x34
    then watchpoint_lower
    else if ec == 0x35
    then watchpoint_current
    else if ec == 0x38
    then bkpt_aa32
    else if ec == 0x3A
    then vector_catch_aa32
    else if ec == 0x3C
    then brk_aa64
    else unknown_class

-- the line for the class, and that for the fault where an abort has one
unfoldable pub translate_exception_syndrome : ℕ → ExceptionClass × Option FaultStatus
unfolding explain_class parse_iabt parse_dabt
translate_exception_syndrome esr =
    let ec = exception_class esr in
    let iss = syndrome esr in
    (
      explain_class ec,
      if ec == 0x20
          then some (parse_iabt iss)
          else if ec == 0x21
          then some (parse_iabt iss)
          else if ec == 0x24
          then some (parse_dabt iss)
          else if ec == 0x25
          then some (parse_dabt iss)
          else none,
    )
