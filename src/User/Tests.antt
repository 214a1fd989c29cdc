-- ===== src/User/Tests.antt =====
-- The current task prints two letters that lie at 0x40020000.
use mk_os.Base.{◌≡◌, refl, arith, [], ◌∷◌, ◌==◌, if◌then◌else◌, set}
use mk_os.Base.Run.{ok}
use mk_os.Memory.{Memory}
use mk_os.Kernel.{Kernel, task_active, no_task}
use mk_os.Memory.{from}
use mk_os.Memory.Compare.{IsEnd}
use mk_os.User.{with_argument, user_puts, libc_main}
use mk_os.User.Output.{user_puts-prints, libc_main-prints}
use mk_os.Fixtures.{numbered, kernel}

abbrev text : Memory
text a = if a == 0x40020000 then b'o' else if a == 0x40020001 then b'k' else 0

abbrev printing : Kernel
printing = kernel (set (numbered 0 50) 7 (record no_task { tid = 7; state = task_active })) text

text-IsEnd : IsEnd (from text 0x40020000) 2
text-IsEnd = record { ended = refl; first = λ i h z. ground arith }

user_puts-prints_run :
    user_puts 9 0 0 7 0x40020000 printing
    ≡ ok tt (record (with_argument 0 7 0x40020000 printing) { output = b'o' ∷ b'k' ∷ [] })
user_puts-prints_run =
    user_puts-prints 9 0 7 0x40020000 2 printing refl (omega arith) (omega arith) (omega arith)
      text-IsEnd (omega arith)

libc_main-prints_example :
    libc_main 9 0 0 7 0x40020000 printing
    ≡ ok tt (record (with_argument 0 7 0x40020000 printing) { output = b'o' ∷ b'k' ∷ [] })
libc_main-prints_example =
    libc_main-prints 9 0 7 0x40020000 2 printing refl (omega arith) (omega arith) (omega arith)
      text-IsEnd (omega arith)
