-- ===== src/Syscalls/Print.antt =====
-- What the call for printing leaves on the serial line.
use mk_os.Base.{ℕ, ◌<◌, ◌≡◌, ap, [], ◌++◌, ◌==◌, if◌then◌else◌}
use mk_os.Base.Run.{ok}
use mk_os.Memory.{from}
use mk_os.Memory.Compare.{IsEnd}
use mk_os.Console.Lines.{bytes, puts_lem}
use mk_os.Kernel.{Kernel}
use mk_os.Kernel.Parts.{merge, in_console, console_of, put_console}
use mk_os.Syscalls.{argument, sys_print}

-- `sys_print` prints the string that the task's first register points to, in rounds enough for it,
-- and changes nothing else.
pub sys_print_lem :
    (fuel i n : ℕ) (k : Kernel)
    → IsEnd (from k.vfs.memory (argument i k)) n
    → n < fuel
    → sys_print fuel i k
      ≡ ok tt (record k {
        output =
            k.output ++ (if argument i k == 0 then [] else bytes k.vfs.memory (argument i k) n);
      })
unfolding sys_print in_console merge
sys_print_lem fuel i n k e h =
    ap (λ r. merge put_console r k) (puts_lem fuel (argument i k) n (console_of k) e h)
