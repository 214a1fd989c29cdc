-- ===== src/Console/Tests.antt =====
-- Strings and numbers on an empty serial line.
use mk_os.Base.{ℕ, ◌≡◌, refl, arith, List, [], ◌∷◌}
use mk_os.Base.Run.{ok}
use mk_os.Memory.{store, from}
use mk_os.Memory.Compare.{IsEnd}
use mk_os.Console.{
  Console, send, putc, getc, puts, puts_from, gets, gets_from, hex_from, puthex, putreg,
}
use mk_os.Console.Hex.{value, puthex-value}
use mk_os.Console.Lines.{puts_lem}

-- "ab" at 16; "x", a carriage return and "y" to come
abbrev console : Console
console = record {
  input = 120 ∷ 13 ∷ 121 ∷ [];
  output = [];
  memory = store (store (λ a. 0) 16 97) 17 98;
}

two-IsEnd : IsEnd (from console.memory 16) 2
two-IsEnd = record { ended = refl; first = λ i h e. ground arith }

puts_lem_run : puts 3 16 console ≡ ok tt (send (97 ∷ 98 ∷ []) console)
puts_lem_run = puts_lem 3 16 2 console two-IsEnd (omega arith)

puthex-value_run :
    (ds : List ℕ) × (puthex 0x1F0 console ≡ ok tt (send (48 ∷ 120 ∷ ds) console))
    × (value 0 ds ≡ 0x1F0)
puthex-value_run = puthex-value 0x1F0 console (omega arith)

putreg_run :
    putreg 3 16 0x1F0 console
    ≡ ok tt (send (97 ∷ 98 ∷ 58 ∷ 32 ∷ 48 ∷ 120 ∷ 49 ∷ 70 ∷ 48 ∷ 10 ∷ []) console)
unfolding putreg puts puts_from puthex hex_from putc
putreg_run = refl

gets_run :
    gets 32 7 console
    ≡ ok tt (record console {
      input = 121 ∷ [];
      output = 120 ∷ 13 ∷ [];
      memory = store (store (store (store console.memory 39 0) 32 120) 33 13) 33 0;
    })
unfolding gets gets_from getc putc
gets_run = refl
