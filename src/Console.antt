-- ===== src/Console.antt =====
-- kernel/lib/kern_console.c: strings and numbers on the serial line.
pub mod Hex
pub mod Lines
mod Tests
use mk_os.Base.{
  ℕ, zero, suc, ◌+◌, ◌-◌, ◌*◌, ◌/◌, ◌%◌, ◌^◌, Bool, true, false, List, [], ◌∷◌, ◌++◌, ◌==◌, ltb,
  ◌&&◌, if◌then◌else◌,
}
use mk_os.Base.Run.{Run, ok, out_of_fuel, Cmd, pure, and_then, ◌>>=◌, ◌>>◌}
use mk_os.Memory.{Memory, store}

-- The serial line (kernel/drivers/early_uart.S): the bytes still to come in, those that have gone
-- out, and the memory that strings lie in.
pub record Console : Type 0 where
  pub input : List ℕ
  pub output : List ℕ
  pub memory : Memory

abbrev pub send : List ℕ → Console → Console
send cs s = record s { output = s.output ++ cs }

pub putc : ℕ → Cmd Console (Unit {0})
putc c s = ok tt (send (c ∷ []) s)

-- `uart_get` waits for a byte, for ever where none comes.
abbrev uart_get : Cmd Console ℕ
uart_get s = elim s.input [ [] ↦ out_of_fuel | c ∷ cs ↦ ok c (record s { input = cs }) ]

pub getc : Cmd Console ℕ
unfolding putc
getc = uart_get >>= λ c. putc c >> pure c

-- the loop of `puts`; each round takes a byte
pub puts_from : ℕ → ℕ → Cmd Console (Unit {0})
puts_from zero p s = out_of_fuel
puts_from (suc fuel) p s =
    let rest = puts_from fuel (p + 1) (send (s.memory p ∷ []) s) in
    if s.memory p == 0 then ok tt s else rest

-- The rounds are given; a string that ends within them is printed.
pub puts : ℕ → ℕ → Cmd Console (Unit {0})
unfolding puts_from
puts fuel p s = if p == 0 then ok tt s else puts_from fuel p s

abbrev carriage_return : ℕ
carriage_return = 13

-- the loop of `gets`, with `n` rounds left
pub gets_from : ℕ → ℕ → Cmd Console (Unit {0})
unfolding getc
gets_from p zero s = ok tt s
gets_from p (suc n) s = and_then (getc s) (λ c t.
    if c == carriage_return
    then ok tt (record t { memory = store (store t.memory p c) p 0 })
    else gets_from (p + 1) n (record t { memory = store t.memory p c }))

-- `gets` of a buffer of `suc n` bytes; one of no byte would be overrun.
pub gets : ℕ → ℕ → Cmd Console (Unit {0})
unfolding gets_from
gets p n s =
    if p == 0 then ok tt s else gets_from p n (record s { memory = store s.memory (p + n) 0 })

abbrev pub hex_digit : ℕ → ℕ
hex_digit c = if ltb c 10 then 48 + c else 65 + c - 10

-- the loop of `puthex` over the `i` digits from the right, with the `0` behind it; `zeros` says
-- that only zeros have been seen
unfoldable pub hex_from : (i n : ℕ) → Bool → List ℕ
hex_from zero n zeros = if zeros then 48 ∷ [] else []
hex_from (suc i) n zeros =
    let c = n / 16 ^ i % 16 in
    let skipped = hex_from i n true in
    let printed = hex_digit c ∷ hex_from i n false in if zeros && c == 0 then skipped else printed

pub puthex : ℕ → Cmd Console (Unit {0})
unfolding hex_from
puthex n s = ok tt (send (48 ∷ 120 ∷ hex_from 16 n true) s)

pub putreg : ℕ → (name val : ℕ) → Cmd Console (Unit {0})
unfolding puts puthex putc
putreg fuel name val =
    puts fuel name >> (λ s. ok tt (send (58 ∷ 32 ∷ []) s)) >> puthex val >> putc 10
