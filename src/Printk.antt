-- ===== src/Printk.antt =====
-- kernel/lib/printk.c and the macros of kernel/include/printk.h: formatted messages on the console.
pub mod Output
mod Tests
use Prim.Native.Char.{code}
use Prim.Native.String.{String}
use mk_os.Base.{
  ℕ, zero, suc, ◌+◌, ◌-◌, ◌≤◌, ◌<◌, ◌≡◌, ◌≢◌, ◌⊎◌, Bool, true, false, List, [], ◌∷◌, ◌++◌, leb, ltb,
  if◌then◌else◌, min, length, get_or,
}
use mk_os.Base.Run.{Run, ok, out_of_fuel, Cmd, and_then}
use mk_os.Memory.{Memory, store}
use mk_os.Console.{Console, puts}

abbrev pub config_printk_buffer_len : ℕ
config_printk_buffer_len = 1024

-- The third-party `vsnprintf`, over the arguments `A` of a call, by its documented behaviour: it
-- returns the length of the whole text, writes of it what fits before the last byte of the room
-- given, ends that with a zero byte, and changes no other byte. A text may have zero bytes, by "%c".
pub record Vsnprintf (A : Type 0) : Type 0 where
  pub text : List ℕ → A → List ℕ
  pub format : (buf size : ℕ) → List ℕ → A → Memory → Memory
  pub written :
      (buf size : ℕ) (fmt : List ℕ) (args : A) (m : Memory) (i : ℕ)
      → i < min (length (text fmt args)) (size - 1)
      → format buf size fmt args m (buf + i) ≡ get_or (text fmt args) i 0
  pub ended :
      (buf size : ℕ) (fmt : List ℕ) (args : A) (m : Memory)
      → 0 < size
      → format buf size fmt args m (buf + min (length (text fmt args)) (size - 1)) ≡ 0
  pub untouched :
      (buf size : ℕ) (fmt : List ℕ) (args : A) (m : Memory) (a : ℕ)
      → (a < buf) ⊎ (buf + size ≤ a)
      → format buf size fmt args m a ≡ m a

-- the four kinds of messages
pub data Level : Type 0 where
  dbg info wrn err : Level

-- `PRINTK_LEVEL_DBG` to `PRINTK_LEVEL_ERR`
abbrev pub printk_level_of : Level → ℕ
printk_level_of dbg = 0
printk_level_of info = 1
printk_level_of wrn = 2
printk_level_of err = 3

-- `PRINTK_LEVEL`
abbrev pub printk_level : ℕ
printk_level = 1

-- whether the macro of a level prints anything
abbrev pub is_printed : Level → Bool
is_printed l = leb printk_level (printk_level_of l)

-- the bytes of an ASCII text
abbrev pub codes : String → List ℕ
codes String.[] = []
codes (String.◌∷◌ c s) = code c ∷ codes s

abbrev escape : String → List ℕ
escape s = 27 ∷ codes s

abbrev colour : Level → List ℕ
colour dbg = escape "[2;37m"
colour info = escape "[32m"
colour wrn = escape "[34m"
colour err = escape "[31m"

-- the format that `__sys_msg` passes on for the format `x`
unfoldable pub sys_msg : Level → List ℕ → List ℕ
sys_msg l x = colour l ++ (codes "[$][%5s] %5s:%d " ++ (x ++ escape "[37;40;0m"))

module _ {A : Type 0} (lib : Vsnprintf A) (printf_buf : ℕ) where
  -- The rounds of `puts` are those that the buffer has room for.
  unfoldable pub printk : List ℕ → A → Cmd Console ℕ
  printk fmt args s =
      let first = store s.memory printf_buf 0 in
      let last = store first (printf_buf + (config_printk_buffer_len - 1)) 0 in
      let filled = lib.format printf_buf (config_printk_buffer_len - 1) fmt args last in
      and_then (puts config_printk_buffer_len printf_buf (record s { memory = filled }))
        (λ _ t. ok (length (lib.text fmt args)) t)

  -- `dbg`, `info`, `wrn` and `err`; the arguments begin with the level's name, the file and the line
  unfoldable pub message : Level → List ℕ → A → Cmd Console (Unit {0})
  unfolding printk sys_msg
  message l x args s =
      if is_printed l then and_then (printk (sys_msg l x) args s) (λ _ t. ok tt t) else ok tt s
