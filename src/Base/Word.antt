-- ===== src/Base/Word.antt =====
-- C's integer operations on 32 and 64 bits.
use Prim.Native.Nat.{ℕ, ◌+◌, ◌-◌, ◌%◌, ◌^◌, ◌<◌}
use mathlib.Core.Path.{◌≡◌, ap}
use native.Mathlib.Nat.{mod-eq_of_lt}

-- `unsigned` arithmetic
abbrev pub add32 : ℕ → ℕ → ℕ
add32 a b = (a + b) % 2 ^ 32

abbrev pub sub32 : ℕ → ℕ → ℕ
sub32 a b = (a + 2 ^ 32 - b) % 2 ^ 32

-- `uint64_t` and pointer arithmetic
abbrev pub add64 : ℕ → ℕ → ℕ
add64 a b = (a + b) % 2 ^ 64

abbrev pub sub64 : ℕ → ℕ → ℕ
sub64 a b = (a + 2 ^ 64 - b) % 2 ^ 64

-- `1 << k`: C leaves it undefined from 32 on, where the processor takes `k` modulo 32.
abbrev pub shl_one : ℕ → ℕ
shl_one k = 2 ^ (k % 32)

pub shl_one_lt : (k : ℕ) → k < 32 → shl_one k ≡ 2 ^ k
shl_one_lt k h = ap (λ (j : ℕ). 2 ^ j) (mod-eq_of_lt h)
