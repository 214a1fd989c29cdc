-- ===== src/Layout/Align.antt =====
-- The masks of page.h round to a multiple of the page size.
use mk_os.Base.{ℕ, ◌+◌, ◌*◌, ◌/◌, ◌%◌, ◌^◌, ◌≤◌, ◌<◌, ◌≡◌, arith}
use mk_os.Base.Bits.{bit_and-high_mask}
use mk_os.Layout.{align_pgup, align_pgdown, align_pgup64}

-- Below the last page of the word, `ALIGN_PGUP` rounds up to a multiple of the page size.
pub align_pgup_lem : (x : ℕ) → x + 4095 < 2 ^ 32 → align_pgup x ≡ (x + 4095) / 4096 * 4096
unfolding align_pgup
align_pgup_lem x h = omega (arith, bit_and-high_mask 12 20 ((x + 4095) % 2 ^ 32))

-- In the last page of the word the sum overflows, and nothing is left.
pub align_pgup_overflow : (x : ℕ) → x < 2 ^ 32 → 2 ^ 32 ≤ x + 4095 → align_pgup x ≡ 0
unfolding align_pgup
align_pgup_overflow x word h = omega (arith, bit_and-high_mask 12 20 ((x + 4095) % 2 ^ 32))

-- `ALIGN_PGDOWN` rounds down to a multiple of the page size.
pub align_pgdown_lem : (x : ℕ) → x < 2 ^ 32 → align_pgdown x ≡ x / 4096 * 4096
unfolding align_pgdown
align_pgdown_lem x h = omega (arith, bit_and-high_mask 12 20 x)

pub align_pgup64_lem : (x : ℕ) → x + 4095 < 2 ^ 64 → align_pgup64 x ≡ (x + 4095) / 4096 * 4096
unfolding align_pgup64
align_pgup64_lem x h = omega (arith, bit_and-high_mask 12 52 ((x + 4095) % 2 ^ 64))
