-- ===== src/Bitops.antt =====
-- kernel/lib/bitops.c and kernel/lib/ntohl.c. Both are one instruction of the processor, whose
-- result is written out here.
pub mod Laws
mod Tests
use mk_os.Base.{ℕ, zero, suc, ◌+◌, ◌*◌, ◌/◌, ◌%◌, ◌^◌, leb, if◌then◌else◌}

-- the zeros above the topmost one of an `n` bit word
unfoldable pub leading_zeros : ℕ → ℕ → ℕ
leading_zeros zero v = 0
leading_zeros (suc k) v = if leb (2 ^ k) v then 0 else suc (leading_zeros k v)

-- the instruction `clz` on a 64-bit register
unfoldable pub clz : ℕ → ℕ
unfolding leading_zeros
clz v = leading_zeros 64 v

abbrev pub byte : ℕ → ℕ → ℕ
byte i d = d / 2 ^ (8 * i) % 256

-- the instruction `rev` on a 32-bit register
unfoldable pub ntohl : ℕ → ℕ
ntohl d = byte 0 d * 2 ^ 24 + byte 1 d * 2 ^ 16 + byte 2 d * 2 ^ 8 + byte 3 d
