-- ===== src/Memory.antt =====
-- The byte routines of kernel/lib: memcpy.c, memset.c, memcmp.c, strncmp.c and strlen.c.
pub mod Copy
pub mod Compare
mod Tests
use mk_os.Base.{
  ℕ, zero, suc, ◌+◌, ◌-◌, ◌*◌, ◌%◌, ◌^◌, Bool, Option, none, some, ◌==◌, if◌then◌else◌,
}
use mk_os.Base.Int.{ℤ, pos, sub_ℕ}

-- the byte at each address
abbrev pub Memory : Type 0
Memory = ℕ → ℕ

abbrev pub store : Memory → ℕ → ℕ → Memory
store m p v a = if a == p then v else m a

-- the bytes that a pointer leads to
abbrev pub from : Memory → ℕ → Memory
from m p i = m (p + i)

pub memcpy : (dest src cnt : ℕ) → Memory → Memory
memcpy dest src zero m = m
memcpy dest src (suc cnt) m = memcpy (dest + 1) (src + 1) cnt (store m dest (m src))

-- A `char` keeps the low byte of the `int`.
pub memset : (dest c n : ℕ) → Memory → Memory
memset dest c zero m = m
memset dest c (suc n) m = memset (dest + 1) c n (store m dest (c % 256))

-- `char` is unsigned on this processor; an `int` difference is an integer.
pub memcmp : (d1 d2 cnt : ℕ) → Memory → ℤ
memcmp d1 d2 zero m = pos 0
memcmp d1 d2 (suc cnt) m =
    let rest = memcmp (d1 + 1) (d2 + 1) cnt m in if m d1 == m d2 then rest else sub_ℕ (m d1) (m d2)

-- The two strings are given by the bytes that the pointers lead to.
pub strncmp : (s1 s2 : Memory) (n : ℕ) → ℤ
strncmp s1 s2 zero = pos 0
strncmp s1 s2 (suc n) =
    let rest = strncmp (λ i. s1 (suc i)) (λ i. s2 (suc i)) n in
    if s1 0 == s2 0 then (if s1 0 == 0 then pos 0 else rest) else sub_ℕ (s1 0) (s2 0)

-- `none` where no zero byte has come within the rounds given
pub strlen : ℕ → Memory → Option ℕ
strlen zero s = none
strlen (suc fuel) s =
    let rest = mathlib.Core.Option.map suc (strlen fuel (λ i. s (suc i))) in
    if s 0 == 0 then some 0 else rest

pub strnlen : Memory → (maxlen : ℕ) → ℕ
strnlen s zero = 0
strnlen s (suc maxlen) = if s 0 == 0 then 0 else suc (strnlen (λ i. s (suc i)) maxlen)
