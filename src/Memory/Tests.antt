-- ===== src/Memory/Tests.antt =====
-- The byte routines on memory that holds short strings.
use mk_os.Base.{ℕ, ◌+◌, ◌≡◌, ◌↔◌, ◌<◌, refl, arith, inr, some}
use mk_os.Base.Int.{pos}
use mk_os.Memory.{Memory, store, from, memcpy, memset, memcmp, strncmp, strlen, strnlen}
use mk_os.Memory.Copy.{memcpy_lem, memset_lem}
use mk_os.Memory.Compare.{
  SameString, memcmp_zero_iff, strncmp_zero_iff, IsEnd, strlen_lem, strnlen_lem,
}

-- "ab" at 0 and "abc" at 8
abbrev memory : Memory
memory = store (store (store (store (store (λ a. 0) 0 97) 1 98) 8 97) 9 98) 10 99

two-IsEnd : IsEnd (from memory 0) 2
two-IsEnd = record { ended = refl; first = λ i h e. ground arith }

memcpy_lem_run : memcpy 16 8 3 memory 18 ≡ 99
memcpy_lem_run = memcpy_lem 16 8 3 memory 18 (inr (omega arith))

memset_lem_run : memset 16 0x141 4 memory 17 ≡ 0x41
memset_lem_run = memset_lem 16 0x141 4 memory 17

memcmp_zero_iff_run :
    (memcmp 0 8 2 memory ≡ pos 0) ↔ ((i : ℕ) → i < 2 → memory (0 + i) ≡ memory (8 + i))
memcmp_zero_iff_run = memcmp_zero_iff memory 0 8 2

strncmp_zero_iff_run :
    (strncmp (from memory 0) (from memory 8) 2 ≡ pos 0)
    ↔ SameString (from memory 0) (from memory 8) 2
strncmp_zero_iff_run = strncmp_zero_iff (from memory 0) (from memory 8) 2

strlen_lem_run : strlen 3 (from memory 0) ≡ some 2
strlen_lem_run = strlen_lem 3 2 two-IsEnd (omega arith)

strnlen_lem_run : strnlen (from memory 0) 1 ≡ 1
strnlen_lem_run = strnlen_lem 1 2 two-IsEnd
