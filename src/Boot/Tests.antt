-- ===== src/Boot/Tests.antt =====
-- An image that is started, though its size leads beyond memory.
use mk_os.Base.{
  ℕ, ◌+◌, ◌-◌, ◌^◌, ◌≤◌, ◌<◌, ◌≡◌, refl, ◌⊎◌, true, [], ◌∷◌, none, some, ◌==◌, if◌then◌else◌,
}
use mk_os.Memory.{Memory}
use mk_os.Memory.Copy.{in_range}
use mk_os.Image.{image_header}
use mk_os.Boot.{mask_ntohl, image_limit, load_kernel, refusal, loading_from, invalid_magic}
use mk_os.Console.{hex_from}
use mk_os.Boot.Report.{report, loader_puthex}
use mk_os.Boot.Report.Laws.{loader_puthex-puthex}
use mk_os.Boot.Checks.{IsImage, load_kernel-checks}

-- big-endian words; the load address is 0x40000000, and the size follows from its highest and
-- lowest byte
abbrev flash : (high low : ℕ) → Memory
flash high low a =
    if a == 0
    then 0x27
    else if a == 1
    then 0x05
    else if a == 2
    then 0x19
    else if a == 3
    then 0x56
    else if a == 12
    then high
    else if a == 15
    then low
    else if a == 16
    then 0x40
    else if a == 20
    then 0x40
    else if a == 28
    then 17
    else if a == 29
    then 22
    else if a == 30
    then 2
    else 0

load_kernel-checks_run :
    (load_kernel 0 (flash 0 9) ≡ none)
    ⊎ (IsImage (image_header (flash 0 9) 0)
        × ((n : Memory) × (load_kernel 0 (flash 0 9) ≡ some (0x40000000, n))
            × (0x40000000 + 9 < 2 ^ 32
                → 0 + 64 + 9 ≤ 0x40000000
                → (0x40000000 + 9 ≤ image_limit)
                  × ((a : ℕ)
                      → n a ≡ (
                          if in_range a 0x40000000 9
                          then flash 0 9 (0 + 64 + (a - 0x40000000))
                          else flash 0 9 a)))))
unfolding mask_ntohl
load_kernel-checks_run = load_kernel-checks 0 (flash 0 9)

loader_puthex-puthex_run : loader_puthex 0xAB0 ≡ b'0' ∷ b'x' ∷ hex_from 16 0xAB0 true
loader_puthex-puthex_run = loader_puthex-puthex 0xAB0

puthex_run : loader_puthex 0xAB0 ≡ b'0' ∷ b'x' ∷ b'A' ∷ b'B' ∷ b'0' ∷ []
unfolding loader_puthex
puthex_run = refl

-- The word is printed as it stands in memory, with its bytes the other way round.
magic_run : report 64 (flash 0 9) ≡ loading_from 64 ∷ invalid_magic 0x27051956 0 ∷ []
unfolding report refusal mask_ntohl
magic_run = refl
