-- ===== src/Fixtures/Flash.antt =====
-- Flash with one file, "a": a program of five bytes and three more of memory.
use mk_os.Base.{ℕ, ◌+◌, ◌≡◌, refl, arith, ◌==◌, if◌then◌else◌}
use mk_os.Bitops.{ntohl}
use mk_os.Memory.{Memory}
use mk_os.Vfs.{config_nor_cs1_start}
use mk_os.Elf.{Elf64Phdr, elf64_phdr}
use mk_os.Elf.Program.{IsProgram}

abbrev pub base : ℕ
base = config_nor_cs1_start

-- the header of the image, those of the program, and the bytes 1 to 5
abbrev pub flash : Memory
flash a =
    if a == base + 0
    then 39
    else if a == base + 1
    then 5
    else if a == base + 2
    then 25
    else if a == base + 3
    then 86
    else if a == base + 15
    then 125
    else if a == base + 19
    then 64
    else if a == base + 23
    then 68
    else if a == base + 29
    then 22
    else if a == base + 32
    then 97
    else if a == base + 64
    then 127
    else if a == base + 65
    then 69
    else if a == base + 66
    then 76
    else if a == base + 67
    then 70
    else if a == base + 68
    then 2
    else if a == base + 69
    then 1
    else if a == base + 82
    then 183
    else if a == base + 96
    then 64
    else if a == base + 118
    then 56
    else if a == base + 120
    then 1
    else if a == base + 128
    then 1
    else if a == base + 136
    then 120
    else if a == base + 160
    then 5
    else if a == base + 168
    then 8
    else if a == base + 184
    then 1
    else if a == base + 185
    then 2
    else if a == base + 186
    then 3
    else if a == base + 187
    then 4
    else if a == base + 188
    then 5
    else 0

abbrev pub segment : Elf64Phdr
segment = elf64_phdr flash (base + 128)

pub flash-IsProgram : IsProgram flash (base + 64) 125 segment
flash-IsProgram = record {
  supported = refl;
  entries = refl;
  low = omega arith;
  skipped = 0;
  rest = 0;
  count = refl;
  listed = omega arith;
  none_before = λ x h. absurd (omega arith);
  found = refl;
  loads = refl;
  some_memory = omega arith;
  word = omega arith;
  inside = omega arith;
  whole = omega arith;
}

pub size_read : ntohl 0x7D000000 ≡ 125
unfolding ntohl
size_read = refl
