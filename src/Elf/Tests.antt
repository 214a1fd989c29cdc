-- ===== src/Elf/Tests.antt =====
-- A program of five bytes and three more of memory, behind its headers.
use mk_os.Base.{
  ℕ, ◌+◌, ◌-◌, ◌≡◌, refl, arith, ◌⊎◌, ◌<◌, ◌≤◌, ◌↔◌, some, none, get_or, inl, inr, leb, ltb, ◌==◌,
  ◌&&◌, false, [], ◌∷◌, if◌then◌else◌,
}
use mk_os.Base.Run.{ok, panic, no_continuous_memory, elf_failed, wrong_program_header, Settles}
use mk_os.Memory.{Memory}
use mk_os.Kernel.{Kernel, no_task}
use mk_os.Elf.{
  Elf64Phdr, elf64_phdr, elf64_ehdr, sizeof_phdr, fill, load_segment, load_segments,
  parse_program_header, parse_elf, load_elf,
}
use mk_os.Elf.Checks.{IsSupported, parse_elf-checks, load_segments-placed}
use mk_os.Elf.Program.{IsProgram}
use mk_os.Elf.Load.{IsReadyFor, ElfLoaded, load_elf-Settles}
use mk_os.Elf.Segments.{fill_lem, Loaded, IsLoadable, load_segment-Settles}
use mk_os.Elf.Describe.{
  SegmentLine, segment_line, get_sheader_type, sht_types, unknown, preinit_array, progbits,
  parse_section_header, str_perms,
}
use mk_os.Elf.Describe.Names.{IsAbout, get_sheader_type_iff, segment_line_outcome}
use mk_os.Fixtures.{pool, pool-IsSound, kernel}

abbrev blob : ℕ
blob = 0x1000

-- the header, one program header at 64, and the bytes 1 to 5 at 120
abbrev image : Memory
image a =
    if a == blob
    then 0x7F
    else if a == blob + 1
    then 69
    else if a == blob + 2
    then 76
    else if a == blob + 3
    then 70
    else if a == blob + 4
    then 2
    else if a == blob + 5
    then 1
    else if a == blob + 18
    then 183
    else if a == blob + 32
    then 64
    else if a == blob + 54
    then 56
    else if a == blob + 56
    then 1
    else if a == blob + 64
    then 1
    else if a == blob + 72
    then 120
    else if a == blob + 96
    then 5
    else if a == blob + 104
    then 8
    else if leb (blob + 120) a && ltb a (blob + 125)
    then a - blob - 119
    else 0

abbrev segment : Elf64Phdr
segment = elf64_phdr image (blob + 64)

abbrev start : Kernel
start = kernel (no_task ∷ []) image

segment-IsLoadable : IsLoadable 8 segment (blob + 120) pool
segment-IsLoadable = record {
  sound = pool-IsSound;
  small = omega arith;
  fits = omega arith;
  some_memory = omega arith;
  word = omega arith;
  inside = omega arith;
  apart = λ p h. inl (omega arith);
}

load_segment-Settles_run :
    Settles
      (λ _ l. Loaded 8 0 segment (blob + 120) start l)
      no_continuous_memory
      (load_segment 0 segment (blob + 64) 64 start)
load_segment-Settles_run =
    load_segment-Settles {lim = 8} 0 segment (blob + 64) 64 start segment-IsLoadable

image-IsProgram : IsProgram image blob 125 segment
image-IsProgram = record {
  supported = refl;
  entries = refl;
  low = omega arith;
  skipped = 0;
  rest = 0;
  count = refl;
  listed = omega arith;
  none_before = λ x h. absurd (omega arith);
  found = refl;
  loads = refl;
  some_memory = omega arith;
  word = omega arith;
  inside = omega arith;
  whole = omega arith;
}

start-IsReadyFor : IsReadyFor 8 0 blob 125 start
start-IsReadyFor = record {
  sound = pool-IsSound;
  small = omega arith;
  start = omega arith;
  fits = omega arith;
  high = omega arith;
  apart = λ p h. inl (omega arith);
  place = omega arith;
  empty = refl;
}

load_elf-Settles_example :
    Settles
      (ElfLoaded start-IsReadyFor image-IsProgram)
      no_continuous_memory
      (load_elf 0 blob 125 start)
load_elf-Settles_example = load_elf-Settles start-IsReadyFor image-IsProgram

fill_lem_run : fill 0x40010000 4096 (blob + 120) 5 image 0x40010002 ≡ 3
fill_lem_run =
    fill_lem 0x40010000 4096 (blob + 120) 5 image 0x40010002 (omega arith) (omega arith)
      (omega arith) (inr (omega arith))

parse_elf-checks_example :
    (IsSupported (elf64_ehdr image blob) 125
      × (56 ≡ sizeof_phdr)
      × (parse_elf 0 blob 125 start ≡ load_segments 0 1 (blob + 64) (blob + 64) 64 start))
    ⊎ ((parse_elf 0 blob 125 start ≡ panic elf_failed)
        ⊎ (parse_elf 0 blob 125 start ≡ panic wrong_program_header))
parse_elf-checks_example = parse_elf-checks 0 blob 125 start

abbrev placed : Kernel
placed = kernel (record no_task { vma_addr = 0x40010000 } ∷ []) image

load_segments-placed_run : load_segments 0 1 (blob + 64) (blob + 64) 64 placed ≡ ok tt placed
load_segments-placed_run =
    load_segments-placed 0 1 (blob + 64) (blob + 64) 64 placed (λ e. omega arith)

-- loaded already, so nothing is to be done
load_run : load_elf 0 blob 125 placed ≡ ok false placed
unfolding load_elf parse_elf parse_program_header load_segments
load_run = refl

segment_line_outcome_run :
    (segment.p_type < 8) × ((l : SegmentLine) × (segment_line segment ≡ some l) × IsAbout segment l)
    ⊎ (8 ≤ segment.p_type) × (segment_line segment ≡ none)
segment_line_outcome_run = segment_line_outcome segment

get_sheader_type_iff_example :
    (14 < 19 → ((get_sheader_type 14 ≡ get_or sht_types 14 unknown) ↔ (14 < 12)))
    × (12 ≤ 14 → get_sheader_type 14 ≡ get_or sht_types (14 + 2) unknown)
get_sheader_type_iff_example = get_sheader_type_iff 14

-- the type of initialisation arrays
init_array_run : get_sheader_type 14 ≡ preinit_array
unfolding get_sheader_type
init_array_run = refl

str_perms_run : str_perms 5 ≡ b'r' ∷ b'-' ∷ b'x' ∷ []
unfolding str_perms
str_perms_run = refl

sections_run : parse_section_header (blob + 60) 64 1 0 start ≡ ok ((0, progbits) ∷ []) start
unfolding parse_section_header
sections_run = refl
