-- ===== src/Elf/Describe.antt =====
-- kernel/lib/elf.c: what is printed about the headers of an image. The lines are data.
pub mod Names
use mk_os.Base.{
  ℕ, zero, suc, ◌+◌, ◌*◌, ◌/◌, ◌%◌, ◌^◌, ◌≤◌, ◌<◌, ◌≡◌, ◌↔◌, ◌⊎◌, inl, inr, refl, true, false, ltb,
  ◌==◌, if◌then◌else◌, not, List, [], ◌∷◌, length, ◌++◌, ◌-◌, ◌∙◌, sym, ap, ◌≢◌, Bool-cases, Option,
  none, some, get_elem?, get_or, bit_and, arith,
}
use mk_os.Base.Bits.{bit_and-mask, bit_and-high_mask}
use mk_os.Base.Run.{Run, ok, panic, section_header, Cmd}
use mk_os.Memory.{Memory}
use mk_os.Image.{load32}
use mk_os.Kernel.{Kernel}
use mk_os.Elf.{Elf64Phdr, elf64_phdr, sizeof_phdr}

-- the types of segments that kernel/include/elf_common.h numbers
pub data SegmentType : Type 0 where
  unused load dynamic interpreter note reserved_shlib program_header thread_local_storage :
      SegmentType

-- `PT_NULL` to `PT_TLS`
abbrev pub segment_no : SegmentType → ℕ
segment_no unused = 0
segment_no load = 1
segment_no dynamic = 2
segment_no interpreter = 3
segment_no note = 4
segment_no reserved_shlib = 5
segment_no program_header = 6
segment_no thread_local_storage = 7

abbrev pub pheader_types : List SegmentType
pheader_types =
    unused ∷ load ∷ dynamic ∷ interpreter ∷ note ∷ reserved_shlib ∷ program_header
    ∷ thread_local_storage ∷ []

abbrev pub pf_x : ℕ
pf_x = 1

abbrev pub pf_w : ℕ
pf_w = 2

abbrev pub pf_r : ℕ
pf_r = 4

abbrev pub letter : (perms flag c : ℕ) → ℕ
letter perms flag c = if bit_and perms flag == 0 then b'-' else c

-- The three characters; `perms` is a `uint16_t`.
unfoldable pub str_perms : ℕ → List ℕ
str_perms perms = letter perms pf_r b'r' ∷ letter perms pf_w b'w' ∷ letter perms pf_x b'x' ∷ []

-- what the loop of `parse_program_header` prints about a segment
pub record SegmentLine : Type 0 where
  pub segment_type : SegmentType
  pub perms : List ℕ
  pub offset : ℕ
  pub paddr : ℕ
  pub vaddr : ℕ
  pub file_size : ℕ
  pub mem_size : ℕ
  pub align : ℕ

abbrev pub line_for : SegmentType → Elf64Phdr → SegmentLine
line_for name hdr = record {
  segment_type = name;
  perms = str_perms (hdr.p_flags % 2 ^ 16);
  offset = hdr.p_offset;
  paddr = hdr.p_paddr;
  vaddr = hdr.p_vaddr;
  file_size = hdr.p_filesz;
  mem_size = hdr.p_memsz;
  align = hdr.p_align;
}

-- `none` is a read behind the end of `pheader_types`.
unfoldable pub segment_line : Elf64Phdr → Option SegmentLine
unfolding str_perms
segment_line hdr = elim (get_elem? pheader_types hdr.p_type) [
  | none ↦ none
  | some name ↦ some (line_for name hdr)
]

-- the generic types of sections, and `???`
pub data SectionType : Type 0 where
  null progbits symtab strtab rela hash dynamic_section note_section nobits rel res_shlib dynsym :
      SectionType
  init_array fini_array preinit_array group symtab_shndx unknown : SectionType

-- The generic types, from `SHT_NULL` to `SHT_SYMTAB_SHNDX`; 12 and 13 are the number of none. The
-- types of systems and processors, from `SHT_LOOS` on, are not in the list.
abbrev pub sht_types : List SectionType
sht_types =
    null ∷ progbits ∷ symtab ∷ strtab ∷ rela ∷ hash ∷ dynamic_section ∷ note_section ∷ nobits ∷ rel
    ∷ res_shlib ∷ dynsym ∷ unknown ∷ unknown ∷ init_array ∷ fini_array ∷ preinit_array ∷ group
    ∷ symtab_shndx ∷ []

abbrev pub sheader_types : List SectionType
sheader_types =
    null ∷ progbits ∷ symtab ∷ strtab ∷ rela ∷ hash ∷ dynamic_section ∷ note_section ∷ nobits ∷ rel
    ∷ res_shlib ∷ dynsym ∷ init_array ∷ fini_array ∷ preinit_array ∷ group ∷ symtab_shndx ∷ []

unfoldable pub get_sheader_type : ℕ → SectionType
get_sheader_type ty = if ltb ty 17 then get_or sheader_types ty unknown else unknown

-- `Elf64_Shdr`, with the fields that are printed
pub record Elf64Shdr : Type 0 where
  pub sh_name : ℕ
  pub sh_type : ℕ

abbrev pub elf64_shdr : Memory → ℕ → Elf64Shdr
elf64_shdr m p = record { sh_name = load32 m p; sh_type = load32 m (p + 4) }

abbrev pub sizeof_shdr : ℕ
sizeof_shdr = 64

-- the loop of `parse_section_header`: name and type of each section
unfoldable pub section_lines : Memory → (num hdr : ℕ) → List (ℕ × SectionType)
unfolding get_sheader_type
section_lines m zero hdr = []
section_lines m (suc num) hdr =
    let h = elf64_shdr m hdr in
    (h.sh_name, get_sheader_type h.sh_type) ∷ section_lines m num (hdr + sizeof_shdr)

unfoldable pub parse_section_header :
    (blob size num stridx : ℕ) → Cmd Kernel (List (ℕ × SectionType))
unfolding section_lines
parse_section_header blob size num stridx k =
    if not (sizeof_shdr == size)
    then panic section_header
    else ok (section_lines k.vfs.memory num blob) k
