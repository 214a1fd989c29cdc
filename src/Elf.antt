-- ===== src/Elf.antt =====
-- kernel/lib/elf.c: a program is loaded from an ELF image in memory (the structures are those of
-- kernel/include/elf64.h).
pub mod Checks
pub mod Describe
pub mod Segments
pub mod Program
pub mod Load
mod Tests
use mk_os.Base.{
  ℕ, zero, suc, ◌+◌, ◌*◌, ◌/◌, ◌%◌, ◌^◌, Bool, true, false, ltb, ◌==◌, if◌then◌else◌, not, ◌&&◌,
}
use mk_os.Base.Run.{
  Run, ok, panic, wrong_program_header, elf_failed, Cmd, pure, and_then, ◌>>=◌, ◌>>◌,
}
use mk_os.Base.Word.{add64, sub64}
use mk_os.Layout.{page_shift, align_pgup64}
use mk_os.Memory.{Memory, memcpy, memset}
use mk_os.Image.{load32}
use mk_os.Page.{page_alloc}
use mk_os.Kernel.{Task, Kernel, task, set_task}
use mk_os.Kernel.Parts.{in_pool}

abbrev pub load16 : Memory → ℕ → ℕ
load16 m p = m p + m (p + 1) * 2 ^ 8

abbrev pub load64 : Memory → ℕ → ℕ
load64 m p = load32 m p + load32 m (p + 4) * 2 ^ 32

-- `Elf64_Phdr`
pub record Elf64Phdr : Type 0 where
  pub p_type : ℕ
  pub p_flags : ℕ
  pub p_offset : ℕ
  pub p_vaddr : ℕ
  pub p_paddr : ℕ
  pub p_filesz : ℕ
  pub p_memsz : ℕ
  pub p_align : ℕ

abbrev pub elf64_phdr : Memory → ℕ → Elf64Phdr
elf64_phdr m p = record {
  p_type = load32 m p;
  p_flags = load32 m (p + 4);
  p_offset = load64 m (p + 8);
  p_vaddr = load64 m (p + 16);
  p_paddr = load64 m (p + 24);
  p_filesz = load64 m (p + 32);
  p_memsz = load64 m (p + 40);
  p_align = load64 m (p + 48);
}

abbrev pub sizeof_phdr : ℕ
sizeof_phdr = 56

abbrev pub pt_load : ℕ
pt_load = 1

-- `Elf64_Ehdr`, with the fields that the code uses
pub record Elf64Ehdr : Type 0 where
  pub is_elf : Bool
  pub ei_class : ℕ
  pub ei_data : ℕ
  pub e_machine : ℕ
  pub e_phoff : ℕ
  pub e_phentsize : ℕ
  pub e_phnum : ℕ

abbrev pub elfmag0 : ℕ
elfmag0 = 0x7F

abbrev pub elfmag1 : ℕ
elfmag1 = b'E'

abbrev pub elfmag2 : ℕ
elfmag2 = b'L'

abbrev pub elfmag3 : ℕ
elfmag3 = b'F'

-- `IS_ELF` of the header at `p`
abbrev pub has_magic : Memory → ℕ → Bool
has_magic m p =
    m p == elfmag0 && m (p + 1) == elfmag1 && m (p + 2) == elfmag2 && m (p + 3) == elfmag3

abbrev pub elf64_ehdr : Memory → ℕ → Elf64Ehdr
elf64_ehdr m p = record {
  is_elf = has_magic m p;
  ei_class = m (p + 4);
  ei_data = m (p + 5);
  e_machine = load16 m (p + 18);
  e_phoff = load64 m (p + 32);
  e_phentsize = load16 m (p + 54);
  e_phnum = load16 m (p + 56);
}

abbrev pub sizeof_ehdr : ℕ
sizeof_ehdr = 64

abbrev pub elfclass64 : ℕ
elfclass64 = 2

abbrev pub elfdata2lsb : ℕ
elfdata2lsb = 1

abbrev pub em_aarch64 : ℕ
em_aarch64 = 183

abbrev pub set_memory : Memory → Kernel → Kernel
set_memory m k = record k { vfs = record k.vfs { memory = m } }

-- `vma_size` for a segment of `p_memsz` bytes
abbrev pub vma_size_for : ℕ → ℕ
vma_size_for p_memsz = align_pgup64 p_memsz % 2 ^ 32

-- the two calls that fill the memory of the program; a count is an `unsigned`
abbrev pub fill : (vma_addr vma_size src p_filesz : ℕ) → Memory → Memory
fill vma_addr vma_size src p_filesz m =
    memset (add64 vma_addr p_filesz) 0 (sub64 vma_size p_filesz % 2 ^ 32)
      (memcpy vma_addr src (p_filesz % 2 ^ 32) m)

-- what the loop does for a segment to be loaded, where the task `i` has no memory yet
pub load_segment : (i : ℕ) → Elf64Phdr → (blob hdr_offset : ℕ) → Cmd Kernel (Unit {0})
load_segment i hdr blob hdr_offset k =
    let size = vma_size_for hdr.p_memsz in
    and_then (in_pool (page_alloc (size / 2 ^ page_shift)) k) (λ addr l. ok tt (
      set_memory
        (fill addr size (sub64 (add64 blob hdr.p_offset) hdr_offset) hdr.p_filesz l.vfs.memory)
        (set_task i (record (task l i) { vma_size = size; vma_addr = addr }) l)))

-- the loop over the program headers from `hdr` on
pub load_segments : (i num hdr blob hdr_offset : ℕ) → Cmd Kernel (Unit {0})
unfolding load_segment
load_segments i zero hdr blob hdr_offset k = ok tt k
load_segments i (suc num) hdr blob hdr_offset k =
    let h = elf64_phdr k.vfs.memory hdr in
    let skip = load_segments i num (hdr + sizeof_phdr) blob hdr_offset k in
    let loaded =
      and_then (load_segment i h blob hdr_offset k)
        (λ _. load_segments i num (hdr + sizeof_phdr) blob hdr_offset) in
    if h.p_type == pt_load && (task k i).vma_addr == 0 then loaded else skip

pub parse_program_header : (i blob size num hdr_offset : ℕ) → Cmd Kernel (Unit {0})
unfolding load_segments
parse_program_header i blob size num hdr_offset k =
    if not (size == sizeof_phdr)
    then panic wrong_program_header
    else load_segments i num blob blob hdr_offset k

-- the tests of `parse_elf`
abbrev pub is_supported : Elf64Ehdr → ℕ → Bool
is_supported hdr size =
    if ltb size sizeof_ehdr
    then false
    else if not hdr.is_elf
    then false
    else if not (hdr.ei_class == elfclass64)
    then false
    else if not (hdr.ei_data == elfdata2lsb)
    then false
    else if not (hdr.e_machine == em_aarch64)
    then false
    else true

pub parse_elf : (i blob size : ℕ) → Cmd Kernel (Unit {0})
unfolding parse_program_header
parse_elf i blob size k =
    let hdr = elf64_ehdr k.vfs.memory blob in
    if is_supported hdr size
    then parse_program_header i (add64 blob hdr.e_phoff) hdr.e_phentsize hdr.e_phnum
        (hdr.e_phoff % 2 ^ 32) k
    else panic elf_failed

-- The result is whether the task has no memory.
pub load_elf : (i blob size : ℕ) → Cmd Kernel Bool
unfolding parse_elf
load_elf i blob size k = and_then (parse_elf i blob size k) (λ _ l. ok ((task l i).vma_addr == 0) l)
