-- ===== src/Elf/Checks.antt =====
-- Which images are loaded, and which of their segments.
use mk_os.Base.{
  ℕ, zero, suc, ◌+◌, ◌%◌, ◌^◌, ◌≤◌, ◌≡◌, ◌≢◌, refl, ◌⊎◌, arith, inl, inr, ◌==◌, ==_of_ne, true,
  Bool-cases,
}
use mk_os.Base.Run.{ok, panic, elf_failed, wrong_program_header}
use mk_os.Base.Word.{add64}
use mk_os.Kernel.{Kernel, task}
use mk_os.Elf.{
  Elf64Ehdr, elf64_phdr, elf64_ehdr, sizeof_phdr, sizeof_ehdr, pt_load, elfclass64, elfdata2lsb,
  em_aarch64, is_supported, load_segments, parse_program_header, parse_elf,
}

-- an image for this processor
pub record IsSupported (hdr : Elf64Ehdr) (size : ℕ) : Type 0 where
  pub long : sizeof_ehdr ≤ size
  pub magic : hdr.is_elf ≡ true
  pub class : hdr.ei_class ≡ elfclass64
  pub encoding : hdr.ei_data ≡ elfdata2lsb
  pub machine : hdr.e_machine ≡ em_aarch64

pub is_supported-IsSupported :
    (hdr : Elf64Ehdr) (size : ℕ) → is_supported hdr size ≡ true → IsSupported hdr size
is_supported-IsSupported hdr size h = record {
  long = ground arith;
  magic = ground arith;
  class = ground arith;
  encoding = ground arith;
  machine = ground arith;
}

-- An image of which `load_elf` accepts the header is a 64-bit little-endian ELF image for this
-- processor, whose program headers have the right size; every other one makes the kernel panic.
pub parse_elf-checks :
    (i blob size : ℕ) (k : Kernel)
    → let hdr = elf64_ehdr k.vfs.memory blob in
      (IsSupported hdr size
        × (hdr.e_phentsize ≡ sizeof_phdr)
        × (parse_elf i blob size k
            ≡ load_segments i hdr.e_phnum
                (add64 blob hdr.e_phoff)
                (add64 blob hdr.e_phoff)
                (hdr.e_phoff % 2 ^ 32)
                k))
      ⊎ ((parse_elf i blob size k ≡ panic elf_failed)
          ⊎ (parse_elf i blob size k ≡ panic wrong_program_header))
unfolding parse_elf parse_program_header
parse_elf-checks i blob size k =
    let hdr = elf64_ehdr k.vfs.memory blob in
    elim (Bool-cases (is_supported hdr size)) [
      | inr bad ↦ inr (inl (rw bad refl))
      | inl good ↦ elim (Bool-cases (hdr.e_phentsize == sizeof_phdr)) [
        | inl exact ↦
            inl (is_supported-IsSupported hdr size good, ground arith, rw (good, exact) refl)
        | inr other ↦ inr (inr (rw (good, other) refl))
      ]
    ]

-- Where the task has memory, the loop changes nothing: only the first segment to be loaded is.
pub load_segments-placed :
    (i num hdr blob offset : ℕ) (k : Kernel)
    → (task k i).vma_addr ≢ 0
    → load_segments i num hdr blob offset k ≡ ok tt k
unfolding load_segments
load_segments-placed i zero hdr blob offset k h = refl
load_segments-placed i (suc num) hdr blob offset k h =
    elim (Bool-cases ((elf64_phdr k.vfs.memory hdr).p_type == pt_load)) [
      | inl seg ↦
          rw (seg, ==_of_ne h) (load_segments-placed i num (hdr + sizeof_phdr) blob offset k h)
      | inr other ↦ rw other (load_segments-placed i num (hdr + sizeof_phdr) blob offset k h)
    ]
