-- ===== src/Elf/Program.antt =====
-- Programs that `load_elf` accepts: the image is read from its bytes, wherever they are.
use mk_os.Base.{ℕ, ◌+◌, ◌*◌, ◌^◌, ◌≤◌, ◌<◌, ◌≡◌, ◌≢◌, refl, ap, sym, ◌∙◌, arith, suc, true}
use mk_os.Memory.{Memory}
use mk_os.Image.{load32}
use mk_os.Image.Same.{SameBytes, byte-same, load32-same}
use mk_os.Elf.{
  Elf64Phdr, Elf64Ehdr, load16, load64, elf64_phdr, elf64_ehdr, sizeof_phdr, sizeof_ehdr, pt_load,
  is_supported,
}

module _ {n : ℕ} {m m' : Memory} {p q : ℕ} (same : SameBytes n m p m' q) where
  load64-same : (a b x : ℕ) → a ≡ p + x → b ≡ q + x → x + 8 ≤ n → load64 m a ≡ load64 m' b
  load64-same a b x ea eb h = omega (
    arith,
    load32-same same a b x ea eb (omega arith),
    load32-same same (a + 4) (b + 4) (x + 4) (omega arith) (omega arith) (omega arith),
  )

  load16-same : (a b x : ℕ) → a ≡ p + x → b ≡ q + x → x + 2 ≤ n → load16 m a ≡ load16 m' b
  load16-same a b x ea eb h = omega (
    arith,
    byte-same same a b x ea eb (omega arith),
    byte-same same (a + 1) (b + 1) (x + 1) (omega arith) (omega arith) (omega arith),
  )

  -- the program header `x` bytes behind the beginning
  pub elf64_phdr-same :
      (a b x : ℕ) → a ≡ p + x → b ≡ q + x → x + sizeof_phdr ≤ n → elf64_phdr m a ≡ elf64_phdr m' b
  elf64_phdr-same a b x ea eb h =
      let word = λ (d : ℕ) (hd : d + 8 ≤ sizeof_phdr).
        load64-same (a + d) (b + d) (x + d) (omega arith) (omega arith) (omega arith) in
      let e0 : load32 m a ≡ load32 m' b = load32-same same a b x ea eb (omega arith) in
      let e4 : load32 m (a + 4) ≡ load32 m' (b + 4) =
        load32-same same (a + 4) (b + 4) (x + 4) (omega arith) (omega arith) (omega arith) in
      let e8 : load64 m (a + 8) ≡ load64 m' (b + 8) = word 8 (omega arith) in
      let e16 : load64 m (a + 16) ≡ load64 m' (b + 16) = word 16 (omega arith) in
      let e24 : load64 m (a + 24) ≡ load64 m' (b + 24) = word 24 (omega arith) in
      let e32 : load64 m (a + 32) ≡ load64 m' (b + 32) = word 32 (omega arith) in
      let e40 : load64 m (a + 40) ≡ load64 m' (b + 40) = word 40 (omega arith) in
      let e48 : load64 m (a + 48) ≡ load64 m' (b + 48) = word 48 (omega arith) in
      rw (e0, e4, e8, e16, e24, e32, e40, e48) refl

  pub elf64_ehdr-same : sizeof_ehdr ≤ n → elf64_ehdr m p ≡ elf64_ehdr m' q
  elf64_ehdr-same h =
      let byte = λ (d : ℕ) (hd : d < sizeof_ehdr). same.bytes d (omega arith) in
      let e0 : m p ≡ m' q = byte-same same p q 0 (omega arith) (omega arith) (omega arith) in
      let e1 : m (p + 1) ≡ m' (q + 1) = byte 1 (omega arith) in
      let e2 : m (p + 2) ≡ m' (q + 2) = byte 2 (omega arith) in
      let e3 : m (p + 3) ≡ m' (q + 3) = byte 3 (omega arith) in
      let e4 : m (p + 4) ≡ m' (q + 4) = byte 4 (omega arith) in
      let e5 : m (p + 5) ≡ m' (q + 5) = byte 5 (omega arith) in
      let e18 : load16 m (p + 18) ≡ load16 m' (q + 18) =
        load16-same (p + 18) (q + 18) 18 refl refl (omega arith) in
      let e32 : load64 m (p + 32) ≡ load64 m' (q + 32) =
        load64-same (p + 32) (q + 32) 32 refl refl (omega arith) in
      let e54 : load16 m (p + 54) ≡ load16 m' (q + 54) =
        load16-same (p + 54) (q + 54) 54 refl refl (omega arith) in
      let e56 : load16 m (p + 56) ≡ load16 m' (q + 56) =
        load16-same (p + 56) (q + 56) 56 refl refl (omega arith) in
      rw (e0, e1, e2, e3, e4, e5, e18, e32, e54, e56) refl

-- The image of `size` bytes at `p` is a program: it is for this processor, its program headers are
-- inside it, and `segment`, the first of them to be loaded, has its file part inside it too.
pub record IsProgram (m : Memory) (p size : ℕ) (segment : Elf64Phdr) : Type 0 where
  pub supported : is_supported (elf64_ehdr m p) size ≡ true
  pub entries : (elf64_ehdr m p).e_phentsize ≡ sizeof_phdr
  pub low : (elf64_ehdr m p).e_phoff < 2 ^ 32
  pub skipped : ℕ
  pub rest : ℕ
  pub count : (elf64_ehdr m p).e_phnum ≡ skipped + suc rest
  pub listed : (elf64_ehdr m p).e_phoff + sizeof_phdr * (skipped + 1) ≤ size
  pub none_before :
      (x : ℕ)
      → x < skipped
      → (elf64_phdr m (p + ((elf64_ehdr m p).e_phoff + sizeof_phdr * x))).p_type ≢ pt_load
  pub found : elf64_phdr m (p + ((elf64_ehdr m p).e_phoff + sizeof_phdr * skipped)) ≡ segment
  pub loads : segment.p_type ≡ pt_load
  pub some_memory : 0 < segment.p_memsz
  pub word : segment.p_memsz + 4095 < 2 ^ 32
  pub inside : segment.p_filesz ≤ segment.p_memsz
  pub whole : segment.p_offset + segment.p_filesz ≤ size

-- A program is one wherever its bytes are.
pub IsProgram-same :
    {size : ℕ} {m m' : Memory} {p q : ℕ} {segment : Elf64Phdr}
    → SameBytes size m p m' q
    → sizeof_ehdr ≤ size
    → IsProgram m p size segment
    → IsProgram m' q size segment
IsProgram-same {size} {m} {m'} {p} {q} same h c =
    let e : elf64_ehdr m' q ≡ elf64_ehdr m p = sym (elf64_ehdr-same same h) in
    let off : (elf64_ehdr m' q).e_phoff ≡ (elf64_ehdr m p).e_phoff =
      ap (λ (d : Elf64Ehdr). d.e_phoff) e in
    let there : (x : ℕ)
        → x < c.skipped + 1
        → elf64_phdr m' (q + ((elf64_ehdr m' q).e_phoff + sizeof_phdr * x))
          ≡ elf64_phdr m (p + ((elf64_ehdr m p).e_phoff + sizeof_phdr * x)) =
      λ x hx. sym (
        elf64_phdr-same same _ _ ((elf64_ehdr m p).e_phoff + sizeof_phdr * x) refl
          (omega (arith, off)) (omega (arith, c.listed))) in
    record {
      supported = ap (λ (d : Elf64Ehdr). is_supported d size) e ∙ c.supported;
      entries = ap (λ (d : Elf64Ehdr). d.e_phentsize) e ∙ c.entries;
      low = omega (arith, off, c.low);
      skipped = c.skipped;
      rest = c.rest;
      count = ap (λ (d : Elf64Ehdr). d.e_phnum) e ∙ c.count;
      listed = omega (arith, off, c.listed);
      none_before = λ x hx y.
          c.none_before x hx (sym (ap (λ (d : Elf64Phdr). d.p_type) (there x (omega arith))) ∙ y);
      found = there c.skipped (omega arith) ∙ c.found;
      loads = c.loads;
      some_memory = c.some_memory;
      word = c.word;
      inside = c.inside;
      whole = c.whole;
    }
