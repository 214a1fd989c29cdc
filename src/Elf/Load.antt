-- ===== src/Elf/Load.antt =====
-- `load_elf` of a program: its first segment to be loaded is.
use mk_os.Base.{
  ℕ, zero, suc, ◌+◌, ◌*◌, ◌%◌, ◌^◌, ◌≤◌, ◌<◌, ◌≡◌, ◌≢◌, ap, sym, ◌∙◌, ◌⊎◌, arith, inl, inr, Bool,
  false, length, get_or-set_self, ==_of_ne, ◌==◌, ◌&&◌, if◌then◌else◌,
}
use mathlib.Core.Path.{subst}
use mk_os.Base.Run.{Run, and_then, no_continuous_memory, ends, Settles, Settles-and_then}
use mk_os.Base.Word.{add64, sub64}
use mk_os.Page.Holding.{IsFree}
use mk_os.Page.Split.{IsSound}
use mk_os.Kernel.{Task, Kernel, no_task, task}
use mk_os.Elf.{
  Elf64Phdr, elf64_phdr, elf64_ehdr, sizeof_phdr, pt_load, load_segment, load_segments,
  parse_program_header, parse_elf, load_elf,
}
use mk_os.Elf.Checks.{load_segments-placed}
use mk_os.Elf.Segments.{Loaded, IsLoadable, load_segment-Settles}
use mk_os.Elf.Program.{IsProgram}

-- The loop goes over the headers of segments that are not to be loaded.
load_segments-skip :
    (i n rest hdr blob offset : ℕ) (k : Kernel)
    → ((x : ℕ) → x < n → (elf64_phdr k.vfs.memory (hdr + sizeof_phdr * x)).p_type ≢ pt_load)
    → load_segments i (n + suc rest) hdr blob offset k
      ≡ load_segments i (suc rest) (hdr + sizeof_phdr * n) blob offset k
unfolding load_segments
load_segments-skip i zero rest hdr blob offset k h =
    ap (λ (c : ℕ). load_segments i c hdr blob offset k) {x = 0 + suc rest} {y = suc rest}
      (omega arith)
    ∙ ap (λ (p : ℕ). load_segments i (suc rest) p blob offset k) {y = hdr + sizeof_phdr * 0}
        (omega arith)
load_segments-skip i (suc n) rest hdr blob offset k h =
    let first : (elf64_phdr k.vfs.memory hdr).p_type ≢ pt_load = λ e. h 0 (omega arith) (
      ap (λ (p : ℕ). (elf64_phdr k.vfs.memory p).p_type) {x = hdr + sizeof_phdr * 0} (omega arith)
      ∙ e) in
    let later : (x : ℕ)
        → x < n
        → (elf64_phdr k.vfs.memory (hdr + sizeof_phdr + sizeof_phdr * x)).p_type ≢ pt_load =
      λ x hx e. h (suc x) (omega arith) (
        ap (λ (p : ℕ). (elf64_phdr k.vfs.memory p).p_type) {x = hdr + sizeof_phdr * suc x}
          (omega arith)
        ∙ e) in
    let step : load_segments i (suc (n + suc rest)) hdr blob offset k
        ≡ load_segments i (suc rest) (hdr + sizeof_phdr + sizeof_phdr * n) blob offset k =
      rw (==_of_ne first) (load_segments-skip i n rest (hdr + sizeof_phdr) blob offset k later) in
    ap (λ (c : ℕ). load_segments i c hdr blob offset k) {y = suc (n + suc rest)} (omega arith)
    ∙ step
    ∙ ap (λ (p : ℕ). load_segments i (suc rest) p blob offset k) {y = hdr + sizeof_phdr * suc n}
        (omega arith)

-- what `load_elf` needs of the state
pub record IsReadyFor (lim i blob size : ℕ) (k : Kernel) : Type 0 where
  pub sound : IsSound lim k.pool
  pub small : lim ≤ 2 ^ 20
  pub start : 0 < k.pool.mem_pool_start
  pub fits : k.pool.mem_pool_start + lim * 4096 < 2 ^ 64
  pub high : blob + size < 2 ^ 64
  pub apart :
      (p : ℕ)
      → IsFree p k.pool
      → (blob + size ≤ k.pool.mem_pool_start + p * 4096) ⊎ (k.pool.mem_pool_start + p * 4096 ≤ blob)
  pub place : i < length k.tasks
  pub empty : (task k i).vma_addr ≡ 0

module _ {lim i blob size : ℕ} {k : Kernel} (r : IsReadyFor lim i blob size k) {segment : Elf64Phdr}
    (c : IsProgram k.vfs.memory blob size segment) where
  segment-IsLoadable : IsLoadable lim segment (blob + segment.p_offset) k.pool
  segment-IsLoadable = record {
    sound = r.sound;
    small = r.small;
    fits = r.fits;
    some_memory = c.some_memory;
    word = c.word;
    inside = c.inside;
    apart = λ p h. elim (r.apart p h) [
      | inl below ↦ inl (omega (arith, below, c.whole))
      | inr above ↦ inr (omega (arith, above))
    ];
  }

  Loaded-placed : (src : ℕ) (l : Kernel) → Loaded lim i segment src k l → (task l i).vma_addr ≢ 0
  Loaded-placed src l d e =
      let there : (task l i).vma_addr ≡ d.addr =
        ap (λ (l' : Kernel). (task l' i).vma_addr) d.rest
        ∙ ap (λ (t : Task). t.vma_addr) (get_or-set_self k.tasks i _ no_task r.place) in
      omega (arith, there, e, d.at, r.start)

  -- a round of the loop at the header `h`
  abbrev round : (rest hdr base offset : ℕ) → Elf64Phdr → Run Kernel (Unit {0})
  round rest hdr base offset h =
      if h.p_type == pt_load && (task k i).vma_addr == 0
      then and_then (load_segment i h base offset k)
          (λ _. load_segments i rest (hdr + sizeof_phdr) base offset)
      else load_segments i rest (hdr + sizeof_phdr) base offset k

  -- the loop, at the header of the segment
  load_segments-Settles :
      (rest hdr base offset : ℕ)
      → elf64_phdr k.vfs.memory hdr ≡ segment
      → sub64 (add64 base segment.p_offset) offset ≡ blob + segment.p_offset
      → Settles
          (λ _ l. Loaded lim i segment (blob + segment.p_offset) k l)
          no_continuous_memory
          (load_segments i (suc rest) hdr base offset k)
  unfolding load_segments
  load_segments-Settles rest hdr base offset e src =
      subst
        (λ h.
          Settles (λ _ l. Loaded lim i segment (blob + segment.p_offset) k l) no_continuous_memory
            (round rest hdr base offset h))
        (sym e)
        (simp (c.loads, r.empty)
          (Settles-and_then
            (load_segment-Settles i segment base offset k
              (subst (λ (s : ℕ). IsLoadable lim segment s k.pool) (sym src) segment-IsLoadable))
            λ a l d.
              rw
                (load_segments-placed i rest (hdr + sizeof_phdr) base offset l
                  (Loaded-placed (sub64 (add64 base segment.p_offset) offset) l d))
                (inl (ends (subst (λ (s : ℕ). Loaded lim i segment s k l) src d)))))

  -- what `load_elf` has done for a program: the segment is loaded, and the result is 0
  abbrev pub ElfLoaded : Bool → Kernel → Type 0
  ElfLoaded b l = (b ≡ false) × Loaded lim i segment (blob + segment.p_offset) k l

  parse_elf-program :
      let base = blob + (elf64_ehdr k.vfs.memory blob).e_phoff in
      parse_elf i blob size k
      ≡ load_segments i
          (suc c.rest)
          (base + sizeof_phdr * c.skipped)
          base
          ((elf64_ehdr k.vfs.memory blob).e_phoff % 2 ^ 32)
          k
  unfolding parse_elf parse_program_header
  parse_elf-program =
      let off = (elf64_ehdr k.vfs.memory blob).e_phoff in
      let at : add64 blob off ≡ blob + off = omega (arith, r.high, c.listed) in
      rw (c.supported, ap (λ (n : ℕ). n == sizeof_phdr) c.entries, at, c.count)
        (load_segments-skip i c.skipped c.rest (blob + off) (blob + off) (off % 2 ^ 32) k λ x h e.
          c.none_before x h (
            ap (λ (p : ℕ). (elf64_phdr k.vfs.memory p).p_type) {y = blob + off + sizeof_phdr * x}
              (omega arith)
            ∙ e))

  -- The image of a program is loaded: its first segment to be loaded stands in fresh pages, with
  -- the bytes of the image and zeros behind them, and the result says so, or there is no block for
  -- it and the kernel panics.
  pub load_elf-Settles : Settles ElfLoaded no_continuous_memory (load_elf i blob size k)
  unfolding load_elf
  load_elf-Settles =
      let off = (elf64_ehdr k.vfs.memory blob).e_phoff in
      let header : elf64_phdr k.vfs.memory (blob + off + sizeof_phdr * c.skipped) ≡ segment =
        ap (elf64_phdr k.vfs.memory) {y = blob + (off + sizeof_phdr * c.skipped)} (omega arith)
        ∙ c.found in
      let src : sub64 (add64 (blob + off) segment.p_offset) (off % 2 ^ 32)
          ≡ blob + segment.p_offset =
        omega (arith, r.high, c.low, c.whole, c.listed) in
      Settles-and_then
        (subst (Settles _ no_continuous_memory) (sym parse_elf-program)
          (load_segments-Settles c.rest _ (blob + off) (off % 2 ^ 32) header src))
        λ a l d. inl (ends (==_of_ne (Loaded-placed _ l d), d))
