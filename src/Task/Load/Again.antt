-- ===== src/Task/Load/Again.antt =====
-- A program that has been started, and the state in which it can be started again.
use mk_os.Base.{
  ℕ, ◌+◌, ◌*◌, ◌≤◌, ◌<◌, ◌≡◌, ◌≢◌, refl, ap, sym, ◌∙◌, arith, inl, inr, List, length, get_or,
  get_or-set_self, get_or-set_ne,
}
use mathlib.Core.Path.{subst}
use mk_os.Bitops.{ntohl}
use mk_os.Layout.{page_size}
use mk_os.Memory.{Memory}
use mk_os.Memory.Compare.{SameString}
use mk_os.Image.{load32}
use mk_os.Image.Same.{SameBytes, load32-same}
use mk_os.Page.Client.{Held}
use mk_os.Page.Holding.{Holds, Outside-below}
use mk_os.Vfs.{Inode, inode}
use mk_os.Vfs.Counts.{IsValid}
use mk_os.Vfs.Session.{SameFiles}
use mk_os.Kernel.{Task, Kernel, task_active, no_task, task}
use mk_os.Elf.{Elf64Phdr, elf64_ehdr}
use mk_os.Elf.Checks.{is_supported-IsSupported}
use mk_os.Elf.Program.{IsProgram-same}
use mk_os.Task.Load.Finish.{pages_of, entry_point}
use mk_os.Task.Load.Launch.{IsInstalled, ProgramRuns}

module _ {pages : ℕ} {frame : ℕ} {name : Memory} {node base size : ℕ} {segment : Elf64Phdr} where
  -- A program that is there still is where its file and the tables are as before.
  pub IsInstalled-kept :
      {hs js : List Held} {k l : Kernel}
      → IsInstalled pages hs frame name node base size segment k
      → Holds pages js l.pool
      → l.pool.mem_pool_start ≡ k.pool.mem_pool_start
      → IsValid l.vfs
      → SameFiles k.vfs l.vfs
      → SameBytes (64 + size) k.vfs.memory base l.vfs.memory base
      → IsInstalled pages js frame name node base size segment l
  IsInstalled-kept {k} {l} c held start tables files bytes =
      let named : (j : ℕ) → (inode l.vfs j).name ≡ (inode k.vfs j).name =
        λ j. ap (λ (f : Inode). f.name) (files.same j) in
      record {
        small = c.small;
        held = held;
        start = omega (arith, c.start, start);
        fits = omega (arith, c.fits, start);
        tables = tables;
        low_node = c.low_node;
        there = omega (arith, c.there, files.count);
        named = subst (λ (n : Memory). SameString name n 32) (sym (named node)) c.named;
        first = λ j h n. c.first j h (subst (λ (n : Memory). SameString name n 32) (named j) n);
        begins = ap (λ (f : Inode). f.blob_start) (files.same node) ∙ c.begins;
        whole = ap (λ (f : Inode). f.blob_size) (files.same node) ∙ c.whole;
        sized =
            ap ntohl (sym (load32-same bytes (base + 12) (base + 12) 12 refl refl (omega arith)))
            ∙ c.sized;
        word = c.word;
        program =
            IsProgram-same
              (record {
                bytes = λ x h.
                    ap k.vfs.memory {y = base + (64 + x)} (omega arith)
                    ∙ bytes.bytes (64 + x) (omega arith)
                    ∙ ap l.vfs.memory (omega arith);
              })
              (is_supported-IsSupported (elf64_ehdr k.vfs.memory (base + 64)) size
                c.program.supported).long
              c.program;
        low_file = omega (arith, c.low_file, start);
        low_frame = omega (arith, c.low_frame, start);
        apart = c.apart;
      }

-- The task `i` is active and runs the program whose file is at `base` of `m`: it begins at the
-- entry point, and its memory, at `vma`, has the segment's bytes and zeros behind them.
pub record RunsProgram (m : Memory) (base : ℕ) (segment : Elf64Phdr) (l : Kernel) (i stack vma : ℕ)
    : Type 0 where
  pub active : (task l i).state ≡ task_active
  pub number : (task l i).tid ≡ i
  pub stack_at : (task l i).stack_base ≡ stack
  pub stack_sized : (task l i).stack_size ≡ 2 * page_size
  pub at : (task l i).vma_addr ≡ vma
  pub sized : (task l i).vma_size ≡ pages_of segment.p_memsz * 4096
  pub begins : (task l i).ctx.pc ≡ entry_point m base vma
  pub bytes :
      (x : ℕ) → x < segment.p_filesz → l.vfs.memory (vma + x) ≡ m (base + 64 + segment.p_offset + x)
  pub zeros :
      (x : ℕ)
      → segment.p_filesz ≤ x
      → x < pages_of segment.p_memsz * 4096
      → l.vfs.memory (vma + x) ≡ 0

-- It still does where its entry and its memory are as before.
pub RunsProgram-kept :
    {m : Memory} {base : ℕ} {segment : Elf64Phdr} {k l : Kernel} {i stack vma : ℕ}
    → RunsProgram m base segment k i stack vma
    → segment.p_filesz ≤ pages_of segment.p_memsz * 4096
    → task l i ≡ task k i
    → ((x : ℕ)
        → x < pages_of segment.p_memsz * 4096
        → l.vfs.memory (vma + x) ≡ k.vfs.memory (vma + x))
    → RunsProgram m base segment l i stack vma
RunsProgram-kept r fits e same = record {
  active = ap (λ (t : Task). t.state) e ∙ r.active;
  number = ap (λ (t : Task). t.tid) e ∙ r.number;
  stack_at = ap (λ (t : Task). t.stack_base) e ∙ r.stack_at;
  stack_sized = ap (λ (t : Task). t.stack_size) e ∙ r.stack_sized;
  at = ap (λ (t : Task). t.vma_addr) e ∙ r.at;
  sized = ap (λ (t : Task). t.vma_size) e ∙ r.sized;
  begins = ap (λ (t : Task). t.ctx.pc) e ∙ r.begins;
  bytes = λ x h. same x (omega arith) ∙ r.bytes x h;
  zeros = λ x low high. same x high ∙ r.zeros x low high;
}

-- It does not matter from which of two memories with the same file the program is.
pub RunsProgram-file :
    {m m' : Memory} {base size : ℕ} {segment : Elf64Phdr} {l : Kernel} {i stack vma : ℕ}
    → SameBytes (64 + size) m base m' base
    → segment.p_offset + segment.p_filesz ≤ size
    → RunsProgram m' base segment l i stack vma
    → RunsProgram m base segment l i stack vma
RunsProgram-file {m} {m'} {base} {segment} {vma} same fits r =
    let word = λ (x : ℕ) (h : x + 4 ≤ 64).
      sym (load32-same same (base + x) (base + x) x refl refl (omega arith)) in
    let ep : load32 m' (base + 20) ≡ load32 m (base + 20) = word 20 (omega arith) in
    let load : load32 m' (base + 16) ≡ load32 m (base + 16) = word 16 (omega arith) in
    let entry : entry_point m' base vma ≡ entry_point m base vma = rw (ep, load) refl in
    record {
      active = r.active;
      number = r.number;
      stack_at = r.stack_at;
      stack_sized = r.stack_sized;
      at = r.at;
      sized = r.sized;
      begins = r.begins ∙ entry;
      bytes = λ x h.
          r.bytes x h
          ∙ ap m' {y = base + (64 + (segment.p_offset + x))} (omega arith)
          ∙ sym (same.bytes (64 + (segment.p_offset + x)) (omega arith))
          ∙ ap m (omega arith);
      zeros = r.zeros;
    }

module _ {pages : ℕ} {hs : List Held} {frame : ℕ} {name : Memory} {node base size : ℕ}
    {segment : Elf64Phdr} {i : ℕ} {k l : Kernel}
    (c : IsInstalled pages hs frame name node base size segment k) (place : i < length k.tasks)
    (d : ProgramRuns pages hs frame base size segment i k l) where
  -- the file's bytes are as they were
  pub ProgramRuns-file : SameBytes (64 + size) k.vfs.memory base l.vfs.memory base
  ProgramRuns-file = record {
    bytes = λ x h. sym (
        d.1.elsewhere (base + x) (Outside-below k.pool (base + x) (omega (arith, c.low_file)))
          (elim c.apart [
            | inl before ↦ inr (omega (arith, before))
            | inr behind ↦ inl (omega (arith, behind))
          ]));
  }

  pub ProgramRuns-task :
      (task k i).tid ≡ i → RunsProgram k.vfs.memory base segment l i d.0.stack d.0.vma
  ProgramRuns-task number =
      let now =
        ap (λ (ts : List Task). get_or ts i no_task) d.0.entry
        ∙ get_or-set_self k.tasks i _ no_task place in
      record {
        active = ap (λ (t : Task). t.state) now;
        number = ap (λ (t : Task). t.tid) now ∙ number;
        stack_at = ap (λ (t : Task). t.stack_base) now;
        stack_sized = ap (λ (t : Task). t.stack_size) now;
        at = ap (λ (t : Task). t.vma_addr) now;
        sized = ap (λ (t : Task). t.vma_size) now;
        begins = ap (λ (t : Task). t.ctx.pc) now;
        bytes = d.0.bytes;
        zeros = d.0.zeros;
      }

  pub ProgramRuns-others : (j : ℕ) → i ≢ j → task l j ≡ task k j
  ProgramRuns-others j ne =
      ap (λ (ts : List Task). get_or ts j no_task) d.0.entry
      ∙ get_or-set_ne k.tasks i j _ no_task ne
