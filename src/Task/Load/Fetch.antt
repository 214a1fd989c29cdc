-- ===== src/Task/Load/Fetch.antt =====
-- The middle of `task_load`: the header has been read, and a task is free.
use mk_os.Base.{
  ℕ, ◌+◌, ◌-◌, ◌*◌, ◌/◌, ◌^◌, ◌≤◌, ◌<◌, ◌≡◌, refl, ap, sym, ◌∙◌, arith, inl, inr, List, ◌∷◌, set,
  length, length-set, get_or-set_self, set-set, ◌==◌, true, if◌then◌else◌,
}
use mathlib.Core.Path.{subst}
use mk_os.Base.Int.{ℤ, pos, to_word}
use mk_os.Base.Run.{ok, Cmd, ◌>>=◌, no_continuous_memory, Ends-ok, Settles, Settles-mono}
use mk_os.Bitops.{ntohl}
use mk_os.Layout.{page_size, page_shift, align_pgup}
use mk_os.Layout.Align.{align_pgup_lem}
use mk_os.Memory.{Memory, from, memcpy}
use mk_os.Memory.Copy.{in_range, memcpy_lem}
use mk_os.Image.{image_header}
use mk_os.Image.Same.{SameBytes, load32-same}
use mk_os.Page.Client.{Held}
use mk_os.Page.Holding.{Holds, InPool, IsTaken, Outside, Outside-run, Outside-fewer, taken}
use mk_os.Page.{Pool, page_alloc}
use mk_os.Vfs.{Vfs, vfs_read, no_descriptor, descriptor}
use mk_os.Vfs.Counts.{IsValid}
use mk_os.Vfs.Session.{Reading, SameFiles, SameFiles-refl, vfs_read-Reading}
use mk_os.Kernel.{Task, Kernel, no_task, task, set_task}
use mk_os.Kernel.Parts.{merge, in_pool, in_vfs, put_pool, put_vfs}
use mk_os.Elf.{Elf64Phdr, elf64_ehdr}
use mk_os.Elf.Checks.{is_supported-IsSupported}
use mk_os.Elf.Program.{IsProgram}
use mk_os.Task.Load.{header_at, first_ctx, first_current, prepare_task, load_image, load_task}
use mk_os.Task.Load.Finish.{
  pages_of, entry_point, running, Fetched, Kept, Kept-trans, Finished, load_image-Settles,
}

module _ (pages : ℕ) (hs : List Held) (m : Memory) (base size frame fd i : ℕ)
    (segment : Elf64Phdr) where
  -- The file is below the pool and has been opened, and its header has been read; `ks` are the
  -- runs of pages that are held.
  pub record Opened (ks : List Held) (k : Kernel) : Type 0 where
    pub held : Holds pages ks k.pool
    pub start : 0 < k.pool.mem_pool_start
    pub fits : k.pool.mem_pool_start + pages * 4096 < 2 ^ 64
    pub word : size + 4095 < 2 ^ 32
    pub reading : Reading base (64 + size) fd 64 k.vfs
    pub file : SameBytes (64 + size) m base k.vfs.memory base
    pub header : SameBytes 64 m base k.vfs.memory frame
    pub sized : ntohl (image_header m base).ih_size ≡ size
    pub low_file : base + 64 + size ≤ k.pool.mem_pool_start
    pub low_frame : frame + 64 ≤ k.pool.mem_pool_start
    pub place : i < length k.tasks

  -- the size in the header that is on the stack
  header_size :
      {ks : List Held} {k : Kernel} → Opened ks k → ntohl (header_at frame k).ih_size ≡ size
  header_size o =
      ap ntohl (sym (load32-same o.header (base + 12) (frame + 12) 12 refl refl (omega arith)))
      ∙ o.sized

  -- the read of the program and what follows
  abbrev read_program : ℕ → Cmd Kernel (Unit {0})
  read_program blob = in_vfs (vfs_read (pos fd) blob size) >>= λ ret l.
      if to_word ret == ntohl (header_at frame l).ih_size
      then load_image frame (pos fd) i blob size l
      else ok tt l

  -- a read of the program writes into the pages taken from `s`
  read_elsewhere :
      {ks : List Held} {blob : ℕ} {s : Pool} {k : Kernel} (v : Vfs)
      → Opened ks k
      → IsTaken pages (pages_of size) s blob k.pool
      → v.memory ≡ memcpy blob (base + 64) size k.vfs.memory
      → (a : ℕ) → Outside s a
      → v.memory a ≡ k.vfs.memory a
  read_elsewhere {blob} {s} {k} v o taken copied a h =
      let there =
        memcpy_lem blob (base + 64) size k.vfs.memory a
          (inr (omega (arith, o.low_file, taken.run.at, taken.start))) in
      ap (λ (n : Memory). n a) copied ∙ elim (Outside-run taken a h) [
        | inl before ↦ ground (arith, there, before)
        | inr behind ↦ ground (arith, there, behind)
      ]

  fetched :
      {stack blob : ℕ} {k : Kernel} {v : Vfs}
      → Opened ((blob, pages_of size) ∷ (stack, 2) ∷ hs) k
      → InPool pages k.pool.mem_pool_start blob (pages_of size)
      → (task k i).vma_addr ≡ 0
      → v.memory ≡ memcpy blob (base + 64) size k.vfs.memory
      → Reading base (64 + size) fd (64 + size) v
      → Fetched pages hs m base size frame fd i segment stack blob (put_vfs v k)
  fetched {stack} {blob} {k} {v} o run empty copied reading =
      let at : (a : ℕ)
          → v.memory a ≡ (
              if in_range a blob size
              then k.vfs.memory (base + 64 + (a - blob))
              else k.vfs.memory a) =
        λ a.
          ap (λ (n : Memory). n a) copied
          ∙ memcpy_lem blob (base + 64) size k.vfs.memory a
              (inr (omega (arith, o.low_file, run.at))) in
      record {
        held = o.held;
        run = run;
        start = o.start;
        fits = o.fits;
        word = o.word;
        reading = reading;
        image = record {
          bytes = λ x h.
              ap m {y = base + (64 + x)} (omega arith)
              ∙ o.file.bytes (64 + x) (omega arith)
              ∙ ap k.vfs.memory {y = base + 64 + (blob + x - blob)} (omega arith)
              ∙ sym (ground (arith, at (blob + x)));
        };
        header = record {
          bytes =
              λ x h. o.header.bytes x h ∙ sym (ground (arith, at (frame + x), o.low_frame, run.at));
        };
        low_frame = o.low_frame;
        place = o.place;
        empty = empty;
      }

  read_program-Settles :
      {stack blob : ℕ} {s : Pool} {k : Kernel} (small : pages ≤ 2 ^ 20)
      (c : IsProgram m (base + 64) size segment)
      → Opened ((blob, pages_of size) ∷ (stack, 2) ∷ hs) k
      → IsTaken pages (pages_of size) s blob k.pool
      → (task k i).vma_addr ≡ 0
      → Settles
          (λ _ l.
            (v : Vfs) × Finished pages hs m base size frame fd i segment stack (put_vfs v k) l
            × SameFiles k.vfs v
            × (v.fds_next ≡ k.vfs.fds_next)
            × ((a : ℕ) → Outside s a → v.memory a ≡ k.vfs.memory a))
          no_continuous_memory
          (read_program blob k)
  unfolding in_vfs merge
  read_program-Settles {stack} {blob} {s} {k} small c o taken empty =
      let run =
        subst (λ (a : ℕ). InPool pages a blob (pages_of size)) (sym taken.start) taken.run in
      let (x, v, e, (ex, copied, reading, files, next)) =
        Ends-ok (vfs_read-Reading o.reading blob size (omega (arith, o.word)) (omega arith)) in
      let f = fetched o run empty copied reading in
      let again : ntohl (header_at frame (put_vfs v k)).ih_size ≡ size =
        ap ntohl (sym (load32-same f.header (base + 12) (frame + 12) 12 refl refl (omega arith)))
        ∙ o.sized in
      let whole : (to_word x == ntohl (header_at frame (put_vfs v k)).ih_size) ≡ true =
        ap (λ (a : ℤ). to_word a == ntohl (header_at frame (put_vfs v k)).ih_size) ex
        ∙ ap (λ (n : ℕ). to_word (pos size) == n) again
        ∙ ground (arith, o.word) in
      rw (e, whole)
        (Settles-mono (load_image-Settles pages hs m base size frame fd i segment small c f)
          λ a l d. (v, d, files, next, read_elsewhere v o taken copied))

  -- the task made ready, with its stack
  abbrev pub prepared : Task → (name : Memory) → (stack : ℕ) → Task
  prepared t name stack = record t {
    name = name;
    vma_size = 0;
    vma_addr = 0;
    stack_base = stack;
    stack_size = page_size * 2;
    ctx = first_ctx t t.tid 0x200 0;
  }

  -- What `task_load` has done for the program of a file whose header has the name: the task `i`
  -- runs.
  pub record Launched (k l : Kernel) : Type 0 where
    pub stack : ℕ
    pub vma : ℕ
    pub name : Memory
    pub held : Holds pages ((vma, pages_of segment.p_memsz) ∷ (stack, 2) ∷ hs) l.pool
    pub run : InPool pages l.pool.mem_pool_start vma (pages_of segment.p_memsz)
    pub bytes :
        (x : ℕ)
        → x < segment.p_filesz
        → l.vfs.memory (vma + x) ≡ m (base + 64 + segment.p_offset + x)
    pub zeros :
        (x : ℕ)
        → segment.p_filesz ≤ x
        → x < pages_of segment.p_memsz * 4096
        → l.vfs.memory (vma + x) ≡ 0
    pub named : (x : ℕ) → x < 32 → name x ≡ m (base + 32 + x)
    pub entry :
        l.tasks
        ≡ set k.tasks i (
            running
              (prepared (task k i) name stack)
              vma
              (pages_of segment.p_memsz)
              (entry_point m base vma))
    pub current : l.current ≡ (first_current i k).current
    pub tables : IsValid l.vfs
    pub closed : descriptor l.vfs fd ≡ no_descriptor
    pub rest : l ≡ record k { pool = l.pool; vfs = l.vfs; tasks = l.tasks; current = l.current }

  -- the same with other pages held
  Opened-pool :
      {ks js : List Held} {k : Kernel} {t : Pool}
      → Opened ks k
      → Holds pages js t
      → t.mem_pool_start ≡ k.pool.mem_pool_start
      → Opened js (put_pool t k)
  Opened-pool o held same = record {
    held = held;
    start = omega (arith, o.start, same);
    fits = omega (arith, o.fits, same);
    word = o.word;
    reading = o.reading;
    file = o.file;
    header = o.header;
    sized = o.sized;
    low_file = omega (arith, o.low_file, same);
    low_frame = omega (arith, o.low_frame, same);
    place = o.place;
  }

  Opened-task : {ks : List Held} {k : Kernel} (t : Task) → Opened ks k → Opened ks (set_task i t k)
  Opened-task {ks} {k} t o = record {
    held = o.held;
    start = o.start;
    fits = o.fits;
    word = o.word;
    reading = o.reading;
    file = o.file;
    header = o.header;
    sized = o.sized;
    low_file = o.low_file;
    low_frame = o.low_frame;
    place = omega (arith, o.place, length-set k.tasks i t);
  }

  -- `load_task` behind `prepare_task`
  fetch-Settles :
      {stack : ℕ} {k : Kernel} (small : pages ≤ 2 ^ 20) (c : IsProgram m (base + 64) size segment)
      → Opened ((stack, 2) ∷ hs) k
      → (task k i).vma_addr ≡ 0
      → Settles
          (λ _ l.
            (p : Pool) × (v : Vfs) × Finished pages hs m base size frame fd i segment stack
              (put_vfs v (put_pool p k))
              l
            × Kept k l)
          no_continuous_memory
          ((in_pool (page_alloc (pages_of size)) >>= read_program) k)
  unfolding in_pool merge
  fetch-Settles {stack} {k} small c o empty =
      let long = (is_supported-IsSupported (elf64_ehdr m (base + 64)) size c.supported).long in
      elim (taken small (pages_of size) ((stack, 2) ∷ hs) (omega arith) (omega (arith, o.word))
        o.fits o.held) [
          | inr e ↦ rw e (inr refl)
          | inl e ↦
              let (blob, t, eb, (held, taken)) = Ends-ok e in
              rw eb (
                Settles-mono
                  (read_program-Settles small c (Opened-pool o held taken.start) taken empty)
                  λ a l (v, d, files, next, elsewhere).
                    let kept : Kept k (put_vfs v (put_pool t k)) = record {
                      files = files;
                      next = next;
                      elsewhere = elsewhere;
                      start = taken.start;
                    } in
                    (t, v, d, Kept-trans kept (Outside-fewer taken) d.kept))
        ]

  Finished-Launched :
      {k : Kernel}
      → Opened hs k
      → (s : Pool) (stack : ℕ) (p : Pool) (v : Vfs) (l : Kernel)
      → let t = prepared (task k i) (from k.vfs.memory (frame + 32)) stack in
        Finished pages hs m base size frame fd i segment stack
          (put_vfs v (put_pool p (set_task i t (put_pool s k))))
          l
        → Launched k l
  Finished-Launched {k} o s stack p v l d =
      let name = from k.vfs.memory (frame + 32) in
      let t = prepared (task k i) name stack in
      let n = pages_of segment.p_memsz in
      record {
        stack = stack;
        vma = d.vma;
        name = name;
        held = d.held;
        run = d.run;
        bytes = d.bytes;
        zeros = d.zeros;
        named = λ x h.
            ap k.vfs.memory {y = frame + (32 + x)} (omega arith)
            ∙ sym (o.header.bytes (32 + x) (omega arith))
            ∙ ap m (omega arith);
        entry =
            d.entry
            ∙ ap
                (λ (u : Task).
                  set (set k.tasks i t) i (running u d.vma n (entry_point m base d.vma)))
                (get_or-set_self k.tasks i t no_task o.place)
            ∙ set-set k.tasks i t _;
        current = d.current;
        tables = d.tables;
        closed = d.closed;
        rest = d.rest;
      }

  -- `task_load` for the free task `i` starts the program, or there are no pages for it.
  pub load_task-Settles :
      {k : Kernel} (small : pages ≤ 2 ^ 20) (c : IsProgram m (base + 64) size segment)
      → Opened hs k
      → Settles (λ _ l. Launched k l × Kept k l) no_continuous_memory (load_task frame (pos fd) i k)
  unfolding load_task prepare_task load_image in_pool merge
  load_task-Settles {k} small c o =
      let name = from k.vfs.memory (header_at frame k).ih_name in
      let count : align_pgup size / 2 ^ page_shift ≡ pages_of size =
        omega (arith, align_pgup_lem size o.word) in
      elim (taken small 2 hs (omega arith) (omega arith) o.fits o.held) [
        | inr e ↦ rw e (inr refl)
        | inl e ↦
            let (stack, s, es, (held, taken)) = Ends-ok e in
            let t = prepared (task k i) name stack in
            let now : task (set_task i t k) i ≡ t = get_or-set_self k.tasks i t no_task o.place in
            let begun : Kept k (set_task i t (put_pool s k)) = record {
              files = SameFiles-refl k.vfs k.vfs.memory;
              next = refl;
              elsewhere = λ a h. refl;
              start = taken.start;
            } in
            rw (es, header_size o)
              (subst
                (λ (n : ℕ).
                  Settles (λ _ l. Launched k l × Kept k l) no_continuous_memory
                    ((in_pool (page_alloc n) >>= read_program) (set_task i t (put_pool s k))))
                (sym count)
                (Settles-mono
                  (fetch-Settles small c (Opened-task t (Opened-pool o held taken.start))
                    (ap (λ (t : Task). t.vma_addr) now))
                  λ a l (p, v, d, kept). (
                    Finished-Launched o s stack p v l d,
                    Kept-trans begun (Outside-fewer taken) kept,
                  )))
      ]
