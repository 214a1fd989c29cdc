-- ===== src/Task/Load/Finish.antt =====
-- The end of `task_load`: the program's image is in memory, and the task is to be started.
use mk_os.Base.{
  ℕ, ◌+◌, ◌*◌, ◌/◌, ◌^◌, ◌≤◌, ◌<◌, ◌≡◌, refl, ap, sym, ◌∙◌, arith, inl, inr, List, [], ◌∷◌, set,
  length, get_or, get_or-set_self, set-set,
}
use mathlib.Core.Path.{subst}
use mk_os.Base.Int.{pos}
use mk_os.Base.Run.{◌>>◌, no_continuous_memory, Ends, ends, Ends-ok, Settles, Settles-and_then}
use mk_os.Base.Word.{add64, sub64}
use mk_os.Bitops.{ntohl}
use mk_os.Layout.{page_shift, align_pgup}
use mk_os.Layout.Align.{align_pgup_lem}
use mk_os.Memory.{Memory}
use mk_os.Image.{load32, image_header}
use mk_os.Image.Same.{SameBytes, load32-same}
use mk_os.Page.Client.{Held}
use mk_os.Page.Holding.{Holds, InPool, Outside, Outside-below, freed, Allocated-Holds, free_apart}
use mk_os.Page.{page_free}
use mk_os.Vfs.{Vfs, no_descriptor, descriptor}
use mk_os.Vfs.Counts.{IsValid}
use mk_os.Vfs.Session.{
  Reading, Reading-memory, SameFiles, SameFiles-refl, SameFiles-trans, vfs_close-Reading,
}
use mk_os.Kernel.{Task, Kernel, task_active, no_task, task, set_task}
use mk_os.Kernel.Parts.{merge, in_pool, in_vfs, put_pool, put_vfs}
use mk_os.Elf.{Elf64Phdr, elf64_ehdr}
use mk_os.Elf.Checks.{is_supported-IsSupported}
use mk_os.Elf.Program.{IsProgram, IsProgram-same}
use mk_os.Elf.Segments.{Loaded}
use mk_os.Elf.Load.{IsReadyFor, load_elf-Settles}
use mk_os.Task.Load.{started, first_current, start_task, load_image}

-- the pages of `size` bytes
abbrev pub pages_of : ℕ → ℕ
pages_of size = (size + 4095) / 4096

-- where the program begins, whose memory is at `vma`
abbrev pub entry_point : Memory → (base vma : ℕ) → ℕ
entry_point m base vma =
    sub64 (add64 vma (ntohl (image_header m base).ih_ep)) (ntohl (image_header m base).ih_load)

-- the entry of a task that runs, with `n` pages of memory at `vma`
abbrev pub running : Task → (vma n pc : ℕ) → Task
running t vma n pc = record t {
  vma_size = n * 4096;
  vma_addr = vma;
  ctx = record t.ctx { pc = pc };
  state = task_active;
}

-- The files, the memory outside the free pages and the place of the pool are those of before.
pub record Kept (k l : Kernel) : Type 0 where
  pub files : SameFiles k.vfs l.vfs
  pub next : l.vfs.fds_next ≡ k.vfs.fds_next
  pub elsewhere : (a : ℕ) → Outside k.pool a → l.vfs.memory a ≡ k.vfs.memory a
  pub start : l.pool.mem_pool_start ≡ k.pool.mem_pool_start

pub Kept-trans :
    {j k l : Kernel}
    → Kept j k
    → ((a : ℕ) → Outside j.pool a → Outside k.pool a)
    → Kept k l
    → Kept j l
Kept-trans x fewer y = record {
  files = SameFiles-trans x.files y.files;
  next = y.next ∙ x.next;
  elsewhere = λ a h. y.elsewhere a (fewer a h) ∙ x.elsewhere a h;
  start = y.start ∙ x.start;
}

-- `start_task` closes the descriptor, and sets the task and the current task.
start_task-Ends :
    {start size fd offset : ℕ} (frame i : ℕ) (k : Kernel)
    → Reading start size fd offset k.vfs
    → Ends
        (λ _ l.
          (v : Vfs) × (l ≡ first_current i (put_vfs v (set_task i (started frame i k) k)))
          × (v.memory ≡ k.vfs.memory)
          × IsValid v
          × (descriptor v fd ≡ no_descriptor)
          × SameFiles k.vfs v
          × (v.fds_next ≡ k.vfs.fds_next))
        (start_task frame (pos fd) i k)
unfolding start_task in_vfs merge
start_task-Ends frame i k r =
    let (x, v, e, (same, valid, closed, files, next)) = Ends-ok (vfs_close-Reading r) in
    rw e (ends (v, refl, same, valid, closed, files, next))

module _ (pages : ℕ) (hs : List Held) (m : Memory) (base size frame fd i : ℕ)
    (segment : Elf64Phdr) where
  -- the state behind the read of the program: `m` was memory before, with the file at `base`
  pub record Fetched (stack blob : ℕ) (k : Kernel) : Type 0 where
    pub held : Holds pages ((blob, pages_of size) ∷ (stack, 2) ∷ hs) k.pool
    pub run : InPool pages k.pool.mem_pool_start blob (pages_of size)
    pub start : 0 < k.pool.mem_pool_start
    pub fits : k.pool.mem_pool_start + pages * 4096 < 2 ^ 64
    pub word : size + 4095 < 2 ^ 32
    pub reading : Reading base (64 + size) fd (64 + size) k.vfs
    pub image : SameBytes size m (base + 64) k.vfs.memory blob
    pub header : SameBytes 64 m base k.vfs.memory frame
    pub low_frame : frame + 64 ≤ k.pool.mem_pool_start
    pub place : i < length k.tasks
    pub empty : (task k i).vma_addr ≡ 0

  -- what the end of `task_load` has done, for the program with the segment
  pub record Finished (stack : ℕ) (k l : Kernel) : Type 0 where
    pub vma : ℕ
    pub held : Holds pages ((vma, pages_of segment.p_memsz) ∷ (stack, 2) ∷ hs) l.pool
    pub run : InPool pages l.pool.mem_pool_start vma (pages_of segment.p_memsz)
    pub bytes :
        (x : ℕ)
        → x < segment.p_filesz
        → l.vfs.memory (vma + x) ≡ m (base + 64 + segment.p_offset + x)
    pub zeros :
        (x : ℕ)
        → segment.p_filesz ≤ x
        → x < pages_of segment.p_memsz * 4096
        → l.vfs.memory (vma + x) ≡ 0
    pub tables : IsValid l.vfs
    pub closed : descriptor l.vfs fd ≡ no_descriptor
    pub kept : Kept k l
    pub entry :
        l.tasks
        ≡ set k.tasks i (running (task k i) vma (pages_of segment.p_memsz) (entry_point m base vma))
    pub current : l.current ≡ (first_current i k).current
    pub rest : l ≡ record k { pool = l.pool; vfs = l.vfs; tasks = l.tasks; current = l.current }

  -- the segment is loaded, the image is given back, and the task is started
  finish :
      {stack blob : ℕ} {k : Kernel} (small : pages ≤ 2 ^ 20)
      (c : IsProgram m (base + 64) size segment)
      → Fetched stack blob k
      → (l : Kernel) → Loaded pages i segment (blob + segment.p_offset) k l
      → Ends
          (λ _ l'. Finished stack k l')
          ((in_pool (page_free blob (align_pgup size / 2 ^ page_shift))
              >> start_task frame (pos fd) i)
            l)
  unfolding in_pool merge
  finish {stack} {blob} {k} small c f l d =
      let n = pages_of segment.p_memsz in
      let count : align_pgup size / 2 ^ page_shift ≡ pages_of size =
        omega (arith, align_pgup_lem size f.word) in
      let held : Holds pages ((d.addr, n) ∷ (blob, pages_of size) ∷ (stack, 2) ∷ hs) l.pool =
        Allocated-Holds small (omega (arith, c.some_memory)) f.held d.pages in
      let (t, e, held', start') = freed small ((d.addr, n) ∷ []) blob (pages_of size) _ held in
      let files : l.vfs ≡ record k.vfs { memory = l.vfs.memory } =
        ap (λ (l : Kernel). l.vfs) d.rest in
      let reading : Reading base (64 + size) fd (64 + size) l.vfs =
        subst (Reading base (64 + size) fd (64 + size)) (sym files)
          (Reading-memory l.vfs.memory f.reading) in
      let header : SameBytes 64 m base l.vfs.memory frame = record {
        bytes = λ x h.
            f.header.bytes x h
            ∙ sym (
                d.elsewhere (frame + x)
                  (Outside-below k.pool (frame + x) (omega (arith, f.low_frame))));
      } in
      let tasks : l.tasks
          ≡ set k.tasks i (record (task k i) { vma_size = n * 4096; vma_addr = d.addr }) =
        ap (λ (l : Kernel). l.tasks) d.rest in
      let now : task l i ≡ record (task k i) { vma_size = n * 4096; vma_addr = d.addr } =
        ap (λ (ts : List Task). get_or ts i no_task) tasks
        ∙ get_or-set_self k.tasks i _ no_task f.place in
      let ep : load32 l.vfs.memory (frame + 20) ≡ load32 m (base + 20) =
        sym (load32-same header (base + 20) (frame + 20) 20 refl refl (omega arith)) in
      let load : load32 l.vfs.memory (frame + 16) ≡ load32 m (base + 16) =
        sym (load32-same header (base + 16) (frame + 16) 16 refl refl (omega arith)) in
      let entry : set l.tasks i (started frame i (put_pool t l))
          ≡ set k.tasks i (running (task k i) d.addr n (entry_point m base d.addr)) =
        rw (now, ep, load, tasks) (set-set k.tasks i _ _) in
      let (x, l', e', (v, el, same, valid, closed, kept, next)) =
        Ends-ok (start_task-Ends frame i (put_pool t l) reading) in
      rw (count, e, e', el)
        (ends (record {
          vma = d.addr;
          held = held';
          run = record {
            first = d.pages.first;
            at = omega (arith, d.at, start', d.pages.same.same_start);
            inside = d.pages.inside;
          };
          bytes = λ x h.
              ap (λ (m : Memory). m (d.addr + x)) same
              ∙ d.file x h
              ∙ ap k.vfs.memory {y = blob + (segment.p_offset + x)} (omega arith)
              ∙ sym (f.image.bytes (segment.p_offset + x) (omega (arith, c.whole)))
              ∙ ap m (omega arith);
          zeros = λ x low high. ap (λ (m : Memory). m (d.addr + x)) same ∙ d.zeros x low high;
          tables = valid;
          closed = closed;
          kept = record {
            files =
                SameFiles-trans
                  (subst (SameFiles k.vfs) (sym files) (SameFiles-refl k.vfs l.vfs.memory)) kept;
            next = next ∙ ap (λ (s : Vfs). s.fds_next) files;
            elsewhere = λ a h. ap (λ (m : Memory). m a) same ∙ d.elsewhere a h;
            start = start' ∙ d.pages.same.same_start;
          };
          entry = entry;
          current = ap (λ (l : Kernel). (first_current i l).current) d.rest;
          rest =
              ap
                (λ (j : Kernel). record j {
                  pool = t;
                  vfs = v;
                  tasks = set l.tasks i (started frame i (put_pool t l));
                  current = (first_current i l).current;
                })
                d.rest;
        }))

  -- From the image in memory on, `task_load` starts the program, or there are no pages for it.
  pub load_image-Settles :
      {stack blob : ℕ} {k : Kernel} (small : pages ≤ 2 ^ 20)
      (c : IsProgram m (base + 64) size segment)
      → Fetched stack blob k
      → Settles
          (λ _ l. Finished stack k l)
          no_continuous_memory
          (load_image frame (pos fd) i blob size k)
  unfolding load_image
  load_image-Settles {stack} {blob} {k} small c f =
      let d =
        IsProgram-same f.image
          (is_supported-IsSupported (elf64_ehdr m (base + 64)) size c.supported).long c in
      let r : IsReadyFor pages i blob size k = record {
        sound = f.held.sound;
        small = small;
        start = f.start;
        fits = f.fits;
        high = omega (arith, f.run.at, f.run.inside, f.fits);
        apart = λ p h.
            elim (free_apart small blob (pages_of size) ((stack, 2) ∷ hs) p f.fits f.held f.run h) [
              | inl below ↦ inl (omega (arith, below))
              | inr above ↦ inr above
            ];
        place = f.place;
        empty = f.empty;
      } in
      Settles-and_then (load_elf-Settles r d)
        λ b l (eb, loaded). rw eb (inl (finish small c f l loaded))
