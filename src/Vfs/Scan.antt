-- ===== src/Vfs/Scan.antt =====
-- `parse_flash`: it ends, and the files that it lists lie in flash one behind the other.
use mk_os.Base.{
  ℕ, zero, suc, ◌+◌, ◌-◌, ◌^◌, ◌≤◌, ◌<◌, ◌≡◌, ◌≢◌, refl, ◌∙◌, arith, ◌==◌, ==_iff, ltb, Bool-cases,
  true, inl, inr, length, length-set, get_or-set_self, get_or-set_ne, if◌then◌else◌,
}
use mk_os.Base.Run.{ok, Ends, ends, Ends-mono}
use mk_os.Base.Word.{sub32}
use mk_os.Bitops.{ntohl}
use mk_os.Memory.{Memory}
use mk_os.Image.{
  ImageHeader, image_header, sizeof_image_header, ih_magic_value, ih_arch_arm64, ih_comp_none,
}
use mk_os.Vfs.{
  config_max_files, Inode, Vfs, no_inode, inode, accepts, file_at, add_file, parse_flash,
}

-- A listed file: an accepted image between `lo` and `hi`, with its header.
pub record IsFile (m : Memory) (lo hi : ℕ) (f : Inode) : Type 0 where
  pub begins : lo ≤ f.blob_start
  pub finishes : f.blob_start + f.blob_size ≤ hi
  pub sized : f.blob_size ≡ sizeof_image_header + ntohl (image_header m f.blob_start).ih_size
  pub magic : ntohl (image_header m f.blob_start).ih_magic ≡ ih_magic_value
  pub arch : (image_header m f.blob_start).ih_arch ≡ ih_arch_arm64
  pub comp : (image_header m f.blob_start).ih_comp ≡ ih_comp_none
  pub unused : f.refcount ≡ 0

-- The table lists files between `lo` and `hi`, each behind the ones before it.
pub record Listed (lo hi : ℕ) (s : Vfs) : Type 0 where
  pub room : length s.vfs ≡ config_max_files
  pub few : s.vfs_next ≤ config_max_files
  pub file : (i : ℕ) → i < s.vfs_next → IsFile s.memory lo hi (inode s i)
  pub ordered :
      (i j : ℕ)
      → i < j
      → j < s.vfs_next
      → (inode s i).blob_start + (inode s i).blob_size ≤ (inode s j).blob_start

IsFile_widen :
    {m : Memory} {lo hi hi' : ℕ} {f : Inode} → hi ≤ hi' → IsFile m lo hi f → IsFile m lo hi' f
IsFile_widen le f = record {
  begins = f.begins;
  finishes = omega (arith, f.finishes);
  sized = f.sized;
  magic = f.magic;
  arch = f.arch;
  comp = f.comp;
  unused = f.unused;
}

pub accepts_lem :
    (hdr : ImageHeader) (size : ℕ)
    → accepts hdr size ≡ true
    → (hdr.ih_arch ≡ ih_arch_arm64) × (hdr.ih_comp ≡ ih_comp_none) × (ntohl hdr.ih_size ≤ size)
accepts_lem hdr size h = ground arith

module _ {lo base : ℕ} {s : Vfs} (l : Listed lo base s) (room : s.vfs_next < config_max_files) where
  pub inode-add_file_self : inode (add_file s base) s.vfs_next ≡ file_at s.memory base
  inode-add_file_self = get_or-set_self s.vfs s.vfs_next _ no_inode (omega (arith, l.room))

  inode-add_file_ne : (i : ℕ) → s.vfs_next ≢ i → inode (add_file s base) i ≡ inode s i
  inode-add_file_ne i h = get_or-set_ne s.vfs s.vfs_next i _ no_inode h

  pub add_file-Listed :
      (size : ℕ)
      → lo ≤ base
      → sizeof_image_header ≤ size
      → size < 2 ^ 32
      → ntohl (image_header s.memory base).ih_magic ≡ ih_magic_value
      → accepts (image_header s.memory base) (size - sizeof_image_header) ≡ true
      → Listed lo (base + (file_at s.memory base).blob_size) (add_file s base)
  add_file-Listed size above big word magic ok_header =
      let hdr = image_header s.memory base in
      let (arch, comp, fits) = accepts_lem hdr (size - sizeof_image_header) ok_header in
      let new : IsFile s.memory lo (base + (file_at s.memory base).blob_size)
          (file_at s.memory base) =
        record {
          begins = above;
          finishes = omega arith;
          sized = omega arith;
          magic = magic;
          arch = arch;
          comp = comp;
          unused = refl;
        } in
      record {
        room = length-set s.vfs s.vfs_next (file_at s.memory base) ∙ l.room;
        few = omega arith;
        file = λ i h. elim (Bool-cases (i == s.vfs_next)) [
          | inl last ↦ rw ((==_iff _ _).0 last, inode-add_file_self) new
          | inr old ↦
              let before : i < s.vfs_next = ground arith in
              rw (inode-add_file_ne i (λ e. omega arith))
                (IsFile_widen (omega arith) (l.file i before))
        ];
        ordered = λ i j lt h. elim (Bool-cases (j == s.vfs_next)) [
          | inl last ↦
              let ej : j ≡ s.vfs_next = (==_iff _ _).0 last in
              let before : i < s.vfs_next = omega arith in
              rw (ej, inode-add_file_self, inode-add_file_ne i (λ e. omega arith))
                (l.file i before).finishes
          | inr old ↦
              let before : j < s.vfs_next = ground arith in
              rw (inode-add_file_ne j (λ e. omega arith), inode-add_file_ne i (λ e. omega arith))
                (l.ordered i j lt before)
        ];
      }

-- What `parse_flash` leaves, started at `base` with `size` bytes of flash.
pub record Scanned (lo limit : ℕ) (s t : Vfs) : Type 0 where
  pub end : ℕ
  pub within : end ≤ limit
  pub listed : Listed lo end t
  pub grows : s.vfs_next ≤ t.vfs_next
  pub same : t.memory ≡ s.memory
  pub descriptors : t.fds ≡ s.fds
  pub next : t.fds_next ≡ s.fds_next
  pub most : t.fds_max ≡ s.fds_max
  pub unlisted : (i : ℕ) → t.vfs_next ≤ i → inode t i ≡ inode s i
  pub older : (i : ℕ) → i < s.vfs_next → inode t i ≡ inode s i

scan_stops : {lo base : ℕ} (size : ℕ) {s : Vfs} → Listed lo base s → Scanned lo (base + size) s s
scan_stops {base} size l = record {
  end = base;
  within = omega arith;
  listed = l;
  grows = omega arith;
  same = refl;
  descriptors = refl;
  next = refl;
  most = refl;
  unlisted = λ i h. refl;
  older = λ i h. refl;
}

-- the part of a round behind the tests of `size` and of the number of files
abbrev Recurses : ℕ → ℕ → Vfs → Type 0
Recurses fuel lo t =
    (base size : ℕ)
    → config_max_files < t.vfs_next + fuel
    → lo ≤ base
    → size < 2 ^ 32
    → Listed lo base t
    → Ends (λ _ u. Scanned lo (base + size) t u) (parse_flash fuel base size t)

parse_header :
    (fuel : ℕ) {lo base : ℕ} (size : ℕ) {s : Vfs}
    → config_max_files < s.vfs_next + suc fuel
    → lo ≤ base
    → size < 2 ^ 32
    → sizeof_image_header ≤ size
    → s.vfs_next < config_max_files
    → Listed lo base s
    → Recurses fuel lo (add_file s base)
    → Ends
        (λ _ t. Scanned lo (base + size) s t)
        (let hdr = image_header s.memory base in
          let left = sub32 size sizeof_image_header in
          if ntohl hdr.ih_magic == ih_magic_value
          then (if accepts hdr left
              then parse_flash fuel
                  (base + (file_at s.memory base).blob_size)
                  (sub32 left (ntohl hdr.ih_size))
                  (add_file s base)
              else ok tt s)
          else ok tt s)
parse_header fuel {lo} {base} size {s} f above word big room l again =
    let hdr = image_header s.memory base in
    let left : sub32 size sizeof_image_header ≡ size - sizeof_image_header = omega arith in
    elim (Bool-cases (ntohl hdr.ih_magic == ih_magic_value)) [
      | inr other ↦ rw other (ends (scan_stops size l))
      | inl magic ↦
          rw (magic, left)
            (elim (Bool-cases (accepts hdr (size - sizeof_image_header))) [
              | inr bad ↦ rw bad (ends (scan_stops size l))
              | inl good ↦
                  let (arch, comp, fits) = accepts_lem hdr (size - sizeof_image_header) good in
                  let listed =
                    add_file-Listed l room size above big word ((==_iff _ _).0 magic) good in
                  rw good (
                    Ends-mono (again _ _ (omega arith) (omega arith) (omega arith) listed) λ _ t c.
                      record {
                        end = c.end;
                        within = omega (arith, c.within);
                        listed = c.listed;
                        grows = omega (arith, c.grows);
                        same = c.same;
                        descriptors = c.descriptors;
                        next = c.next;
                        most = c.most;
                        unlisted = λ i h.
                            c.unlisted i h ∙ inode-add_file_ne l room i λ e. omega (arith, c.grows);
                        older = λ i h.
                            c.older i (omega arith) ∙ inode-add_file_ne l room i λ e. omega arith;
                      })
            ])
    ]

-- `parse_flash` ends within the rounds given, and every file that it lists is an accepted image
-- that lies in the flash device behind the files before it.
pub parse_flash-Ends :
    (fuel : ℕ) {lo base : ℕ} (size : ℕ) {s : Vfs}
    → config_max_files < s.vfs_next + fuel
    → lo ≤ base
    → size < 2 ^ 32
    → Listed lo base s
    → Ends (λ _ t. Scanned lo (base + size) s t) (parse_flash fuel base size s)
unfolding parse_flash
parse_flash-Ends zero size f above word l = absurd (omega (arith, l.few))
parse_flash-Ends (suc fuel) {lo} {base} size {s} f above word l =
    elim (Bool-cases (ltb size sizeof_image_header)) [
      | inl short ↦ rw short (ends (scan_stops size l))
      | inr long ↦ rw long (elim (Bool-cases (s.vfs_next == config_max_files)) [
        | inl full ↦ rw full (ends (scan_stops size l))
        | inr free ↦ rw free (
            parse_header fuel size f above word (ground arith) (ground arith) l
              (λ base' size'. parse_flash-Ends fuel {base = base'} size'))
      ])
    ]
