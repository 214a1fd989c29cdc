-- ===== src/Vfs/Images.antt =====
-- The images at the beginning of flash are the first files that `parse_flash` lists.
use mk_os.Base.{
  ℕ, zero, suc, ◌+◌, ◌-◌, ◌^◌, ◌≤◌, ◌<◌, ◌≡◌, ap, sym, refl, ◌∙◌, arith, true, List, [], ◌∷◌,
  length, get_or, ==_of_ne, ==_of_eq, ltb_of_le,
}
use mathlib.Core.Path.{subst}
use mk_os.Base.Run.{Ends, Ends-mono, Ends-both}
use mk_os.Base.Word.{sub32}
use mk_os.Bitops.{ntohl}
use mk_os.Memory.{Memory}
use mk_os.Image.{ImageHeader, image_header, sizeof_image_header, ih_magic_value}
use mk_os.Image.Same.{SameBytes, byte-same, image_header-same}
use mk_os.Vfs.{config_max_files, Vfs, inode, accepts, file_at, add_file, parse_flash}
use mk_os.Vfs.Scan.{Listed, accepts_lem, inode-add_file_self, add_file-Listed, parse_flash-Ends}

-- the bytes behind the header of the image at `base`
abbrev pub image_size : Memory → ℕ → ℕ
image_size m base = ntohl (image_header m base).ih_size

-- `parse_flash` accepts what is at `base`, where `size` bytes are left
pub record IsImage (m : Memory) (base size : ℕ) : Type 0 where
  pub room : sizeof_image_header ≤ size
  pub magic : ntohl (image_header m base).ih_magic ≡ ih_magic_value
  pub accepted : accepts (image_header m base) (size - sizeof_image_header) ≡ true

-- The `size` bytes at `base` begin with images at the addresses of the list, without a gap.
abbrev pub Images : Memory → (base size : ℕ) → List ℕ → Type 0
Images m base size [] = Unit {0}
Images m base size (b ∷ at) =
    (b ≡ base)
    × IsImage m base size
    × Images m (base + (64 + image_size m base)) (size - (64 + image_size m base)) at

IsImage-same :
    {m m' : Memory} {base size : ℕ}
    → SameBytes size m base m' base
    → IsImage m base size
    → IsImage m' base size
IsImage-same {size} same i =
    let e = image_header-same same i.room refl in
    record {
      room = i.room;
      magic = ap (λ (h : ImageHeader). ntohl h.ih_magic) (sym e) ∙ i.magic;
      accepted =
          ap (λ (h : ImageHeader). accepts h (size - sizeof_image_header)) (sym e) ∙ i.accepted;
    }

-- What the images are hangs on the bytes of flash only.
pub Images-same :
    {m m' : Memory} (at : List ℕ) (base size : ℕ)
    → SameBytes size m base m' base
    → Images m base size at
    → Images m' base size at
Images-same [] base size same i = tt
Images-same {m} {m'} (b ∷ at) base size same (eb, i, rest) =
    let e : image_size m base ≡ image_size m' base =
      ap (λ (h : ImageHeader). ntohl h.ih_size) (image_header-same same i.room refl) in
    let behind = 64 + image_size m base in
    let (arch, comp, fits) = accepts_lem (image_header m base) (size - 64) i.accepted in
    let later : SameBytes (size - behind) m (base + behind) m' (base + behind) = record {
      bytes = λ x h. byte-same same _ _ (behind + x) (omega arith) (omega arith) (omega arith);
    } in
    (
      eb,
      IsImage-same same i,
      subst (λ (n : ℕ). Images m' (base + (64 + n)) (size - (64 + n)) at) e
          (Images-same at (base + behind) (size - behind) later rest),
    )

-- An image of the list lies inside the bytes, with its header and all of its size.
pub Images-inside :
    (m : Memory) (at : List ℕ) (base size : ℕ)
    → Images m base size at
    → (i : ℕ) → i < length at
    → (base ≤ get_or at i 0) × (get_or at i 0 + 64 + image_size m (get_or at i 0) ≤ base + size)
Images-inside m [] base size images i h = absurd (omega arith)
Images-inside m (b ∷ at) base size (eb, i, rest) zero h =
    let (arch, comp, fits) = accepts_lem (image_header m base) (size - 64) i.accepted in
    let same = ap (image_size m) eb in (omega (arith, eb), omega (arith, eb, same, fits, i.room))
Images-inside m (b ∷ at) base size (eb, i, rest) (suc j) h =
    let (arch, comp, fits) = accepts_lem (image_header m base) (size - 64) i.accepted in
    let behind = 64 + image_size m base in
    let (low, high) = Images-inside m at (base + behind) (size - behind) rest j (omega arith) in
    (omega (arith, low), omega (arith, high, fits, i.room))

-- the entries from `from` on are the images at the addresses
pub record Lists (m : Memory) (from : ℕ) (at : List ℕ) (t : Vfs) : Type 0 where
  pub enough : from + length at ≤ t.vfs_next
  pub file : (i : ℕ) → i < length at → inode t (from + i) ≡ file_at m (get_or at i 0)

file_more :
    (m : Memory) (t : Vfs) (from base : ℕ) (at : List ℕ)
    → inode t from ≡ file_at m base
    → ((i : ℕ) → i < length at → inode t (from + 1 + i) ≡ file_at m (get_or at i 0))
    → (i : ℕ) → i < length (base ∷ at)
    → inode t (from + i) ≡ file_at m (get_or (base ∷ at) i 0)
file_more m t from base at first later zero h = ap (inode t) {y = from} (omega arith) ∙ first
file_more m t from base at first later (suc i) h =
    ap (inode t) {y = from + 1 + i} (omega arith) ∙ later i (omega arith)

-- Where flash from `base` on, of fewer than `2^32` bytes, begins with images without a gap, the
-- files before lie below `base`, the table has room for all and the rounds are enough for a table
-- that is full, `parse_flash` ends, and the next entries of the table are these images in order.
pub parse_flash-Lists :
    {s : Vfs} (fuel : ℕ) {lo base : ℕ} (size : ℕ) {at : List ℕ}
    → config_max_files < s.vfs_next + fuel
    → lo ≤ base
    → size < 2 ^ 32
    → Listed lo base s
    → Images s.memory base size at
    → s.vfs_next + length at ≤ config_max_files
    → Ends (λ _ t. Lists s.memory s.vfs_next at t) (parse_flash fuel base size s)
unfolding parse_flash
parse_flash-Lists {s} fuel {lo} {base} size {at = []} f above word l images room =
    Ends-mono (parse_flash-Ends fuel size f above word l)
      λ _ t c. record { enough = omega (arith, c.grows); file = λ i h. absurd (omega arith) }
parse_flash-Lists {s} zero {lo} {base} size {at = b ∷ at} f above word l images room =
    absurd (omega (arith, l.few))
parse_flash-Lists {s} (suc fuel) {lo} {base} size {at = b ∷ at} f above word l (eb, i, rest) room =
    let sz = image_size s.memory base in
    let (arch, comp, fits) = accepts_lem (image_header s.memory base) (size - 64) i.accepted in
    let bytes : (file_at s.memory base).blob_size ≡ 64 + sz = omega (arith, fits, i.room) in
    let left : sub32 size sizeof_image_header ≡ size - sizeof_image_header =
      omega (arith, i.room) in
    let left' : sub32 (size - sizeof_image_header) sz ≡ size - (64 + sz) =
      omega (arith, i.room, fits) in
    let few : s.vfs_next < config_max_files = omega arith in
    let next = base + (file_at s.memory base).blob_size in
    let rest' : Images s.memory next (size - (64 + sz)) at =
      subst (λ (b : ℕ). Images s.memory (base + b) (size - (64 + sz)) at) (sym bytes) rest in
    let listed = add_file-Listed l few size above i.room word i.magic i.accepted in
    let again =
      Ends-both
        (parse_flash-Lists {s = add_file s base} fuel {lo = lo} {base = next} (size - (64 + sz))
          {at = at} (omega arith) (omega arith) (omega arith) listed rest' (omega arith))
        (parse_flash-Ends fuel {lo = lo} {base = next} (size - (64 + sz)) {s = add_file s base}
          (omega arith) (omega arith) (omega arith) listed) in
    rw
      (
        ltb_of_le i.room,
        ==_of_ne (λ (e : s.vfs_next ≡ config_max_files). omega arith),
        ==_of_eq i.magic,
        left,
        i.accepted,
        left',
      )
      (Ends-mono again λ _ t (c, d). record {
        enough = omega (arith, c.enough);
        file =
            file_more s.memory t s.vfs_next b at
              (d.older s.vfs_next (omega arith)
                ∙ inode-add_file_self l few
                ∙ ap (file_at s.memory) (sym eb))
              c.file;
      })
