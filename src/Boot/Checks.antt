-- ===== src/Boot/Checks.antt =====
-- Which images the boot loader starts, and where it copies them.
use mk_os.Base.{
  ap, ◌≢◌, ◌==◌, ==_iff, ltb, leb, ◌||◌, not, Option, ℕ, ◌+◌, ◌-◌, ◌^◌, ◌≤◌, ◌<◌, ◌≡◌, refl, ◌⊎◌,
  arith, inl, inr, Bool-cases, none, some, if◌then◌else◌,
}
use mk_os.Base.Word.{add32}
use mk_os.Layout.{config_ram_start}
use mk_os.Memory.{Memory, memcpy}
use mk_os.Memory.Copy.{in_range, memcpy_lem}
use mk_os.Image.{
  ImageHeader, image_header, sizeof_image_header, ih_magic_value, ih_arch_arm64, ih_comp_none,
  ih_os_firmware, ih_type_kernel,
}
use mk_os.Boot.{
  LoaderHeader, mask_ntohl, image_limit, load_checked, load_kernel, refusal, Message, loading_from,
  invalid_magic, invalid_architecture, invalid_os, compressed, invalid_type, outside_ram, too_large,
  loading_image, to_address, running_at,
}

-- an uncompressed kernel for this processor, to be loaded into the first half of memory
pub record IsImage (hdr : ImageHeader) : Type 0 where
  pub magic : mask_ntohl hdr.ih_magic ≡ ih_magic_value
  pub arch : hdr.ih_arch ≡ ih_arch_arm64
  pub os : hdr.ih_os ≡ ih_os_firmware
  pub comp : hdr.ih_comp ≡ ih_comp_none
  pub kind : hdr.ih_type ≡ ih_type_kernel
  pub above : config_ram_start ≤ mask_ntohl hdr.ih_load
  pub below : mask_ntohl hdr.ih_load < image_limit
  pub ends : add32 (mask_ntohl hdr.ih_load) (mask_ntohl hdr.ih_size) ≤ image_limit

-- The image has the loader's magic number and is for this processor, and so on.
abbrev HasMagic : ImageHeader → Type 0
HasMagic hdr = mask_ntohl hdr.ih_magic ≡ ih_magic_value

abbrev HasArch : ImageHeader → Type 0
HasArch hdr = HasMagic hdr × (hdr.ih_arch ≡ ih_arch_arm64)

abbrev HasOs : ImageHeader → Type 0
HasOs hdr = HasArch hdr × (hdr.ih_os ≡ ih_os_firmware)

abbrev HasComp : ImageHeader → Type 0
HasComp hdr = HasOs hdr × (hdr.ih_comp ≡ ih_comp_none)

-- an uncompressed kernel for this processor, wherever it is to be loaded
abbrev HasType : ImageHeader → Type 0
HasType hdr = HasComp hdr × (hdr.ih_type ≡ ih_type_kernel)

-- its load address lies in the first half of memory
abbrev HasPlace : ImageHeader → Type 0
HasPlace hdr =
    HasType hdr
    × (config_ram_start ≤ mask_ntohl hdr.ih_load)
    × (mask_ntohl hdr.ih_load < image_limit)

-- The message says the first thing that is wrong with the image.
abbrev pub IsReason : ImageHeader → Message → Type 0
IsReason hdr (invalid_magic expected got) =
    (expected ≡ ih_magic_value) × (got ≡ hdr.ih_magic) × ¬ HasMagic hdr
IsReason hdr invalid_architecture = HasMagic hdr × (hdr.ih_arch ≢ ih_arch_arm64)
IsReason hdr invalid_os = HasArch hdr × (hdr.ih_os ≢ ih_os_firmware)
IsReason hdr compressed = HasOs hdr × (hdr.ih_comp ≢ ih_comp_none)
IsReason hdr invalid_type = HasComp hdr × (hdr.ih_type ≢ ih_type_kernel)
IsReason hdr outside_ram =
    HasType hdr
    × ((mask_ntohl hdr.ih_load < config_ram_start) ⊎ (image_limit ≤ mask_ntohl hdr.ih_load))
IsReason hdr too_large =
    HasPlace hdr × (image_limit < add32 (mask_ntohl hdr.ih_load) (mask_ntohl hdr.ih_size))
IsReason hdr (loading_from at) = ⊥
IsReason hdr (loading_image name) = ⊥
IsReason hdr (to_address load size) = ⊥
IsReason hdr (running_at entry) = ⊥

-- A test of the header is right: its message is the reason, or the image is one to be started.
abbrev Verdict : ImageHeader → Option Message → Type 0
Verdict hdr o = ((why : Message) × (o ≡ some why) × IsReason hdr why) ⊎ ((o ≡ none) × IsImage hdr)

-- a header that has the first of the properties, with the second one tested
tested :
    {P : Type 0} {x y : ℕ} {o : Option Message} {hdr : ImageHeader} (why : Message)
    → P
    → (P × (x ≢ y) → IsReason hdr why)
    → (P × (x ≡ y) → Verdict hdr o)
    → Verdict hdr (if not (x == y) then some why else o)
tested {x} {y} why p bad good = elim (Bool-cases (x == y)) [
  | inl same ↦ rw same (good (p, (==_iff _ _).0 same))
  | inr other ↦ rw other (inl (_, refl, bad (p, λ e. ground (arith, other, e))))
]

placed :
    (hdr : ImageHeader)
    → HasType hdr
    → let load = mask_ntohl hdr.ih_load in
      Verdict hdr (
        if ltb load config_ram_start || leb image_limit load
        then some outside_ram
        else if ltb image_limit (add32 load (mask_ntohl hdr.ih_size))
        then some too_large
        else none)
placed hdr kind =
    let load = mask_ntohl hdr.ih_load in
    elim (Bool-cases (ltb load config_ram_start || leb image_limit load)) [
      | inl outside ↦ rw outside (inl (_, refl, (kind, ground (arith, outside))))
      | inr inside ↦
          let above : config_ram_start ≤ load = ground (arith, inside) in
          let below : load < image_limit = ground (arith, inside) in
          elim (Bool-cases (ltb image_limit (add32 load (mask_ntohl hdr.ih_size)))) [
            | inl long ↦
                rw (inside, long) (inl (_, refl, ((kind, above, below), ground (arith, long))))
            | inr short ↦
                let ((((magic, arch), os), comp), type) = kind in
                rw (inside, short)
                  (inr (
                    refl,
                    record {
                      magic = magic;
                      arch = arch;
                      os = os;
                      comp = comp;
                      kind = type;
                      above = above;
                      below = below;
                      ends = ground (arith, short);
                    },
                  ))
          ]
    ]

-- The first test that an image fails gives the message; with no such test it is one to be started.
pub refusal_verdict : (hdr : ImageHeader) → Verdict hdr (refusal hdr)
unfolding refusal
refusal_verdict hdr =
    tested {P = Unit {0}} {hdr = hdr} (invalid_magic ih_magic_value hdr.ih_magic) tt
      (λ (u, bad). (refl, refl, bad))
      λ (u, magic).
        tested {P = HasMagic hdr} {hdr = hdr} invalid_architecture magic (λ b. b)
          λ arch.
            tested {P = HasArch hdr} {hdr = hdr} invalid_os arch (λ b. b)
              λ os.
                tested {P = HasOs hdr} {hdr = hdr} compressed os (λ b. b)
                  λ comp.
                    tested {P = HasComp hdr} {hdr = hdr} invalid_type comp (λ b. b)
                      λ kind. placed hdr kind

-- The loader gives up, or the image is a kernel for this processor whose load address lies in the
-- first half of memory, and it is copied there and entered. Where address and size do not overflow
-- and the flash lies below that address, exactly the bytes of the image are written, and none of
-- them beyond that half.
pub load_kernel-checks :
    (at : ℕ) (m : Memory)
    → let hdr = image_header m at in
      let load = mask_ntohl hdr.ih_load in
      let size = mask_ntohl hdr.ih_size in
      (load_kernel at m ≡ none)
      ⊎ (IsImage hdr
          × ((n : Memory) × (load_kernel at m ≡ some (mask_ntohl hdr.ih_ep, n))
              × (load + size < 2 ^ 32
                  → at + sizeof_image_header + size ≤ load
                  → (load + size ≤ image_limit)
                    × ((a : ℕ)
                        → n a ≡ (
                            if in_range a load size
                            then m (at + sizeof_image_header + (a - load))
                            else m a)))))
unfolding load_kernel
load_kernel-checks at m =
    let hdr : LoaderHeader = image_header m at in
    let load = mask_ntohl hdr.ih_load in
    let size = mask_ntohl hdr.ih_size in
    elim (refusal_verdict hdr) [
      | inl (why, refused, reason) ↦ inl (ap (load_checked at m) refused)
      | inr (accepted, i) ↦ inr (
        i,
        (
          memcpy load (at + sizeof_image_header) size m,
          ap (load_checked at m) accepted,
          λ small low. (
            omega (arith, i),
            λ a. memcpy_lem load (at + sizeof_image_header) size m a (inr low),
          ),
        ),
      )
    ]
