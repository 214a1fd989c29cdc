-- ===== src/Boot/Report.antt =====
-- boot/main.c: what the boot loader prints.
pub mod Laws
use mk_os.Base.{
  ℕ, zero, suc, ◌+◌, ◌-◌, ◌/◌, ◌%◌, ◌^◌, Bool, true, false, not, ◌||◌, Option, none, some, List, [],
  ◌∷◌, ◌++◌, ltb, leb, ◌==◌, if◌then◌else◌,
}
use mk_os.Base.Word.{add32}
use mk_os.Layout.{config_ram_start}
use mk_os.Memory.{Memory}
use mk_os.Image.{
  image_header, ih_magic_value, ih_arch_arm64, ih_comp_none, ih_os_firmware, ih_type_kernel,
}
use mk_os.Boot.{
  LoaderHeader, mask_ntohl, refusal, Message, loading_from, loading_image, to_address, running_at,
}

-- one digit of `puthex`
abbrev pub digit : ℕ → ℕ
digit c = if ltb c 10 then b'0' + c else b'A' + (c - 10)

-- The loop of the loader's `puthex`, with `i` digits left: whether only zeros have come, and what
-- has gone out.
unfoldable pub digit_loop : (i n : ℕ) → Bool → List ℕ → Bool × List ℕ
digit_loop zero n zeros out = (zeros, out)
digit_loop (suc i) n zeros out =
    let c = n / 16 ^ i % 16 in
    let still = if not (c == 0) then false else zeros in
    digit_loop i n still (if still then out else out ++ digit c ∷ [])

-- the bytes that the loader's `puthex` sends
unfoldable pub loader_puthex : ℕ → List ℕ
unfolding digit_loop
loader_puthex n =
    let (zeros, out) = digit_loop 16 n true (b'0' ∷ b'x' ∷ []) in
    if zeros then out ++ b'0' ∷ [] else out

-- `load_kernel` up to the jump to the image
unfoldable pub report : ℕ → Memory → List Message
unfolding refusal
report at m =
    let hdr : LoaderHeader = image_header m at in
    loading_from at ∷ elim (refusal hdr) [
      | some why ↦ why ∷ []
      | none ↦
          loading_image hdr.ih_name
          ∷ to_address (mask_ntohl hdr.ih_load) (mask_ntohl hdr.ih_size)
          ∷ running_at (mask_ntohl hdr.ih_ep)
          ∷ []
    ]
