-- ===== src/Memory/Copy.antt =====
-- What `memcpy` and `memset` write.
use mk_os.Base.{
  ℕ, zero, suc, ◌+◌, ◌-◌, ◌%◌, ◌≤◌, ◌<◌, ◌≡◌, refl, ap, ◌∙◌, ◌⊎◌, inl, inr, arith, ◌&&◌, leb, ltb,
  if◌then◌else◌,
}
use mk_os.Memory.{Memory, store, memcpy, memset}

-- whether `a` is one of the `n` addresses from `p` on
abbrev pub in_range : ℕ → ℕ → ℕ → mk_os.Base.Bool
in_range a p n = leb p a && ltb a (p + n)

-- If the destination does not begin inside the source, `memcpy` writes the source's bytes to it, and nothing else.
pub memcpy_lem :
    (dest src cnt : ℕ) (m : Memory) (a : ℕ)
    → (dest ≤ src) ⊎ (src + cnt ≤ dest)
    → memcpy dest src cnt m a ≡ (if in_range a dest cnt then m (src + (a - dest)) else m a)
unfolding memcpy
memcpy_lem dest src zero m a h = ground arith
memcpy_lem dest src (suc cnt) m a h =
    ground (arith, memcpy_lem (dest + 1) (src + 1) cnt (store m dest (m src)) a)

-- `memset` writes the low byte of `c` to the `n` addresses, and nothing else.
pub memset_lem :
    (dest c n : ℕ) (m : Memory) (a : ℕ)
    → memset dest c n m a ≡ (if in_range a dest n then c % 256 else m a)
unfolding memset
memset_lem dest c zero m a = ground arith
memset_lem dest c (suc n) m a = ground (arith, memset_lem (dest + 1) c n (store m dest (c % 256)) a)
