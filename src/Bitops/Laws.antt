-- ===== src/Bitops/Laws.antt =====
-- What the rest of the kernel relies on in `clz` and `ntohl`.
use mk_os.Base.{ℕ, zero, suc, ◌-◌, ◌^◌, ◌≤◌, ◌<◌, ◌≡◌, refl, arith, leb, Bool-cases, inl, inr}
use mk_os.Bitops.{leading_zeros, clz, ntohl}

-- Among `n` bits the topmost one of `v` stands just below its leading zeros.
leading_zeros_top :
    (n v : ℕ)
    → 0 < v
    → v < 2 ^ n
    → (leading_zeros n v < n)
      × (2 ^ (n - 1 - leading_zeros n v) ≤ v)
      × (v < 2 ^ (n - leading_zeros n v))
unfolding leading_zeros
leading_zeros_top zero v p h = absurd (omega arith)
leading_zeros_top (suc k) v p h = elim (Bool-cases (leb (2 ^ k) v)) [
  | inl top ↦
      let e : suc k - 1 - 0 ≡ k = omega arith in
      let e' : suc k - 0 ≡ suc k = omega arith in rw (top, e, e') (omega arith, ground arith, h)
  | inr below ↦
      let z = leading_zeros k v in
      let e : suc k - 1 - suc z ≡ k - 1 - z = omega arith in
      let e' : suc k - suc z ≡ k - z = omega arith in
      let (lt, low, high) = leading_zeros_top k v p (ground arith) in
      rw (below, e, e') (omega arith, low, high)
]

-- For a word `v` above zero, `63 - clz(v)` is the position of its topmost one.
pub clz_top :
    (v : ℕ) → 0 < v → v < 2 ^ 64 → (clz v < 64) × (2 ^ (63 - clz v) ≤ v) × (v < 2 ^ (64 - clz v))
unfolding clz
clz_top v p h = leading_zeros_top 64 v p h

pub clz-zero : clz 0 ≡ 64
unfolding clz
clz-zero = refl

-- `ntohl` twice gives the word back.
pub ntohl-ntohl : (d : ℕ) → d < 2 ^ 32 → ntohl (ntohl d) ≡ d
unfolding ntohl
ntohl-ntohl d h = omega arith

pub ntohl-lt : (d : ℕ) → ntohl d < 2 ^ 32
unfolding ntohl
ntohl-lt d = omega arith
