-- ===== src/Image/Same.antt =====
-- Words and bytes are the same wherever an image is in memory.
use mk_os.Base.{ℕ, ◌+◌, ◌≤◌, ◌<◌, ◌≡◌, ap, sym, refl, ◌∙◌, arith}
use mk_os.Memory.{Memory}
use mk_os.Image.{load32, image_header, sizeof_image_header}

-- the same `n` bytes, at `p` of one memory and at `q` of another
pub record SameBytes (n : ℕ) (m : Memory) (p : ℕ) (m' : Memory) (q : ℕ) : Type 0 where
  pub bytes : (x : ℕ) → x < n → m (p + x) ≡ m' (q + x)

module _ {n : ℕ} {m m' : Memory} {p q : ℕ} (same : SameBytes n m p m' q) where
  pub byte-same : (a b x : ℕ) → a ≡ p + x → b ≡ q + x → x < n → m a ≡ m' b
  byte-same a b x ea eb h = ap m ea ∙ same.bytes x h ∙ sym (ap m' eb)

  pub load32-same : (a b x : ℕ) → a ≡ p + x → b ≡ q + x → x + 4 ≤ n → load32 m a ≡ load32 m' b
  load32-same a b x ea eb h = omega (
    arith,
    byte-same a b x ea eb (omega arith),
    byte-same (a + 1) (b + 1) (x + 1) (omega arith) (omega arith) (omega arith),
    byte-same (a + 2) (b + 2) (x + 2) (omega arith) (omega arith) (omega arith),
    byte-same (a + 3) (b + 3) (x + 3) (omega arith) (omega arith) (omega arith),
  )

  -- the header, at the same place of both
  pub image_header-same : sizeof_image_header ≤ n → p ≡ q → image_header m p ≡ image_header m' q
  image_header-same h e =
      let e0 : load32 m p ≡ load32 m' q =
        load32-same p q 0 (omega arith) (omega arith) (omega arith) in
      let e12 : load32 m (p + 12) ≡ load32 m' (q + 12) =
        load32-same (p + 12) (q + 12) 12 refl refl (omega arith) in
      let e16 : load32 m (p + 16) ≡ load32 m' (q + 16) =
        load32-same (p + 16) (q + 16) 16 refl refl (omega arith) in
      let e20 : load32 m (p + 20) ≡ load32 m' (q + 20) =
        load32-same (p + 20) (q + 20) 20 refl refl (omega arith) in
      let byte = λ (d : ℕ) (hd : d < 64). same.bytes d (omega arith) in
      let e28 : m (p + 28) ≡ m' (q + 28) = byte 28 (omega arith) in
      let e29 : m (p + 29) ≡ m' (q + 29) = byte 29 (omega arith) in
      let e30 : m (p + 30) ≡ m' (q + 30) = byte 30 (omega arith) in
      let e31 : m (p + 31) ≡ m' (q + 31) = byte 31 (omega arith) in
      let name : p + 32 ≡ q + 32 = omega arith in
      rw (e0, e12, e16, e20, e28, e29, e30, e31, name) refl
