-- ===== src/Base/Ors.antt =====
-- `|` of the source as addition, where the operands share no bit.
use Prim.Native.Nat.{
  ℕ, zero, suc, ◌+◌, ◌*◌, ◌/◌, ◌%◌, ◌^◌, ◌≤◌, ◌<◌, max, bit_or, digits, bit_or-bitwise,
}
use mathlib.Core.Path.{◌≡◌, refl, ap, ◌∙◌}
use native.Mathlib.Omega.{arith}
use native.Mathlib.Nat.{pow-suc, div-div-eq-div-mul, div-one, mod-eq_of_lt}
use mk_os.Base.Bits.{pow_pos, mod_double}

abbrev or_digits : ℕ → ℕ → ℕ → ℕ
or_digits n a b = digits (λ b. b) max n a b

-- The rounds of the digit recursion past the number's own value change nothing.
or_digits_rounds : (n m a b : ℕ) → a ≤ n → a ≤ m → or_digits n a b ≡ or_digits m a b
or_digits_rounds zero zero a b p q = refl
or_digits_rounds zero (suc m) zero b p q = refl
or_digits_rounds zero (suc m) (suc a) b p q = absurd (omega arith)
or_digits_rounds (suc n) zero zero b p q = refl
or_digits_rounds (suc n) zero (suc a) b p q = absurd (omega arith)
or_digits_rounds (suc n) (suc m) zero b p q = refl
or_digits_rounds (suc n) (suc m) (suc a) b p q =
    omega (arith, or_digits_rounds n m (suc a / 2) (b / 2) (omega arith) (omega arith))

bit_or-zero_left : (b : ℕ) → bit_or 0 b ≡ b
bit_or-zero_left b = bit_or-bitwise 0 b

-- `|` works on the lowest bit and on the rest.
pub bit_or_low : (a b : ℕ) → bit_or a b ≡ bit_or (a / 2) (b / 2) * 2 + max (a % 2) (b % 2)
bit_or_low zero b = omega (arith, bit_or-zero_left b, bit_or-zero_left (b / 2))
bit_or_low (suc a) b = omega (
  arith,
  bit_or-bitwise (suc a) b,
  bit_or-bitwise (suc a / 2) (b / 2),
  or_digits_rounds a (suc a / 2) (suc a / 2) (b / 2) (omega arith) (omega arith),
)

bit_or-zero_below : (n a : ℕ) → a ≤ n → bit_or a 0 ≡ a
bit_or-zero_below n zero h = refl
bit_or-zero_below zero (suc a) h = absurd (omega arith)
bit_or-zero_below (suc n) (suc a) h =
    omega (arith, bit_or_low (suc a) 0, bit_or-zero_below n (suc a / 2) (omega arith))

pub bit_or-zero : (a : ℕ) → bit_or a 0 ≡ a
bit_or-zero a = bit_or-zero_below a a (omega arith)

quarter : (k a : ℕ) → a / 2 / 2 ^ k ≡ a / 2 ^ suc k
quarter k a = div-div-eq-div-mul a 2 (2 ^ k) ∙ ap (λ (t : ℕ). a / t) (omega (arith, pow-suc 2 k))

low_bits : (k a : ℕ) → a % 2 ^ suc k ≡ a / 2 % 2 ^ k * 2 + a % 2
low_bits k a = ap (λ (t : ℕ). a % t) (omega (arith, pow-suc 2 k)) ∙ mod_double a (2 ^ k) (pow_pos k)

bit_or_low_bits :
    (u v x y : ℕ) → x < 2 → y < 2 → bit_or (u * 2 + x) (v * 2 + y) ≡ bit_or u v * 2 + max x y
bit_or_low_bits u v x y hx hy =
    let eu : (u * 2 + x) / 2 ≡ u = omega arith in
    let ev : (v * 2 + y) / 2 ≡ v = omega arith in
    let ex : (u * 2 + x) % 2 ≡ x = omega arith in
    let ey : (v * 2 + y) % 2 ≡ y = omega arith in
    rw (bit_or_low (u * 2 + x) (v * 2 + y), eu, ev, ex, ey) refl

-- `|` works on the lowest `k` bits and on the rest.
pub bit_or_split :
    (k a b : ℕ)
    → bit_or a b ≡ bit_or (a / 2 ^ k) (b / 2 ^ k) * 2 ^ k + bit_or (a % 2 ^ k) (b % 2 ^ k)
bit_or_split zero a b =
    let ea : a % 2 ^ 0 ≡ 0 = omega arith in
    let eb : b % 2 ^ 0 ≡ 0 = omega arith in
    rw (div-one a, div-one b, ea, eb) (omega (arith, bit_or-zero_left 0))
bit_or_split (suc k) a b =
    rw
      (
        bit_or_low a b,
        bit_or_split k (a / 2) (b / 2),
        quarter k a,
        quarter k b,
        low_bits k a,
        low_bits k b,
        bit_or_low_bits (a / 2 % 2 ^ k) (b / 2 % 2 ^ k) (a % 2) (b % 2) (omega arith) (omega arith),
        pow-suc 2 k,
      )
      (omega arith)

module _ (k h a b : ℕ) (ha : a < 2 ^ k) (hb : b < 2 ^ k) where
  -- A part from the `k`th bit on stays apart from what is below.
  pub bit_or-high : bit_or (h * 2 ^ k + a) b ≡ h * 2 ^ k + bit_or a b
  bit_or-high =
      let e1 : (h * 2 ^ k + a) / 2 ^ k ≡ h = grind arith in
      let e2 : (h * 2 ^ k + a) % 2 ^ k ≡ a = grind arith in
      let e3 : b / 2 ^ k ≡ 0 = grind arith in
      rw (bit_or_split k (h * 2 ^ k + a) b, e1, e2, e3, mod-eq_of_lt hb, bit_or-zero h) refl

-- Two operands that share no bit: one stands below the `k`th bit, the other from it on.
pub bit_or-apart : (k a h : ℕ) → a < 2 ^ k → bit_or a (h * 2 ^ k) ≡ h * 2 ^ k + a
bit_or-apart k a h ha =
    let e1 : h * 2 ^ k / 2 ^ k ≡ h = grind (arith, pow_pos k) in
    let e2 : h * 2 ^ k % 2 ^ k ≡ 0 = grind (arith, pow_pos k) in
    let e3 : a / 2 ^ k ≡ 0 = grind arith in
    rw
      (bit_or_split k a (h * 2 ^ k), e1, e2, e3, mod-eq_of_lt ha, bit_or-zero a, bit_or-zero_left h)
      refl
