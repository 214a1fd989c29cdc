-- ===== src/Console/Hex.antt =====
-- What `puthex` prints is the number, without needless zeros.
use mk_os.Base.{
  ℕ, zero, suc, ◌+◌, ◌-◌, ◌*◌, ◌/◌, ◌%◌, ◌^◌, ◌<◌, ◌≡◌, refl, ap, ◌∙◌, arith, inl, inr, Bool, true,
  false, Bool-cases, List, [], ◌∷◌, ◌==◌, ltb, ◌&&◌, if◌then◌else◌,
}
use native.Mathlib.Nat.{div-add-mod, div-div-eq-div-mul, mul_comm, pow-suc}
use mk_os.Base.Run.{ok}
use mk_os.Console.{Console, send, hex_digit, hex_from, puthex}

-- the number that digits stand for, behind those of `acc`
abbrev pub digit_value : ℕ → ℕ
digit_value d = if ltb d 58 then d - 48 else d - 55

abbrev pub value : ℕ → List ℕ → ℕ
value acc [] = acc
value acc (d ∷ ds) = value (acc * 16 + digit_value d) ds

digit_value-hex_digit : (c : ℕ) → c < 16 → digit_value (hex_digit c) ≡ c
digit_value-hex_digit c h = ground arith

-- the digits of `n` from the place `i` on
split_digit : (n p : ℕ) → 0 < p → n % (16 * p) ≡ n / p % 16 * p + n % p
split_digit n p h = omega (
  arith,
  div-add-mod n (16 * p),
  div-add-mod n p,
  ap (λ (t : ℕ). p * t) (div-add-mod (n / p) 16),
  ap (λ (t : ℕ). p * t) (div-div-eq-div-mul n p 16 ∙ ap (λ (t : ℕ). n / t) (mul_comm p 16)),
)

pow_pos16 : (i : ℕ) → 0 < 16 ^ i
pow_pos16 zero = omega arith
pow_pos16 (suc i) = omega (arith, pow-suc 16 i, pow_pos16 i)

no_zeros : {acc : ℕ} → false ≡ true → acc ≡ 0
no_zeros e = cc

-- The digits printed stand for the number; zeros are skipped as long as there is nothing before.
value-hex_from :
    (i n : ℕ) (zeros : Bool) (acc : ℕ)
    → (zeros ≡ true → acc ≡ 0)
    → value acc (hex_from i n zeros) ≡ acc * 16 ^ i + n % 16 ^ i
unfolding hex_from
value-hex_from zero n true acc h = omega (arith, h refl)
value-hex_from zero n false acc h = omega arith
value-hex_from (suc i) n zeros acc h =
    let c = n / 16 ^ i % 16 in
    let grown : 16 ^ suc i ≡ 16 * 16 ^ i = omega (arith, pow-suc 16 i) in
    let split : n % 16 ^ suc i ≡ c * 16 ^ i + n % 16 ^ i =
      ap (λ (m : ℕ). n % m) grown ∙ split_digit n (16 ^ i) (pow_pos16 i) in
    let wide : acc * 16 ^ suc i ≡ acc * 16 * 16 ^ i =
      omega (arith, ap (λ (m : ℕ). acc * m) grown) in
    elim (Bool-cases (zeros && c == 0)) [
      | inl skip ↦
          let none_yet : acc ≡ 0 = h (ground arith) in
          let nothing : c ≡ 0 = ground arith in
          rw skip (
            value-hex_from i n true acc (λ e. none_yet)
            ∙ omega (
              arith,
              split,
              ap (λ (m : ℕ). m * 16 ^ i) none_yet,
              ap (λ (m : ℕ). m * 16 ^ suc i) none_yet,
              ap (λ (m : ℕ). m * 16 ^ i) nothing,
            ))
      | inr print ↦
          let digit : digit_value (hex_digit c) ≡ c = digit_value-hex_digit c (omega arith) in
          rw print (
            value-hex_from i n false (acc * 16 + digit_value (hex_digit c)) no_zeros
            ∙ ap (λ (d : ℕ). (acc * 16 + d) * 16 ^ i + n % 16 ^ i) digit
            ∙ omega (arith, split, wide))
    ]

-- `puthex` prints "0x" and hexadecimal digits that stand for the number.
pub puthex-value :
    (n : ℕ) (s : Console)
    → n < 2 ^ 64
    → (ds : List ℕ) × (puthex n s ≡ ok tt (send (48 ∷ 120 ∷ ds) s)) × (value 0 ds ≡ n)
unfolding puthex
puthex-value n s h =
    (hex_from 16 n true, refl, value-hex_from 16 n true 0 (λ e. refl) ∙ omega arith)
