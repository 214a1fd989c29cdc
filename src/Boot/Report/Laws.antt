-- ===== src/Boot/Report/Laws.antt =====
-- boot/main.c: the messages are about what the loader does.
use mk_os.Base.{
  ℕ, zero, suc, ◌/◌, ◌%◌, ◌^◌, ◌≡◌, refl, sym, ap, ◌∙◌, inl, inr, Bool, true, false, not, List, [],
  ◌∷◌, ◌++◌, append-nil, append_assoc, Bool-cases, ◌==◌, if◌then◌else◌, arith,
}
use mk_os.Memory.{Memory}
use mk_os.Console.{hex_digit, hex_from}
use mk_os.Boot.Report.{digit, digit_loop, loader_puthex}

abbrev finish : Bool × List ℕ → List ℕ
finish (zeros, out) = if zeros then out ++ b'0' ∷ [] else out

digit_loop-hex_from :
    (i n : ℕ) (zeros : Bool) (out : List ℕ)
    → finish (digit_loop i n zeros out) ≡ out ++ hex_from i n zeros
unfolding digit_loop hex_from
digit_loop-hex_from zero n true out = refl
digit_loop-hex_from zero n false out = sym (append-nil out)
digit_loop-hex_from (suc i) n zeros out =
    let c = n / 16 ^ i % 16 in
    let same : digit c ≡ hex_digit c = ground arith in
    let shown : finish (digit_loop i n false (out ++ digit c ∷ []))
        ≡ out ++ hex_digit c ∷ hex_from i n false =
      digit_loop-hex_from i n false (out ++ digit c ∷ [])
      ∙ append_assoc out (digit c ∷ []) (hex_from i n false)
      ∙ ap (λ d. out ++ d ∷ hex_from i n false) same in
    let still = if not (c == 0) then false else zeros in
    let opened : digit_loop (suc i) n zeros out
        ≡ digit_loop i n still (if still then out else out ++ digit c ∷ []) =
      refl in
    ap finish opened ∙ elim (Bool-cases (c == 0)) [
      | inl null ↦ elim (Bool-cases zeros) [
        | inl first ↦ rw (null, first) (digit_loop-hex_from i n true out)
        | inr later ↦ rw (null, later) shown
      ]
      | inr some_digit ↦ elim (Bool-cases zeros) [
        | inl first ↦ rw (some_digit, first) shown
        | inr later ↦ rw (some_digit, later) shown
      ]
    ]

-- The loader's `puthex` and the kernel's send the same bytes for every number.
pub loader_puthex-puthex : (n : ℕ) → loader_puthex n ≡ b'0' ∷ b'x' ∷ hex_from 16 n true
unfolding loader_puthex
loader_puthex-puthex n = digit_loop-hex_from 16 n true (b'0' ∷ b'x' ∷ [])
