-- ===== src/Memory/Compare.antt =====
-- What `memcmp`, `strncmp`, `strlen` and `strnlen` tell of the bytes.
use mk_os.Base.{
  ℕ, zero, suc, ◌+◌, ◌<◌, ◌≡◌, ◌≢◌, ◌↔◌, refl, ◌∙◌, inl, inr, arith, min, Bool-cases, ◌==◌, some,
  ==_of_eq, ==_of_ne,
}
use mk_os.Base.Int.{pos, sub_ℕ-eq-zero_iff}
use mk_os.Memory.{Memory, memcmp, strncmp, strlen, strnlen}

module _ (m : Memory) where
  memcmp_tail :
      (d1 d2 cnt : ℕ) → memcmp d1 d2 (suc cnt) m ≡ pos 0 → memcmp (d1 + 1) (d2 + 1) cnt m ≡ pos 0
  unfolding memcmp
  memcmp_tail d1 d2 cnt h = ground (arith, sub_ℕ-eq-zero_iff (m d1) (m d2))

  memcmp-same :
      (d1 d2 cnt : ℕ) → memcmp d1 d2 cnt m ≡ pos 0 → (i : ℕ) → i < cnt → m (d1 + i) ≡ m (d2 + i)
  unfolding memcmp
  memcmp-same d1 d2 zero h i lt = absurd (omega arith)
  memcmp-same d1 d2 (suc cnt) h zero lt = ground (arith, sub_ℕ-eq-zero_iff (m d1) (m d2))
  memcmp-same d1 d2 (suc cnt) h (suc i) lt =
      ground (arith, memcmp-same (d1 + 1) (d2 + 1) cnt (memcmp_tail d1 d2 cnt h) i)

  same-memcmp :
      (d1 d2 cnt : ℕ) → ((i : ℕ) → i < cnt → m (d1 + i) ≡ m (d2 + i)) → memcmp d1 d2 cnt m ≡ pos 0
  unfolding memcmp
  same-memcmp d1 d2 zero h = refl
  same-memcmp d1 d2 (suc cnt) h =
      ground (arith, h 0, same-memcmp (d1 + 1) (d2 + 1) cnt λ i lt. ground (arith, h (suc i)))

  -- `memcmp` is zero exactly when the two runs of bytes are equal.
  pub memcmp_zero_iff :
      (d1 d2 cnt : ℕ) → (memcmp d1 d2 cnt m ≡ pos 0) ↔ ((i : ℕ) → i < cnt → m (d1 + i) ≡ m (d2 + i))
  memcmp_zero_iff d1 d2 cnt = (memcmp-same d1 d2 cnt, same-memcmp d1 d2 cnt)

-- The strings are equal as far as `strncmp` looks: up to a zero byte or `n` bytes.
abbrev pub SameString : Memory → Memory → ℕ → Type 0
SameString s t zero = Unit {0}
SameString s t (suc n) = (s 0 ≡ t 0) × (s 0 ≢ 0 → SameString (λ i. s (suc i)) (λ i. t (suc i)) n)

strncmp-SameString : (s t : Memory) (n : ℕ) → strncmp s t n ≡ pos 0 → SameString s t n
unfolding strncmp
strncmp-SameString s t zero h = tt
strncmp-SameString s t (suc n) h = (
  ground (arith, sub_ℕ-eq-zero_iff (s 0) (t 0)),
  λ ne.
      strncmp-SameString (λ i. s (suc i)) (λ i. t (suc i)) n
        (ground (arith, sub_ℕ-eq-zero_iff (s 0) (t 0))),
)

SameString-strncmp : (s t : Memory) (n : ℕ) → SameString s t n → strncmp s t n ≡ pos 0
unfolding strncmp
SameString-strncmp s t zero h = refl
SameString-strncmp s t (suc n) (e, more) = elim (Bool-cases (s 0 == 0)) [
  | inl last ↦ rw (==_of_eq e, last)
  | inr go ↦
      rw (==_of_eq e, go)
        (SameString-strncmp (λ i. s (suc i)) (λ i. t (suc i)) n (more (ground arith)))
]

-- `strncmp` is zero exactly when the strings are equal up to a zero byte or the first `n` bytes.
pub strncmp_zero_iff : (s t : Memory) (n : ℕ) → (strncmp s t n ≡ pos 0) ↔ SameString s t n
strncmp_zero_iff s t n = (strncmp-SameString s t n, SameString-strncmp s t n)

-- `k` is the place of the first zero byte
pub record IsEnd (s : Memory) (k : ℕ) : Type 0 where
  pub ended : s k ≡ 0
  pub first : (i : ℕ) → i < k → s i ≢ 0

IsEnd-tail : {s : Memory} {k : ℕ} → IsEnd s (suc k) → IsEnd (λ i. s (suc i)) k
IsEnd-tail e = record { ended = e.ended; first = λ i lt. e.first (suc i) (omega arith) }

-- With more rounds than bytes before the zero byte, `strlen` ends and counts those bytes.
pub strlen_lem : (fuel k : ℕ) {s : Memory} → IsEnd s k → k < fuel → strlen fuel s ≡ some k
unfolding strlen
strlen_lem zero k e h = absurd (omega arith)
strlen_lem (suc fuel) zero {s} e h = rw (==_of_eq e.ended)
strlen_lem (suc fuel) (suc k) {s} e h =
    rw (==_of_ne (e.first 0 (omega arith)), strlen_lem fuel k (IsEnd-tail e) (omega arith))

-- `strnlen` is the length of the string, or the bound where that is less.
pub strnlen_lem : (maxlen k : ℕ) {s : Memory} → IsEnd s k → strnlen s maxlen ≡ min k maxlen
unfolding strnlen
strnlen_lem zero k e = omega arith
strnlen_lem (suc maxlen) zero e = rw (==_of_eq e.ended) (omega arith)
strnlen_lem (suc maxlen) (suc k) e =
    rw (==_of_ne (e.first 0 (omega arith))) (omega (arith, strnlen_lem maxlen k (IsEnd-tail e)))

-- the bytes that are compared, in another string
pub SameString-same :
    (n : ℕ) (s t u : Memory) → ((i : ℕ) → i < n → t i ≡ u i) → SameString s t n → SameString s u n
SameString-same zero s t u same h = tt
SameString-same (suc n) s t u same (first, rest) = (
  first ∙ same 0 (omega arith),
  λ more.
      SameString-same n (λ i. s (suc i)) (λ i. t (suc i)) (λ i. u (suc i))
        (λ i h. same (suc i) (omega arith)) (rest more),
)
