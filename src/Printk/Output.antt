-- ===== src/Printk/Output.antt =====
-- kernel/lib/printk.c: what a message leaves on the serial line and in memory.
use mk_os.Base.{
  ℕ, zero, suc, ◌+◌, ◌≤◌, ◌<◌, ◌≡◌, ◌≢◌, ◌⊎◌, refl, sym, ap, ◌∙◌, inl, inr, List, [], ◌∷◌, ◌++◌,
  append-nil, ==_of_ne, ==_iff, ◌==◌, ltb, if◌then◌else◌, ◌-◌, min, length, get_or, take,
  Bool-cases, arith,
}
use mk_os.Base.Run.{Ends, ends, Ends-and_then}
use mk_os.Memory.{Memory, store, from}
use mk_os.Memory.Compare.{IsEnd}
use mk_os.Console.{Console}
use mk_os.Console.Lines.{bytes, puts_lem}
use mk_os.Printk.{Vsnprintf, Level, is_printed, sys_msg, config_printk_buffer_len, printk, message}

-- a text up to its first zero byte
abbrev pub until_zero : List ℕ → List ℕ
until_zero [] = []
until_zero (c ∷ cs) = if c == 0 then [] else c ∷ until_zero cs

-- Memory has the text at `p`, with a zero byte behind it.
record HasText (m : Memory) (p : ℕ) (xs : List ℕ) : Type 0 where
  byte : (i : ℕ) → i ≤ length xs → m (p + i) ≡ get_or xs i 0

HasText-tail : {m : Memory} {p x : ℕ} {xs : List ℕ} → HasText m p (x ∷ xs) → HasText m (p + 1) xs
HasText-tail {m} h = record { byte = λ i le. ap m (omega arith) ∙ h.byte (suc i) (omega arith) }

bytes-until_zero :
    (m : Memory) (p : ℕ) (xs : List ℕ)
    → HasText m p xs
    → bytes m p (length (until_zero xs)) ≡ until_zero xs
bytes-until_zero m p [] h = refl
bytes-until_zero m p (x ∷ xs) h = elim (Bool-cases (x == 0)) [
  | inl null ↦ rw null refl
  | inr more ↦
      let here : m p ≡ x = ap m (omega arith) ∙ h.byte 0 (omega arith) in
      rw more (
        ap (λ c. c ∷ bytes m (p + 1) (length (until_zero xs))) here
        ∙ ap (λ cs. x ∷ cs) (bytes-until_zero m (p + 1) xs (HasText-tail h)))
]

get_or-until_zero : (xs : List ℕ) → get_or xs (length (until_zero xs)) 0 ≡ 0
get_or-until_zero [] = refl
get_or-until_zero (x ∷ xs) = elim (Bool-cases (x == 0)) [
  | inl null ↦ rw null ((==_iff _ _).0 null)
  | inr more ↦ rw more (get_or-until_zero xs)
]

until_zero-first : (xs : List ℕ) (i : ℕ) → i < length (until_zero xs) → get_or xs i 0 ≢ 0
until_zero-first [] i h z = absurd (omega arith)
until_zero-first (x ∷ xs) zero h z = absurd (ground arith)
until_zero-first (x ∷ xs) (suc i) h z = until_zero-first xs i (ground arith) z

until_zero-le : (xs : List ℕ) → length (until_zero xs) ≤ length xs
until_zero-le [] = omega arith
until_zero-le (x ∷ xs) = let rest = until_zero-le xs in ground (arith, rest)

HasText-IsEnd :
    (m : Memory) (p : ℕ) (xs : List ℕ) → HasText m p xs → IsEnd (from m p) (length (until_zero xs))
HasText-IsEnd m p xs h = record {
  ended = h.byte (length (until_zero xs)) (until_zero-le xs) ∙ get_or-until_zero xs;
  first =
      λ i lt z. until_zero-first xs i lt (sym (h.byte i (omega (arith, lt, until_zero-le xs))) ∙ z);
}

length-take : (k : ℕ) (xs : List ℕ) → length (take k xs) ≡ min (length xs) k
length-take zero xs = omega arith
length-take (suc k) [] = omega arith
length-take (suc k) (x ∷ xs) = omega (arith, length-take k xs)

get_or-take : (k : ℕ) (xs : List ℕ) (i : ℕ) → i < k → get_or (take k xs) i 0 ≡ get_or xs i 0
get_or-take zero xs i h = absurd (omega arith)
get_or-take (suc k) [] i h = refl
get_or-take (suc k) (x ∷ xs) zero h = refl
get_or-take (suc k) (x ∷ xs) (suc i) h = get_or-take k xs i (omega arith)

inside_or_last : (i n : ℕ) → i ≤ n → (i < n) ⊎ (i ≡ n)
inside_or_last i n h = elim (Bool-cases (ltb i n)) [
  | inl inside ↦ inl (ground (arith, inside))
  | inr end ↦ inr (ground (arith, end, h))
]

get_or-end : (xs : List ℕ) → get_or xs (length xs) 0 ≡ 0
get_or-end [] = refl
get_or-end (x ∷ xs) = get_or-end xs

module _ {A : Type 0} (lib : Vsnprintf A) (printf_buf : ℕ) (fmt : List ℕ) (args : A) where
  -- the memory that `printk` has when it calls `puts`
  abbrev filled : Memory → Memory
  filled m =
      lib.format printf_buf 1023 fmt args (store (store m printf_buf 0) (printf_buf + 1023) 0)

  -- the part of the text that the buffer has room for
  abbrev kept : List ℕ
  kept = take 1022 (lib.text fmt args)

  filled-HasText : (m : Memory) → HasText (filled m) printf_buf kept
  filled-HasText m = record {
    byte = λ i h.
        let long = length-take 1022 (lib.text fmt args) in
        elim (inside_or_last i (length kept) h) [
          | inl inside ↦
              lib.written printf_buf 1023 fmt args _ i (omega (arith, long, inside))
              ∙ sym (get_or-take 1022 (lib.text fmt args) i (omega (arith, long, inside)))
          | inr last ↦
              ap (filled m) {y = printf_buf + min (length (lib.text fmt args)) (1023 - 1)}
                (omega (arith, last, long))
              ∙ lib.ended printf_buf 1023 fmt args _ (omega arith)
              ∙ sym (ap (λ (j : ℕ). get_or kept j 0) last ∙ get_or-end kept)
        ];
  }

  filled-outside :
      (m : Memory) (a : ℕ) → (a < printf_buf) ⊎ (printf_buf + 1024 ≤ a) → filled m a ≡ m a
  filled-outside m a (inl h) = lib.untouched printf_buf 1023 fmt args _ a (inl h) ∙ ground arith
  filled-outside m a (inr h) =
      lib.untouched printf_buf 1023 fmt args _ a (inr (omega arith)) ∙ ground arith

  pub printk-Ends :
      (s : Console)
      → printf_buf ≢ 0
      → Ends
          (λ n t.
            (n ≡ length (lib.text fmt args))
            × (t.output ≡ s.output ++ until_zero (take 1022 (lib.text fmt args)))
            × ((a : ℕ)
                → (a < printf_buf) ⊎ (printf_buf + config_printk_buffer_len ≤ a)
                → t.memory a ≡ s.memory a))
          (printk lib printf_buf fmt args s)
  unfolding printk
  printk-Ends s real =
      rw
        (
          puts_lem 1024 printf_buf (length (until_zero kept))
              (record s { memory = filled s.memory })
              (HasText-IsEnd (filled s.memory) printf_buf kept (filled-HasText s.memory))
              (omega (arith, until_zero-le kept, length-take 1022 (lib.text fmt args))),
          ==_of_ne real,
        )
        (ends (
          refl,
          ap (λ cs. s.output ++ cs)
              (bytes-until_zero (filled s.memory) printf_buf kept (filled-HasText s.memory)),
          filled-outside s.memory,
        ))

-- A message of a level below the one configured prints nothing; every other one prints
-- what the buffer keeps of its text, up to a zero byte, and returns.
pub message-Ends :
    {A : Type 0} (lib : Vsnprintf A) (printf_buf : ℕ) (l : Level) (x : List ℕ) (args : A)
    (s : Console)
    → printf_buf ≢ 0
    → Ends
        (λ _ t.
          t.output
          ≡ s.output
            ++ (if is_printed l then until_zero (take 1022 (lib.text (sys_msg l x) args)) else []))
        (message lib printf_buf l x args s)
unfolding message
message-Ends lib printf_buf l x args s real = elim (Bool-cases (is_printed l)) [
  | inl shown ↦ rw shown (
      Ends-and_then (printk-Ends lib printf_buf (sys_msg l x) args s real)
        (λ n t (len, out, kept). ends out))
  | inr hidden ↦ rw hidden (ends (sym (append-nil s.output)))
]
