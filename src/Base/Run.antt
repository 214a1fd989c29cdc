-- ===== src/Base/Run.antt =====
-- The outcome of kernel code over a state `S`, and commands that run over it.
use mathlib.Core.Path.{◌≡◌, refl, sym, ◌∙◌, subst₂}
use mathlib.Core.Logic.{◌⊎◌, inl, inr}

-- The messages of the calls of `panic`, which never returns: the machine waits for ever.
pub data Panic : Type 0 where
  page_pool_exhausted no_continuous_memory kmalloc_pool_failed vfs_init_failed fds_init_failed :
      Panic
  no_active_task wrong_program_header elf_failed no_such_interrupt handlers_failed : Panic
  no_handler kernel_panic invalid_entry section_header : Panic

-- `fault` is an access outside an array or through a null pointer, which C leaves undefined;
-- `out_of_fuel` is a loop that has not ended within the rounds given.
pub data Run (S A : Type 0) : Type 0 where
  ok : A → S → Run S A
  panic : Panic → Run S A
  fault : Run S A
  out_of_fuel : Run S A

abbrev pub Cmd : Type 0 → Type 0 → Type 0
Cmd S A = S → Run S A

module _ {S A : Type 0} where
  abbrev pub pure : A → Cmd S A
  pure a s = ok a s

  abbrev pub and_then : {B : Type 0} → Run S A → (A → Cmd S B) → Run S B
  and_then (ok a s) k = k a s
  and_then (panic p) k = panic p
  and_then fault k = fault
  and_then out_of_fuel k = out_of_fuel

  infixl 5 ◌>>=◌ ◌>>◌
  abbrev pub ◌>>=◌ : {B : Type 0} → Cmd S A → (A → Cmd S B) → Cmd S B
  m >>= k = λ s. and_then (m s) k

  abbrev pub ◌>>◌ : {B : Type 0} → Cmd S A → Cmd S B → Cmd S B
  m >> n = m >>= λ _. n

abbrev pub when : {S : Type 0} → (S → S) → Cmd S (Unit {0})
when f s = ok tt (f s)

-- A run that ends normally, in a result and a state that satisfy `P`.
pub data Ends {S A : Type 0} (P : A → S → Type 0) : Run S A → Type 0 where
  ends : {a : A} {s : S} → P a s → Ends P (ok a s)

module _ {S A : Type 0} {P : A → S → Type 0} where
  pub Ends-and_then :
      {B : Type 0} {Q : B → S → Type 0} {r : Run S A} {k : A → Cmd S B}
      → Ends P r
      → ((a : A) (s : S) → P a s → Ends Q (k a s))
      → Ends Q (and_then r k)
  Ends-and_then (ends p) next = next _ _ p

  pub Ends-mono :
      {Q : A → S → Type 0} {r : Run S A} → Ends P r → ((a : A) (s : S) → P a s → Q a s) → Ends Q r
  Ends-mono (ends p) weaken = ends (weaken _ _ p)

  pub Ends-ok : {r : Run S A} → Ends P r → (a : A) × (s : S) × (r ≡ ok a s) × P a s
  Ends-ok (ends p) = (_, _, refl, p)

  pub Ends_at : {r : Run S A} {a : A} {s : S} → r ≡ ok a s → Ends P r → P a s
  Ends_at {a} {s} e p =
      let (b, t, e', q) = Ends-ok p in
      let both : ok a s ≡ ok b t = sym e ∙ e' in
      let ea : b ≡ a = cc in let es : t ≡ s = cc in subst₂ P ea es q

pub Ends-both :
    {S A : Type 0} {P Q : A → S → Type 0} {r : Run S A}
    → Ends P r
    → Ends Q r
    → Ends (λ a s. P a s × Q a s) r
Ends-both (ends p) q = ends (p, Ends_at refl q)

-- the part of a run behind a command whose outcome is known
pub Ends-after :
    {S A B : Type 0} {Q : B → S → Type 0} {r : Run S A} {a : A} {s : S} (k : A → Cmd S B)
    → r ≡ ok a s
    → Ends Q (k a s)
    → Ends Q (and_then r k)
Ends-after k e q = rw e q

-- A run that ends normally, in a result and a state that satisfy `P`, or in the panic `why`.
abbrev pub Settles : {S A : Type 0} → (A → S → Type 0) → Panic → Run S A → Type 0
Settles P why r = Ends P r ⊎ (r ≡ panic why)

pub Settles-and_then :
    {S A B : Type 0} {P : A → S → Type 0} {Q : B → S → Type 0} {why : Panic} {r : Run S A}
    {k : A → Cmd S B}
    → Settles P why r
    → ((a : A) (s : S) → P a s → Settles Q why (k a s))
    → Settles Q why (and_then r k)
Settles-and_then (inl (ends p)) next = next _ _ p
Settles-and_then (inr e) next = rw e (inr refl)

pub Settles-mono :
    {S A : Type 0} {P Q : A → S → Type 0} {why : Panic} {r : Run S A}
    → Settles P why r
    → ((a : A) (s : S) → P a s → Q a s)
    → Settles Q why r
Settles-mono (inl e) weaken = inl (Ends-mono e weaken)
Settles-mono (inr e) weaken = inr e

pub Settles_at :
    {S A : Type 0} {P : A → S → Type 0} {why : Panic} {r : Run S A} {a : A} {s : S}
    → r ≡ ok a s
    → Settles P why r
    → P a s
Settles_at e (inl p) = Ends_at e p
Settles_at e (inr stopped) = absurd cc

pub Settles-both :
    {S A : Type 0} {P Q : A → S → Type 0} {why : Panic} {r : Run S A}
    → Settles P why r
    → Settles Q why r
    → Settles (λ a s. P a s × Q a s) why r
Settles-both (inl (ends p)) q = inl (ends (p, Settles_at refl q))
Settles-both (inr e) q = inr e

-- A run over one state behind a run over another.
abbrev pub carry : {S T A B : Type 0} → Run S A → (A → S → Run T B) → Run T B
carry (ok a s) k = k a s
carry (panic p) k = panic p
carry fault k = fault
carry out_of_fuel k = out_of_fuel

pub carry-Settles :
    {S T A B : Type 0} {P : A → S → Type 0} {Q : B → T → Type 0} {why : Panic} {r : Run S A}
    {k : A → S → Run T B}
    → Settles P why r
    → ((a : A) (s : S) → P a s → Settles Q why (k a s))
    → Settles Q why (carry r k)
carry-Settles (inl (ends p)) next = next _ _ p
carry-Settles (inr e) next = rw e (inr refl)
