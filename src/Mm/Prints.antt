-- ===== src/Mm/Prints.antt =====
-- kernel/core/mm.c: runs of the dump, by the set of the lines that they print.
use mk_os.Base.{◌≡◌, ◌⊎◌, inl, inr, refl, ap, sym, ◌∙◌, List, [], ◌∷◌, ◌++◌}
use mathlib.Core.Path.{subst}
use mk_os.Base.Run.{Run, ok, fault, Cmd, and_then, Ends, ends}
use mk_os.Mm.Dump.{Mmu, Line, Event, printed, log}
use mk_os.Mm.Listing.{lines, with_lines}

-- whether a line is among others
abbrev pub Among : Line → List Line → Type 0
Among l [] = ⊥
Among l (x ∷ xs) = (l ≡ x) ⊎ Among l xs

Among-append : (l : Line) (xs ys : List Line) → Among l (xs ++ ys) → Among l xs ⊎ Among l ys
Among-append l [] ys h = inr h
Among-append l (x ∷ xs) ys (inl e) = inl (inl e)
Among-append l (x ∷ xs) ys (inr h) = elim (Among-append l xs ys h) [
  | inl a ↦ inl (inr a)
  | inr b ↦ inr b
]

Among-left : (l : Line) (xs ys : List Line) → Among l xs → Among l (xs ++ ys)
Among-left l [] ys h = absurd h
Among-left l (x ∷ xs) ys (inl e) = inl e
Among-left l (x ∷ xs) ys (inr h) = inr (Among-left l xs ys h)

Among-right : (l : Line) (xs ys : List Line) → Among l ys → Among l (xs ++ ys)
Among-right l [] ys h = h
Among-right l (x ∷ xs) ys h = inr (Among-right l xs ys h)

lines-append :
    (xs ys : List Line) (trace : List Event) → lines (xs ++ ys) trace ≡ lines ys (lines xs trace)
lines-append [] ys trace = refl
lines-append (x ∷ xs) ys trace = lines-append xs ys (printed x ∷ trace)

-- Exactly the lines with `P` have been added to the trace, and nothing else has changed.
pub record Prints (P : Line → Type 0) (m m' : Mmu) : Type 0 where
  pub added : List Line
  pub same : m' ≡ with_lines added m
  pub only : (l : Line) → Among l added → P l
  pub all : (l : Line) → P l → Among l added

-- A run that prints exactly the lines with `P`, or faults, where `D`.
abbrev pub Dumps : (P : Line → Type 0) (D : Type 0) → Mmu → Run Mmu Unit → Type 0
Dumps P D m r = Ends (λ _ m'. Prints P m m') r ⊎ ((r ≡ fault) × D)

pub Dumps-mono :
    {P Q : Line → Type 0} {D E : Type 0} {m : Mmu} {r : Run Mmu Unit}
    → Dumps P D m r
    → ((l : Line) → P l → Q l)
    → ((l : Line) → Q l → P l)
    → (D → E)
    → Dumps Q E m r
Dumps-mono (inl (ends p)) to back down = inl (
    ends (record {
      added = p.added;
      same = p.same;
      only = λ l h. to l (p.only l h);
      all = λ l q. p.all l (back l q);
    }))
Dumps-mono (inr (e, d)) to back down = inr (e, down d)

pub Dumps-nothing :
    {P : Line → Type 0} {D : Type 0} (m : Mmu) → ((l : Line) → ¬ P l) → Dumps P D m (ok tt m)
Dumps-nothing m none_due =
    inl
      (ends (record { added = []; same = refl; only = λ l h. absurd h; all = λ l p. none_due l p }))

pub Dumps-line :
    {P : Line → Type 0} {D : Type 0} (x : Line) (m : Mmu)
    → P x
    → ((l : Line) → P l → l ≡ x)
    → Dumps P D m (ok tt (log (printed x) m))
Dumps-line {P} x m here alone = inl (
    ends (record {
      added = x ∷ [];
      same = refl;
      only = λ l h. elim h [ inl e ↦ subst P (sym e) here | inr n ↦ absurd n ];
      all = λ l p. inl (alone l p);
    }))

pub Dumps-and_then :
    {P Q : Line → Type 0} {D : Type 0} {r : Run Mmu Unit} (m : Mmu) (k : Cmd Mmu Unit)
    → Dumps P D m r
    → ((trace : List Event)
        → Dumps Q D (record m { trace = trace }) (k (record m { trace = trace })))
    → Dumps (λ l. P l ⊎ Q l) D m (and_then r (λ _. k))
Dumps-and_then {P} {Q} {D} m k (inl (ends p)) next =
    subst (λ (n : Mmu). Dumps (λ l. P l ⊎ Q l) D m (k n)) (sym p.same)
      (elim (next (lines p.added m.trace)) [ inl e ↦ inl (joined e) | inr d ↦ inr d ])
  where
    joined :
        {r : Run Mmu Unit}
        → Ends (λ _ m'. Prints Q (with_lines p.added m) m') r
        → Ends (λ _ m'. Prints (λ l. P l ⊎ Q l) m m') r
    joined (ends q) = ends (record {
      added = p.added ++ q.added;
      same =
          q.same
          ∙ ap (λ (t : List Event). record m { trace = t })
              (sym (lines-append p.added q.added m.trace));
      only = λ l h. elim (Among-append l p.added q.added h) [
        | inl a ↦ inl (p.only l a)
        | inr b ↦ inr (q.only l b)
      ];
      all = λ l h. elim h [
        | inl a ↦ Among-left l p.added q.added (p.all l a)
        | inr b ↦ Among-right l p.added q.added (q.all l b)
      ];
    })
Dumps-and_then m k (inr (e, d)) next = rw e (inr (refl, d))
