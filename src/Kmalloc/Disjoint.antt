-- ===== src/Kmalloc/Disjoint.antt =====
-- The pieces that `kmalloc` gives out one after the other never overlap.
use mk_os.Base.{
  ℕ, ◌+◌, ◌-◌, ◌%◌, ◌^◌, ◌≤◌, ◌<◌, ◌≡◌, refl, ap, arith, inl, inr, List, [], ◌∷◌, if◌then◌else◌,
}
use mk_os.Base.Run.{
  ok, no_continuous_memory, Cmd, and_then, ends, Ends-mono, Settles, Settles-and_then,
}
use mk_os.Memory.Copy.{in_range}
use mk_os.Page.Tally.{has_page, has_page-IsAdditive}
use mk_os.Kmalloc.{Memchunk, Kmem, align_up, kmalloc}
use mk_os.Kmalloc.Chunks.{used, covers, align_up_lem}
use mk_os.Kmalloc.Outcome.{Allocated-address, IsKmem, Given, pages_for, chunk_for, kmalloc_outcome}
use mk_os.Kmalloc.Steady.{Given-IsKmem}
use mk_os.Kmalloc.Apart.{
  Apart, covers-le-one, used-le-covers, used-append, new_chunk-Apart, Apart-same,
}

-- the piece of `size` bytes at `p` is in use in `t`, besides what is in `s`
abbrev Adds : (size p : ℕ) → Kmem → Kmem → Type 0
Adds size p s t = (x : ℕ) → used x s.mem + (if in_range x p size then 1 else 0) ≤ used x t.mem

module _ {lim : ℕ} (small : lim ≤ 2 ^ 20) where
  pub Given-Apart :
      (size : ℕ) {p : ℕ} {s t : Kmem}
      → size + 6000 < 2 ^ 32
      → IsKmem lim s
      → Apart s
      → Given lim (align_up size) s p t
      → Apart t × Adds size p s t
  Given-Apart size {p} {s} {t} h k a (inl (same, taken)) =
      let rounded = align_up_lem size (omega arith) in
      (Apart-same same taken.room a, λ x. let more = taken.fresh x in ground (arith, rounded, more))
  Given-Apart size {p} {s} {t} h k a (inr g) =
      let rounded = align_up_lem size (omega arith) in
      let whole : align_up size % 16 ≡ 0 = omega (arith, rounded) in
      let at = Allocated-address small (align_up size) whole (omega (arith, rounded)) k g.pages in
      let c = chunk_for g.base (align_up size) in
      let grown =
        new_chunk-Apart s t.pool c g.pages.first (pages_for (align_up size)) a
          (λ y. g.pages.taken (has_page y) (has_page-IsAdditive y)) g.pages.same.same_start at
          refl in
      (
        Apart-same refl (λ x. ap (λ (ms : List Memchunk). covers x ms) g.linked) grown,
        λ x.
            let linked = ap (λ (ms : List Memchunk). used x ms) g.linked in
            let more = used-append x s.mem c in
            let place = g.at in ground (arith, rounded, linked, more, place),
      )

  kmalloc-Apart :
      (size : ℕ)
      → size + 6000 < 2 ^ 32
      → (s : Kmem) → IsKmem lim s
      → Apart s
      → Settles
          (λ p t. IsKmem lim t × Apart t × Adds size p s t)
          no_continuous_memory
          (kmalloc size s)
  kmalloc-Apart size h s k a = elim (kmalloc_outcome small size h {s = s} k) [
    | inl e ↦ inl (
        Ends-mono e λ p t g.
          let (apart, adds) = Given-Apart size h k a g in ((Given-IsKmem k g).0, apart, adds))
    | inr (e, none_left) ↦ inr e
  ]

-- `kmalloc` for each size in turn, with the pieces and their sizes
abbrev pub kmalloc_each : List ℕ → Cmd Kmem (List (ℕ × ℕ))
kmalloc_each [] s = ok [] s
kmalloc_each (n ∷ ns) s =
    and_then (kmalloc n s) λ p t. and_then (kmalloc_each ns t) λ ps u. ok ((p, n) ∷ ps) u

-- in how many of the pieces the address `x` is
abbrev pub pieces_with : ℕ → List (ℕ × ℕ) → ℕ
pieces_with x [] = 0
pieces_with x ((p, n) ∷ ps) = (if in_range x p n then 1 else 0) + pieces_with x ps

abbrev pub AllBelow : ℕ → List ℕ → Type 0
AllBelow m [] = Unit {0}
AllBelow m (n ∷ ns) = (n < m) × AllBelow m ns

-- the chunks behind some calls, of which the pieces `ps` are in use besides what was in use in `s`
record Gave (lim : ℕ) (s : Kmem) (ps : List (ℕ × ℕ)) (t : Kmem) : Type 0 where
  pub kmem : IsKmem lim t
  pub apart : Apart t
  pub adds : (x : ℕ) → used x s.mem + pieces_with x ps ≤ used x t.mem

kmalloc_each-Gave :
    {lim : ℕ}
    → lim ≤ 2 ^ 20
    → (ns : List ℕ) → AllBelow (2 ^ 32 - 6000) ns
    → (s : Kmem) → IsKmem lim s
    → Apart s
    → Settles (Gave lim s) no_continuous_memory (kmalloc_each ns s)
kmalloc_each-Gave small [] b s k a =
    inl (ends (record { kmem = k; apart = a; adds = λ x. omega arith }))
kmalloc_each-Gave small (n ∷ ns) (few, b) s k a =
    Settles-and_then (kmalloc-Apart small n (omega arith) s k a) λ p t (kt, at, one).
      Settles-and_then (kmalloc_each-Gave small ns b t kt at) λ ps u g. inl (
        ends
          (record { kmem = g.kmem; apart = g.apart; adds = λ x. omega (arith, one x, g.adds x) }))

-- No address is in two of the pieces that calls of `kmalloc`, one after the other, give for sizes
-- below `2^32 - 6000`, where the chunks and the pool of at most `2^20` pages are apart; or a call
-- panics for want of pages.
pub kmalloc_each-disjoint :
    {lim : ℕ}
    → lim ≤ 2 ^ 20
    → (ns : List ℕ) → AllBelow (2 ^ 32 - 6000) ns
    → (s : Kmem) → IsKmem lim s
    → Apart s
    → Settles (λ ps _. (x : ℕ) → pieces_with x ps ≤ 1) no_continuous_memory (kmalloc_each ns s)
kmalloc_each-disjoint small ns b s k a = elim (kmalloc_each-Gave small ns b s k a) [
  | inl e ↦ inl (
      Ends-mono e λ ps t g x.
        omega (arith, g.adds x, used-le-covers x t.mem g.kmem.chunks, covers-le-one g.apart x))
  | inr e ↦ inr e
]
