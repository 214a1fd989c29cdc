-- ===== src/Page/Holding.antt =====
-- One caller of page.c among others: the runs that are held, with the first taken or given back.
use mk_os.Base.{
  ℕ, ◌+◌, ◌-◌, ◌*◌, ◌/◌, ◌^◌, ◌≤◌, ◌<◌, ◌≡◌, refl, ap, ◌⊎◌, arith, inl, inr, List, [], ◌∷◌, ◌++◌,
  leb, ltb, Bool-cases,
}
use mk_os.Base.Run.{ok, no_continuous_memory, ends, Ends-ok, Settles}
use mk_os.Page.{Pool, page_number, page_alloc, page_free}
use mk_os.Page.Tally.{tally, by_pages, has_page, has_page-IsAdditive}
use mk_os.Page.Alloc.{Allocated, page_alloc_outcome}
use mk_os.Page.Client.{
  Held, Client, held_sum, held_sum-append, Owned, alloc, release, page_free-Ends, alloc-Owned,
  Step-Owned,
}

-- The pool is shared by its free blocks and the runs that are held.
abbrev pub Holds : ℕ → List Held → Pool → Type 0
Holds pages hs s = Owned pages (record { pool = s; held = hs })

-- whether page `p` of the pool is in a free block
abbrev pub IsFree : ℕ → Pool → Type 0
IsFree p s = 0 < tally (by_pages (has_page p)) s

-- The `n` pages at `a` are pages of the pool, which begins at `start`.
pub record InPool (pages start a n : ℕ) : Type 0 where
  pub first : ℕ
  pub at : a ≡ start + first * 4096
  pub inside : first + n ≤ pages

-- The address is in no page that is free.
abbrev pub Outside : Pool → ℕ → Type 0
Outside s a =
    (p : ℕ)
    → IsFree p s
    → (a < s.mem_pool_start + p * 4096) ⊎ (s.mem_pool_start + p * 4096 + 4096 ≤ a)

pub Outside-below : (s : Pool) (a : ℕ) → a < s.mem_pool_start → Outside s a
Outside-below s a h p f = inl (omega (arith, h))

-- a run taken from the free pages of `s`
pub record IsTaken (pages n : ℕ) (s : Pool) (a : ℕ) (t : Pool) : Type 0 where
  pub run : InPool pages s.mem_pool_start a n
  pub fresh : (p : ℕ) → run.first ≤ p → p < run.first + n → IsFree p s
  pub fewer : (p : ℕ) → IsFree p t → IsFree p s
  pub start : t.mem_pool_start ≡ s.mem_pool_start

pub Allocated-IsTaken :
    {pages n a : ℕ} {s t : Pool}
    → pages ≤ 2 ^ 20
    → s.mem_pool_start + pages * 4096 < 2 ^ 64
    → 0 < n
    → Allocated pages n s a t
    → IsTaken pages n s a t
Allocated-IsTaken small fits some l = record {
  run = record { first = l.first; at = omega (arith, l.address, l.inside); inside = l.inside };
  fresh = λ p low high. ground (arith, l.taken (has_page p) (has_page-IsAdditive p));
  fewer = λ p h. omega (arith, h, l.taken (has_page p) (has_page-IsAdditive p));
  start = l.same.same_start;
}

pub Outside-fewer :
    {pages n a : ℕ} {s t : Pool} → IsTaken pages n s a t → (x : ℕ) → Outside s x → Outside t x
Outside-fewer k x h p f = elim (h p (k.fewer p f)) [
  | inl before ↦ inl (omega (arith, before, k.start))
  | inr behind ↦ inr (omega (arith, behind, k.start))
]

-- An address in no free page is not in the run.
pub Outside-run :
    {pages n a : ℕ} {s t : Pool}
    → IsTaken pages n s a t
    → (x : ℕ) → Outside s x
    → (x < a) ⊎ (a + n * 4096 ≤ x)
Outside-run {n} {a} {s} k x h = elim (Bool-cases (ltb x a)) [
  | inl before ↦ inl (ground (arith, before))
  | inr behind ↦ elim (Bool-cases (leb (a + n * 4096) x)) [
    | inl over ↦ inr (ground (arith, over))
    | inr inside ↦
        let low : a ≤ x = ground (arith, behind) in
        let high : x < a + n * 4096 = ground (arith, inside) in
        let p = k.run.first + (x - a) / 4096 in
        elim (h p (k.fresh p (omega arith) (omega (arith, low, high)))) [
          | inl e ↦ absurd (omega (arith, e, k.run.at, low))
          | inr e ↦ absurd (omega (arith, e, k.run.at, low))
        ]
  ]
]

-- The order of the runs does not matter: the first may be the last.
pub Holds-last :
    {pages a n : ℕ} {hs : List Held} {s : Pool}
    → Holds pages ((a, n) ∷ hs) s
    → Holds pages (hs ++ (a, n) ∷ []) s
Holds-last {a} {n} {hs} {s} o = record {
  sound = o.sound;
  shared = λ g d. omega (arith, o.shared g d, held_sum-append g s hs ((a, n) ∷ []));
  roomy = o.roomy;
  start = o.start;
}

module _ {pages : ℕ} (small : pages ≤ 2 ^ 20) where
  -- `page_alloc` of a run that is then held with the others
  pub taken :
      (n : ℕ) (hs : List Held) {s : Pool}
      → 0 < n
      → n ≤ 2 ^ 31
      → s.mem_pool_start + pages * 4096 < 2 ^ 64
      → Holds pages hs s
      → Settles
          (λ a t. Holds pages ((a, n) ∷ hs) t × IsTaken pages n s a t)
          no_continuous_memory
          (page_alloc n s)
  taken n hs {s} p h fits o = elim (page_alloc_outcome {lim = pages} (omega arith) n p h o.sound) [
    | inl e ↦
        let (a, t, eq, l) = Ends-ok e in
        let c : Client = record { pool = s; held = hs } in
        rw eq (
          inl (
            ends (
              Step-Owned small {c = c} {d = record { pool = t; held = (a, n) ∷ hs }}
                  (alloc {c = c} p h eq) o,
              Allocated-IsTaken small fits p l,
            )))
    | inr (eq, none_left) ↦ rw eq (inr refl)
  ]

  -- `page_free` of a run that is held
  pub freed :
      (before : List Held) (a n : ℕ) (after : List Held) {s : Pool}
      → Holds pages (before ++ ((a, n) ∷ after)) s
      → (t : Pool) × (page_free a n s ≡ ok tt t)
        × Holds pages (before ++ after) t
        × (t.mem_pool_start ≡ s.mem_pool_start)
  freed before a n after {s} o =
      let c : Client = record { pool = s; held = before ++ ((a, n) ∷ after) } in
      let (x, t, e, f) = Ends-ok (page_free-Ends small {c = c} before after a n refl o) in
      (
        t,
        e,
        Step-Owned small {c = c} {d = record { pool = t; held = before ++ after }}
            (release {c = c} before after a n refl e) o,
        f.same.same_start,
      )

  -- the run that a segment is loaded into
  pub Allocated-Holds :
      {n a : ℕ} {hs : List Held} {s t : Pool}
      → 0 < n
      → Holds pages hs s
      → Allocated pages n s a t
      → Holds pages ((a, n) ∷ hs) t
  Allocated-Holds {hs} {s} p o l = alloc-Owned small {c = record { pool = s; held = hs }} p o l

  -- A page is not free where a run that is held has it.
  held_page :
      (before : List Held) (a n : ℕ) (after : List Held) {s : Pool}
      → s.mem_pool_start + pages * 4096 < 2 ^ 64
      → Holds pages (before ++ ((a, n) ∷ after)) s
      → (r : InPool pages s.mem_pool_start a n) (p : ℕ) → IsFree p s
      → (p < r.first) ⊎ (r.first + n ≤ p)
  held_page before a n after {s} fits o r p h =
      let found : page_number s a ≡ r.first = omega (arith, r.at, r.inside) in
      let g = has_page p in
      let split : tally (by_pages g) s + (held_sum g s before + (g r.first n + held_sum g s after))
          ≡ g 0 pages =
        omega (
          arith,
          o.shared g (has_page-IsAdditive p),
          held_sum-append g s before ((a, n) ∷ after),
          ap (λ (m : ℕ). g m n) found,
        ) in
      elim (Bool-cases (leb r.first p)) [
        | inl later ↦ inr (ground (arith, split, later))
        | inr before ↦ inl (ground (arith, before))
      ]

  -- A free page lies behind a run that is held or before it.
  pub free_apart :
      (a n : ℕ) (hs : List Held) {s : Pool} (p : ℕ)
      → s.mem_pool_start + pages * 4096 < 2 ^ 64
      → Holds pages ((a, n) ∷ hs) s
      → InPool pages s.mem_pool_start a n
      → IsFree p s
      → (a + n * 4096 ≤ s.mem_pool_start + p * 4096) ⊎ (s.mem_pool_start + p * 4096 ≤ a)
  free_apart a n hs p fits o r h = elim (held_page [] a n hs fits o r p h) [
    | inl before ↦ inr (omega (arith, before, r.at))
    | inr behind ↦ inl (omega (arith, behind, r.at))
  ]

  -- No byte of a run that is held is in a free page.
  pub Outside-held :
      (before : List Held) (a n : ℕ) (after : List Held) {s : Pool}
      → s.mem_pool_start + pages * 4096 < 2 ^ 64
      → Holds pages (before ++ ((a, n) ∷ after)) s
      → InPool pages s.mem_pool_start a n
      → (x : ℕ) → x < n * 4096
      → Outside s (a + x)
  Outside-held before a n after fits o r x h p f = elim (held_page before a n after fits o r p f) [
    | inl low ↦ inr (omega (arith, low, r.at))
    | inr high ↦ inl (omega (arith, high, r.at, h))
  ]
