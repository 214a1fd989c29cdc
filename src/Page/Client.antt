-- ===== src/Page/Client.antt =====
-- The callers of page.c: any sequence of `page_alloc` and `page_free` of runs that are held.
use mk_os.Base.{
  ℕ, ◌+◌, ◌-◌, ◌/◌, ◌%◌, ◌^◌, ◌≤◌, ◌<◌, ◌≡◌, refl, ap, ◌∙◌, inl, inr, arith, List, [], ◌∷◌, ◌++◌,
  ltb, if◌then◌else◌,
}
use mk_os.Base.Run.{ok, Ends, Ends_at}
use mk_os.Page.{Pool, page_address, page_number, page_alloc, page_free}
use mk_os.Page.Tally.{
  tally, RunWeight, IsAdditive, by_pages, has_page, page_count, beyond, has_page-IsAdditive,
  page_count-IsAdditive, beyond-IsAdditive, one-le-page_count,
}
use mk_os.Page.Blocks.{spare}
use mk_os.Page.Fill.{Filled, add_memory_to_pool-Ends}
use mk_os.Page.Split.{IsSound}
use mk_os.Page.Alloc.{Allocated, page_alloc_outcome}

-- an address that `page_alloc` has returned, and the number of pages asked for
abbrev pub Held : Type 0
Held = ℕ × ℕ

pub record Client : Type 0 where
  pub pool : Pool
  pub held : List Held

abbrev pub held_sum : RunWeight → Pool → List Held → ℕ
held_sum g s [] = 0
held_sum g s ((a, n) ∷ hs) = g (page_number s a) n + held_sum g s hs

pub data Step : Client → Client → Type 0 where
  alloc :
      {c : Client} {t : Pool} {n a : ℕ}
      → 0 < n
      → n ≤ 2 ^ 31
      → page_alloc n c.pool ≡ ok a t
      → Step c (record { pool = t; held = (a, n) ∷ c.held })
  release :
      {c : Client} {t : Pool} (before after : List Held) (a n : ℕ)
      → c.held ≡ before ++ ((a, n) ∷ after)
      → page_free a n c.pool ≡ ok tt t
      → Step c (record { pool = t; held = before ++ after })

pub data Reach (c : Client) : Client → Type 0 where
  here : Reach c c
  next : {d e : Client} → Reach c d → Step d e → Reach c e

-- The run of an address that `page_alloc` has returned is found again by `page_free`.
pub page_number-page_address :
    (s : Pool) (first : ℕ)
    → first < 2 ^ 20
    → s.mem_pool_start < 2 ^ 64
    → page_number s (page_address s first) ≡ first
page_number-page_address s first h m = omega arith

-- The free blocks and the runs held make up the pages `0`, …, `pages - 1` of the pool.
pub record Owned (pages : ℕ) (c : Client) : Type 0 where
  pub sound : IsSound pages c.pool
  pub shared :
      (g : RunWeight)
      → IsAdditive g
      → tally (by_pages g) c.pool + held_sum g c.pool c.held ≡ g 0 pages
  pub roomy : pages < c.pool.page_pool_size
  pub start : c.pool.mem_pool_start < 2 ^ 64

held_sum-same :
    (g : RunWeight) (s t : Pool) (hs : List Held)
    → t.mem_pool_start ≡ s.mem_pool_start
    → held_sum g t hs ≡ held_sum g s hs
held_sum-same g s t [] e = refl
held_sum-same g s t ((a, n) ∷ hs) e = omega (
  arith,
  held_sum-same g s t hs e,
  ap (λ (m : ℕ). g ((a + 2 ^ 64 - m) % 2 ^ 64 / 2 ^ 12 % 2 ^ 32) n) e,
)

pub held_sum-append :
    (g : RunWeight) (s : Pool) (hs ks : List Held)
    → held_sum g s (hs ++ ks) ≡ held_sum g s hs + held_sum g s ks
held_sum-append g s [] ks = omega arith
held_sum-append g s ((a, n) ∷ hs) ks = omega (arith, held_sum-append g s hs ks)

module _ {pages : ℕ} (small : pages ≤ 2 ^ 20) where
  pub alloc-Owned :
      {c : Client} {t : Pool} {n a : ℕ}
      → 0 < n
      → Owned pages c
      → Allocated pages n c.pool a t
      → Owned pages (record { pool = t; held = (a, n) ∷ c.held })
  alloc-Owned {c} {t} {n} {a} p o l =
      let found : page_number t a ≡ l.first = omega (arith, l.same, l.address, l.inside, o.start) in
      record {
        sound = l.sound;
        shared = λ g d. omega (
          arith,
          o.shared g d,
          l.taken g d,
          held_sum-same g c.pool t c.held l.same.same_start,
          ap (λ (m : ℕ). g m n) found,
        );
        roomy = omega (arith, o.roomy, l.same);
        start = omega (arith, o.start, l.same);
      }

  alloc_result :
      {c : Client} {t : Pool} {n a : ℕ}
      → 0 < n
      → n ≤ 2 ^ 31
      → page_alloc n c.pool ≡ ok a t
      → Owned pages c
      → Allocated pages n c.pool a t
  alloc_result {c} {n} p h e o = elim (page_alloc_outcome (omega arith) n p h o.sound) [
    | inl run ↦ Ends_at e run
    | inr (stopped, none_left) ↦ absurd (cc)
  ]

  -- What is known of a run that is held: the pool has the descriptors to take it back.
  held_bounds :
      {c : Client} (before after : List Held) (a n : ℕ)
      → c.held ≡ before ++ ((a, n) ∷ after)
      → Owned pages c
      → (n ≤ spare c.pool) × (page_number c.pool a + n < 2 ^ 32)
  held_bounds {c} before after a n e o =
      let sum = λ (g : RunWeight).
        ap (held_sum g c.pool) e ∙ held_sum-append g c.pool before ((a, n) ∷ after) in
      (
        omega (
          arith,
          o.shared page_count page_count-IsAdditive,
          sum page_count,
          o.sound.accounted,
          one-le-page_count c.pool,
        ),
        omega (arith, o.shared (beyond pages) (beyond-IsAdditive pages), sum (beyond pages)),
      )

  release-Owned :
      {c : Client} {t : Pool} (before after : List Held) (a n : ℕ)
      → c.held ≡ before ++ ((a, n) ∷ after)
      → Owned pages c
      → Filled (page_number c.pool a) n c.pool t
      → Owned pages (record { pool = t; held = before ++ after })
  release-Owned {c} {t} before after a n e o f =
      let shared : (g : RunWeight)
          → IsAdditive g
          → tally (by_pages g) t + held_sum g t (before ++ after) ≡ g 0 pages =
        λ g d. omega (
          arith,
          o.shared g d,
          f.gained g d,
          held_sum-same g c.pool t (before ++ after) f.same.same_start,
          held_sum-append g c.pool before after,
          held_sum-append g c.pool before ((a, n) ∷ after),
          ap (held_sum g c.pool) e,
        ) in
      record {
        sound = record {
          valid = f.valid;
          accounted = omega (arith, f.accounted, f.same, o.sound);
          bounded = omega (arith, shared (beyond pages) (beyond-IsAdditive pages));
          roomy = omega (arith, shared page_count page_count-IsAdditive, o.roomy, f.same);
        };
        shared = shared;
        roomy = omega (arith, o.roomy, f.same);
        start = omega (arith, o.start, f.same);
      }

  -- `page_free` of a run that is held ends, and adds exactly that run to the free blocks.
  pub page_free-Ends :
      {c : Client} (before after : List Held) (a n : ℕ)
      → c.held ≡ before ++ ((a, n) ∷ after)
      → Owned pages c
      → Ends (λ _ t. Filled (page_number c.pool a) n c.pool t) (page_free a n c.pool)
  unfolding page_free
  page_free-Ends {c} before after a n e o =
      let (room, bound) = held_bounds before after a n e o in
      add_memory_to_pool-Ends (page_number c.pool a) n o.sound.valid room bound

  pub Step-Owned : {c d : Client} → Step c d → Owned pages c → Owned pages d
  Step-Owned {c} (alloc {t} {n} {a} p h e) o = alloc-Owned p o (alloc_result p h e o)
  Step-Owned {c} (release before after a n e r) o =
      release-Owned before after a n e o (Ends_at r (page_free-Ends before after a n e o))

  -- Whatever runs are allocated and freed in whatever order, the free blocks and the runs held
  -- make up the pool's pages.
  pub Reach-Owned : {c d : Client} → Owned pages c → Reach c d → Owned pages d
  Reach-Owned o here = o
  Reach-Owned o (next r st) = Step-Owned st (Reach-Owned o r)

  -- From a pool with no run held, after any allocations and frees of held runs, each page of the
  -- pool is in exactly one free block or held run, and no other page is in any.
  pub Reach-partition :
      {c d : Client} (x : ℕ)
      → Owned pages c
      → Reach c d
      → tally (by_pages (has_page x)) d.pool + held_sum (has_page x) d.pool d.held
        ≡ (if ltb x pages then 1 else 0)
  Reach-partition {c} {d} x o r =
      (Reach-Owned o r).shared (has_page x) (has_page-IsAdditive x) ∙ ground arith
