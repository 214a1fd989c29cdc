-- ===== src/Page/Tally.antt =====
-- Sums over the blocks in the zones, and how linking and unlinking a block changes them.
use mk_os.Base.{
  ℕ, zero, suc, ◌+◌, ◌-◌, ◌^◌, ◌≤◌, ◌<◌, ◌≡◌, List, [], ◌∷◌, ◌&&◌, arith, length, get_or, set, ltb,
  leb, if◌then◌else◌,
}
use mk_os.Base.Bits.{pow_pos}
use mk_os.Page.{Page, Zone, Pool}

-- a weight of a block, by its order and its first page
abbrev pub Weight : Type 0
Weight = ℕ → ℕ → ℕ

abbrev pub zone_sum : Weight → ℕ → Zone → ℕ
zone_sum w k [] = 0
zone_sum w k (p ∷ z) = w k p.start_page_no + zone_sum w k z

abbrev pub zones_sum : Weight → ℕ → List Zone → ℕ
zones_sum w k [] = 0
zones_sum w k (z ∷ zs) = zone_sum w k z + zones_sum w (suc k) zs

-- the weight of all free blocks
abbrev pub tally : Weight → Pool → ℕ
tally w s = zones_sum w 0 s.zones

zones_sum-set :
    (w : Weight) (k j : ℕ) (zs : List Zone) (i : ℕ) (z : Zone)
    → i < length zs
    → j ≡ k + i
    → zones_sum w k (set zs i z) + zone_sum w j (get_or zs i []) ≡ zones_sum w k zs + zone_sum w j z
zones_sum-set w k j [] i z h e = absurd (omega arith)
zones_sum-set w k j (y ∷ zs) zero z h e = let e' : j ≡ k = omega arith in rw e' (omega arith)
zones_sum-set w k j (y ∷ zs) (suc i) z h e =
    omega (arith, zones_sum-set w (suc k) j zs i z (omega arith) (omega arith))

-- `p` in front of zone `order` adds its weight
pub zones_sum-push :
    (w : Weight) (zs : List Zone) (order : ℕ) (p : Page)
    → order < length zs
    → zones_sum w 0 (set zs order (p ∷ get_or zs order []))
      ≡ zones_sum w 0 zs + w order p.start_page_no
zones_sum-push w zs order p h =
    omega (arith, zones_sum-set w 0 order zs order (p ∷ get_or zs order []) h (omega arith))

-- taking the first block of zone `order` takes its weight away
pub zones_sum-pop :
    (w : Weight) (zs : List Zone) (order : ℕ) {p : Page} {rest : Zone}
    → order < length zs
    → get_or zs order [] ≡ p ∷ rest
    → zones_sum w 0 zs ≡ zones_sum w 0 (set zs order rest) + w order p.start_page_no
zones_sum-pop w zs order {p} {rest} h e =
    let before : zone_sum w order (get_or zs order [])
        ≡ w order p.start_page_no + zone_sum w order rest =
      rw e in
    omega (arith, zones_sum-set w 0 order zs order rest h (omega arith), before)

zone_sum_mono :
    (v w : Weight) (k : ℕ) (z : Zone)
    → ((j st : ℕ) → v j st ≤ w j st)
    → zone_sum v k z ≤ zone_sum w k z
zone_sum_mono v w k [] h = omega arith
zone_sum_mono v w k (p ∷ z) h = omega (arith, h k p.start_page_no, zone_sum_mono v w k z h)

zones_sum_mono :
    (v w : Weight) (k : ℕ) (zs : List Zone)
    → ((j st : ℕ) → v j st ≤ w j st)
    → zones_sum v k zs ≤ zones_sum w k zs
zones_sum_mono v w k [] h = omega arith
zones_sum_mono v w k (z ∷ zs) h =
    omega (arith, zone_sum_mono v w k z h, zones_sum_mono v w (suc k) zs h)

-- a weight of runs of pages, by the first page and the number of pages
abbrev pub RunWeight : Type 0
RunWeight = ℕ → ℕ → ℕ

-- A run weighs what its two parts weigh, wherever it is cut.
pub record IsAdditive (g : RunWeight) : Type 0 where
  pub nil : (o : ℕ) → g o 0 ≡ 0
  pub join : (o a b : ℕ) → g o (a + b) ≡ g o a + g (o + a) b

-- A block of order `k` is a run of `2 ^ k` pages.
abbrev pub by_pages : RunWeight → Weight
by_pages g k st = g st (2 ^ k)

abbrev pub one : Weight
one k st = 1

-- whether page `x` is in the run
abbrev pub has_page : ℕ → RunWeight
has_page x o n = if leb o x && ltb x (o + n) then 1 else 0

abbrev pub page_count : RunWeight
page_count o n = n

-- the pages of the run from `lim` on
abbrev pub beyond : ℕ → RunWeight
beyond lim o n = o + n - lim - (o - lim)

pub has_page-IsAdditive : (x : ℕ) → IsAdditive (has_page x)
has_page-IsAdditive x = record { nil = λ o. ground arith; join = λ o a b. ground arith }

pub page_count-IsAdditive : IsAdditive page_count
page_count-IsAdditive = record { nil = λ o. omega arith; join = λ o a b. omega arith }

pub beyond-IsAdditive : (lim : ℕ) → IsAdditive (beyond lim)
beyond-IsAdditive lim = record { nil = λ o. omega arith; join = λ o a b. omega arith }

-- Every block holds a page, so there are no more blocks than pages.
pub one-le-page_count : (s : Pool) → tally one s ≤ tally (by_pages page_count) s
one-le-page_count s = zones_sum_mono one (by_pages page_count) 0 s.zones (λ j st. pow_pos j)
