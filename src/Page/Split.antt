-- ===== src/Page/Split.antt =====
-- `split_zone`: it cuts a larger block in halves, and every page stays free.
use native.Mathlib.Nat.{pow-suc}
use mk_os.Base.{
  ℕ, zero, suc, ◌+◌, ◌^◌, ◌≤◌, ◌<◌, ◌≡◌, refl, ap, ◌∙◌, ◌⊎◌, inl, inr, arith, ◌==◌, leb, Bool, true,
  false, Bool-cases, [], ◌∷◌,
}
use mk_os.Base.Bits.{pow_pos, lt_of_pow-lt}
use mk_os.Base.Word.{add32, shl_one, shl_one_lt}
use mk_os.Base.Run.{Ends, ends, Ends-and_then, Ends-mono}
use mk_os.Page.{max_zones, Page, Zone, Pool, zone, split_block, split_orders, split_zone}
use mk_os.Page.Tally.{
  tally, one, RunWeight, IsAdditive, by_pages, page_count, beyond, page_count-IsAdditive,
  beyond-IsAdditive, one-le-page_count,
}
use mk_os.Page.Blocks.{
  spare, IsValid, SamePool, Added, Removed, add_free_page_to_zone-Ends,
  get_free_page_from_zone-Ends,
}

-- The invariant between two calls: each descriptor is in a zone or spare, the free blocks end at
-- page `lim` at the latest, and the pool has a descriptor for each free page and one more.
pub record IsSound (lim : ℕ) (s : Pool) : Type 0 where
  pub valid : IsValid s
  pub accounted : tally one s + spare s ≡ s.page_pool_size
  pub bounded : tally (by_pages (beyond lim)) s ≡ 0
  pub roomy : tally (by_pages page_count) s < s.page_pool_size

-- no block in zone `order` or above it
abbrev pub NoBlock : ℕ → Pool → Type 0
NoBlock order s = (j : ℕ) → order ≤ j → j < max_zones → zone s j ≡ []

pub record HasBlock (order : ℕ) (s : Pool) : Type 0 where
  pub below : order < max_zones
  pub first : Page
  pub rest : Zone
  pub found : zone s order ≡ first ∷ rest

-- The free pages are the same, perhaps in other blocks.
pub record Recut (s t : Pool) : Type 0 where
  pub valid : IsValid t
  pub same : SamePool s t
  pub accounted : tally one t + spare t ≡ tally one s + spare s
  pub kept : (g : RunWeight) → IsAdditive g → tally (by_pages g) t ≡ tally (by_pages g) s

pub Recut-refl : {s : Pool} → IsValid s → Recut s s
Recut-refl v = record {
  valid = v;
  same = record { same_size = refl; same_start = refl };
  accounted = refl;
  kept = λ g a. refl;
}

Recut-trans : {s t u : Pool} → Recut s t → Recut t u → Recut s u
Recut-trans a b = record {
  valid = b.valid;
  same = record { same_size = omega arith; same_start = omega arith };
  accounted = omega arith;
  kept = λ g d. b.kept g d ∙ a.kept g d;
}

NoBlock-from : (order : ℕ) (s : Pool) → zone s order ≡ [] → NoBlock (order + 1) s → NoBlock order s
NoBlock-from order s e above j h k = elim (Bool-cases (j == order)) [
  | inl same ↦ let ej : j ≡ order = ground arith in rw ej e
  | inr other ↦ above j (ground arith) k
]

zone-cases : (z : Zone) → (z ≡ []) ⊎ ((p : Page) × (rest : Zone) × (z ≡ p ∷ rest))
zone-cases [] = inl refl
zone-cases (p ∷ rest) = inr (p, rest, refl)

pub Recut-IsSound : {lim : ℕ} {s t : Pool} → IsSound lim s → Recut s t → IsSound lim t
Recut-IsSound {lim} i r = record {
  valid = r.valid;
  accounted = omega (arith, r.same.same_size);
  bounded = r.kept (beyond lim) (beyond-IsAdditive lim) ∙ i.bounded;
  roomy = omega (arith, r.kept page_count page_count-IsAdditive);
}

-- What `split_zone` answers, and what it has done.
abbrev pub Answer : ℕ → Pool → Bool → Pool → Type 0
Answer order s b t = ((b ≡ true) × HasBlock order t) ⊎ ((b ≡ false) × (t ≡ s) × NoBlock order s)

abbrev pub SplitPost : ℕ → Pool → Bool → Pool → Type 0
SplitPost order s b t = Recut s t × Answer order s b t

-- what taking the block `p` of order `k` out of a sound pool leaves
pub record TakenOut (lim k : ℕ) (p : Page) (t : Pool) : Type 0 where
  pub spares : 2 ^ k ≤ spare t
  pub ends_below : p.start_page_no + 2 ^ k ≤ lim

pub taken_out :
    {lim k : ℕ} {p : Page} {s t : Pool} → IsSound lim s → Removed k p s t → TakenOut lim k p t
taken_out {lim} {k} {p} {s} {t} i r = record {
  spares = omega (arith, r.lost one, r.lost (by_pages page_count), one-le-page_count t);
  ends_below = omega (arith, r.lost (by_pages (beyond lim)), pow_pos k);
}

two_halves : (k : ℕ) → 2 ^ (k + 1) ≡ 2 ^ k + 2 ^ k
two_halves k = ap (λ (j : ℕ). 2 ^ j) {y = suc k} (omega arith) ∙ omega (arith, pow-suc 2 k)

module _ {lim : ℕ} (small : lim ≤ 2 ^ 31) where
  -- the two halves of the block `p` of order `order + 1` put into zone `order`
  halves :
      (order : ℕ) {p : Page} {s t u v : Pool}
      → IsSound lim s
      → Removed (order + 1) p s t
      → Added order p.start_page_no t u
      → Added order (add32 p.start_page_no (shl_one order)) u v
      → order < max_zones
      → Recut s (record v { free = p ∷ v.free }) × HasBlock order (record v { free = p ∷ v.free })
  halves order {p} {s} {t} {u} {v} i r a b o =
      let cut = taken_out i r in
      let two : 2 ^ (order + 1) ≡ 2 ^ order + 2 ^ order = two_halves order in
      let low : order < 32 =
        omega (arith, lt_of_pow-lt order 31 (omega (arith, cut.ends_below, pow_pos order))) in
      let next : add32 p.start_page_no (shl_one order) ≡ p.start_page_no + 2 ^ order =
        omega (arith, shl_one_lt order low, cut.ends_below) in
      (
        record {
          valid = record { zone_count = b.valid.zone_count; next_in_pool = b.valid.next_in_pool };
          same = record { same_size = omega arith; same_start = omega arith };
          accounted = omega (arith, r.lost one, a.gained one, b.gained one);
          kept = λ g d. omega (
            arith,
            r.lost (by_pages g),
            a.gained (by_pages g),
            b.gained (by_pages g),
            d.join p.start_page_no (2 ^ order) (2 ^ order),
            ap (λ (c : ℕ). g p.start_page_no c) two,
            ap (λ (o : ℕ). g o (2 ^ order)) next,
          );
        },
        record { below = o; first = b.linked.0; rest = zone u order; found = b.linked.2 },
      )

  split_block-true :
      (order : ℕ) {s : Pool}
      → IsSound lim s
      → HasBlock (order + 1) s
      → Ends (λ b t. (b ≡ true) × Recut s t × HasBlock order t) (split_block order true s)
  unfolding split_block
  split_block-true order {s} i has =
      let p = has.first in
      let o : order < max_zones = omega (arith, has.below) in
      Ends-and_then (get_free_page_from_zone-Ends (order + 1) i.valid has.below has.found)
        λ r t (er, rem).
          let room : 2 ≤ spare t =
            omega (arith, (taken_out i rem).spares, two_halves order, pow_pos order) in
          rw er (
            Ends-and_then
              (add_free_page_to_zone-Ends p.start_page_no order rem.valid (omega arith) o)
              λ _ u a.
                Ends-and_then
                  (add_free_page_to_zone-Ends (add32 p.start_page_no (shl_one order)) order a.valid
                    (omega (arith, a.used)) o)
                  λ _ v b. let (r', has') = halves order i rem a b o in ends (refl, r', has'))

  split_block-Ends :
      (order : ℕ) {s t : Pool} (b : Bool)
      → IsSound lim s
      → zone s order ≡ []
      → SplitPost (order + 1) s b t
      → Ends (SplitPost order s) (split_block order b t)
  unfolding split_block
  split_block-Ends order {s} {t} b i e (r, inl (eb, has)) = rw eb (
      Ends-mono (split_block-true order (Recut-IsSound i r) has)
        λ c u (ec, r', has'). (Recut-trans r r', inl (ec, has')))
  split_block-Ends order {s} {t} b i e (r, inr (eb, et, below)) =
      rw eb (ends (r, inr (refl, et, NoBlock-from order s e below)))

  split_orders-Ends :
      (fuel order : ℕ) {s : Pool}
      → IsSound lim s
      → max_zones < order + fuel
      → 0 < fuel
      → Ends (SplitPost order s) (split_orders fuel order s)
  unfolding split_orders
  split_orders-Ends zero order i f f' = absurd (omega arith)
  split_orders-Ends (suc fuel) order {s} i f f' = elim (Bool-cases (leb max_zones order)) [
    | inl top ↦ rw top (ends (Recut-refl i.valid, inr (refl, refl, λ j h k. absurd (ground arith))))
    | inr low ↦ rw low (
        let o : order < max_zones = ground arith in
        let deeper = split_orders-Ends fuel (order + 1) i (omega arith) (omega arith) in
        elim (zone-cases (zone s order)) [
          | inl e ↦ rw e (Ends-and_then deeper λ b t post. split_block-Ends order b i e post)
          | inr (p, rest, e) ↦ rw e (
              ends (
                Recut-refl i.valid,
                inl (refl, record { below = o; first = p; rest = rest; found = e }),
              ))
        ])
  ]

  -- `split_zone` ends, keeps every page free, and answers whether it has a block: if not, no
  -- block of the order or above it is free, and nothing has changed.
  pub split_zone-Ends :
      (order : ℕ) {s : Pool} → IsSound lim s → Ends (SplitPost order s) (split_zone order s)
  unfolding split_zone
  split_zone-Ends order i = split_orders-Ends 54 order i (omega arith) (omega arith)
