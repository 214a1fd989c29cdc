-- ===== src/Page/Alloc.antt =====
-- `page_alloc` and `page_free`: which pages they take from the free blocks and give back.
use native.Mathlib.Nat.{pow-suc, mod-eq_of_lt, mod-eq-sub-mod}
use mk_os.Base.{
  ℕ, suc, ◌+◌, ◌-◌, ◌*◌, ◌%◌, ◌^◌, ◌≤◌, ◌<◌, ◌≡◌, refl, ap, sym, ◌∙◌, ◌⊎◌, inl, inr, arith, ◌==◌,
  ==_iff, bit_and, Bool, true, false, Bool-cases, ◌∷◌,
}
use mk_os.Base.Bits.{lt_of_pow-lt, bit_and-mask}
use mk_os.Base.Word.{add32, sub32, add64, shl_one, shl_one_lt}
use mk_os.Base.Run.{panic, no_continuous_memory, Ends, ends, Ends-and_then, Ends-mono, Ends-ok}
use mk_os.Bitops.{clz, leading_zeros}
use mk_os.Page.{
  split_orders, Page, Pool, page_order, page_address, zone_for, cut_block, get_memory_from_pool,
  page_alloc, split_zone,
}
use mk_os.Page.Tally.{
  tally, one, RunWeight, IsAdditive, by_pages, page_count, beyond, page_count-IsAdditive,
  beyond-IsAdditive,
}
use mk_os.Page.Blocks.{SamePool, Removed, get_free_page_from_zone-Ends}
use mk_os.Page.Fill.{page_order_top, Filled, add_memory_to_pool-Ends}
use mk_os.Page.Split.{
  IsSound, NoBlock, HasBlock, Recut, Recut-IsSound, SplitPost, taken_out, split_zone-Ends,
}

-- `2 ^ k` is the least power of two that holds `n` pages
pub record IsLeastOrder (k n : ℕ) : Type 0 where
  pub small : k < 32
  pub holds : n ≤ 2 ^ k
  pub least : 2 ^ k < n + n

low_bits_of_top : (k n : ℕ) → 2 ^ k ≤ n → n < 2 ^ suc k → n % 2 ^ k ≡ n - 2 ^ k
low_bits_of_top k n low high =
    mod-eq-sub-mod {n = n} {m = 2 ^ k} low
    ∙ mod-eq_of_lt {n = n - 2 ^ k} {m = 2 ^ k} (omega (arith, pow-suc 2 k))

ne_of_test : (x : ℕ) → (x == 0) ≡ false → 0 < x
ne_of_test x h = ground arith

-- `biggest_zone` is the order of the smallest block that holds the pages asked for.
pub zone_for-IsLeastOrder : (n : ℕ) → 0 < n → n ≤ 2 ^ 31 → IsLeastOrder (zone_for n) n
unfolding zone_for
zone_for-IsLeastOrder n p h =
    let k = page_order n in
    let top = page_order_top n p (omega arith) in
    let masked : bit_and n (shl_one k - 1) ≡ n - 2 ^ k =
      ap (λ (m : ℕ). bit_and n (m - 1)) top.shift
      ∙ bit_and-mask k n
      ∙ low_bits_of_top k n top.low top.high in
    elim (Bool-cases (bit_and n (shl_one k - 1) == 0)) [
      | inl exact ↦
          let e : bit_and n (shl_one k - 1) ≡ 0 = (==_iff _ 0).0 exact in
          rw exact (record {
            small = top.small;
            holds = omega (arith, top.high, pow-suc 2 k);
            least = omega (arith, top.low);
          })
      | inr more ↦
          let above : 2 ^ k < n = omega (arith, top.low, ne_of_test _ more) in
          let next : add32 k 1 ≡ suc k = omega (arith, top.small) in
          rw (more, next)
            (record {
              small = omega (arith, lt_of_pow-lt k 31 (omega arith));
              holds = omega (arith, top.high);
              least = omega (arith, pow-suc 2 k);
            })
    ]

-- The run of `n` pages from `first` has been taken out of the free blocks of `s`.
pub record Allocated (lim n : ℕ) (s : Pool) (addr : ℕ) (t : Pool) : Type 0 where
  pub first : ℕ
  pub address : addr ≡ page_address s first
  pub inside : first + n ≤ lim
  pub taken :
      (g : RunWeight) → IsAdditive g → tally (by_pages g) s ≡ tally (by_pages g) t + g first n
  pub same : SamePool s t
  pub sound : IsSound lim t

-- the block taken out, and what the cut gave back
cut_Allocated :
    {lim order n : ℕ} {p : Page} {s t u : Pool} (off cnt : ℕ)
    → IsSound lim s
    → Removed order p s t
    → Filled off cnt t u
    → off ≡ p.start_page_no + n
    → n + cnt ≡ 2 ^ order
    → Allocated lim n s (page_address s p.start_page_no) (record u { free = p ∷ u.free })
cut_Allocated {lim} {order} {n} {p} {s} {t} {u} off cnt i r f e e' =
    let taken : (g : RunWeight)
        → IsAdditive g
        → tally (by_pages g) s ≡ tally (by_pages g) u + g p.start_page_no n =
      λ g d. omega (
        arith,
        r.lost (by_pages g),
        f.gained g d,
        d.join p.start_page_no n cnt,
        ap (λ (o : ℕ). g o cnt) e,
        ap (λ (c : ℕ). g p.start_page_no c) e',
      ) in
    record {
      first = p.start_page_no;
      address = refl;
      inside = omega (arith, taken_out i r);
      taken = taken;
      same = record {
        same_size = omega (arith, r.same, f.same);
        same_start = omega (arith, r.same, f.same);
      };
      sound = record {
        valid = record { zone_count = f.valid.zone_count; next_in_pool = f.valid.next_in_pool };
        accounted = omega (arith, r.lost one, f.accounted, r.spared, i.accounted, r.same, f.same);
        bounded = omega (arith, i.bounded, taken (beyond lim) (beyond-IsAdditive lim));
        roomy = omega (arith, i.roomy, r.same, f.same, taken page_count page_count-IsAdditive);
      };
    }

module _ {lim : ℕ} (small : lim ≤ 2 ^ 31) where
  cut_block-Ends :
      (order n : ℕ) {s : Pool}
      → IsSound lim s
      → HasBlock order s
      → order < 32
      → n ≤ 2 ^ order
      → Ends (Allocated lim n s) (cut_block order n true s)
  unfolding cut_block
  cut_block-Ends order n {s} i has low h =
      let p = has.first in
      Ends-and_then (get_free_page_from_zone-Ends order i.valid has.below has.found)
        λ r t (er, rem).
          let cut = taken_out i rem in
          let off : add32 p.start_page_no n ≡ p.start_page_no + n = omega (arith, cut) in
          let cnt : n + sub32 (shl_one order) n ≡ 2 ^ order =
            omega (arith, shl_one_lt order low, cut) in
          rw er (
            Ends-and_then
              (add_memory_to_pool-Ends (add32 p.start_page_no n) (sub32 (shl_one order) n) rem.valid
                (omega (arith, cut)) (omega (arith, cut)))
              λ _ u f. ends (cut_Allocated _ _ i rem f off cnt))

  -- a run cut from the pool as `split_zone` left it is a run of the pool before that
  Allocated-Recut :
      {n a : ℕ} {s t u : Pool} → Recut s t → Allocated lim n t a u → Allocated lim n s a u
  Allocated-Recut {n} {a} {s} {t} r l = record {
    first = l.first;
    address = l.address ∙ ap (λ (m : ℕ). add64 m (l.first * 2 ^ 12 % 2 ^ 32)) r.same.same_start;
    inside = l.inside;
    taken = λ g d. sym (r.kept g d) ∙ l.taken g d;
    same = record {
      same_size = omega (arith, l.same, r.same);
      same_start = omega (arith, l.same, r.same);
    };
    sound = l.sound;
  }

  cut_outcome :
      (n : ℕ) {s t : Pool} (b : Bool)
      → 0 < n
      → n ≤ 2 ^ 31
      → IsSound lim s
      → SplitPost (zone_for n) s b t
      → Ends (Allocated lim n s) (cut_block (zone_for n) n b t)
        ⊎ ((cut_block (zone_for n) n b t ≡ panic no_continuous_memory) × NoBlock (zone_for n) s)
  unfolding cut_block
  cut_outcome n {s} {t} b p h i (r, inl (eb, has)) =
      let k = zone_for-IsLeastOrder n p h in
      rw eb (
        inl (
          Ends-mono (cut_block-Ends (zone_for n) n (Recut-IsSound i r) has k.small k.holds)
            λ a u l. Allocated-Recut r l))
  cut_outcome n b p h i (r, inr (eb, et, none_left)) = rw eb (inr (refl, none_left))

  -- For a request of `0 < num_pages <= 2^31` pages a sound pool either gives a run of that many
  -- pages out of its free blocks and stays sound, or panics because no free block is of the order
  -- `biggest_zone` or above it; the descriptors never run out.
  pub page_alloc_outcome :
      (num_pages : ℕ) {s : Pool}
      → 0 < num_pages
      → num_pages ≤ 2 ^ 31
      → IsSound lim s
      → Ends (Allocated lim num_pages s) (page_alloc num_pages s)
        ⊎ ((page_alloc num_pages s ≡ panic no_continuous_memory) × NoBlock (zone_for num_pages) s)
  unfolding page_alloc get_memory_from_pool
  page_alloc_outcome n {s} p h i =
      let (b, t, e, post) = Ends-ok (split_zone-Ends small (zone_for n) i) in
      rw e (cut_outcome n b p h i post)

-- A request of no page panics, whatever the pool: `63 - clz(0)` is a huge `unsigned`.
pub page_alloc-zero : (s : Pool) → page_alloc 0 s ≡ panic no_continuous_memory
unfolding page_alloc get_memory_from_pool zone_for split_zone split_orders cut_block clz
    leading_zeros
page_alloc-zero s = refl
