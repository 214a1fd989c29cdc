-- ===== src/Page/Fill.antt =====
-- `add_memory_to_pool`: the loop ends, and the blocks that it adds make up the run of pages.
use mk_os.Base.{
  ℕ, zero, suc, ◌+◌, ◌-◌, ◌^◌, ◌≤◌, ◌<◌, ◌≡◌, refl, ap, ◌∙◌, arith, ◌==◌, Bool-cases, inl, inr,
  ==_iff,
}
use native.Mathlib.Nat.{pow-suc}
use mk_os.Base.Bits.{pow_mono, lt_of_pow-lt}
use mk_os.Base.Word.{add32, sub32, shl_one, shl_one_lt}
use mk_os.Base.Run.{Ends, ends, Ends-and_then, Ends-mono}
use mk_os.Bitops.{clz}
use mk_os.Bitops.Laws.{clz_top}
use mk_os.Page.{Pool, page_order, add_blocks, add_memory_to_pool}
use mk_os.Page.Tally.{tally, one, RunWeight, IsAdditive, by_pages}
use mk_os.Page.Blocks.{spare, IsValid, SamePool, Added, add_free_page_to_zone-Ends}

pub record IsTopBit (k v : ℕ) : Type 0 where
  pub small : k < 32
  pub shift : shl_one k ≡ 2 ^ k
  pub low : 2 ^ k ≤ v
  pub high : v < 2 ^ suc k

-- `63 - clz(page_cnt)` is the position of the topmost one of a count that is not zero.
pub page_order_top : (v : ℕ) → 0 < v → v < 2 ^ 32 → IsTopBit (page_order v) v
page_order_top v p h =
    let (z, low, high) = clz_top v p (omega arith) in
    let e : page_order v ≡ 63 - clz v = omega arith in
    let e' : 64 - clz v ≡ suc (63 - clz v) = omega arith in
    let k : 63 - clz v < 32 = lt_of_pow-lt (63 - clz v) 32 (omega arith) in
    rw e (record { small = k; shift = shl_one_lt _ k; low = low; high = rw (← e') high })

-- The pages `off`, …, `off + cnt - 1` have been added to the free blocks.
pub record Filled (off cnt : ℕ) (s t : Pool) : Type 0 where
  pub valid : IsValid t
  pub same : SamePool s t
  pub accounted : tally one t + spare t ≡ tally one s + spare s
  pub gained :
      (g : RunWeight) → IsAdditive g → tally (by_pages g) t ≡ tally (by_pages g) s + g off cnt

Filled-nil : (off : ℕ) {s : Pool} → IsValid s → Filled off 0 s s
Filled-nil off v = record {
  valid = v;
  same = record { same_size = refl; same_start = refl };
  accounted = refl;
  gained = λ g a. omega (arith, a.nil off);
}

Filled-cons :
    (k off cnt : ℕ) {off' cnt' : ℕ} {s t u : Pool}
    → Added k off s t
    → Filled off' cnt' t u
    → off' ≡ off + 2 ^ k
    → 2 ^ k + cnt' ≡ cnt
    → Filled off cnt s u
Filled-cons k off cnt {off'} {cnt'} {s} {t} {u} a f e e' = record {
  valid = f.valid;
  same = record {
    same_size = f.same.same_size ∙ a.same.same_size;
    same_start = f.same.same_start ∙ a.same.same_start;
  };
  accounted = omega (arith, a.gained one);
  gained = λ g d.
      f.gained g d
      ∙ omega (
        arith,
        a.gained (by_pages g),
        d.join off (2 ^ k) cnt',
        ap (λ (o : ℕ). g o cnt') e,
        ap (λ (c : ℕ). g off c) e',
      );
}

add_blocks-Ends :
    (n off cnt : ℕ) {s : Pool}
    → IsValid s
    → cnt < 2 ^ n
    → cnt ≤ spare s
    → off + cnt < 2 ^ 32
    → Ends (λ _ t. Filled off cnt s t) (add_blocks (suc n) off cnt s)
unfolding add_blocks
add_blocks-Ends zero off cnt {s} v h r b =
    let e : cnt ≡ 0 = omega arith in rw e (ends (Filled-nil off v))
add_blocks-Ends (suc n) off cnt {s} v h r b = elim (Bool-cases (cnt == 0)) [
  | inl done ↦ let e : cnt ≡ 0 = (==_iff cnt 0).0 done in rw e (ends (Filled-nil off v))
  | inr more ↦
      let k = page_order cnt in
      let top = page_order_top cnt (ground arith) (omega arith) in
      let bound : 2 ^ k ≤ 2 ^ n = pow_mono (omega (arith, lt_of_pow-lt k (suc n) (omega arith))) in
      rw more (
        Ends-and_then (add_free_page_to_zone-Ends off k v (omega arith) (omega arith)) λ _ t a.
          Ends-mono
            (add_blocks-Ends n (add32 off (shl_one k)) (sub32 cnt (shl_one k)) a.valid
              (omega (arith, pow-suc 2 k)) (omega arith) (omega arith))
            λ _ u f. Filled-cons k off cnt a f (omega arith) (omega arith))
]

-- With a spare descriptor for each page, `add_memory_to_pool` ends, and adds exactly its pages to
-- the free blocks.
pub add_memory_to_pool-Ends :
    (off cnt : ℕ) {s : Pool}
    → IsValid s
    → cnt ≤ spare s
    → off + cnt < 2 ^ 32
    → Ends (λ _ t. Filled off cnt s t) (add_memory_to_pool off cnt s)
unfolding add_memory_to_pool
add_memory_to_pool-Ends off cnt v r b = add_blocks-Ends 32 off cnt v (omega arith) r b
