-- ===== src/Page/Dump.antt =====
-- `dump_zones`, and freeing what has just been allocated.
use mk_os.Base.{
  ℕ, suc, ◌+◌, ◌*◌, ◌%◌, ◌^◌, ◌≤◌, ◌<◌, ◌≡◌, refl, ap, sym, ◌∙◌, inl, inr, arith, List, [], ◌∷◌,
  length,
}
use mk_os.Base.Bits.{lt_of_pow-lt}
use mk_os.Base.Word.{shl_one_lt}
use mk_os.Base.Run.{ok, Ends, Ends-mono, Ends_at}
use mk_os.Page.{Pool, Zone, dump_zones_from, page_alloc, page_free, page_number}
use mk_os.Page.Tally.{
  tally, zone_sum, zones_sum, by_pages, page_count, beyond, page_count-IsAdditive,
  one-le-page_count,
}
use mk_os.Page.Fill.{add_memory_to_pool-Ends}
use mk_os.Page.Split.{IsSound, Recut}
use mk_os.Page.Alloc.{page_alloc_outcome}

zone_pages : (k : ℕ) (z : Zone) → zone_sum (by_pages page_count) k z ≡ 2 ^ k * length z
zone_pages k [] = omega arith
zone_pages k (p ∷ z) = omega (arith, zone_pages k z)

module _ {lim : ℕ} (small : lim ≤ 2 ^ 31) where
  order_of_block :
      (k : ℕ) (z : Zone)
      → zone_sum (by_pages (beyond lim)) k z ≡ 0
      → 2 ^ (k % 32) * length z ≡ 2 ^ k * length z
  order_of_block k [] h = omega arith
  order_of_block k (p ∷ z) h =
      ap (λ (m : ℕ). m * length (p ∷ z)) (shl_one_lt k (lt_of_pow-lt k 32 (omega arith)))

  dump_zones_from-zones_sum :
      (k : ℕ) (zs : List Zone)
      → zones_sum (by_pages (beyond lim)) k zs ≡ 0
      → zones_sum (by_pages page_count) k zs < 2 ^ 32
      → dump_zones_from k zs ≡ zones_sum (by_pages page_count) k zs
  unfolding dump_zones_from
  dump_zones_from-zones_sum k [] h b = refl
  dump_zones_from-zones_sum k (z ∷ zs) h b =
      let next : k + 1 ≡ suc k = omega arith in
      rw next (
        omega (
          arith,
          zone_pages k z,
          order_of_block k z (omega arith),
          dump_zones_from-zones_sum (suc k) zs (omega arith) (omega arith),
        ))

  -- `dump_zones` prints the number of free pages of a sound pool of fewer than `2^32` pages.
  pub dump_zones-tally :
      (s : Pool)
      → IsSound lim s
      → s.page_pool_size < 2 ^ 32
      → dump_zones_from 0 s.zones ≡ tally (by_pages page_count) s
  dump_zones-tally s i b = dump_zones_from-zones_sum 0 s.zones i.bounded (omega (arith, i.roomy))

-- Freeing the run that a sound pool of at most `2^20` pages has just given for a request leaves
-- the free pages as they were.
pub page_free-page_alloc :
    {lim : ℕ} (num_pages a : ℕ) {s t : Pool}
    → lim ≤ 2 ^ 20
    → s.mem_pool_start < 2 ^ 64
    → 0 < num_pages
    → num_pages ≤ 2 ^ 31
    → IsSound lim s
    → page_alloc num_pages s ≡ ok a t
    → Ends (λ _ u. Recut s u) (page_free a num_pages t)
unfolding page_free
page_free-page_alloc {lim} n a {s} {t} small m p h i e =
    elim (page_alloc_outcome {lim = lim} (omega arith) n p h i) [
      | inl run ↦
          let l = Ends_at e run in
          let found : page_number t a ≡ l.first = omega (arith, l.same, l.address, l.inside) in
          rw found (
            Ends-mono
              (add_memory_to_pool-Ends l.first n l.sound.valid
                (omega (
                  arith,
                  l.taken page_count page_count-IsAdditive,
                  one-le-page_count t,
                  l.sound,
                  i.roomy,
                  l.same,
                ))
                (omega (arith, l.inside)))
              λ _ u f. record {
                valid = f.valid;
                same = record {
                  same_size = omega (arith, f.same, l.same);
                  same_start = omega (arith, f.same, l.same);
                };
                accounted = omega (arith, f.accounted, l.sound.accounted, i.accounted, l.same);
                kept = λ g d. f.gained g d ∙ sym (l.taken g d);
              })
      | inr (stopped, none_left) ↦ absurd (cc)
    ]
