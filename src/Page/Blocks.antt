-- ===== src/Page/Blocks.antt =====
-- The two list operations of page.c: what they do to the blocks and to the spare descriptors.
use mk_os.Base.{
  ℕ, suc, ◌+◌, ◌-◌, ◌≤◌, ◌<◌, ◌≡◌, refl, List, [], ◌∷◌, some, arith, length, length-set,
  get_or-set_self, ltb_of_lt, leb_of_lt, get_or, ap, ◌∙◌,
}
use mk_os.Base.Run.{panic, page_pool_exhausted, Ends, ends, Ends-and_then}
use mk_os.Page.{
  max_zones, Page, Zone, Pool, zone, take_descriptor, link_zone, add_free_page_to_zone,
  get_free_page_from_zone,
}
use mk_os.Page.Tally.{Weight, tally, zones_sum, zones_sum-push, zones_sum-pop}

-- the descriptors that hold no block
abbrev pub spare : Pool → ℕ
spare s = length s.free + (s.page_pool_size - s.page_pool_next_free)

pub record IsValid (s : Pool) : Type 0 where
  pub zone_count : length s.zones ≡ max_zones
  pub next_in_pool : s.page_pool_next_free ≤ s.page_pool_size

-- what no operation of page.c changes after `page_init`
pub record SamePool (s t : Pool) : Type 0 where
  pub same_size : t.page_pool_size ≡ s.page_pool_size
  pub same_start : t.mem_pool_start ≡ s.mem_pool_start

pub record Added (order start : ℕ) (s t : Pool) : Type 0 where
  pub valid : IsValid t
  pub same : SamePool s t
  pub used : spare s ≡ suc (spare t)
  pub gained : (w : Weight) → tally w t ≡ tally w s + w order start
  pub linked : (p : Page) × (p.start_page_no ≡ start) × (zone t order ≡ p ∷ zone s order)

take_descriptor-Ends :
    (free : List Page) {s : Pool}
    → IsValid s
    → free ≡ s.free
    → 0 < spare s
    → Ends
        (λ p t. IsValid t × SamePool s t × (spare s ≡ suc (spare t)) × (t.zones ≡ s.zones))
        (take_descriptor free s)
unfolding take_descriptor
take_descriptor-Ends [] {s} v e h =
    let room : s.page_pool_next_free < s.page_pool_size = omega (arith, ap (length {0}) e) in
    rw (ltb_of_lt room) (ends (omega arith, omega arith, omega arith, refl))
take_descriptor-Ends (p ∷ rest) {s} v e h =
    ends (omega arith, omega arith, omega (arith, ap (length {0}) e), refl)

link_zone-Ends :
    {s t : Pool} (p : Page) (order : ℕ)
    → order < max_zones
    → IsValid t
    → SamePool s t
    → spare s ≡ suc (spare t)
    → t.zones ≡ s.zones
    → Ends (λ _ u. Added order p.start_page_no s u) (link_zone order p t)
unfolding link_zone
link_zone-Ends {s} {t} p order o v same used e =
    let here : order < length t.zones = omega arith in
    let full = p ∷ zone t order in
    rw (ltb_of_lt o) (
      ends (record {
        valid = record {
          zone_count = length-set t.zones order full ∙ v.zone_count;
          next_in_pool = v.next_in_pool;
        };
        same = record { same_size = same.same_size; same_start = same.same_start };
        used = used;
        gained = λ w.
            zones_sum-push w t.zones order p here
            ∙ ap (λ zs. zones_sum w 0 zs + w order p.start_page_no) e;
        linked = (
          p,
          refl,
          get_or-set_self t.zones order full [] here ∙ ap (λ zs. p ∷ get_or zs order []) e,
        );
      }))

-- A spare descriptor is enough for `add_free_page_to_zone`: it links one block and does no more.
pub add_free_page_to_zone-Ends :
    {s : Pool} (start order : ℕ)
    → IsValid s
    → 0 < spare s
    → order < max_zones
    → Ends (λ _ t. Added order start s t) (add_free_page_to_zone start order s)
unfolding add_free_page_to_zone
add_free_page_to_zone-Ends {s} start order v h o =
    Ends-and_then (take_descriptor-Ends s.free v refl h) λ p t (v', same, used, e).
      link_zone-Ends (record p { start_page_no = start }) order o v' same used e

-- With none spare it panics.
pub add_free_page_to_zone_panics :
    (s : Pool) (start order : ℕ)
    → spare s ≡ 0
    → add_free_page_to_zone start order s ≡ panic page_pool_exhausted
unfolding add_free_page_to_zone
add_free_page_to_zone_panics s start order h = ground arith

pub record Removed (order : ℕ) (p : Page) (s t : Pool) : Type 0 where
  pub valid : IsValid t
  pub same : SamePool s t
  pub spared : spare t ≡ spare s
  pub lost : (w : Weight) → tally w s ≡ tally w t + w order p.start_page_no

-- `get_free_page_from_zone` takes the first block of a zone that has one.
pub get_free_page_from_zone-Ends :
    {s : Pool} (order : ℕ) {p : Page} {rest : Zone}
    → IsValid s
    → order < max_zones
    → zone s order ≡ p ∷ rest
    → Ends (λ r t. (r ≡ some p) × Removed order p s t) (get_free_page_from_zone order s)
unfolding get_free_page_from_zone
get_free_page_from_zone-Ends {s} order {p} {rest} v o e =
    rw (leb_of_lt o, e)
      (ends (
        refl,
        record {
          valid = record {
            zone_count = length-set s.zones order rest ∙ v.zone_count;
            next_in_pool = v.next_in_pool;
          };
          same = record { same_size = refl; same_start = refl };
          spared = refl;
          lost = λ w. zones_sum-pop w s.zones order (omega arith) e;
        },
      ))
