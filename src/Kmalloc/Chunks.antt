-- ===== src/Kmalloc/Chunks.antt =====
-- The pieces that `kmalloc` gives out lie in a chunk and do not overlap.
use mk_os.Base.{
  ℕ, ◌+◌, ◌*◌, ◌/◌, ◌%◌, ◌^◌, ◌≤◌, ◌<◌, ◌≡◌, refl, ap, ◌⊎◌, arith, ltb, Bool-cases, inl, inr, List,
  [], ◌∷◌, Option, none, some, if◌then◌else◌,
}
use mk_os.Base.Word.{add32, sub32}
use mk_os.Base.Bits.{bit_and-high_mask}
use mk_os.Memory.Copy.{in_range}
use mk_os.Kmalloc.{Memchunk, align_up, sizeof_memchunk, piece, bump, first_fit}

-- `ALIGN_UP` rounds a size below the last piece of the word up to a multiple of 16.
pub align_up_lem : (x : ℕ) → x + 15 < 2 ^ 32 → align_up x ≡ (x + 15) / 16 * 16
unfolding align_up
align_up_lem x h = omega (arith, bit_and-high_mask 4 28 ((x + 15) % 2 ^ 32))

-- `ALIGN_UP` takes a size within 15 of `2^32` to zero.
pub align_up-overflow : (x : ℕ) → 2 ^ 32 ≤ x + 15 → x < 2 ^ 32 → align_up x ≡ 0
unfolding align_up
align_up-overflow x h w = omega (arith, bit_and-high_mask 4 28 ((x + 15) % 2 ^ 32))

pub record IsChunk (m : Memchunk) : Type 0 where
  pub aligned : m.base % 16 ≡ 0
  pub stepped : m.offset % 16 ≡ 0
  pub header : sizeof_memchunk ≤ m.offset
  pub inside : m.offset ≤ m.total_size
  pub word : m.total_size < 2 ^ 32
  pub fits : m.base + m.total_size < 2 ^ 64

abbrev pub AllChunks : List Memchunk → Type 0
AllChunks [] = Unit {0}
AllChunks (m ∷ ms) = IsChunk m × AllChunks ms

-- how often the address `x` is below the offset of a chunk
abbrev pub used : ℕ → List Memchunk → ℕ
used x [] = 0
used x (m ∷ ms) = (if in_range x m.base m.offset then 1 else 0) + used x ms

-- how often the address `x` is in a chunk
abbrev pub covers : ℕ → List Memchunk → ℕ
covers x [] = 0
covers x (m ∷ ms) = (if in_range x m.base m.total_size then 1 else 0) + covers x ms

-- `x` lies in one of the chunks
abbrev pub InChunk : ℕ → ℕ → List Memchunk → Type 0
InChunk p size [] = ⊥
InChunk p size (m ∷ ms) =
    ((m.base + sizeof_memchunk ≤ p) × (p + size ≤ m.base + m.total_size)) ⊎ InChunk p size ms

-- the pages of each chunk
abbrev pub chunk_runs : List Memchunk → List (ℕ × ℕ)
chunk_runs [] = []
chunk_runs (m ∷ ms) = (m.base, m.total_size / 4096) ∷ chunk_runs ms

-- What a piece of `size` bytes at `p` is, taken from chunks `ms` that are `ns` afterwards.
pub record Taken (size p : ℕ) (ms ns : List Memchunk) : Type 0 where
  pub chunks : AllChunks ns
  pub aligned : p % 16 ≡ 0
  pub inside : InChunk p size ns
  pub fresh : (x : ℕ) → used x ns ≡ used x ms + (if in_range x p size then 1 else 0)
  pub room : (x : ℕ) → covers x ns ≡ covers x ms
  pub runs : chunk_runs ns ≡ chunk_runs ms

piece_lem :
    (m : Memchunk) (size : ℕ)
    → IsChunk m
    → m.offset + size ≤ m.total_size
    → piece m size ≡ m.base + m.offset
piece_lem m size c h = omega (arith, c)

in_range_split :
    (x base offset size : ℕ)
    → (if in_range x base (offset + size) then 1 else 0)
      ≡ (if in_range x base offset then 1 else 0)
        + (if in_range x (base + offset) size then 1 else 0)
in_range_split x base offset size = ground arith

bump-Taken :
    (size : ℕ) (m : Memchunk) (ms : List Memchunk)
    → size % 16 ≡ 0
    → IsChunk m
    → AllChunks ms
    → size < sub32 m.total_size m.offset
    → Taken size (piece m size) (m ∷ ms) (bump m size ∷ ms)
bump-Taken size m ms a c cs fits = record {
  chunks = (
    record {
      aligned = c.aligned;
      stepped = omega (arith, a, c);
      header = omega (arith, c, fits);
      inside = omega (arith, c, fits);
      word = c.word;
      fits = c.fits;
    },
    cs,
  );
  aligned = omega (arith, a, c, fits);
  inside = inl (omega (arith, c, fits), omega (arith, c, fits));
  fresh = λ x.
      let grown : add32 m.offset size ≡ m.offset + size = omega (arith, c, fits) in
      let at : piece m size ≡ m.base + m.offset = piece_lem m size c (omega (arith, c, fits)) in
      omega (
        arith,
        in_range_split x m.base m.offset size,
        ap {B = ℕ} (λ (o : ℕ). if in_range x m.base o then 1 else 0) grown,
        ap {B = ℕ} (λ (p : ℕ). if in_range x p size then 1 else 0) at,
      );
  room = λ x. refl;
  runs = refl;
}

-- what the loop of `kmalloc` has found in the chunks `ms`
abbrev pub Found : ℕ → List Memchunk → Option (ℕ × List Memchunk) → Type 0
Found size ms none = Unit {0}
Found size ms (some (p, ns)) = Taken size p ms ns

Found-behind :
    (size : ℕ) (m : Memchunk) (ms : List Memchunk) (o : Option (ℕ × List Memchunk))
    → IsChunk m
    → Found size ms o
    → Found size (m ∷ ms) (mathlib.Core.Option.map (λ (p, rest). (p, m ∷ rest)) o)
Found-behind size m ms none c f = tt
Found-behind size m ms (some (p, ns)) c f = record {
  chunks = (c, f.chunks);
  aligned = f.aligned;
  inside = inr f.inside;
  fresh = λ x. omega (arith, f.fresh x);
  room = λ x. omega (arith, f.room x);
  runs = ap (λ rs. (m.base, m.total_size / 4096) ∷ rs) f.runs;
}

-- Where a chunk has room, the loop gives a piece of it.
pub first_fit-Found :
    (size : ℕ) (ms : List Memchunk)
    → size % 16 ≡ 0
    → AllChunks ms
    → Found size ms (first_fit size ms)
unfolding first_fit
first_fit-Found size [] a c = tt
first_fit-Found size (m ∷ ms) a (c, cs) =
    elim (Bool-cases (ltb size (sub32 m.total_size m.offset))) [
      | inl fits ↦ rw fits (bump-Taken size m ms a c cs (ground arith))
      | inr tight ↦
          rw tight (Found-behind size m ms (first_fit size ms) c (first_fit-Found size ms a cs))
    ]
