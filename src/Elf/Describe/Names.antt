-- ===== src/Elf/Describe/Names.antt =====
-- kernel/lib/elf.c: the names that are printed are those of kernel/include/elf_common.h, or not.
use mk_os.Base.{
  ℕ, zero, suc, ◌+◌, ◌*◌, ◌/◌, ◌%◌, ◌^◌, ◌≤◌, ◌<◌, ◌≡◌, ◌↔◌, ◌⊎◌, inl, inr, refl, ltb, ◌==◌,
  if◌then◌else◌, List, [], ◌∷◌, length, ◌++◌, ◌-◌, ◌∙◌, sym, ap, ◌≢◌, Bool-cases, none, some,
  get_elem?, get_or, bit_and, arith,
}
use mk_os.Base.Bits.{bit_and-mask, bit_and-high_mask}
use mk_os.Elf.{Elf64Phdr}
use mk_os.Elf.Describe.{
  SegmentType, segment_no, pheader_types, str_perms, SegmentLine, line_for, segment_line,
  SectionType, sht_types, sheader_types, get_sheader_type, unused, load, dynamic, interpreter, note,
  reserved_shlib, program_header, thread_local_storage, null, progbits, symtab, strtab, rela, hash,
  dynamic_section, note_section, nobits, rel, res_shlib, dynsym, init_array, fini_array,
  preinit_array, group, symtab_shndx, unknown,
}

module _ {ℓ} {A : Type ℓ} where
  get_or-append :
      (xs ys zs : List A) (i : ℕ) (d : A)
      → i < length xs
      → get_or (xs ++ ys) i d ≡ get_or (xs ++ zs) i d
  get_or-append [] ys zs i d h = absurd (omega arith)
  get_or-append (x ∷ xs) ys zs zero d h = refl
  get_or-append (x ∷ xs) ys zs (suc i) d h = get_or-append xs ys zs i d (omega arith)

  get_or-behind :
      (xs ys : List A) (i : ℕ) (d : A)
      → length xs ≤ i
      → get_or (xs ++ ys) i d ≡ get_or ys (i - length xs) d
  get_or-behind [] ys i d h = ap (λ j. get_or ys j d) (omega arith)
  get_or-behind (x ∷ xs) ys zero d h = absurd (omega arith)
  get_or-behind (x ∷ xs) ys (suc i) d h =
      get_or-behind xs ys i d (omega arith) ∙ ap (λ j. get_or ys j d) (omega arith)

  get_elem?-past : (xs : List A) (i : ℕ) → length xs ≤ i → get_elem? xs i ≡ none
  get_elem?-past [] i h = refl
  get_elem?-past (x ∷ xs) zero h = absurd (omega arith)
  get_elem?-past (x ∷ xs) (suc i) h = get_elem?-past xs i (omega arith)

  get_or-default : (xs : List A) (i : ℕ) (d : A) → length xs ≤ i → get_or xs i d ≡ d
  get_or-default [] i d h = refl
  get_or-default (x ∷ xs) zero d h = absurd (omega arith)
  get_or-default (x ∷ xs) (suc i) d h = get_or-default xs i d (omega arith)

-- the first twelve types, on which both lists agree
abbrev common_types : List SectionType
common_types =
    null ∷ progbits ∷ symtab ∷ strtab ∷ rela ∷ hash ∷ dynamic_section ∷ note_section ∷ nobits ∷ rel
    ∷ res_shlib ∷ dynsym ∷ []

abbrev late_types : List SectionType
late_types = init_array ∷ fini_array ∷ preinit_array ∷ group ∷ symtab_shndx ∷ []

late-differ :
    (j : ℕ)
    → j < 7
    → get_or late_types j unknown ≢ get_or (unknown ∷ unknown ∷ late_types) j unknown
late-differ zero h e = cc
late-differ (suc zero) h e = cc
late-differ (suc (suc zero)) h e = cc
late-differ (suc (suc (suc zero))) h e = cc
late-differ (suc (suc (suc (suc zero)))) h e = cc
late-differ (suc (suc (suc (suc (suc zero))))) h e = cc
late-differ (suc (suc (suc (suc (suc (suc zero)))))) h e = cc
late-differ (suc (suc (suc (suc (suc (suc (suc j))))))) h e = omega arith

-- The test for the end of the list is the list's own.
get_sheader_type_lem : (ty : ℕ) → get_sheader_type ty ≡ get_or sheader_types ty unknown
unfolding get_sheader_type
get_sheader_type_lem ty = elim (Bool-cases (ltb ty 17)) [
  | inl e ↦ rw e refl
  | inr e ↦ rw e (sym (get_or-default sheader_types ty unknown (ground arith)))
]

agree : (ty : ℕ) → (ty < 12) ⊎ (19 ≤ ty) → get_sheader_type ty ≡ get_or sht_types ty unknown
agree ty (inl h) =
    get_sheader_type_lem ty
    ∙ get_or-append common_types late_types (unknown ∷ unknown ∷ late_types) ty unknown h
agree ty (inr h) =
    get_sheader_type_lem ty
    ∙ get_or-default sheader_types ty unknown (omega arith)
    ∙ sym (get_or-default sht_types ty unknown h)

agree_only : (ty : ℕ) → get_sheader_type ty ≡ get_or sht_types ty unknown → (ty < 12) ⊎ (19 ≤ ty)
agree_only ty e = elim (Bool-cases (ltb ty 12)) [
  | inl low ↦ inl (ground arith)
  | inr high ↦ elim (Bool-cases (ltb ty 19)) [
    | inr beyond ↦ inr (ground arith)
    | inl between ↦
        let past : 12 ≤ ty = ground arith in
        absurd (
          late-differ (ty - 12) (ground arith) (
            sym (get_or-behind common_types late_types ty unknown past)
            ∙ sym (get_sheader_type_lem ty)
            ∙ e
            ∙ get_or-behind common_types (unknown ∷ unknown ∷ late_types) ty unknown past))
  ]
]

two_off : (ty : ℕ) → 12 ≤ ty → get_sheader_type ty ≡ get_or sht_types (ty + 2) unknown
two_off ty h =
    let same : suc (suc (ty - 12)) ≡ ty + 2 - 12 = omega arith in
    get_sheader_type_lem ty
    ∙ get_or-behind common_types late_types ty unknown h
    ∙ ap (λ (j : ℕ). get_or (unknown ∷ unknown ∷ late_types) j unknown) same
    ∙ sym
        (get_or-behind common_types (unknown ∷ unknown ∷ late_types) (ty + 2) unknown (omega arith))

-- Of the generic types of sections, which elf_common.h numbers below 19, `get_sheader_type` gives
-- exactly those below 12. From 12 on it gives the type numbered two higher, and unknown where no
-- generic type has that number.
pub get_sheader_type_iff :
    (ty : ℕ)
    → (ty < 19 → ((get_sheader_type ty ≡ get_or sht_types ty unknown) ↔ (ty < 12)))
      × (12 ≤ ty → get_sheader_type ty ≡ get_or sht_types (ty + 2) unknown)
get_sheader_type_iff ty = (
  λ generic. (
    λ e. elim (agree_only ty e) [ inl low ↦ low | inr high ↦ absurd (omega arith) ],
    λ low. agree ty (inl low),
  ),
  two_off ty,
)

-- the permission bits that three characters stand for
abbrev pub perms_value : List ℕ → ℕ
perms_value (r ∷ w ∷ x ∷ []) =
    (if r == b'r' then 4 else 0) + (if w == b'w' then 2 else 0) + (if x == b'x' then 1 else 0)
perms_value cs = 0

-- what a line says about a header
pub record IsAbout (hdr : Elf64Phdr) (l : SegmentLine) : Type 0 where
  pub numbered : segment_no l.segment_type ≡ hdr.p_type
  pub allowed : perms_value l.perms ≡ hdr.p_flags % 8
  pub placed : (l.offset ≡ hdr.p_offset) × (l.paddr ≡ hdr.p_paddr) × (l.vaddr ≡ hdr.p_vaddr)
  pub sized : (l.file_size ≡ hdr.p_filesz) × (l.mem_size ≡ hdr.p_memsz) × (l.align ≡ hdr.p_align)

perms_value-str_perms : (p : ℕ) → perms_value (str_perms p) ≡ p % 8
unfolding str_perms
perms_value-str_perms p =
    let r : bit_and p 4 ≡ p / 2 ^ 2 % 2 ^ 1 * 2 ^ 2 = bit_and-high_mask 2 1 p in
    let w : bit_and p 2 ≡ p / 2 ^ 1 % 2 ^ 1 * 2 ^ 1 = bit_and-high_mask 1 1 p in
    let x : bit_and p 1 ≡ p % 2 ^ 1 = bit_and-mask 1 p in rw (r, w, x) (ground arith)

pheader_types-known :
    (ty : ℕ)
    → ty < 8
    → (name : SegmentType) × (get_elem? pheader_types ty ≡ some name) × (segment_no name ≡ ty)
pheader_types-known zero h = (unused, refl, refl)
pheader_types-known (suc zero) h = (load, refl, refl)
pheader_types-known (suc (suc zero)) h = (dynamic, refl, refl)
pheader_types-known (suc (suc (suc zero))) h = (interpreter, refl, refl)
pheader_types-known (suc (suc (suc (suc zero)))) h = (note, refl, refl)
pheader_types-known (suc (suc (suc (suc (suc zero))))) h = (reserved_shlib, refl, refl)
pheader_types-known (suc (suc (suc (suc (suc (suc zero)))))) h = (program_header, refl, refl)
pheader_types-known (suc (suc (suc (suc (suc (suc (suc zero))))))) h =
    (thread_local_storage, refl, refl)
pheader_types-known (suc (suc (suc (suc (suc (suc (suc (suc n)))))))) h = absurd (omega arith)

-- For the eight types that the code knows, the line about a segment says its type, its permissions
-- and its sizes as the header has them; for every other one the name is read behind the table.
pub segment_line_outcome :
    (hdr : Elf64Phdr)
    → (hdr.p_type < 8) × ((l : SegmentLine) × (segment_line hdr ≡ some l) × IsAbout hdr l)
      ⊎ (8 ≤ hdr.p_type) × (segment_line hdr ≡ none)
unfolding segment_line
segment_line_outcome hdr = elim (Bool-cases (ltb hdr.p_type 8)) [
  | inl low ↦
      let known = pheader_types-known hdr.p_type (ground arith) in
      inl (
        ground arith,
        (
          line_for known.0 hdr,
          rw known.1 refl,
          record {
            numbered = known.2;
            allowed = perms_value-str_perms (hdr.p_flags % 2 ^ 16) ∙ omega arith;
            placed = (refl, refl, refl);
            sized = (refl, refl, refl);
          },
        ),
      )
  | inr high ↦ inr (ground arith, rw (get_elem?-past pheader_types hdr.p_type (ground arith)) refl)
]
