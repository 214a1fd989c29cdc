-- ===== src/Vfs/Open.antt =====
-- `vfs_open`: the first file of the name is opened.
use mk_os.Base.{
  true-false, ℕ, zero, suc, ◌+◌, ◌≤◌, ◌<◌, ◌≡◌, refl, ap, sym, ◌∙◌, arith, Bool, true, inl, inr,
  Bool-cases, ◌==◌, ==_iff,
}
use mk_os.Base.Int.{negsuc, is_zero, eq_of_is_zero}
use mk_os.Base.Run.{ok}
use mk_os.Memory.{Memory, strncmp}
use mk_os.Memory.Compare.{SameString, strncmp_zero_iff}
use mk_os.Vfs.{Vfs, inode, create_fd, open_from, vfs_open, config_max_file_name}

-- whether the file `i` has the name, as far as `strncmp` looks
abbrev pub HasName : Memory → Vfs → ℕ → Type 0
HasName name s i = SameString name (inode s i).name config_max_file_name

module _ (name : Memory) (s : Vfs) where
  -- the test of the loop
  abbrev test : ℕ → Bool
  test i = is_zero (strncmp name (inode s i).name config_max_file_name)

  HasName-test : (i : ℕ) → test i ≡ true → HasName name s i
  HasName-test i h = (strncmp_zero_iff name _ config_max_file_name).0 (eq_of_is_zero _ h)

  test-HasName : (i : ℕ) → HasName name s i → test i ≡ true
  test-HasName i h = rw ((strncmp_zero_iff name (inode s i).name config_max_file_name).1 h)

  open_from-found :
      (n i k : ℕ)
      → i ≤ k
      → k < i + n
      → HasName name s k
      → ((j : ℕ) → i ≤ j → j < k → ¬ HasName name s j)
      → open_from name n i s ≡ create_fd k s
  unfolding open_from
  open_from-found zero i k le lt here none_before = absurd (omega arith)
  open_from-found (suc n) i k le lt here none_before = elim (Bool-cases (test i)) [
    | inl hit ↦ elim (Bool-cases (i == k)) [
      | inl same ↦ let ei : i ≡ k = (==_iff _ _).0 same in rw hit (ap (λ (j : ℕ). create_fd j s) ei)
      | inr other ↦ absurd (none_before i (omega arith) (ground arith) (HasName-test i hit))
    ]
    | inr miss ↦ elim (Bool-cases (i == k)) [
      | inl same ↦
          let ei : i ≡ k = (==_iff _ _).0 same in
          absurd (true-false (sym (test-HasName k here) ∙ ap test (sym ei) ∙ miss))
      | inr other ↦ rw miss (
          open_from-found n (i + 1) k (ground arith) (omega arith) here
            λ j h. none_before j (omega arith))
    ]
  ]

  open_from-missing :
      (n i : ℕ)
      → ((j : ℕ) → i ≤ j → j < i + n → ¬ HasName name s j)
      → open_from name n i s ≡ ok (negsuc 0) s
  unfolding open_from
  open_from-missing zero i missing = refl
  open_from-missing (suc n) i missing = elim (Bool-cases (test i)) [
    | inl hit ↦ absurd (missing i (omega arith) (omega arith) (HasName-test i hit))
    | inr miss ↦
        rw miss (open_from-missing n (i + 1) λ j h h'. missing j (omega arith) (omega arith))
  ]

  -- `vfs_open` opens the first file of the name.
  pub vfs_open-found :
      (k : ℕ)
      → k < s.vfs_next
      → HasName name s k
      → ((j : ℕ) → j < k → ¬ HasName name s j)
      → vfs_open name s ≡ create_fd k s
  unfolding vfs_open
  vfs_open-found k h here none_before =
      open_from-found s.vfs_next 0 k (omega arith) (omega arith) here λ j h'. none_before j

  -- With no file of the name `vfs_open` fails and changes nothing.
  pub vfs_open-missing :
      ((j : ℕ) → j < s.vfs_next → ¬ HasName name s j) → vfs_open name s ≡ ok (negsuc 0) s
  unfolding vfs_open
  vfs_open-missing missing = open_from-missing s.vfs_next 0 λ j h h'. missing j (omega arith)
