-- ===== src/Vfs/Client.antt =====
-- The callers of vfs.c: any sequence of its calls.
mod Tests
use mk_os.Base.{
  ℕ, zero, suc, ◌+◌, ◌^◌, ◌≤◌, ◌<◌, ◌≡◌, ◌≢◌, refl, sym, ◌∙◌, ◌⊎◌, inl, inr, arith, Bool-cases,
  Option-cases, Option, none, some, List, [], ◌∷◌, ltb, leb, leb_of_lt, ltb_of_le, length, false,
  if◌then◌else◌,
}
use mathlib.Core.Path.{subst}
use mk_os.Base.Int.{ℤ, pos, negsuc, to_word, is_zero}
use mk_os.Base.Run.{
  Run, ok, no_continuous_memory, Settles, Cmd, ◌>>=◌, ◌>>◌, Ends, ends, Ends-ok, Ends_at, Ends-mono,
  Ends-both, Ends-and_then,
}
use mk_os.Memory.{Memory, strncmp}
use mk_os.Kmalloc.{Kmem}
use mk_os.Kmalloc.Outcome.{IsKmem}
use mk_os.Vfs.Start.{Started, vfs_init-Settles}
use mk_os.Vfs.{
  Vfs, inode, descriptor, config_max_files, config_max_file_name, get_descriptor, with_file,
  create_fd, open_from, failed, close_file, read_file, vfs_open, vfs_read, vfs_write, vfs_close,
  vfs_stat, delete_fd, vfs_init, fds_limit,
}
use mk_os.Vfs.Counts.{IsValid, refs, with_file-open}
use mk_os.Vfs.Descriptors.{create_fd-Ends, get_descriptor-open, vfs_close-open}
use mk_os.Vfs.Read.{after_read, after_read-IsValid}

-- a call, with its arguments
pub data Call : Type 0 where
  open_call : Memory → Call
  read_call write_call : ℤ → (buf size : ℕ) → Call
  close_call : ℤ → Call
  stat_call : ℤ → Option ℕ → Call

abbrev forget : {A : Type 0} → Cmd Vfs A → Cmd Vfs (Unit {0})
forget c = c >>= λ _ s. ok tt s

-- the state that a call leaves
unfoldable pub perform : Call → Cmd Vfs (Unit {0})
perform (open_call name) = forget (vfs_open name)
perform (read_call fd buf size) = forget (vfs_read fd buf size)
perform (write_call fd buf size) = forget (vfs_write fd buf size)
perform (close_call fd) = forget (vfs_close fd)
perform (stat_call fd place) = forget (vfs_stat fd place)

unfoldable pub perform_all : List Call → Cmd Vfs (Unit {0})
unfolding perform
perform_all [] s = ok tt s
perform_all (c ∷ cs) s = (perform c >> perform_all cs) s

-- whether a call leaves the number `most` out, with which the table of descriptors is overrun
abbrev pub Avoids : ℕ → Call → Type 0
Avoids most (open_call name) = Unit {0}
Avoids most (read_call fd buf size) = to_word fd ≢ most
Avoids most (write_call fd buf size) = Unit {0}
Avoids most (close_call fd) = to_word fd ≢ most
Avoids most (stat_call fd place) = to_word fd ≢ most

abbrev pub AllAvoid : ℕ → List Call → Type 0
AllAvoid most [] = Unit {0}
AllAvoid most (c ∷ cs) = Avoids most c × AllAvoid most cs

-- A valid table of files and table of `most` descriptors.
pub record IsReady (most : ℕ) (s : Vfs) : Type 0 where
  pub valid : IsValid s
  pub listed : s.vfs_next ≤ config_max_files
  pub size : s.fds_max ≡ most

forget-Ends :
    {A : Type 0} {P : Vfs → Type 0} (c : Cmd Vfs A) {s : Vfs}
    → Ends (λ _ t. P t) (c s)
    → Ends (λ _ t. P t) (forget c s)
forget-Ends c e = Ends-and_then e λ a t p. ends p

module _ {most : ℕ} {s : Vfs} (r : IsReady most s) where
  -- what `get_descriptor` finds
  found :
      (fd : ℤ)
      → to_word fd ≢ most
      → (get_descriptor fd s ≡ ok none s)
        ⊎ ((i : ℕ) × (node : ℕ) × (get_descriptor fd s ≡ ok (some i) s)
            × ((descriptor s i).file ≡ some node))
  unfolding get_descriptor
  found fd h = elim (Bool-cases (ltb s.fds_max (to_word fd))) [
    | inl past ↦ inl (rw past refl)
    | inr within ↦
        let inside : leb (length s.fds) (to_word fd) ≡ false =
          leb_of_lt {a = length s.fds} {b = to_word fd} (ground (arith, r.valid.slots, r.size)) in
        elim (Option-cases (descriptor s (to_word fd)).file) [
          | inl closed ↦ inl (rw (within, inside, closed) refl)
          | inr (node, opened) ↦ inr (to_word fd, node, rw (within, inside, opened) refl, opened)
        ]
  ]

  -- A call on a descriptor leaves the tables ready, where its two ways do.
  on_descriptor :
      {A : Type 0} (bad : Cmd Vfs A) (good : ℕ → ℕ → Cmd Vfs A) (fd : ℤ)
      → to_word fd ≢ most
      → Ends (λ _ t. IsReady most t) (bad s)
      → ((i node : ℕ)
          → (descriptor s i).file ≡ some node
          → Ends (λ _ t. IsReady most t) (good i node s))
      → Ends (λ _ t. IsReady most t) ((get_descriptor fd >>= with_file bad good) s)
  unfolding with_file
  on_descriptor bad good fd h on_bad on_good = elim (found fd h) [
    | inl e ↦ rw e on_bad
    | inr (i, node, e, opened) ↦ rw e (
        subst (Ends λ _ t. IsReady most t) (sym (with_file-open bad good i node s opened))
          (on_good i node opened))
  ]

  read_file-IsReady :
      (buf size i node : ℕ)
      → (descriptor s i).file ≡ some node
      → Ends (λ _ t. IsReady most t) (read_file buf size i node s)
  unfolding read_file
  read_file-IsReady buf size i node e = ends (record {
    valid = after_read-IsValid r.valid i node e buf _;
    listed = r.listed;
    size = r.size;
  })

  close_file-IsReady :
      (i node : ℕ)
      → (descriptor s i).file ≡ some node
      → Ends (λ _ t. IsReady most t) (close_file i node s)
  unfolding close_file vfs_close delete_fd
  close_file-IsReady i node e =
      let same : vfs_close (pos i) s ≡ close_file i node s =
        rw (get_descriptor-open r.valid i node e) (with_file-open failed close_file i node s e) in
      let (zero_result, valid, closed, counted) =
        Ends_at refl (subst (Ends _) same (vfs_close-open r.valid i node e)) in
      ends (record { valid = valid; listed = r.listed; size = r.size })

  create_fd-rest :
      (node : ℕ)
      → Ends (λ _ t. (t.vfs_next ≡ s.vfs_next) × (t.fds_max ≡ s.fds_max)) (create_fd node s)
  unfolding create_fd
  create_fd-rest node = elim (Bool-cases (leb s.fds_max s.fds_next)) [
    | inl full ↦ rw full (ends (refl, refl))
    | inr room ↦ rw room (ends (refl, refl))
  ]

  create_fd-IsReady :
      (node : ℕ) → node < config_max_files → Ends (λ _ t. IsReady most t) (create_fd node s)
  create_fd-IsReady node h =
      Ends-mono (Ends-both (create_fd-Ends r.valid node h) (create_fd-rest node))
        λ _ t ((valid, taken), (next, most_kept)). record {
          valid = valid;
          listed = omega (arith, next, r.listed);
          size = most_kept ∙ r.size;
        }

  open_from-IsReady :
      (name : Memory) (n i : ℕ)
      → i + n ≤ config_max_files
      → Ends (λ _ t. IsReady most t) (open_from name n i s)
  unfolding open_from
  open_from-IsReady name zero i h = ends r
  open_from-IsReady name (suc n) i h =
      elim (Bool-cases (is_zero (strncmp name (inode s i).name config_max_file_name))) [
        | inl hit ↦ rw hit (create_fd-IsReady i (omega arith))
        | inr miss ↦ rw miss (open_from-IsReady name n (i + 1) (omega arith))
      ]

  perform-IsReady : (c : Call) → Avoids most c → Ends (λ _ t. IsReady most t) (perform c s)
  unfolding perform vfs_open vfs_read vfs_write vfs_close delete_fd vfs_stat
  perform-IsReady (open_call name) h =
      forget-Ends (vfs_open name) (open_from-IsReady name s.vfs_next 0 (omega (arith, r.listed)))
  perform-IsReady (read_call fd buf size) h =
      forget-Ends (vfs_read fd buf size)
        (on_descriptor failed (read_file buf size) fd h (ends r) (read_file-IsReady buf size))
  perform-IsReady (write_call fd buf size) h = ends r
  perform-IsReady (close_call fd) h =
      forget-Ends (vfs_close fd) (on_descriptor failed close_file fd h (ends r) close_file-IsReady)
  perform-IsReady (stat_call fd place) h = forget-Ends (vfs_stat fd place) (
      on_descriptor _ _ fd h (ends r) λ i node e. elim (Option-cases place) [
        | inl null ↦ rw null (ends r)
        | inr (old, given) ↦ rw given (ends r)
      ])

-- Any sequence of calls that leaves the descriptor number `most` out ends, where the tables are
-- valid and have `most` descriptors, and leaves them valid: each reference count is the number of
-- the open descriptors of its file, and each of these has a file of the table.
pub perform_all-IsReady :
    {most : ℕ} (cs : List Call) {s : Vfs}
    → IsReady most s
    → AllAvoid most cs
    → Ends (λ _ t. IsReady most t) (perform_all cs s)
unfolding perform_all
perform_all-IsReady [] r a = ends r
perform_all-IsReady (c ∷ cs) r (first, rest) =
    Ends-and_then (perform-IsReady r c first) λ _ t ready. perform_all-IsReady cs ready rest
