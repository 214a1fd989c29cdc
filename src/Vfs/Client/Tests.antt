-- ===== src/Vfs/Client/Tests.antt =====
-- Calls on a table with one file, which is open.
use mk_os.Base.{ℕ, ◌<◌, ◌≡◌, refl, arith, some, List, [], ◌∷◌, ◌==◌, if◌then◌else◌}
use mk_os.Base.Int.{pos, negsuc}
use mk_os.Base.Run.{Ends, Settles, no_continuous_memory}
use mk_os.Fixtures.{kmem, kmem-IsKmem}
use mk_os.Vfs.{vfs_init, inode, config_max_files}
use mk_os.Vfs.Counts.{refs}
use mk_os.Vfs.Tests.{opened, opened-IsValid}
use mk_os.Vfs.Client.{
  Call, open_call, read_call, write_call, close_call, stat_call, AllAvoid, IsReady, perform_all,
  perform_all-IsReady,
}
use mk_os.Vfs.Lifetime.{vfs_init-perform_all}

-- the file is opened again and read, and both descriptors are closed, one of them twice
abbrev calls : List Call
calls =
    open_call (λ i. if i == 0 then b'a' else 0)
    ∷ read_call (pos 1) 0x40000000 9
    ∷ close_call (pos 0)
    ∷ stat_call (pos 1) (some 5)
    ∷ close_call (pos 1)
    ∷ close_call (pos 1)
    ∷ write_call (negsuc 0) 0 1
    ∷ []

opened-IsReady : IsReady 100 (opened 0)
opened-IsReady = record { valid = opened-IsValid 0; listed = omega arith; size = refl }

calls-AllAvoid : AllAvoid 100 calls
calls-AllAvoid = (
  tt,
  (
    λ e. omega arith,
    (λ e. omega arith, (λ e. omega arith, (λ e. omega arith, (λ e. omega arith, (tt, tt))))),
  ),
)

perform_all-IsReady_run : Ends (λ _ t. IsReady 100 t) (perform_all calls (opened 0))
perform_all-IsReady_run = perform_all-IsReady calls opened-IsReady calls-AllAvoid

vfs_init-perform_all_example :
    Settles
      (λ r (l, s).
        (r ≡ pos 0)
        × Ends
            (λ _ t.
              (node : ℕ) → node < config_max_files → (inode t node).refcount ≡ refs node t.fds)
            (perform_all calls s))
      no_continuous_memory
      (vfs_init (kmem (λ a. 0)))
vfs_init-perform_all_example =
    vfs_init-perform_all (omega arith) (kmem (λ a. 0)) (kmem-IsKmem (λ a. 0)) calls calls-AllAvoid
