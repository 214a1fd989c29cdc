-- ===== src/Vfs/Lifetime.antt =====
-- The file system from its start on: `vfs_init` and any calls behind it.
use mk_os.Base.{ℕ, ◌^◌, ◌≤◌, ◌<◌, ◌≡◌, inl, inr, List}
use mk_os.Base.Int.{pos}
use mk_os.Base.Run.{no_continuous_memory, Settles, Ends, Ends-mono}
use mk_os.Kmalloc.{Kmem}
use mk_os.Kmalloc.Outcome.{IsKmem}
use mk_os.Vfs.Start.{Started, vfs_init-Settles}
use mk_os.Vfs.{Vfs, inode, config_max_files, vfs_init, fds_limit}
use mk_os.Vfs.Counts.{refs}
use mk_os.Vfs.Client.{Call, AllAvoid, IsReady, perform_all, perform_all-IsReady}

Started-IsReady : {lim : ℕ} {k : Kmem} {s : Vfs} → Started lim k s → IsReady fds_limit s
Started-IsReady st = record { valid = st.valid; listed = st.listed.few; size = st.most }

-- With a chunk at hand and a sound pool, `vfs_init` panics for want of memory, or it leaves tables
-- on which any sequence of calls that leaves the descriptor number 100 out ends, with each
-- reference count the number of the open descriptors of its file.
pub vfs_init-perform_all :
    {lim : ℕ}
    → lim ≤ 2 ^ 20
    → (k : Kmem) → IsKmem lim k
    → (cs : List Call) → AllAvoid fds_limit cs
    → Settles
        (λ r (l, s).
          (r ≡ pos 0)
          × Ends
              (λ _ t.
                (node : ℕ) → node < config_max_files → (inode t node).refcount ≡ refs node t.fds)
              (perform_all cs s))
        no_continuous_memory
        (vfs_init k)
vfs_init-perform_all small k i cs a = elim (vfs_init-Settles small k i) [
  | inl e ↦ inl (
      Ends-mono e λ r (l, s) (zero_result, started). (
        zero_result,
        Ends-mono (perform_all-IsReady cs (Started-IsReady started) a)
            λ _ t ready node h. ready.valid.counted node h,
      ))
  | inr stopped ↦ inr stopped
]
