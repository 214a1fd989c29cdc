-- ===== src/Kernel/Parts.antt =====
-- Calls of one part of the kernel from another, on the shared state.
use mk_os.Base.{◌≡◌, refl}
use mk_os.Base.Run.{Run, ok, panic, fault, out_of_fuel, Cmd, Ends, ends}
use mk_os.Page.{Pool}
use mk_os.Vfs.{Vfs}
use mk_os.Console.{Console}
use mk_os.Kernel.{Kernel}

module _ {S A : Type 0} (put : S → Kernel → Kernel) where
  -- the outcome of a part's call, put back into the kernel's state
  unfoldable pub merge : Run S A → Cmd Kernel A
  merge (ok a s) k = ok a (put s k)
  merge (panic why) k = panic why
  merge fault k = fault
  merge out_of_fuel k = out_of_fuel

  pub merge-Ends :
      {P : A → S → Type 0} {r : Run S A} (k : Kernel)
      → Ends P r
      → Ends (λ a l. (s : S) × P a s × (l ≡ put s k)) (merge r k)
  unfolding merge
  merge-Ends k (ends {s} p) = ends (s, p, refl)

abbrev pub put_pool : Pool → Kernel → Kernel
put_pool p k = record k { pool = p }

abbrev pub put_vfs : Vfs → Kernel → Kernel
put_vfs v k = record k { vfs = v }

-- a call of page.c
unfoldable pub in_pool : {A : Type 0} → Cmd Pool A → Cmd Kernel A
unfolding merge
in_pool c k = merge put_pool (c k.pool) k

-- a call of vfs.c
unfoldable pub in_vfs : {A : Type 0} → Cmd Vfs A → Cmd Kernel A
unfolding merge
in_vfs c k = merge put_vfs (c k.vfs) k

abbrev pub console_of : Kernel → Console
console_of k = record { input = k.input; output = k.output; memory = k.vfs.memory }

abbrev pub put_console : Console → Kernel → Kernel
put_console c k = record k {
  input = c.input;
  output = c.output;
  vfs = record k.vfs { memory = c.memory };
}

-- a call of kern_console.c
unfoldable pub in_console : {A : Type 0} → Cmd Console A → Cmd Kernel A
unfolding merge
in_console c k = merge put_console (c (console_of k)) k
