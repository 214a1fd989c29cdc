-- ===== src/Gic/Serve.antt =====
-- `gic_handle_irq` serves all that is pending, and what registering changes.
use mk_os.Base.{
  ℕ, ◌/◌, ◌%◌, ◌^◌, ◌<◌, ◌≡◌, ◌≢◌, refl, ap, sym, ◌∙◌, arith, some, List, [], ◌∷◌, ◌++◌, append-nil,
  append_assoc, leb_of_lt, ==_of_ne, length, get_or, set, get_or-set_self,
}
use mk_os.Base.Run.{ok, Cmd, Ends, ends, Ends-ok, Ends-mono}
use mk_os.Gic.{
  GicHandler, Gic, no_handler, gicd_reg, gicd_isenabler, gicc_reg, gicc_eoir, iowrite32,
  gic_enable_irq, gic_register_irq, run_handler, on_rest, handle_from, gic_handle_irq,
}

-- the value read is of an interrupt with a handler
pub record IsServed {H : Type 0} (hs : List (GicHandler H)) (count r : ℕ) : Type 0 where
  pub handler : H
  pub real : r % 2 ^ 10 ≢ 0x3FF
  pub known : r % 2 ^ 10 < count
  pub registered : (get_or hs (r % 2 ^ 10) no_handler).fcn ≡ some handler

abbrev pub AllServed : {H : Type 0} → List (GicHandler H) → ℕ → List ℕ → Type 0
AllServed hs count [] = Unit {0}
AllServed hs count (r ∷ rs) = IsServed hs count r × AllServed hs count rs

-- the writes to GICC_EOIR
abbrev pub ended : List ℕ → List (ℕ × ℕ)
ended [] = []
ended (r ∷ rs) = (gicc_reg gicc_eoir, r % 2 ^ 10) ∷ ended rs

-- All interrupts `rs` have been ended, in their order, and nothing of the driver's has changed else.
pub record Served {H S : Type 0} (P : S → Type 0) (rs : List ℕ) (g t : Gic H S) : Type 0 where
  pub holds : P t.rest
  pub drained : t.pending ≡ []
  pub wrote : t.writes ≡ g.writes ++ ended rs
  pub handlers : t.irq_handlers ≡ g.irq_handlers

module _ {H S : Type 0} (P : S → Type 0) (invoke : H → ℕ → Cmd S (Unit {0}))
    (total : (h : H) (arg : ℕ) (s : S) → P s → Ends (λ _ t. P t) (invoke h arg s)) where
  handle_from-Served :
      (rs : List ℕ) (g : Gic H S)
      → P g.rest
      → AllServed g.irq_handlers g.irq_count rs
      → g.pending ≡ rs
      → Ends (λ _ t. Served P rs g t) (handle_from invoke rs g)
  unfolding handle_from run_handler on_rest
  handle_from-Served [] g p a e =
      ends (record { holds = p; drained = e; wrote = sym (append-nil g.writes); handlers = refl })
  handle_from-Served (r ∷ rs) g p (here, later) e =
      let irqno = r % 2 ^ 10 in
      let (x, s, eq, q) =
        Ends-ok (total here.handler (get_or g.irq_handlers irqno no_handler).arg g.rest p) in
      let next = iowrite32 (gicc_reg gicc_eoir) irqno (record g { pending = rs; rest = s }) in
      rw (==_of_ne here.real, leb_of_lt here.known, here.registered, eq)
        (Ends-mono (handle_from-Served rs next q later refl) λ y t v. record {
          holds = v.holds;
          drained = v.drained;
          wrote = v.wrote ∙ append_assoc g.writes ((gicc_reg gicc_eoir, irqno) ∷ []) (ended rs);
          handlers = v.handlers;
        })

  -- With handlers that end and keep `P`, and where each pending interrupt has one, `gic_handle_irq`
  -- ends, `P` holds still, nothing is pending any more, and each interrupt has been ended once, in
  -- the order in which they were read.
  pub gic_handle_irq-Served :
      (g : Gic H S)
      → P g.rest
      → AllServed g.irq_handlers g.irq_count g.pending
      → Ends (λ _ t. Served P g.pending g t) (gic_handle_irq invoke g)
  unfolding gic_handle_irq
  gic_handle_irq-Served g p a = handle_from-Served g.pending g p a refl

-- The handlers of the interrupts `rs` have been called one after the other, each on what the one
-- before has left: from the state `s` to `t`.
pub data Called {H S : Type 0} (invoke : H → ℕ → Cmd S (Unit {0})) (hs : List (GicHandler H))
    : List ℕ → S → S → Type 0 where
  no_call : {s : S} → Called invoke hs [] s s
  one_call :
      {r : ℕ} {rs : List ℕ} {s t u : S} (h : H)
      → (get_or hs (r % 2 ^ 10) no_handler).fcn ≡ some h
      → invoke h (get_or hs (r % 2 ^ 10) no_handler).arg s ≡ ok tt t
      → Called invoke hs rs t u
      → Called invoke hs (r ∷ rs) s u

module _ {H S : Type 0} (P : S → Type 0) (invoke : H → ℕ → Cmd S (Unit {0}))
    (total : (h : H) (arg : ℕ) (s : S) → P s → Ends (λ _ t. P t) (invoke h arg s)) where
  handle_from-Called :
      (rs : List ℕ) (g : Gic H S)
      → P g.rest
      → AllServed g.irq_handlers g.irq_count rs
      → Ends (λ _ t. Called invoke g.irq_handlers rs g.rest t.rest) (handle_from invoke rs g)
  unfolding handle_from run_handler on_rest
  handle_from-Called [] g p a = ends no_call
  handle_from-Called (r ∷ rs) g p (here, later) =
      let irqno = r % 2 ^ 10 in
      let (x, s, eq, q) =
        Ends-ok (total here.handler (get_or g.irq_handlers irqno no_handler).arg g.rest p) in
      let next = iowrite32 (gicc_reg gicc_eoir) irqno (record g { pending = rs; rest = s }) in
      rw (==_of_ne here.real, leb_of_lt here.known, here.registered, eq)
        (Ends-mono (handle_from-Called rs next q later)
          λ y t v. one_call here.handler here.registered eq v)

  pub gic_handle_irq-Called :
      (g : Gic H S)
      → P g.rest
      → AllServed g.irq_handlers g.irq_count g.pending
      → Ends (λ _ t. Called invoke g.irq_handlers g.pending g.rest t.rest) (gic_handle_irq invoke g)
  unfolding gic_handle_irq
  gic_handle_irq-Called g p a = handle_from-Called g.pending g p a

-- One pending interrupt costs one call of its handler, and its end is written.
pub gic_handle_irq-one :
    {H S : Type 0} (invoke : H → ℕ → Cmd S (Unit {0})) (g : Gic H S) (r : ℕ)
    (here : IsServed g.irq_handlers g.irq_count r) (s : S)
    → g.pending ≡ r ∷ []
    → invoke here.handler (get_or g.irq_handlers (r % 2 ^ 10) no_handler).arg g.rest ≡ ok tt s
    → gic_handle_irq invoke g
      ≡ ok tt (iowrite32 (gicc_reg gicc_eoir) (r % 2 ^ 10) (record g { pending = []; rest = s }))
unfolding gic_handle_irq handle_from run_handler on_rest
gic_handle_irq-one invoke g r here s alone called =
    ap (λ p. handle_from invoke p g) alone
    ∙ rw (==_of_ne here.real, leb_of_lt here.known, here.registered, called) refl

-- Registering a handler for a known interrupt makes it served, and enables it.
pub gic_register_irq-IsServed :
    {H S : Type 0} (num parm : ℕ) (h : H) (g : Gic H S)
    → num < g.irq_count
    → num < 0x3FF
    → length g.irq_handlers ≡ g.irq_count
    → Ends
        (λ _ t.
          IsServed t.irq_handlers t.irq_count num
          × (t.writes ≡ g.writes ++ (gicd_reg (gicd_isenabler (num / 32)), 2 ^ (num % 32)) ∷ []))
        (gic_register_irq num h parm g)
unfolding gic_register_irq gic_enable_irq
gic_register_irq-IsServed {H} num parm h g known real full = rw (leb_of_lt known) (
    ends (
      record {
        handler = h;
        real = λ e. omega arith;
        known = omega arith;
        registered =
            ap
              (λ (n : ℕ).
                (get_or (set g.irq_handlers num (record { fcn = some h; arg = parm })) n
                  no_handler).fcn)
              (omega arith)
            ∙ ap (λ (e : GicHandler H). e.fcn)
                (get_or-set_self g.irq_handlers num _ no_handler (omega arith));
      },
      refl,
    ))
