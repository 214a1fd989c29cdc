-- ===== src/Trap/Context.antt =====
-- kernel/core/trap.c: the dump of a processor context. The lines are data.
use mk_os.Base.{
  ℕ, zero, suc, ◌+◌, ◌%◌, ◌≡◌, refl, List, [], ◌∷◌, ◌++◌, ◌==◌, if◌then◌else◌, get_or, length, sym,
  ap, ◌∙◌, Bool-cases, inl, inr, length-append, append_assoc,
}
use mk_os.Kernel.{CpuCtx}

-- the arguments of the calls of `printk` and `puts`, in their order
pub data ContextLine : Type 0 where
  special : (elr cpsr sp pc lr : ℕ) → ContextLine
  general : (i x : ℕ) → ContextLine
  newline : ContextLine

-- the loop over the general registers, from `i` on in `n` rounds
unfoldable pub general_lines : (i n : ℕ) → CpuCtx → List ContextLine
general_lines i zero ctx = []
general_lines i (suc n) ctx =
    let rest = general_lines (i + 1) n ctx in
    general i (get_or ctx.gpr i 0) ∷ (if i % 4 == 3 then newline ∷ rest else rest)

unfoldable pub dump_cpu_context : CpuCtx → List ContextLine
unfolding general_lines
dump_cpu_context ctx = special ctx.lr ctx.spsr ctx.sp ctx.pc ctx.lr ∷ general_lines 0 30 ctx

-- the values of the general registers among the lines
abbrev pub registers : List ContextLine → List ℕ
registers [] = []
registers (special a b c d e ∷ ls) = registers ls
registers (general i x ∷ ls) = x ∷ registers ls
registers (newline ∷ ls) = registers ls

registers-line :
    (i : ℕ) (rest : List ContextLine)
    → registers (if i % 4 == 3 then newline ∷ rest else rest) ≡ registers rest
registers-line i rest = elim (Bool-cases (i % 4 == 3)) [ inl e ↦ rw e refl | inr e ↦ rw e refl ]

get_or-middle : (xs ys : List ℕ) (y : ℕ) → get_or (xs ++ y ∷ ys) (length xs) 0 ≡ y
get_or-middle [] ys y = refl
get_or-middle (x ∷ xs) ys y = get_or-middle xs ys y

registers-lines :
    (xs ys : List ℕ) (ctx : CpuCtx)
    → ctx.gpr ≡ xs ++ ys
    → registers (general_lines (length xs) (length ys) ctx) ≡ ys
unfolding general_lines
registers-lines xs [] ctx e = refl
registers-lines xs (y ∷ ys) ctx e =
    let here : get_or ctx.gpr (length xs) 0 ≡ y =
      ap (λ l. get_or l (length xs) 0) e ∙ get_or-middle xs ys y in
    let next : length (xs ++ y ∷ []) ≡ length xs + 1 = length-append xs (y ∷ []) in
    let ih = registers-lines (xs ++ y ∷ []) ys ctx (e ∙ sym (append_assoc xs (y ∷ []) ys)) in
    let there : registers (general_lines (length xs + 1) (length ys) ctx) ≡ ys =
      ap (λ i. registers (general_lines i (length ys) ctx)) (sym next) ∙ ih in
    let rest = general_lines (length xs + 1) (length ys) ctx in
    ap (λ r. r ∷ registers (if length xs % 4 == 3 then newline ∷ rest else rest)) here
    ∙ ap (λ rs. y ∷ rs) (registers-line (length xs) rest ∙ there)

-- The dump of a context shows its thirty general registers, each once and in order.
pub dump_cpu_context-registers :
    (ctx : CpuCtx) → length ctx.gpr ≡ 30 → registers (dump_cpu_context ctx) ≡ ctx.gpr
unfolding dump_cpu_context
dump_cpu_context-registers ctx e =
    ap (λ n. registers (general_lines 0 n ctx)) (sym e) ∙ registers-lines [] ctx.gpr ctx refl
