-- ===== src/Console/Lines.antt =====
-- What `puts` prints, and what `gets` leaves in its buffer.
use mk_os.Base.{
  append_assoc, append-nil, ℕ, zero, suc, ◌+◌, ◌<◌, ◌≡◌, ◌≢◌, ap, sym, ◌∙◌, arith, inl, inr,
  Bool-cases, List, [], ◌∷◌, ◌==◌, ==_of_ne, ==_of_eq, if◌then◌else◌,
}
use mk_os.Base.Run.{ok}
use mk_os.Memory.{Memory, from}
use mk_os.Memory.Compare.{IsEnd}
use mk_os.Console.{Console, send, puts_from, puts}

-- the `n` bytes from `p` on
abbrev pub bytes : Memory → (p n : ℕ) → List ℕ
bytes m p zero = []
bytes m p (suc n) = m p ∷ bytes m (p + 1) n

puts_from_lem :
    (fuel p k : ℕ) (s : Console)
    → IsEnd (from s.memory p) k
    → k < fuel
    → puts_from fuel p s ≡ ok tt (send (bytes s.memory p k) s)
unfolding puts_from
puts_from_lem zero p k s e h = absurd (omega arith)
puts_from_lem (suc fuel) p zero s e h =
    let last : s.memory p ≡ 0 = ap s.memory (omega arith) ∙ e.ended in
    rw (==_of_eq last) (ap (λ o. ok tt (record s { output = o })) (sym (append-nil s.output)))
puts_from_lem (suc fuel) p (suc k) s e h =
    let more : s.memory p ≢ 0 = λ z. e.first 0 (omega arith) (ap s.memory (omega arith) ∙ z) in
    let tail : IsEnd (from s.memory (p + 1)) k = record {
      ended = ap s.memory (omega arith) ∙ e.ended;
      first = λ i low z. e.first (suc i) (omega arith) (ap s.memory (omega arith) ∙ z);
    } in
    rw (==_of_ne more) (
      puts_from_lem fuel (p + 1) k (send (s.memory p ∷ []) s) tail (omega arith)
      ∙ ap (λ o. ok tt (record s { output = o }))
          (append_assoc s.output (s.memory p ∷ []) (bytes s.memory (p + 1) k)))

-- `puts` of a string of `k` bytes prints these, in rounds enough for them; for the null pointer it
-- prints nothing.
pub puts_lem :
    (fuel p k : ℕ) (s : Console)
    → IsEnd (from s.memory p) k
    → k < fuel
    → puts fuel p s ≡ ok tt (send (if p == 0 then [] else bytes s.memory p k) s)
unfolding puts
puts_lem fuel p k s e h = elim (Bool-cases (p == 0)) [
  | inl null ↦ rw null (ap (λ o. ok tt (record s { output = o })) (sym (append-nil s.output)))
  | inr there ↦ rw there (puts_from_lem fuel p k s e h)
]
