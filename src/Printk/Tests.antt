-- ===== src/Printk/Tests.antt =====
-- A `vsnprintf` that prints a letter as often as its argument says.
use mk_os.Base.{
  ℕ, zero, suc, ◌+◌, ◌-◌, ◌≤◌, ◌<◌, ◌≡◌, ◌⊎◌, refl, false, List, [], ◌∷◌, ◌++◌, leb, ltb, ◌==◌,
  if◌then◌else◌, min, length, get_or, take, replicate, length-replicate, arith,
}
use mk_os.Base.Run.{Ends}
use mk_os.Memory.{Memory}
use mk_os.Console.{Console}
use mk_os.Printk.{Vsnprintf, dbg, wrn, is_printed, sys_msg, codes, message}
use mk_os.Printk.Output.{until_zero, message-Ends}

abbrev letter : ℕ
letter = b'x'

abbrev letters : (fmt : List ℕ) (n : ℕ) → List ℕ
letters fmt n = replicate n letter

abbrev write : (buf size : ℕ) → List ℕ → ℕ → Memory → Memory
write buf size fmt n m a =
    if leb (buf + size) a
    then m a
    else if ltb a buf
    then m a
    else if ltb a (buf + min n (size - 1))
    then b'x'
    else if a == buf + min n (size - 1)
    then 0
    else m a

letters_at : (n i : ℕ) → i < n → get_or (replicate n letter) i 0 ≡ letter
letters_at zero i h = absurd (omega arith)
letters_at (suc n) zero h = refl
letters_at (suc n) (suc i) h = letters_at n i (omega arith)

write_text :
    (buf size : ℕ) (fmt : List ℕ) (n : ℕ) (m : Memory) (i : ℕ)
    → i < min (length (letters fmt n)) (size - 1)
    → write buf size fmt n m (buf + i) ≡ get_or (letters fmt n) i 0
write_text buf size fmt n m i h = ground (arith, length-replicate n letter, letters_at n i)

write_end :
    (buf size : ℕ) (fmt : List ℕ) (n : ℕ) (m : Memory)
    → 0 < size
    → write buf size fmt n m (buf + min (length (letters fmt n)) (size - 1)) ≡ 0
write_end buf size fmt n m h = rw (length-replicate n letter) (ground arith)

write_outside :
    (buf size : ℕ) (fmt : List ℕ) (n : ℕ) (m : Memory) (a : ℕ)
    → (a < buf) ⊎ (buf + size ≤ a)
    → write buf size fmt n m a ≡ m a
write_outside buf size fmt n m a h = ground arith

abbrev repeating : Vsnprintf ℕ
repeating = record {
  text = letters;
  format = write;
  written = write_text;
  ended = write_end;
  untouched = write_outside;
}

abbrev console : Console
console = record { input = []; output = b'>' ∷ []; memory = λ a. 7 }

message-Ends_run :
    Ends
      (λ _ t.
        t.output
        ≡ (b'>' ∷ [])
          ++ (if is_printed wrn
              then until_zero (take 1022 (letters (sys_msg wrn (codes "!")) 2))
              else []))
      (message repeating 0x5000 wrn (codes "!") 2 console)
message-Ends_run = message-Ends repeating 0x5000 wrn (codes "!") 2 console (omega arith)

debug_run : is_printed dbg ≡ false
debug_run = refl

format_run :
    sys_msg wrn (codes "!")
    ≡ (27 ∷ []) ++ codes "[34m[$][%5s] %5s:%d !" ++ (27 ∷ []) ++ codes "[37;40;0m"
unfolding sys_msg
format_run = refl
