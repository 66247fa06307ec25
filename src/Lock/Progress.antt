-- ===== src/Lock/Progress.antt =====
-- Progress of the spin lock (kernel/i386/concurrent.cpp, include/i386/concurrent.h).
use tysos_cxx.Prelude.{ℕ, zero, suc, Bool, true, false, ◌≡◌, List, [], ◌∷◌}
use tysos_cxx.Lock.{
  Pc, testing, masking, comparing, unmasking, masking_to_take, taking, inside, Thread, step, Move,
  advance,
}

-- In obtain_spinlock.
abbrev pub obtains : Pc → Bool
obtains testing = true
obtains masking = true
obtains comparing = true
obtains unmasking = true
obtains masking_to_take = true
obtains taking = true
obtains pc = false

-- A number of instructions of one thread.
abbrev steps : ℕ → (id : ℕ) → Thread → ℕ → Thread × ℕ
steps zero id t lock = (t, lock)
steps (suc n) id t lock = let (t', lock') = step id t lock in steps n id t' lock'

-- Alone with a free lock, the thread has the lock after `n` instructions.
abbrev Enters : ℕ → (id : ℕ) → Pc → (eax : ℕ) → (ints : Bool) → Type 0
Enters n id pc eax ints =
    ((steps n id (record { pc = pc; eax = eax; ints = ints }) 0).0.pc ≡ inside)
    × ((steps n id (record { pc = pc; eax = eax; ints = ints }) 0).1 ≡ id)

-- The running thread goes on for some instructions.
abbrev pub instructions : ℕ → List Move
instructions zero = []
instructions (suc n) = advance ∷ instructions n
