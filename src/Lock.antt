-- ===== src/Lock.antt =====
-- The spin lock of class Lockable: Lock and Unlock (kernel/i386/concurrent.cpp), and the
-- instructions of obtain_spinlock and release_spinlock (include/i386/concurrent.h). One processor
-- runs the threads and changes to another one only while interrupts are enabled.

pub mod Safety
pub mod Progress
use tysos_cxx.Prelude.{
  ℕ, zero, suc, Bool, true, false, ◌&&◌, List, [], ◌∷◌, Option, none, some, ◌≡◌, ◌==◌,
  if◌then◌else◌,
}

-- Where a thread is: in its own code outside or inside the critical section, or at an instruction
-- of one of the two routines.
pub data Pc : Type 0 where
  outside : Pc
  -- spin_lock: cmpl $0, lock; je get_lock
  testing : Pc
  -- cli
  masking : Pc
  -- cmpl thread_id, lock; je get_lock2
  comparing : Pc
  -- sti; pause; jmp spin_lock, and sti; jmp spin_lock
  unmasking : Pc
  -- get_lock: cli
  masking_to_take : Pc
  -- lock cmpxchgl thread_id, lock; jz get_lock2
  taking : Pc
  inside : Pc
  -- cmpxchgl 0, lock; jnz cont
  releasing : Pc
  -- sti
  enabling : Pc

-- A thread's place, its eax and its interrupt flag.
pub record Thread : Type 0 where
  pub pc : Pc
  pub eax : ℕ
  pub ints : Bool

-- `thread_id`, with the current thread put in for 0.
unfoldable pub lock_id : (thread_id current : ℕ) → ℕ
lock_id thread_id current =
    if thread_id == 0 then if current == 0 then 1 else current else thread_id

-- cmpxchgl: eax, the word, and whether they were equal.
unfoldable pub cmpxchg : (eax word new : ℕ) → ℕ × ℕ × Bool
cmpxchg eax word new = if word == eax then (eax, new, true) else (word, word, false)

-- The next instruction of a thread with an id, and the lock's word after it. The calls of Lock and
-- Unlock load eax.
unfoldable pub step : (id : ℕ) → Thread → (lock : ℕ) → Thread × ℕ
unfolding cmpxchg
step id t lock = elim t.pc [
  | outside ↦ (record t { pc = testing; eax = 0 }, lock)
  | testing ↦ (record t { pc = if lock == 0 then masking_to_take else masking }, lock)
  | masking ↦ (record t { pc = comparing; ints = false }, lock)
  | comparing ↦ (record t { pc = if lock == id then inside else unmasking }, lock)
  | unmasking ↦ (record t { pc = testing; ints = true }, lock)
  | masking_to_take ↦ (record t { pc = taking; ints = false }, lock)
  | taking ↦
      let (eax, word, same) = cmpxchg t.eax lock id in
      (record t { pc = if same then inside else unmasking; eax = eax }, word)
  | inside ↦ (record t { pc = releasing; eax = id }, lock)
  | releasing ↦
      let (eax, word, same) = cmpxchg t.eax lock 0 in
      (record t { pc = if same then enabling else outside; eax = eax }, word)
  | enabling ↦ (record t { pc = outside; ints = true }, lock)
]

-- The threads that use one lock, and the one that runs.
pub record System : Type 0 where
  pub lock : ℕ
  pub running : ℕ
  pub thread : ℕ → Thread

unfoldable pub set_thread : (ℕ → Thread) → ℕ → Thread → ℕ → Thread
set_thread f i t j = if j == i then t else f j

-- What may happen next: an instruction of the running thread, an interrupt that changes to the
-- thread j, and, inside, a release of another lock, which ends with sti.
pub data Move : Type 0 where
  advance : Move
  switch : (j : ℕ) → Move
  release_other : Move

abbrev pub is_inside : Pc → Bool
is_inside inside = true
is_inside pc = false

-- `current i` is the address of the thread i.
module _ (current : ℕ → ℕ) where
  unfoldable pub advanced : System → System
  unfolding set_thread
  advanced s =
      let i = s.running in
      let (t, lock) = step (lock_id 0 (current i)) (s.thread i) s.lock in
      record s { lock = lock; thread = set_thread s.thread i t }

  -- `nests` allows a release of another lock inside.
  unfoldable pub move : (nests : Bool) → Move → System → Option System
  unfolding set_thread
  move nests advance s = some (advanced s)
  move nests (switch j) s =
      if (s.thread s.running).ints then some (record s { running = j }) else none
  move nests release_other s =
      let t = s.thread s.running in
      if nests && is_inside t.pc
      then some (record s { thread = set_thread s.thread s.running (record t { ints = true }) })
      else none

  unfoldable pub moves : (nests : Bool) → List Move → System → Option System
  moves nests [] s = some s
  moves nests (m ∷ ms) s = elim (move nests m s) [ none ↦ none | some t ↦ moves nests ms t ]

  -- The states that some sequence of moves gives, from a free lock with each thread outside.
  pub data Reach (nests : Bool) : System → Type 0 where
    start :
        (i : ℕ)
        → Reach nests (record {
          lock = 0;
          running = i;
          thread = λ j. record { pc = outside; eax = 0; ints = true };
        })
    next : {s t : System} → Reach nests s → (m : Move) → move nests m s ≡ some t → Reach nests t
