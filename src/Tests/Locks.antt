-- ===== src/Tests/Locks.antt =====
-- kernel/i386/concurrent.cpp and include/i386/concurrent.h: three threads and one lock.
use tysos_cxx.Prelude.{
  ℕ, ◌*◌, Bool, true, false, ◌≡◌, refl, List, [], ◌∷◌, ◌++◌, none, some, arith, inl, inr,
  Option-cases, subst,
}
use tysos_cxx.Lock.{
  outside, inside, lock_id, cmpxchg, step, System, set_thread, Move, switch, release_other,
  advanced, move, moves, Reach, start, next,
}
use tysos_cxx.Lock.Safety.{mutual_exclusion}
use tysos_cxx.Lock.Progress.{instructions}

abbrev current : ℕ → ℕ
current i = 0x1000 * i

reach_moves :
    (nests : Bool) (ms : List Move) (s t : System)
    → Reach current nests s
    → moves current nests ms s ≡ some t
    → Reach current nests t
unfolding moves
reach_moves nests [] s t r e = subst (Reach current nests) (ground arith) r
reach_moves nests (m ∷ ms) s t r e = elim (Option-cases (move current nests m s)) [
  | inl missed ↦ absurd (ground arith)
  | inr (u, ran) ↦ reach_moves nests ms u t (next r m ran) (ground arith)
]

abbrev first : System
first = record {
  lock = 0;
  running = 0;
  thread = λ j. record { pc = outside; eax = 0; ints = true };
}

abbrev after : Bool → List Move → System
after nests ms = elim (moves current nests ms first) [ none ↦ first | some t ↦ t ]

-- Thread 0 finds the lock free and is interrupted; thread 1 takes the lock.
abbrev taken : List Move
taken = instructions 2 ++ switch 1 ∷ instructions 4

taken_run : moves current false taken first ≡ some (after false taken)
unfolding moves move advanced step set_thread lock_id cmpxchg
taken_run = refl

abbrev held : System
held = after false taken

mutual_exclusion_example :
    (◌≡◌ {A = ℕ} 1 1)
    × (1 ≡ held.running)
    × ((held.thread 1).ints ≡ false)
    × (held.lock ≡ lock_id 0 (current 1))
unfolding moves move advanced step set_thread lock_id cmpxchg
mutual_exclusion_example =
    mutual_exclusion current held 1 1 (reach_moves false taken first held (start 0) taken_run) refl
      refl

-- Thread 1 holds the lock and lets others run. Thread 0 fails to take it, so its eax has the id of
-- thread 1, which then gives the lock back.
abbrev contended : List Move
contended =
    taken ++ release_other ∷ switch 0 ∷ instructions 3 ++ switch 1 ∷ instructions 3 ++ switch 0 ∷ []

abbrev waiting : System
waiting = after true contended

test-waiting :
    (moves current true contended first ≡ some waiting) × ((waiting.thread 0).eax ≡ 0x1000)
unfolding moves move advanced step set_thread lock_id cmpxchg
test-waiting = (refl, refl)

-- Thread 1 holds the lock and releases another lock inside. Thread 0 fails to take the lock, so its
-- eax has the id of thread 1; it sees the lock free and is interrupted, thread 1 takes the lock once
-- more and releases another one: thread 0 then takes the lock from it, and both are inside.
abbrev stolen : List Move
stolen =
    instructions 2
    ++ switch 1 ∷ instructions 4
    ++ release_other ∷ switch 0 ∷ instructions 3
    ++ switch 1 ∷ instructions 3
    ++ switch 0 ∷ instructions 1
    ++ switch 1 ∷ instructions 4
    ++ release_other ∷ switch 0 ∷ instructions 2

test-two_inside :
    (moves current true stolen first ≡ some (after true stolen))
    × (((after true stolen).thread 0).pc ≡ inside)
    × (((after true stolen).thread 1).pc ≡ inside)
unfolding moves move advanced step set_thread lock_id cmpxchg
test-two_inside = (refl, refl, refl)
