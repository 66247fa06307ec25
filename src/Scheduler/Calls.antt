-- ===== src/Scheduler/Calls.antt =====
-- Sequences of calls of class Scheduler (include/sys/sched.h), in any order, with the thread that
-- runs as TimerTick leaves it.
use tysos_cxx.Prelude.{ℕ, ◌≡◌, List, [], ◌∷◌, Option, none, some, refl, ◌∙◌, ap}
use tysos_cxx.Scheduler.{Scheduler, release, reschedule, block, sleep, timer_tick}
use tysos_cxx.Scheduler.Invariant.{Inv, StandsAt-may, release-Released, rejoin}
use tysos_cxx.Scheduler.Moves.{Prioritised, reschedule-Inv, block-Inv, sleep-Inv}
use tysos_cxx.Scheduler.Tick.{timer_tick-Inv}

-- The public methods; the argument is the thread's address.
pub data Call : Type 0 where
  deschedules : (t : ℕ) → Call
  reschedules : (t : ℕ) → Call
  blocks : (t : ℕ) → Call
  sleeps : (t ns : ℕ) → Call
  ticks : (ns : ℕ) → Call

-- The scheduler and the thread that runs.
pub record Running : Type 0 where
  pub scheduler : Scheduler
  pub current : Option ℕ

-- A call that leaves the running thread as it is.
abbrev pub keeps : Running → Option Scheduler → Option Running
keeps r none = none
keeps r (some s) = some (record r { scheduler = s })

-- One call. TimerTick switches to the thread that it chooses.
unfoldable pub call : Call → Running → Option Running
call (deschedules t) r = keeps r (release t r.scheduler)
call (reschedules t) r = keeps r (reschedule t r.scheduler)
call (blocks t) r = keeps r (block t r.scheduler)
call (sleeps t ns) r = keeps r (sleep t ns r.scheduler)
call (ticks ns) r = elim (timer_tick ns r.current r.scheduler) [
  | none ↦ none
  | some (none, s) ↦ some (record r { scheduler = s })
  | some (some t, s) ↦ some (record { scheduler = s; current = some t })
]

unfoldable pub calls : List Call → Running → Option Running
calls [] r = some r
calls (c ∷ cs) r = elim (call c r) [ none ↦ none | some r' ↦ calls cs r' ]

pub record InOrder (s : Scheduler) : Type 0 where
  pub inv : Inv s
  pub prioritised : Prioritised s

release-InOrder :
    (t : ℕ) (s : Scheduler) → InOrder s → (s' : Scheduler) × (release t s ≡ some s') × InOrder s'
release-InOrder t s o =
    let (s', done, rel) =
      release-Released t s (StandsAt-may s t (s.thread t).location (o.inv t)) (λ u ne. o.inv u) in
    (
      s',
      done,
      record {
        inv = rejoin s' t rel.others (rw rel.says rel.out);
        prioritised =
            λ u. (let (p, is, small) = o.prioritised u in (p, rel.priority u ∙ is, small));
      },
    )

pub call-InOrder :
    (c : Call) (r : Running)
    → InOrder r.scheduler
    → (r' : Running) × (call c r ≡ some r') × InOrder r'.scheduler
unfolding call
call-InOrder (deschedules t) r o =
    let (s', done, o') = release-InOrder t r.scheduler o in
    (record r { scheduler = s' }, ap (keeps r) done, o')
call-InOrder (reschedules t) r o =
    let (s', done, m) = reschedule-Inv r.scheduler t o.inv o.prioritised in
    (
      record r { scheduler = s' },
      ap (keeps r) done,
      record { inv = m.inv; prioritised = m.prioritised },
    )
call-InOrder (blocks t) r o =
    let (s', done, m) = block-Inv r.scheduler t o.inv o.prioritised in
    (
      record r { scheduler = s' },
      ap (keeps r) done,
      record { inv = m.inv; prioritised = m.prioritised },
    )
call-InOrder (sleeps t ns) r o =
    let (s', done, m) = sleep-Inv r.scheduler t o.inv o.prioritised ns in
    (
      record r { scheduler = s' },
      ap (keeps r) done,
      record { inv = m.inv; prioritised = m.prioritised },
    )
call-InOrder (ticks ns) r o =
    let (chosen, s', done, inv, prio) =
      timer_tick-Inv ns r.current r.scheduler o.inv o.prioritised in
    elim chosen
        as (λ x.
          timer_tick ns r.current r.scheduler ≡ some (x, s')
          → (r' : Running) × (call (ticks ns) r ≡ some r') × InOrder r'.scheduler) [
            | none ↦ λ e. (
              record r { scheduler = s' },
              rw (call, e) refl,
              record { inv = inv; prioritised = prio },
            )
            | some t ↦ λ e. (
              record { scheduler = s'; current = some t },
              rw (call, e) refl,
              record { inv = inv; prioritised = prio },
            )
          ]
      done

-- Each sequence of calls succeeds on a scheduler whose threads stand where their locations say and
-- whose priorities name queues, and leaves it so: each thread stands once in the queue that its
-- location names and in no other.
pub calls-InOrder :
    (cs : List Call) (r : Running)
    → InOrder r.scheduler
    → (r' : Running) × (calls cs r ≡ some r') × InOrder r'.scheduler
unfolding calls
calls-InOrder [] r o = (r, refl, o)
calls-InOrder (c ∷ cs) r o =
    let (r1, ran, o1) = call-InOrder c r o in
    let (r2, rest, o2) = calls-InOrder cs r1 o1 in (r2, rw (calls, ran) rest, o2)
