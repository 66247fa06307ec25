-- ===== src/Scheduler/Moves.antt =====
-- Reschedule, Block and Sleep (include/sys/sched.h) and the scheduler's invariant.
use tysos_cxx.Prelude.{
  ℕ, suc, ◌≤◌, ◌<◌, ◌≡◌, List, [], ◌∷◌, ◌++◌, some, refl, arith, ℤ, pos, sym, ◌∙◌, length,
}
use tysos_cxx.Containers.DeltaQueue.{Entry, insert_from, insert_at_delta, sub64}
use tysos_cxx.Scheduler.{
  Thread, Scheduler, loc_sleeping, loc_blocking, loc_released, priorities, update, set_location,
  enqueue, reschedule, block, sleep,
}
use tysos_cxx.Scheduler.Queues.{count-append_one, count-insert_at_delta}
use tysos_cxx.Scheduler.Invariant.{
  StandsAt, MayStandAt, Inv, OthersStand, release-Released, rejoin, StandsAt-may,
}

-- Every priority names a queue.
abbrev pub Prioritised : Scheduler → Type 0
Prioritised s = (t : ℕ) → (p : ℕ) × ((s.thread t).priority ≡ pos p) × (p < priorities)

insert_from-length :
    (t value : ℕ) (c : Entry) (q : List Entry)
    → length (insert_from t value c q) ≡ suc (suc (length q))
unfolding insert_from
insert_from-length t value c [] = refl
insert_from-length t value c (e ∷ rest) =
    ground (arith, insert_from-length t (sub64 value c.d) e rest)

insert_at_delta-length :
    (t value : ℕ) (q : List Entry) → length (insert_at_delta t value q) ≡ suc (length q)
unfolding insert_at_delta
insert_at_delta-length t value [] = refl
insert_at_delta-length t value (c ∷ rest) = insert_from-length t value c rest

-- The run queue that a released thread joins.
module _ (s : Scheduler) (t : ℕ) (out : StandsAt s t loc_released) (others : OthersStand s t) where
  enqueue-Inv :
      (p : ℕ)
      → p < priorities
      → (s' : Scheduler) × (enqueue t (pos p) s ≡ some s')
        × Inv s'
        × ((s'.thread t).location ≡ pos p)
        × ((u : ℕ) → (s'.thread u).priority ≡ (s.thread u).priority)
        × (s'.sleeping_tasks ≡ s.sleeping_tasks)
  unfolding enqueue update
  enqueue-Inv p small =
      let th = s.thread t in
      let moved : Thread = record th { location = pos p; time_to_run = th.default_slice } in
      let s' : Scheduler = record s {
        thread = update s.thread t moved;
        running_tasks = update s.running_tasks p (s.running_tasks p ++ t ∷ []);
      } in
      let here : (s'.thread t).location ≡ pos p = ground arith in
      (
        s',
        ground arith,
        rejoin s' t
            (λ u ne.
              let kept : (s'.thread u).location ≡ (s.thread u).location = ground arith in
              let at = others u ne in
              rw kept (record {
                running = λ q.
                    let x = at.running q in
                    let joined = count-append_one u t (s.running_tasks p) in ground arith;
                sleeping = at.sleeping;
                blocking = at.blocking;
                in_range = at.in_range;
              }))
            (rw here (record {
              running = λ q.
                  let x = out.running q in
                  let joined = count-append_one t t (s.running_tasks p) in ground arith;
              sleeping = let x = out.sleeping in ground arith;
              blocking = let x = out.blocking in ground arith;
              in_range = λ q e. ground arith;
            })),
        here,
        λ u. ground arith,
        refl,
      )

-- What a step leaves of a scheduler that is in order: it is in order, the thread is at `loc`, and
-- no more threads sleep than `n`.
pub record Moved (s' : Scheduler) (t : ℕ) (loc : ℤ) (n : ℕ) : Type 0 where
  pub inv : Inv s'
  pub prioritised : Prioritised s'
  pub at : (s'.thread t).location ≡ loc
  pub sleepers : length s'.sleeping_tasks ≤ n

same_priorities :
    (s s' : Scheduler)
    → ((u : ℕ) → (s'.thread u).priority ≡ (s.thread u).priority)
    → Prioritised s
    → Prioritised s'
same_priorities s s' same h u = let (p, is, small) = h u in (p, same u ∙ is, small)

-- A thread whose location may be stale is put at the end of its priority's queue.
pub reschedule-Moved :
    (t : ℕ) (s : Scheduler)
    → MayStandAt s t (s.thread t).location
    → OthersStand s t
    → Prioritised s
    → (s' : Scheduler) × (reschedule t s ≡ some s')
      × Moved s' t (s.thread t).priority (length s.sleeping_tasks)
unfolding reschedule
reschedule-Moved t s may others prio =
    let (s1, done, rel) = release-Released t s may others in
    let (p, is, small) = prio t in
    let (s2, joined, inv, here, kept, sleepers) = enqueue-Inv s1 t rel.out rel.others p small in
    let is1 : (s1.thread t).priority ≡ pos p = rel.priority t ∙ is in
    (
      s2,
      rw (reschedule, done, is1) joined,
      record {
        inv = inv;
        prioritised = same_priorities s s2 (λ u. kept u ∙ rel.priority u) prio;
        at = here ∙ sym is;
        sleepers = rw sleepers rel.sleepers;
      },
    )

module _ (s : Scheduler) (t : ℕ) (inv : Inv s) (prio : Prioritised s) where
  may : MayStandAt s t (s.thread t).location
  may = StandsAt-may s t (s.thread t).location (inv t)

  -- Reschedule succeeds on a scheduler whose threads stand where their locations say and whose
  -- priorities name queues. Afterwards the same holds, the thread stands in the queue of its
  -- priority, and no further thread sleeps.
  pub reschedule-Inv :
      (s' : Scheduler) × (reschedule t s ≡ some s')
      × Moved s' t (s.thread t).priority (length s.sleeping_tasks)
  reschedule-Inv = reschedule-Moved t s may (λ u ne. inv u) prio

  -- Block succeeds on a scheduler whose threads stand where their locations say and whose
  -- priorities name queues. Afterwards the same holds, the thread stands in the blocking queue, and
  -- no further thread sleeps.
  pub block-Inv :
      (s' : Scheduler) × (block t s ≡ some s') × Moved s' t loc_blocking (length s.sleeping_tasks)
  unfolding block set_location update
  block-Inv =
      let (q, done, rel) = release-Released t s may (λ u ne. inv u) in
      let f = update q.thread t (record (q.thread t) { location = loc_blocking }) in
      let s' : Scheduler = record q { thread = f; blocking_tasks = q.blocking_tasks ++ t ∷ [] } in
      let here : (f t).location ≡ loc_blocking = ground arith in
      (
        s',
        rw (block, done) refl,
        record {
          inv =
              rejoin s' t
                (λ u ne.
                  let kept : (f u).location ≡ (q.thread u).location = ground arith in
                  let at = rel.others u ne in
                  rw kept (record {
                    running = at.running;
                    sleeping = at.sleeping;
                    blocking =
                        let x = at.blocking in
                        let joined = count-append_one u t q.blocking_tasks in ground arith;
                    in_range = at.in_range;
                  }))
                (rw here (record {
                  running = λ p. let x = rel.out.running p in ground arith;
                  sleeping = let x = rel.out.sleeping in ground arith;
                  blocking =
                      let x = rel.out.blocking in
                      let joined = count-append_one t t q.blocking_tasks in ground arith;
                  in_range = λ p e. absurd (cc e);
                }));
          prioritised = same_priorities s s' (λ u. let kept = rel.priority u in ground arith) prio;
          at = here;
          sleepers = rel.sleepers;
        },
      )

  -- Sleep succeeds on a scheduler whose threads stand where their locations say and whose
  -- priorities name queues. Afterwards the same holds, the thread stands in the sleeping queue, and
  -- at most one more thread sleeps.
  pub sleep-Inv :
      (ns : ℕ)
      → (s' : Scheduler) × (sleep t ns s ≡ some s')
        × Moved s' t loc_sleeping (suc (length s.sleeping_tasks))
  unfolding sleep set_location update
  sleep-Inv ns =
      let (q, done, rel) = release-Released t s may (λ u ne. inv u) in
      let f = update q.thread t (record (q.thread t) { location = loc_sleeping }) in
      let s' : Scheduler = record q {
        thread = f;
        sleeping_tasks = insert_at_delta t ns q.sleeping_tasks;
      } in
      let here : (f t).location ≡ loc_sleeping = ground arith in
      (
        s',
        rw (sleep, done) refl,
        record {
          inv =
              rejoin s' t
                (λ u ne.
                  let kept : (f u).location ≡ (q.thread u).location = ground arith in
                  let at = rel.others u ne in
                  rw kept (record {
                    running = at.running;
                    sleeping =
                        let x = at.sleeping in
                        let joined = count-insert_at_delta u t ns q.sleeping_tasks in ground arith;
                    blocking = at.blocking;
                    in_range = at.in_range;
                  }))
                (rw here (record {
                  running = λ p. let x = rel.out.running p in ground arith;
                  sleeping =
                      let x = rel.out.sleeping in
                      let joined = count-insert_at_delta t t ns q.sleeping_tasks in ground arith;
                  blocking = let x = rel.out.blocking in ground arith;
                  in_range = λ p e. absurd (cc e);
                }));
          prioritised = same_priorities s s' (λ u. let kept = rel.priority u in ground arith) prio;
          at = here;
          sleepers =
              let before = rel.sleepers in
              let joined = insert_at_delta-length t ns q.sleeping_tasks in omega arith;
        },
      )
