-- ===== src/Timer/Ticks.antt =====
-- Timer interrupts (kernel/i386/pit_8253.cpp) and the scheduler that they drive.
use tysos_cxx.Prelude.{ℕ, zero, suc, ◌+◌, ◌*◌, ◌%◌, ◌^◌, ◌≡◌, refl, ◌∙◌, some, arith}
use tysos_cxx.Interrupts.{Ports, end_interrupt}
use tysos_cxx.Interrupts.Masks.{PicLaws, end_interrupt-mask}
use tysos_cxx.Scheduler.Calls.{Running, call, ticks, InOrder, call-InOrder}
use tysos_cxx.Timer.{increase_running_time, Clock, pit_stub, pit_stubs}

-- What a number of timer interrupts leaves.
pub record Ticked {S : Type 0} (Ready : S → Type 0) (mask : (port : ℕ) → S → ℕ) (n : ℕ)
    (c c' : Clock S) : Type 0 where
  pub time : c'.pit.running_time % 2 ^ 64 ≡ (c.pit.running_time + n * c.pit.reload_ns) % 2 ^ 64
  pub interval : c'.pit.reload_ns ≡ c.pit.reload_ns
  pub ready : Ready c'.devices
  pub masks : (q : ℕ) → mask q c'.devices ≡ mask q c.devices
  pub in_order : InOrder c'.running.scheduler

one_more : (a d n : ℕ) → ((a + d) % 2 ^ 64 + n * d) % 2 ^ 64 ≡ (a + suc n * d) % 2 ^ 64
one_more a d n = let more : suc n * d ≡ n * d + d = omega arith in omega arith

module _ {S : Type 0} (ports : Ports S) (Ready : S → Type 0) (mask : (port : ℕ) → S → ℕ)
    (laws : PicLaws ports Ready mask) where
  pit_stub-run :
      (c : Clock S) (r : Running)
      → call (ticks c.pit.reload_ns) c.running ≡ some r
      → pit_stub ports c
        ≡ some (record {
          pit = increase_running_time c.pit.reload_ns c.pit;
          devices = end_interrupt ports c.pit.irq c.devices;
          running = r;
        })
  unfolding pit_stub increase_running_time
  pit_stub-run c r ran = rw (pit_stub, ran) refl

  -- Timer interrupts, as many as one likes, on a scheduler whose threads stand where their locations
  -- say and whose priorities name queues: each of them ends, and the scheduler stays in order; the
  -- running time goes up by one interval for each, modulo 2 ^ 64, and the masks of the controllers
  -- stay as they are.
  pub pit_stubs-Ticked :
      (n : ℕ) (c : Clock S)
      → Ready c.devices
      → InOrder c.running.scheduler
      → (c' : Clock S) × (pit_stubs ports n c ≡ some c') × Ticked Ready mask n c c'
  unfolding pit_stubs increase_running_time
  pit_stubs-Ticked zero c ready o = (
    c,
    refl,
    record { time = omega arith; interval = refl; ready = ready; masks = λ q. refl; in_order = o },
  )
  pit_stubs-Ticked (suc n) c ready o =
      let (r, ran, o1) = call-InOrder (ticks c.pit.reload_ns) c.running o in
      let c1 : Clock S = record {
        pit = increase_running_time c.pit.reload_ns c.pit;
        devices = end_interrupt ports c.pit.irq c.devices;
        running = r;
      } in
      let ready1 = (end_interrupt-mask ports Ready mask laws c.pit.irq 0 c.devices ready).0 in
      let (c', rest, t) = pit_stubs-Ticked n c1 ready1 o1 in
      (
        c',
        rw (pit_stubs, pit_stub-run c r ran) rest,
        record {
          time = t.time ∙ one_more c.pit.running_time c.pit.reload_ns n;
          interval = t.interval;
          ready = t.ready;
          masks = λ q.
              t.masks q ∙ (end_interrupt-mask ports Ready mask laws c.pit.irq q c.devices ready).1;
          in_order = t.in_order;
        },
      )
