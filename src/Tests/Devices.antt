-- ===== src/Tests/Devices.antt =====
-- kernel/i386/pic_8259a.cpp and kernel/i386/pit_8253.cpp on two controllers that keep their masks.
use tysos_cxx.Prelude.{
  ℕ, ◌+◌, ◌<◌, ◌≤◌, ◌≡◌, ◌≢◌, ◌⊎◌, ◌*◌, ◌/◌, refl, false, not, ◌&&◌, none, some, inl, inr, leb,
  ◌==◌, if◌then◌else◌, arith,
}
use tysos_cxx.Interrupts.{Ports, IdtEntry, Machine, remap_base, enable}
use tysos_cxx.Interrupts.Masks.{PicLaws, masked}
use tysos_cxx.Interrupts.Gates.{LeadsTo, enable-LeadsTo}
use tysos_cxx.Timer.{Pit, Clock, set_frequency, pit_stubs}
use tysos_cxx.Timer.Rate.{Programmed, set_frequency-Programmed}
use tysos_cxx.Timer.Ticks.{Ticked, pit_stubs-Ticked}
use tysos_cxx.Tests.Scheduling.{sched, sched-Inv, sched-Prioritised}

record Pics : Type 0 where
  master : ℕ
  slave : ℕ

abbrev mask : ℕ → Pics → ℕ
mask p s = if p == 0x21 then s.master else if p == 0xa1 then s.slave else 0

abbrev pics : Ports Pics
pics = record {
  out = λ p w s.
      if p == 0x21
      then record s { master = w }
      else if p == 0xa1
      then record s { slave = w }
      else s;
  inb = λ p s. (mask p s, s);
}

abbrev Ready : Pics → Type 0
Ready s = Unit {0}

pics-PicLaws : PicLaws pics Ready mask
pics-PicLaws = record {
  reads = λ p s r. refl;
  writes = λ p w s at r l. elim at [
    | inl e ↦ (tt, ground arith, λ q ne. ground arith)
    | inr e ↦ (tt, ground arith, λ q ne. ground arith)
  ];
  ends = λ p s at r. elim at [ inl e ↦ (tt, λ q. ground arith) | inr e ↦ (tt, λ q. ground arith) ];
}

-- Every line is masked, but line 2 of the slave.
abbrev quiet : Pics
quiet = record { master = 0xff; slave = 0xfb }

abbrev no_gate : IdtEntry
no_gate = record { offset_low = 0; seg_selector = 0; flags = 0; offset_high = 0 }

abbrev machine : Machine Pics
machine = record { idt = λ v. no_gate; ints = false; devices = quiet }

enable-LeadsTo_example :
    (m' : Machine Pics) × (enable pics 8 0x12345678 false false machine ≡ some m')
    × LeadsTo (m'.idt (8 + remap_base)) 0x12345678 0 0xe
    × ((v : ℕ) → v ≢ 8 + remap_base → m'.idt v ≡ no_gate)
    × Ready m'.devices
    × ((line : ℕ)
        → line < 16
        → masked mask line m'.devices
          ≡ (masked mask line quiet && not (line == 8) && not (leb 8 8 && line == 2)))
enable-LeadsTo_example =
    enable-LeadsTo pics Ready mask pics-PicLaws 8 0x12345678 false false machine tt (omega arith)
      (omega arith)

abbrev timer : Pit
timer = record { irq = 0; reload_ns = 0; freq = 0; running_time = 5 }

set_frequency-Programmed_example :
    (p' : Pit) × (s' : Pics) × (set_frequency pics 300000 (timer, quiet) ≡ some (p', s'))
    × (r : ℕ) × Programmed pics r timer p' quiet s'
    × ((300000 ≤ p'.freq) ⊎ (0x1234DD / 5 < 300000))
    × ((0x1234DD < 300000 * (r + 1)) ⊎ (r ≡ 65535))
set_frequency-Programmed_example = set_frequency-Programmed pics 300000 timer quiet (omega arith)

abbrev clock : Clock Pics
clock = record {
  pit = record { irq = 0; reload_ns = 15625000; freq = 64; running_time = 5 };
  devices = quiet;
  running = record { scheduler = sched; current = none };
}

pit_stubs-Ticked_example :
    (c' : Clock Pics) × (pit_stubs pics 3 clock ≡ some c') × Ticked Ready mask 3 clock c'
pit_stubs-Ticked_example =
    pit_stubs-Ticked pics Ready mask pics-PicLaws 3 clock tt
      (record { inv = sched-Inv; prioritised = sched-Prioritised })
