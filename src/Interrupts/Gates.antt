-- ===== src/Interrupts/Gates.antt =====
-- The gates of hooked interrupts (kernel/i386/i386_interrupt.cpp, kernel/i386/pic_8259a.cpp).
use tysos_cxx.Prelude.{
  ℕ, ◌+◌, ◌*◌, ◌/◌, ◌%◌, ◌^◌, ◌<◌, ◌≡◌, ◌≢◌, refl, Bool, true, false, not, ◌&&◌, some, leb, ◌==◌,
  if◌then◌else◌, test_bit, arith,
}
use tysos_cxx.Interrupts.{Ports, IdtEntry, Machine, gate, add_gate, remap_base, enable, unmask}
use tysos_cxx.Interrupts.Masks.{PicLaws, masked, unmask-masked}

-- How the processor reads an entry: a present gate to the handler in the kernel's code segment, at
-- the privilege level, of type 0xf for a trap gate and 0xe for an interrupt gate.
pub record LeadsTo (e : IdtEntry) (handler level type : ℕ) : Type 0 where
  pub target : e.offset_low + 2 ^ 16 * e.offset_high ≡ handler
  pub segment : e.seg_selector ≡ 0x8
  pub present : test_bit e.flags 15 ≡ true
  pub privilege : (e.flags / 2 ^ 13) % 4 ≡ level
  pub kind : (e.flags / 2 ^ 8) % 16 ≡ type

gate-LeadsTo :
    (handler : ℕ) (user_mode trap_gate : Bool)
    → handler < 2 ^ 32
    → LeadsTo
        (gate handler user_mode trap_gate)
        handler
        (if user_mode then 3 else 0)
        (if trap_gate then 0xf else 0xe)
unfolding gate
gate-LeadsTo handler true true l = record {
  target = omega arith;
  segment = refl;
  present = refl;
  privilege = refl;
  kind = refl;
}
gate-LeadsTo handler true false l = record {
  target = omega arith;
  segment = refl;
  present = refl;
  privilege = refl;
  kind = refl;
}
gate-LeadsTo handler false true l = record {
  target = omega arith;
  segment = refl;
  present = refl;
  privilege = refl;
  kind = refl;
}
gate-LeadsTo handler false false l = record {
  target = omega arith;
  segment = refl;
  present = refl;
  privilege = refl;
  kind = refl;
}

-- Pic_8259a::Enable for an irq below 16 and a handler's address of 32 bits, on controllers whose
-- data ports read and write their masks: afterwards the gate of the irq's vector leads to the
-- handler, in user mode's level when that is asked for, and as a trap gate when it is said to be
-- interruptable; the other gates stay; the irq is not masked, nor line 2 for an irq of the slave,
-- and the other lines are as they were.
pub enable-LeadsTo :
    {S : Type 0} (ports : Ports S) (Ready : S → Type 0) (mask : (port : ℕ) → S → ℕ)
    (laws : PicLaws ports Ready mask) (irq handler : ℕ) (user_mode interruptable : Bool)
    (m : Machine S)
    → Ready m.devices
    → irq < 16
    → handler < 2 ^ 32
    → (m' : Machine S) × (enable ports irq handler user_mode interruptable m ≡ some m')
      × LeadsTo
          (m'.idt (irq + remap_base))
          handler
          (if user_mode then 3 else 0)
          (if interruptable then 0xf else 0xe)
      × ((v : ℕ) → v ≢ irq + remap_base → m'.idt v ≡ m.idt v)
      × Ready m'.devices
      × ((line : ℕ)
          → line < 16
          → masked mask line m'.devices
            ≡ (masked mask line m.devices && not (line == irq) && not (leb 8 irq && line == 2)))
unfolding enable add_gate
enable-LeadsTo ports Ready mask laws irq handler user_mode interruptable m ready il hl =
    let g = gate handler user_mode interruptable in
    let here : ((irq + remap_base) == (irq + remap_base)) ≡ true = ground arith in
    (
      record {
        idt = λ v. if v == irq + remap_base then g else m.idt v;
        ints = true;
        devices = unmask ports irq m.devices;
      },
      ground arith,
      rw here (gate-LeadsTo handler user_mode interruptable hl),
      λ v ne. ground arith,
      (unmask-masked ports Ready mask laws irq irq m.devices ready il il).0,
      λ line ll. (unmask-masked ports Ready mask laws irq line m.devices ready il ll).1,
    )
