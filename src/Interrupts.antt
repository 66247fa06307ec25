-- ===== src/Interrupts.antt =====
-- Interrupt gates (kernel/i386/i386_interrupt.cpp, include/i386/interrupt.h), the interrupt
-- controllers (kernel/i386/pic_8259a.cpp, include/drv/pic_8259a.h) and how a driver hooks an irq
-- (include/drv/drv.h). The ports are an interface; the devices behind them are a parameter.
pub mod Masks
pub mod Gates
use tysos_cxx.Prelude.{
  ℕ, ◌+◌, ◌-◌, ◌*◌, ◌/◌, ◌%◌, ◌^◌, Bool, true, false, Option, none, some, bit_and, bit_or, ltb, leb,
  ◌==◌, if◌then◌else◌,
}

-- out and inb (include/i386/io.h) on the state of the devices.
pub record Ports (S : Type 0) : Type 0 where
  pub out : (port byte : ℕ) → S → S
  pub inb : (port : ℕ) → S → ℕ × S

-- i386_Interrupt::idt_entry
pub record IdtEntry : Type 0 where
  pub offset_low : ℕ
  pub seg_selector : ℕ
  pub flags : ℕ
  pub offset_high : ℕ

-- The table, the interrupt flag and the devices.
pub record Machine (S : Type 0) : Type 0 where
  pub idt : ℕ → IdtEntry
  pub ints : Bool
  pub devices : S

-- The entry that AddGate writes.
unfoldable pub gate : (handler : ℕ) → (user_mode trap_gate : Bool) → IdtEntry
gate handler user_mode trap_gate =
    let with_user = if user_mode then bit_or 0x8e00 0x6000 else 0x8e00 in
    record {
      offset_low = handler % 2 ^ 16;
      seg_selector = 0x8;
      flags = if trap_gate then bit_or with_user 0x100 else with_user;
      offset_high = (handler / 2 ^ 16) % 2 ^ 16;
    }

-- i386_Interrupt::AddGate: cli, the entry and sti; a vector outside the table is a fault.
unfoldable pub add_gate :
    {S : Type 0}
    → (vector handler : ℕ) → (user_mode trap_gate : Bool) → Machine S
    → Option (Machine S)
add_gate vector handler user_mode trap_gate m =
    if ltb vector 256
    then some (record m {
      idt = λ v. if v == vector then gate handler user_mode trap_gate else m.idt v;
      ints = true;
    })
    else none

-- i386_Interrupt::Init: the page fault's trap gate and the protection fault's interrupt gate.
unfoldable pub init_gates :
    {S : Type 0} → (int_0eh_handler int_0dh_handler : ℕ) → Machine S → Option (Machine S)
init_gates int_0eh_handler int_0dh_handler m = elim (add_gate 0x0e int_0eh_handler false true m) [
  | none ↦ none
  | some m' ↦ add_gate 0x0d int_0dh_handler false false m'
]

abbrev pub master_command : ℕ
master_command = 0x20

abbrev pub master_data : ℕ
master_data = 0x21

abbrev pub slave_command : ℕ
slave_command = 0xa0

abbrev pub slave_data : ℕ
slave_data = 0xa1

abbrev pub eoi : ℕ
eoi = 0x20

abbrev pub remap_base : ℕ
remap_base = 0x20

-- `(unsigned char)(~(0x1 << k))`
unfoldable pub not_bit : ℕ → ℕ
not_bit k = (2 ^ 32 - 1 - 2 ^ k) % 2 ^ 8

module _ {S : Type 0} (ports : Ports S) where
  -- Pic_8259a::Pic_8259a
  unfoldable pub init_pics : S → S
  init_pics s0 =
      let s1 = ports.out master_command 0x11 s0 in
      let s2 = ports.out slave_command 0x11 s1 in
      let s3 = ports.out master_data remap_base s2 in
      let s4 = ports.out slave_data (remap_base + 8) s3 in
      let s5 = ports.out master_data 0x4 s4 in
      let s6 = ports.out slave_data 0x02 s5 in
      let s7 = ports.out master_data 0x01 s6 in
      let s8 = ports.out slave_data 0x01 s7 in ports.out master_data 0xff s8

  -- `msk = inb(port); msk &= …; out(port, msk)`
  unfoldable pub unmask_line : (port line : ℕ) → S → S
  unmask_line port line s =
      let (msk, s') = ports.inb port s in ports.out port (bit_and msk (not_bit line)) s'

  -- Pic_8259a::_enable
  unfoldable pub unmask : (irq : ℕ) → S → S
  unfolding unmask_line
  unmask irq s =
      if ltb irq 8
      then unmask_line master_data irq s
      else unmask_line slave_data (irq - 8) (unmask_line master_data 2 s)

  -- Pic_8259a::Enable
  unfoldable pub enable :
      (irq handler : ℕ) → (user_mode interruptable : Bool) → Machine S → Option (Machine S)
  enable irq handler user_mode interruptable m =
      elim (add_gate (irq + remap_base) handler user_mode interruptable m) [
        | none ↦ none
        | some m' ↦ some (record m' { devices = unmask irq m'.devices })
      ]

  -- Pic_8259a::EndInterrupt
  unfoldable pub end_interrupt : (irq : ℕ) → S → S
  end_interrupt irq s =
      let s' = ports.out master_command eoi s in
      if leb 8 irq then ports.out slave_command eoi s' else s'
