-- ===== src/Timer.antt =====
-- The timer (kernel/i386/pit_8253.cpp, include/drv/pit_8253.h) and its interrupt, which ends the
-- interrupt at the controllers and gives the scheduler a tick.
pub mod Rate
pub mod Ticks
use tysos_cxx.Prelude.{
  ℕ, zero, suc, ◌+◌, ◌/◌, ◌%◌, ◌^◌, Option, none, some, ltb, ◌==◌, if◌then◌else◌,
}
use tysos_cxx.Interrupts.{Ports, end_interrupt}
use tysos_cxx.Scheduler.Calls.{Running, call, ticks}

-- The fields of class Pit_8253.
pub record Pit : Type 0 where
  pub irq : ℕ
  pub reload_ns : ℕ
  pub freq : ℕ
  pub running_time : ℕ

abbrev pub pit_input_freq : ℕ
pit_input_freq = 0x1234DD

abbrev pub default_freq : ℕ
default_freq = 0x40

abbrev pub command_port : ℕ
command_port = 0x43

abbrev pub rate_port : ℕ
rate_port = 0x40

abbrev pub default_mode : ℕ
default_mode = 0x34

-- `reload`, for a frequency that is not 0.
unfoldable pub reload : (freq : ℕ) → ℕ
reload freq =
    let r = pit_input_freq / freq in
    let r' = if ltb r 5 then 5 else r in if ltb 65535 r' then 65535 else r'

-- The two bytes that program the rate.
unfoldable pub program : {S : Type 0} → Ports S → (reload : ℕ) → S → S
program ports reload s =
    let s1 = ports.out command_port default_mode s in
    let s2 = ports.out rate_port (reload % 2 ^ 8) s1 in
    ports.out rate_port ((reload / 2 ^ 8) % 2 ^ 8) s2

-- Pit_8253::SetFrequency; a division by 0 is a fault.
unfoldable pub set_frequency : {S : Type 0} → Ports S → (freq : ℕ) → Pit × S → Option (Pit × S)
unfolding reload program
set_frequency ports freq (p, s) =
    if freq == 0
    then none
    else (let r = reload freq in
        let f = pit_input_freq / r in
        if f == 0
        then none
        else some (record p { freq = f; reload_ns = 1000000000 / f }, program ports r s))

-- Pit_8253::Pit_8253; no constructor writes `_running_time`.
unfoldable pub init_pit : {S : Type 0} → Ports S → Pit × S → Option (Pit × S)
unfolding set_frequency
init_pit ports (p, s) = set_frequency ports default_freq (record p { irq = 0 }, s)

-- Pit_8253::IncreaseRunningTime
unfoldable pub increase_running_time : (delta : ℕ) → Pit → Pit
increase_running_time delta p = record p { running_time = (p.running_time + delta) % 2 ^ 64 }

-- The timer, the controllers and the scheduler.
pub record Clock (S : Type 0) : Type 0 where
  pub pit : Pit
  pub devices : S
  pub running : Running

-- pit_stub
unfoldable pub pit_stub : {S : Type 0} → Ports S → Clock S → Option (Clock S)
unfolding increase_running_time
pit_stub ports c =
    let p = increase_running_time c.pit.reload_ns c.pit in
    let d = end_interrupt ports c.pit.irq c.devices in
    elim (call (ticks p.reload_ns) c.running) [
      | none ↦ none
      | some r ↦ some (record { pit = p; devices = d; running = r })
    ]

-- A number of timer interrupts.
unfoldable pub pit_stubs : {S : Type 0} → Ports S → ℕ → Clock S → Option (Clock S)
pit_stubs ports zero c = some c
pit_stubs ports (suc n) c = elim (pit_stub ports c) [ none ↦ none | some c' ↦ pit_stubs ports n c' ]
