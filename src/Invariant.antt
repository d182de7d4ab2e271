-- ===== src/Invariant.antt =====
-- What holds of the monitor's state between any two traps.
pub mod Serial
pub mod Access
pub mod Hart
pub mod Trap
use esp32_p4_linux_hyperviso.Base.{ℕ, ◌<◌, ◌≡◌, true, bit, length}
use esp32_p4_linux_hyperviso.Uart.{Uart}
use esp32_p4_linux_hyperviso.Uart.Queue.{RingIsValid}
use esp32_p4_linux_hyperviso.Uart.Line.{LineIsKept}
use esp32_p4_linux_hyperviso.Clint.{Clint, hyp_mtime_max}
use esp32_p4_linux_hyperviso.Trace.{Trace}
use esp32_p4_linux_hyperviso.Monitor.{Guest, Stats, Devices, Hyp, console}
use esp32_p4_linux_hyperviso.Csr.Slots.{BankIsValid}

-- The receive ring is in bounds, its interrupt line is right, and the PLIC has its 32 priorities.
pub record ConsoleIsValid (d : Devices) : Type 0 where
  pub ring : RingIsValid d.uart
  pub line : LineIsKept (console d)
  pub sources : length d.plic.priority ≡ 32

-- A host alarm that is on is set for the guest's deadline.
pub record AlarmIsKept (c : Clint) : Type 0 where
  pub on_time :
      c.alarm.enabled ≡ true → (c.alarm.target ≡ c.mtimecmp) × (c.mtimecmp < hyp_mtime_max)

pub record DevicesIsValid (d : Devices) : Type 0 where
  pub console : ConsoleIsValid d
  pub alarm : AlarmIsKept d.clint

-- The shadow bank has its sizes, the recorded privilege is a two-bit number, and the two bits of mip
-- that are computed are not stored.
pub record GuestIsValid (g : Guest) : Type 0 where
  pub bank : BankIsValid g
  pub priv : g.priv < 4
  pub no_mtip : bit g.shadow.mip 7 ≡ 0
  pub no_meip : bit g.shadow.mip 11 ≡ 0

-- Every counter array has its declared size.
pub record StatsIsValid (s : Stats) : Type 0 where
  pub exc : length s.exc ≡ 48
  pub irq : length s.irq ≡ 48
  pub exc_cycles : length s.exc_cycles ≡ 48
  pub irq_cycles : length s.irq_cycles ≡ 48
  pub mmio : length s.mmio ≡ 8

pub record TraceIsValid (t : Trace) : Type 0 where
  pub size : length t.entries ≡ 16
  pub place : t.next < 16

pub record HypIsValid (h : Hyp) : Type 0 where
  pub guest : GuestIsValid h.guest
  pub devices : DevicesIsValid h.devices
  pub stats : StatsIsValid h.stats
  pub trace : TraceIsValid h.trace
