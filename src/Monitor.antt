-- ===== src/Monitor.antt =====
-- The state of the monitor: what main/hyp.h shares between the modules, and the devices.
--
-- What hardware, the ROM and core 0 present to one trap is an argument: `Host` for a register
-- access, `Arrivals` for a poll.
use esp32_p4_linux_hyperviso.Base.{ℕ, ◌+◌, Bool, List, get_or, set, u32}
use esp32_p4_linux_hyperviso.Plic.{Plic}
use esp32_p4_linux_hyperviso.Uart.{Uart, Console}
use esp32_p4_linux_hyperviso.Clint.{Clint}
use esp32_p4_linux_hyperviso.VirtioBlk.{Blk, Disk}
use esp32_p4_linux_hyperviso.Trace.{Trace}

-- `HypShadowCsr`.
pub record Shadow : Type 0 where
  pub mstatus : ℕ
  pub mie : ℕ
  pub mtvec : ℕ
  pub mscratch : ℕ
  pub mepc : ℕ
  pub mcause : ℕ
  pub mtval : ℕ
  pub mip : ℕ

-- The guest's view of its hart: the shadow bank, `guest_priv` and the stored PMP registers.
pub record Guest : Type 0 where
  pub shadow : Shadow
  pub priv : ℕ
  pub pmpcfg : List ℕ
  pub pmpaddr : List ℕ

abbrev pub priv_m : ℕ
priv_m = 3

-- The bits of mstatus, mie and mip that the RISC-V architecture numbers.
abbrev pub mstatus_mie : ℕ
mstatus_mie = 0x8

abbrev pub mstatus_mpie : ℕ
mstatus_mpie = 0x80

abbrev pub mstatus_mpp : ℕ
mstatus_mpp = 0x1800

abbrev pub mstatus_mpp_s : ℕ
mstatus_mpp_s = 11

abbrev pub mip_msip : ℕ
mip_msip = 0x8

abbrev pub mip_mtip : ℕ
mip_mtip = 0x80

abbrev pub mip_meip : ℕ
mip_meip = 0x800

-- `struct hyp_stats_s`.
pub record Stats : Type 0 where
  pub exc : List ℕ
  pub irq : List ℕ
  pub exc_cycles : List ℕ
  pub irq_cycles : List ℕ
  pub unhandled : ℕ
  pub mmio : List ℕ
  pub csr_read_only : ℕ
  pub csr_write : ℕ
  pub mrets : ℕ
  pub wfi_spins : ℕ
  pub wfi_blocks : ℕ
  pub injections : ℕ
  pub icache_sync_cycles : ℕ
  pub icache_syncs : ℕ
  pub idle_cycles : ℕ
  pub irq_code_seen : ℕ

pub record Devices : Type 0 where
  pub clint : Clint
  pub uart : Uart
  pub plic : Plic
  pub blk : Blk
  pub sent : List ℕ

abbrev pub console : Devices → Console
console d = record { uart = d.uart; plic = d.plic; sent = d.sent }

abbrev pub with_console : Devices → Console → Devices
with_console d c = record d { uart = c.uart; plic = c.plic; sent = c.sent }

abbrev pub disk : Devices → Disk
disk d = record { blk = d.blk; plic = d.plic }

abbrev pub with_disk : Devices → Disk → Devices
with_disk d k = record d { blk = k.blk; plic = k.plic }

pub record Hyp : Type 0 where
  pub linux_running : Bool
  pub guest : Guest
  pub devices : Devices
  pub stats : Stats
  pub trace : Trace
  pub in_wfi : Bool
  pub idle_cycles : ℕ
  pub stats_wanted : Bool

-- `now` is the systimer's counter, `tx_room` the free space of the hardware's transmit FIFO;
-- `sd_ready` and `sd_sectors` are `hyp_sd_ready()` and `hyp_sd_sector_count()`.
pub record Host : Type 0 where
  pub now : ℕ
  pub tx_room : ℕ
  pub sd_ready : Bool
  pub sd_sectors : ℕ

-- What a poll finds: whether the systimer's alarm has fired, whether core 0 has published
-- completions since the last poll, whether the UART reports received bytes, and the bytes.
pub record Arrivals : Type 0 where
  pub alarm_fired : Bool
  pub completed : Bool
  pub rx_status : Bool
  pub rx : List ℕ

-- `xs[i]++` on an array of `uint32_t`.
abbrev pub bump : List ℕ → ℕ → List ℕ
bump xs i = set xs i (u32 (get_or xs i 0 + 1))
