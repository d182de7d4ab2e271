-- ===== src/Tests.antt =====
-- Concrete devices, guests and traps, on which the theorems are tried.
pub mod Traps
pub mod Interrupts
pub mod Sources
pub mod Decoding
pub mod Storage
pub mod States
pub mod Keys
pub mod Loading
pub mod Shims
pub mod Csrs
pub mod Reports
pub mod Requests
pub mod Recorded
use esp32_p4_linux_hyperviso.Base.{
  ℕ, ◌+◌, ◌*◌, ◌/◌, ◌%◌, ◌==◌, true, false, Bool, refl, ◌||◌, arith, Option, some, List, [], ◌∷◌,
  replicate, set, if◌then◌else◌,
}
use esp32_p4_linux_hyperviso.Frame.{Frame, Memory}
use esp32_p4_linux_hyperviso.Decode.{GuestTrap}
use esp32_p4_linux_hyperviso.Plic.{Plic}
use esp32_p4_linux_hyperviso.Uart.{Uart}
use esp32_p4_linux_hyperviso.Clint.{Clint}
use esp32_p4_linux_hyperviso.VirtioBlk.{Blk}
use esp32_p4_linux_hyperviso.VirtioBlk.Ring.{Card, Store}
use esp32_p4_linux_hyperviso.VirtioBlk.Transfer.{Reads}
use esp32_p4_linux_hyperviso.Trace.{Trace, no_entry}
use esp32_p4_linux_hyperviso.Trace.History.{Holds}
use esp32_p4_linux_hyperviso.Monitor.{Shadow, Guest, Stats, Devices, Hyp, Host, Arrivals}
use esp32_p4_linux_hyperviso.Csr.{Cycles, Round, CsrHost}
use esp32_p4_linux_hyperviso.Core.{World}

-- The UART's source and the block device's pending and enabled, the second of higher priority.
abbrev pub busy_plic : Plic
busy_plic = record {
  priority = set (replicate 32 1) 11 2;
  enable = 0xc00;
  pending = 0xc00;
  claimed = 0;
  threshold = 0;
}

abbrev pub quiet_plic : Plic
quiet_plic = record {
  priority = replicate 32 1;
  enable = 0;
  pending = 0;
  claimed = 0;
  threshold = 0;
}

-- One byte waits.
abbrev pub a_uart : Uart
a_uart = record {
  ier = 0;
  lcr = 3;
  mcr = 0;
  scr = 0;
  fcr = 0;
  dll = 0;
  dlm = 0;
  ring = replicate 512 65;
  head = 1;
  tail = 0;
  overruns = 0;
  tx_dropped = 0;
}

abbrev pub a_clint : Clint
a_clint = record {
  mtimecmp = 5000;
  alarm = record {
    enabled = true;
    int_pending = false;
    int_enabled = true;
    oneshot = true;
    target = 5000;
  };
}

abbrev pub a_blk : Blk
a_blk = record {
  status = 7;
  device_features_sel = 0;
  driver_features = 0;
  guest_page_size = 4096;
  queue_sel = 0;
  queue_num = 8;
  queue_align = 4096;
  queue_pfn = 1;
  interrupt_status = 0;
  last_avail = 0;
  live = true;
  kick = false;
  irq = true;
  reads = 0;
  writes = 0;
  errors = 0;
  requests = 0;
}

abbrev pub a_trace : Trace
a_trace = record { entries = replicate 16 no_entry; next = 0; total = 0; dumps = 0 }

-- S-mode with its gate open, the timer and external interrupts enabled.
abbrev pub a_guest : Guest
a_guest = record {
  shadow = record {
    mstatus = 0x8;
    mie = 0x880;
    mtvec = 0x80000104;
    mscratch = 0;
    mepc = 0;
    mcause = 0;
    mtval = 0;
    mip = 0;
  };
  priv = 1;
  pmpcfg = replicate 4 0;
  pmpaddr = replicate 16 0;
}

abbrev pub some_devices : Plic → Devices
some_devices p = record { clint = a_clint; uart = a_uart; plic = p; blk = a_blk; sent = [] }

abbrev pub some_hyp : Plic → Hyp
some_hyp p = record {
  linux_running = true;
  guest = a_guest;
  devices = some_devices p;
  stats = record {
    exc = replicate 48 0;
    irq = replicate 48 0;
    exc_cycles = replicate 48 0;
    irq_cycles = replicate 48 0;
    unhandled = 0;
    mmio = replicate 8 0;
    csr_read_only = 0;
    csr_write = 0;
    mrets = 0;
    wfi_spins = 0;
    wfi_blocks = 0;
    injections = 0;
    icache_sync_cycles = 0;
    icache_syncs = 0;
    idle_cycles = 0;
    irq_code_seen = 0;
  };
  trace = a_trace;
  in_wfi = false;
  idle_cycles = 0;
  stats_wanted = false;
}

-- A halfword of code at 0x48000000, and zeros elsewhere.
abbrev pub code : ℕ → Memory
code halfword j =
    if j == 0x48000000 then halfword % 256 else if j == 0x48000001 then halfword / 256 else 0

abbrev pub a_host : Host
a_host = record { now = 6000; tx_room = 16; sd_ready = true; sd_sectors = 1000 }

abbrev pub no_arrivals : Arrivals
no_arrivals = record { alarm_fired = false; completed = false; rx_status = false; rx = [] }

abbrev pub some_cycles : Cycles
some_cycles = record { before = 100; after = 700 }

abbrev pub a_round : ℕ → Round
a_round now = record { now = now; arrivals = no_arrivals }

abbrev pub a_world : World
a_world = record {
  memory = code 0x4100;
  host = a_host;
  csr = record { now = 6000; sync = some_cycles; sleep = some_cycles; rounds = a_round 6000 ∷ [] };
  arrivals = no_arrivals;
  deliver_now = 6000;
  cycles = some_cycles;
}

abbrev pub a_frame : ℕ → ℕ → Frame
a_frame cause tval = record { mepc = 0x48000000; x = λ i. 3 * i; mcause = cause; mtval = tval }

abbrev pub a_trap : ℕ → ℕ → GuestTrap
a_trap cause tval = record {
  frame = a_frame cause tval;
  cause = cause;
  tval = tval;
  encoding = 0;
  length = 0;
}

-- A card whose byte `i` is `i` modulo 251, and which takes every write.
abbrev pub a_card : Card ℕ
a_card = record {
  read_sectors = λ s sector count. some (λ i. (512 * sector + i) % 251);
  write_sectors = λ s sector count source. (true, s + 1);
}

abbrev pub a_store : Store ℕ
a_store = record { memory = λ j. 7; card = 0; ready = true; blk = a_blk }

-- A request of type 2: a header of 16 bytes at 0x5000, a data descriptor, a status descriptor.
abbrev pub odd_store : Store ℕ
odd_store = record {
  memory = λ j.
      if j == 0x1001
      then 0x50
      else if j == 0x1008
      then 16
      else if j == 0x100c || j == 0x100e || j == 0x101c
      then 1
      else if j == 0x5000
      then 2
      else 0;
  card = 0;
  ready = true;
  blk = a_blk;
}

abbrev pub nothing : Holds a_trace []
nothing = record { size = refl; place = refl; counted = refl; kept = λ k h l. absurd (omega arith) }
