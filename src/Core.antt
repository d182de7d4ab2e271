-- ===== src/Core.antt =====
-- main/hyp_core.c: trap dispatch, from the trap vector to the return to the guest.
pub mod Paths
pub mod Handlers
pub mod Faults
use esp32_p4_linux_hyperviso.Base.{
  ℕ, ◌+◌, ◌-◌, Bool, true, false, not, Option, none, some, List, bit_and, ltb, ◌==◌, has, set,
  get_or, u32, u64, sub32, if◌then◌else◌,
}
use esp32_p4_linux_hyperviso.Frame.{Frame, Memory}
use esp32_p4_linux_hyperviso.Decode.{GuestTrap, unhandled, advance, resume}
use esp32_p4_linux_hyperviso.Trace.{hyp_trace_record, hyp_trace_dump}
use esp32_p4_linux_hyperviso.Monitor.{Hyp, Host, Arrivals, bump}
use esp32_p4_linux_hyperviso.Intr.{hyp_inject, hyp_deliver_pending, hyp_poll_host_devices}
use esp32_p4_linux_hyperviso.Csr.{Handled, Cycles, CsrHost, hypervisor_csr}
use esp32_p4_linux_hyperviso.Mmio.{mmio_find, hypervisor_mmio}

-- What hardware presents to one trap: guest memory, what the handlers and the poll read, the counter
-- when interrupts are delivered, and the cycle counter at entry and exit.
pub record World : Type 0 where
  pub memory : Memory
  pub host : Host
  pub csr : CsrHost
  pub arrivals : Arrivals
  pub deliver_now : ℕ
  pub cycles : Cycles

-- Injection that ends in TRAP_RESUME, or TRAP_UNHANDLED before the guest has a trap vector.
unfoldable pub inject_or_refuse : ℕ → ℕ → GuestTrap → Hyp → Handled
inject_or_refuse cause tval trap h =
    let (frame, h') = hyp_inject trap.frame cause tval h in
    if h.guest.shadow.mtvec == 0
    then record { outcome = unhandled; trap = trap; hyp = h }
    else record { outcome = resume; trap = record trap { frame = frame }; hyp = h' }

-- Causes 5 and 7: a device window is emulated, anything else is the guest's own fault.
unfoldable pub access_fault : World → GuestTrap → Hyp → Handled
access_fault w trap h = elim (mmio_find trap.tval) [
  | some device ↦ hypervisor_mmio w.host w.memory trap h
  | none ↦ inject_or_refuse trap.cause trap.tval trap (
      if h.guest.shadow.mtvec == 0
      then h
      else record h { trace = (hyp_trace_dump w.memory h.trace).1 })
]

unfoldable pub hypervisor_trap : World → GuestTrap → Hyp → Option Handled
hypervisor_trap w trap h =
    if trap.cause == 2
    then hypervisor_csr w.csr w.memory trap h
    else if trap.cause == 3
    then some (inject_or_refuse 3 trap.frame.mepc trap h)
    else if trap.cause == 5
    then some (access_fault w trap h)
    else if trap.cause == 7
    then some (access_fault w trap h)
    else if trap.cause == 8
    then some (inject_or_refuse 8 0 trap h)
    else some (record { outcome = unhandled; trap = trap; hyp = h })

abbrev pub stats_slot : ℕ → ℕ
stats_slot code = if ltb code 48 then code else 48 - 1

-- `xs[i] += cost` on an array of `uint64_t`.
abbrev pub charge : List ℕ → ℕ → ℕ → List ℕ
charge xs i cost = set xs i (u64 (get_or xs i 0 + cost))

-- The cost of the trap: the cycles since entry less those asleep.
abbrev pub cost_of : World → Hyp → ℕ
cost_of w h = sub32 (sub32 w.cycles.after w.cycles.before) h.idle_cycles

-- A host interrupt: poll, deliver, count.
unfoldable pub host_interrupt : World → Frame → Hyp → Frame × Hyp
host_interrupt w frame h =
    let code = bit_and frame.mcause 0x7fffffff in
    let slot = stats_slot code in
    let seen = record h { stats = record (h.stats) { irq_code_seen = code } } in
    let (frame', d) =
      hyp_deliver_pending w.deliver_now frame (hyp_poll_host_devices w.arrivals seen) in
    (
      frame',
      record d {
        stats = record (d.stats) {
          irq = bump d.stats.irq slot;
          irq_cycles = charge d.stats.irq_cycles slot (cost_of w d);
        };
      },
    )

-- The accounting after a handler.
unfoldable pub count_exception : World → ℕ → Handled → Hyp
count_exception w mcause r =
    let s = r.hyp.stats in
    let slot = stats_slot mcause in
    let missed : ℕ = elim r.outcome [ unhandled ↦ u32 (s.unhandled + 1) | _ ↦ s.unhandled ] in
    record (r.hyp) {
      stats = record s {
        exc = bump s.exc slot;
        exc_cycles = charge s.exc_cycles slot (cost_of w r.hyp);
        unhandled = missed;
      };
    }

-- What the C function answers (false is a panic), the frame and the monitor.
pub record Result : Type 0 where
  pub handled : Bool
  pub frame : Frame
  pub hyp : Hyp

-- Back to the guest, with what is pending delivered.
unfoldable pub leave : World → Frame → Hyp → Result
leave w frame h =
    let (frame', h') = hyp_deliver_pending w.deliver_now frame h in
    record { handled = true; frame = frame'; hyp = h' }

-- The end of an exception: mepc is advanced here and nowhere else.
unfoldable pub finish : World → Handled → Hyp → Result
finish w r h =
    let panic : Result = record { handled = false; frame = r.trap.frame; hyp = h } in
    elim r.outcome [
      | advance ↦
          if r.trap.length == 0
          then panic
          else leave w (record (r.trap.frame) { mepc = u32 (r.trap.frame.mepc + r.trap.length) }) h
      | resume ↦ leave w r.trap.frame h
      | unhandled ↦ panic
    ]

-- The trap as it is first seen, and the monitor with the trap's trace entry.
abbrev pub entry_trap : Frame → GuestTrap
entry_trap frame = record {
  frame = frame;
  cause = frame.mcause;
  tval = frame.mtval;
  encoding = 0;
  length = 0;
}

abbrev pub entered : Frame → Hyp → Hyp
entered frame h = record h {
  idle_cycles = 0;
  trace =
      hyp_trace_record h.trace (record {
        cause = frame.mcause;
        epc = frame.mepc;
        tval = frame.mtval;
        priv = h.guest.priv;
      });
}

-- `none` is a core that is still asleep in wfi after the rounds it was given.
unfoldable pub hypervisor : World → Frame → Hyp → Option Result
hypervisor w frame h =
    if not h.linux_running
    then some (record { handled = false; frame = frame; hyp = h })
    else if has frame.mcause 0x80000000
    then (let (frame', h') = host_interrupt w frame (entered frame h) in
        some (record { handled = true; frame = frame'; hyp = h' }))
    else elim (hypervisor_trap w (entry_trap frame) (entered frame h)) [
      | none ↦ none
      | some r ↦ some (finish w r (count_exception w frame.mcause r))
    ]
