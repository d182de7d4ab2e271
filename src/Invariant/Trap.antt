-- ===== src/Invariant/Trap.antt =====
-- The trap's part of the invariant: the handlers' dispatch, its accounting, and any sequence of traps.
use esp32_p4_linux_hyperviso.Base.{
  ℕ, ◌%◌, ◌≡◌, ◌∙◌, inl, inr, not, some, List, length-set, bit_and, has, leb, ◌==◌, arith, if_keeps,
  Option-cases, Ensures, none-Ensures, some-Ensures,
}
use esp32_p4_linux_hyperviso.Frame.{Frame, Memory}
use esp32_p4_linux_hyperviso.Decode.{GuestTrap, TrapResult, unhandled, advance, resume, trap_decode}
use esp32_p4_linux_hyperviso.Trace.{Entry, Printed, Trace, hyp_trace_record, hyp_trace_dump}
use esp32_p4_linux_hyperviso.Monitor.{Stats, Devices, Hyp, Host, bump}
use esp32_p4_linux_hyperviso.Csr.{Handled}
use esp32_p4_linux_hyperviso.Mmio.{
  MmioDevice, mmio_find, mmio_load, mmio_store, mmio_key, sign8, sign16, mmio_access,
  hypervisor_mmio,
}
use esp32_p4_linux_hyperviso.Core.{
  World, Result, inject_or_refuse, access_fault, hypervisor_trap, host_interrupt, leave, finish,
  count_exception, entry_trap, entered, hypervisor,
}
use esp32_p4_linux_hyperviso.Core.Paths.{hypervisor_trap-Ensures}
use esp32_p4_linux_hyperviso.Invariant.{DevicesIsValid, StatsIsValid, TraceIsValid, HypIsValid}
use esp32_p4_linux_hyperviso.Invariant.Access.{
  device_read-DevicesIsValid, device_write-DevicesIsValid,
}
use esp32_p4_linux_hyperviso.Invariant.Hart.{
  hyp_inject-HypIsValid, hyp_deliver_pending-HypIsValid, poll-HypIsValid, hypervisor_csr-HypIsValid,
}

abbrev Left : Handled → Type 0
Left r = HypIsValid r.hyp

with_devices-HypIsValid :
    (h : Hyp) (d : Devices)
    → DevicesIsValid d
    → HypIsValid h
    → HypIsValid (record h { devices = d })
with_devices-HypIsValid h d k v = record {
  guest = v.guest;
  devices = k;
  stats = v.stats;
  trace = v.trace;
}

with_stats-HypIsValid :
    (h : Hyp) (s : Stats) → StatsIsValid s → HypIsValid h → HypIsValid (record h { stats = s })
with_stats-HypIsValid h s k v = record {
  guest = v.guest;
  devices = v.devices;
  stats = k;
  trace = v.trace;
}

with_trace-HypIsValid :
    (h : Hyp) (t : Trace) → TraceIsValid t → HypIsValid h → HypIsValid (record h { trace = t })
with_trace-HypIsValid h t k v = record {
  guest = v.guest;
  devices = v.devices;
  stats = v.stats;
  trace = k;
}

mmio_load-Left :
    (host : Host) (device : MmioDevice) (width : ℕ) (extend : ℕ → ℕ) (trap : GuestTrap) (h : Hyp)
    → HypIsValid h
    → Left (mmio_load host device width extend trap h)
unfolding mmio_load
mmio_load-Left host device width extend trap h v =
    with_devices-HypIsValid h _
      (device_read-DevicesIsValid host device.name _ width h.devices h v.devices) v

mmio_store-Left :
    (host : Host) (device : MmioDevice) (width : ℕ) (trap : GuestTrap) (h : Hyp)
    → HypIsValid h
    → Left (mmio_store host device width trap h)
unfolding mmio_store
mmio_store-Left host device width trap h v =
    with_devices-HypIsValid h _
      (device_write-DevicesIsValid host device.name _ _ width h.devices h v.devices) v

mmio_access-Left :
    (host : Host) (device : MmioDevice) (trap : GuestTrap) (h : Hyp)
    → HypIsValid h
    → Left (mmio_access host device trap h)
unfolding mmio_access
mmio_access-Left host device trap h v = if_keeps Left (key == 0x0) (loads 1 sign8) (
    if_keeps Left (key == 0x1) (loads 2 sign16) (
      if_keeps Left (key == 0x2) (loads 4 (λ x. x)) (
        if_keeps Left (key == 0x4) (loads 1 (λ x. x)) (
          if_keeps Left (key == 0x5) (loads 2 (λ x. x)) (
            if_keeps Left (key == 0x8) (stores 1) (
              if_keeps Left (key == 0x9) (stores 2) (if_keeps Left (key == 0xa) (stores 4) ok)))))))
  where
    key : ℕ
    key = mmio_key trap.encoding

    counted : Hyp
    counted = record h { stats = record (h.stats) { mmio = bump h.stats.mmio (device.index % 8) } }

    ok : HypIsValid counted
    ok =
        with_stats-HypIsValid h _
          (record {
            exc = v.stats.exc;
            irq = v.stats.irq;
            exc_cycles = v.stats.exc_cycles;
            irq_cycles = v.stats.irq_cycles;
            mmio = length-set h.stats.mmio _ _ ∙ v.stats.mmio;
          })
          v

    loads : (width : ℕ) (extend : ℕ → ℕ) → Left (mmio_load host device width extend trap counted)
    loads width extend = mmio_load-Left host device width extend trap counted ok

    stores : (width : ℕ) → Left (mmio_store host device width trap counted)
    stores width = mmio_store-Left host device width trap counted ok

hypervisor_mmio-Left :
    (host : Host) (mem : Memory) (trap : GuestTrap) (h : Hyp)
    → HypIsValid h
    → Left (hypervisor_mmio host mem trap h)
unfolding hypervisor_mmio
hypervisor_mmio-Left host mem trap h v = elim (Option-cases (mmio_find trap.tval)) [
  | inl e ↦ rw (hypervisor_mmio, e) v
  | inr (d, e) ↦
      let (done, t) = trap_decode mem trap in
      rw (hypervisor_mmio, e)
        (if_keeps Left (not done) v
          (if_keeps Left (not (bit_and t.encoding 0x5f == 0x03)) v (mmio_access-Left host d t h v)))
]

hyp_trace_record-TraceIsValid :
    (t : Trace) (e : Entry) → TraceIsValid t → TraceIsValid (hyp_trace_record t e)
unfolding hyp_trace_record
hyp_trace_record-TraceIsValid t e v = record {
  size = length-set t.entries t.next e ∙ v.size;
  place = omega arith;
}

hyp_trace_dump-TraceIsValid :
    (mem : Memory) (t : Trace) → TraceIsValid t → TraceIsValid (hyp_trace_dump mem t).1
unfolding hyp_trace_dump
hyp_trace_dump-TraceIsValid mem t v =
    if_keeps (λ (r : List Printed × Trace). TraceIsValid r.1) (leb 4 t.dumps) v
      (record { size = v.size; place = v.place })

inject_or_refuse-Left :
    (cause tval : ℕ) (trap : GuestTrap) (h : Hyp)
    → HypIsValid h
    → Left (inject_or_refuse cause tval trap h)
unfolding inject_or_refuse
inject_or_refuse-Left cause tval trap h v =
    if_keeps Left (h.guest.shadow.mtvec == 0) v (hyp_inject-HypIsValid trap.frame cause tval h v)

access_fault-Left :
    (w : World) (trap : GuestTrap) (h : Hyp) → HypIsValid h → Left (access_fault w trap h)
unfolding access_fault
access_fault-Left w trap h v = elim (Option-cases (mmio_find trap.tval)) [
  | inl e ↦
      rw (access_fault, e)
        (inject_or_refuse-Left trap.cause trap.tval trap _ (
          if_keeps HypIsValid (h.guest.shadow.mtvec == 0) v
            (with_trace-HypIsValid h _ (hyp_trace_dump-TraceIsValid w.memory h.trace v.trace) v)))
  | inr (d, e) ↦ rw (access_fault, e) (hypervisor_mmio-Left w.host w.memory trap h v)
]

hypervisor_trap-Left :
    (w : World) (trap : GuestTrap) (h : Hyp)
    → HypIsValid h
    → Ensures Left (hypervisor_trap w trap h)
hypervisor_trap-Left w trap h v =
    hypervisor_trap-Ensures Left w trap h (hypervisor_csr-HypIsValid w.csr w.memory trap h v)
      (λ cause tval. inject_or_refuse-Left cause tval trap h v) (access_fault-Left w trap h v) v

entered-HypIsValid : (frame : Frame) (h : Hyp) → HypIsValid h → HypIsValid (entered frame h)
entered-HypIsValid frame h v = record {
  guest = v.guest;
  devices = v.devices;
  stats = v.stats;
  trace = hyp_trace_record-TraceIsValid h.trace _ v.trace;
}

count_exception-HypIsValid :
    (w : World) (mcause : ℕ) (r : Handled) → Left r → HypIsValid (count_exception w mcause r)
unfolding count_exception
count_exception-HypIsValid w mcause r v =
    with_stats-HypIsValid r.hyp _
      (record {
        exc = length-set r.hyp.stats.exc _ _ ∙ v.stats.exc;
        irq = v.stats.irq;
        exc_cycles = length-set r.hyp.stats.exc_cycles _ _ ∙ v.stats.exc_cycles;
        irq_cycles = v.stats.irq_cycles;
        mmio = v.stats.mmio;
      })
      v

host_interrupt-HypIsValid :
    (w : World) (frame : Frame) (h : Hyp) → HypIsValid h → HypIsValid (host_interrupt w frame h).1
unfolding host_interrupt
host_interrupt-HypIsValid w frame h v =
    let code = bit_and frame.mcause 0x7fffffff in
    let seen = record h { stats = record (h.stats) { irq_code_seen = code } } in
    let polled = poll-HypIsValid w.arrivals seen (ground arith) in
    let d = hyp_deliver_pending-HypIsValid w.deliver_now frame _ polled in
    with_stats-HypIsValid _ _
      (record {
        exc = d.stats.exc;
        irq = length-set _ _ _ ∙ d.stats.irq;
        exc_cycles = d.stats.exc_cycles;
        irq_cycles = length-set _ _ _ ∙ d.stats.irq_cycles;
        mmio = d.stats.mmio;
      })
      d

abbrev Ended : Result → Type 0
Ended r = HypIsValid r.hyp

finish-Ended : (w : World) (r : Handled) (h : Hyp) → HypIsValid h → Ended (finish w r h)
unfolding finish leave
finish-Ended w r h v =
    elim r.outcome as (λ (o : TrapResult). Ended (finish w (record r { outcome = o }) h)) [
      | advance ↦
          if_keeps Ended (r.trap.length == 0) v (hyp_deliver_pending-HypIsValid w.deliver_now _ h v)
      | resume ↦ hyp_deliver_pending-HypIsValid w.deliver_now r.trap.frame h v
      | unhandled ↦ v
    ]

-- Whatever the guest does and whatever the hardware presents, a trap taken in a valid state that
-- comes back leaves a valid state: the receive ring in bounds, the console's interrupt line right,
-- the host's alarm, when on, set for the guest's deadline, the shadow bank and the statistics of
-- their declared sizes, the privilege a two-bit number, the timer and external bits of mip never
-- stored, and the trace ring in bounds.
pub hypervisor-HypIsValid :
    (w : World) (frame : Frame) (h : Hyp) → HypIsValid h → Ensures Ended (hypervisor w frame h)
unfolding hypervisor
hypervisor-HypIsValid w frame h v =
    let first = entered-HypIsValid frame h v in
    if_keeps (Ensures Ended) (not h.linux_running) (some-Ensures Ended _ v) (
      if_keeps (Ensures Ended) (has frame.mcause 0x80000000)
        (some-Ensures Ended _ (host_interrupt-HypIsValid w frame (entered frame h) first))
        (elim (Option-cases (hypervisor_trap w (entry_trap frame) (entered frame h))) [
          | inl e ↦ rw e (none-Ensures Ended)
          | inr (r, e) ↦
              let l = (hypervisor_trap-Left w (entry_trap frame) (entered frame h) first).law r e in
              rw e (
                some-Ensures Ended _ (
                  finish-Ended w r (count_exception w frame.mcause r)
                    (count_exception-HypIsValid w frame.mcause r l)))
        ]))

-- The states that a sequence of traps, each with its own frame and hardware, may lead to.
pub data Reached (start : Hyp) : Hyp → Type 0 where
  begin : Reached start start
  taken :
      (w : World) (frame : Frame) (h : Hyp) (r : Result)
      → Reached start h
      → hypervisor w frame h ≡ some r
      → Reached start r.hyp

-- Every state that traps lead to from a valid one is valid.
pub reached-HypIsValid : (start h : Hyp) → HypIsValid start → Reached start h → HypIsValid h
reached-HypIsValid start h v begin = v
reached-HypIsValid start h v (taken w frame h' r s e) =
    (hypervisor-HypIsValid w frame h' (reached-HypIsValid start h' v s)).law r e
