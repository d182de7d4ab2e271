-- ===== src/Core/Faults.antt =====
-- Exceptions that main/hyp_core.c hands to the guest's own trap vector.
use esp32_p4_linux_hyperviso.Base.{
  ℕ, ◌<◌, ◌≡◌, ◌≢◌, refl, ap, ◌∙◌, true, false, some, none, bit, bit_and, has, not32, arith,
}
use esp32_p4_linux_hyperviso.Frame.{Frame}
use esp32_p4_linux_hyperviso.Decode.{GuestTrap, resume}
use esp32_p4_linux_hyperviso.Trace.{Trace, hyp_trace_dump}
use esp32_p4_linux_hyperviso.Monitor.{Hyp}
use esp32_p4_linux_hyperviso.Intr.{hyp_inject, hyp_deliver_pending, trapped_status}
use esp32_p4_linux_hyperviso.Intr.Status.{bit-trapped_status}
use esp32_p4_linux_hyperviso.Intr.Pending.{hyp_pending_cause_lem}
use esp32_p4_linux_hyperviso.Csr.{Handled}
use esp32_p4_linux_hyperviso.Mmio.{mmio_find}
use esp32_p4_linux_hyperviso.Core.{
  World, Result, inject_or_refuse, access_fault, hypervisor_trap, leave, finish, count_exception,
  entry_trap, entered, hypervisor,
}

-- The exceptions that are the guest's own, with the tval that it is to see: a breakpoint, an
-- environment call, and an access that no device answers.
pub data GuestFault (frame : Frame) : ℕ → Type 0 where
  breakpoint : frame.mcause ≡ 3 → GuestFault frame frame.mepc
  ecall : frame.mcause ≡ 8 → GuestFault frame 0
  load_fault : frame.mcause ≡ 5 → mmio_find frame.mtval ≡ none → GuestFault frame frame.mtval
  store_fault : frame.mcause ≡ 7 → mmio_find frame.mtval ≡ none → GuestFault frame frame.mtval

leave_masked :
    (w : World) (frame : Frame) (h : Hyp)
    → bit h.guest.shadow.mstatus 3 ≡ 0
    → leave w frame h ≡ record { handled = true; frame = frame; hyp = h }
unfolding leave hyp_deliver_pending
leave_masked w frame h e = ground (arith, (hyp_pending_cause_lem w.deliver_now h).0 e)

-- The handler's answer: injected, into a monitor that differs at most in its trace.
unfoldable injected : GuestTrap → ℕ → ℕ → Hyp → Trace → Handled
injected trap cause tval h t =
    let (frame, h') = hyp_inject trap.frame cause tval (record h { trace = t }) in
    record { outcome = resume; trap = record trap { frame = frame }; hyp = h' }

access_fault_injects :
    (w : World) (trap : GuestTrap) (h : Hyp)
    → h.guest.shadow.mtvec ≢ 0
    → mmio_find trap.tval ≡ none
    → (t : Trace) × (access_fault w trap h ≡ injected trap trap.cause trap.tval h t)
unfolding access_fault inject_or_refuse injected
access_fault_injects w trap h v e =
    ((hyp_trace_dump w.memory h.trace).1, rw (access_fault, e) (ground arith))

hypervisor_trap_injects :
    (w : World) (trap : GuestTrap) (h : Hyp) (tval : ℕ)
    → trap.cause ≡ trap.frame.mcause
    → trap.tval ≡ trap.frame.mtval
    → h.guest.shadow.mtvec ≢ 0
    → GuestFault trap.frame tval
    → (t : Trace) × (hypervisor_trap w trap h ≡ some (injected trap trap.cause tval h t))
unfolding hypervisor_trap inject_or_refuse injected
hypervisor_trap_injects w trap h tval c v n (breakpoint e) = (h.trace, ground arith)
hypervisor_trap_injects w trap h tval c v n (ecall e) = (h.trace, ground arith)
hypervisor_trap_injects w trap h tval c v n (load_fault e f) =
    let (t, k) = access_fault_injects w trap h n (ap mmio_find v ∙ f) in (t, ground arith)
hypervisor_trap_injects w trap h tval c v n (store_fault e f) =
    let (t, k) = access_fault_injects w trap h n (ap mmio_find v ∙ f) in (t, ground arith)

GuestFault-exception :
    (frame : Frame) (tval : ℕ) → GuestFault frame tval → has frame.mcause 0x80000000 ≡ false
GuestFault-exception frame tval (breakpoint e) = ap (λ cause. has cause 0x80000000) e
GuestFault-exception frame tval (ecall e) = ap (λ cause. has cause 0x80000000) e
GuestFault-exception frame tval (load_fault e f) = ap (λ cause. has cause 0x80000000) e
GuestFault-exception frame tval (store_fault e f) = ap (λ cause. has cause 0x80000000) e

pub hypervisor_exception :
    (w : World) (frame : Frame) (h : Hyp) (r : Handled)
    → h.linux_running ≡ true
    → has frame.mcause 0x80000000 ≡ false
    → hypervisor_trap w (entry_trap frame) (entered frame h) ≡ some r
    → hypervisor w frame h ≡ some (finish w r (count_exception w frame.mcause r))
unfolding hypervisor
hypervisor_exception w frame h r run exception e = rw (e, exception) (ground arith)

finish-injected :
    (w : World) (trap : GuestTrap) (cause tval mcause : ℕ) (h : Hyp) (t : Trace)
    → h.guest.priv < 4
    → let r = injected trap cause tval h t in
      finish w r (count_exception w mcause r)
      ≡ record { handled = true; frame = r.trap.frame; hyp = count_exception w mcause r }
unfolding finish injected count_exception hyp_inject
finish-injected w trap cause tval mcause h t p =
    leave_masked w _ _ (bit-trapped_status h.guest.shadow.mstatus h.guest.priv 3 p (omega arith))

-- A breakpoint, an environment call, and an access that no device answers become a running guest's
-- own trap once it has a trap vector, its recorded privilege being a two-bit number: the core goes on at the vector with the registers as they were,
-- the cause, the address of the instruction and its tval are in the guest's CSRs, the guest is in
-- M-mode, and nothing pending is delivered on top.
pub hypervisor-GuestFault :
    (w : World) (frame : Frame) (h : Hyp) (tval : ℕ)
    → h.linux_running ≡ true
    → h.guest.shadow.mtvec ≢ 0
    → h.guest.priv < 4
    → GuestFault frame tval
    → (r : Result) × (hypervisor w frame h ≡ some r)
      × (r.handled ≡ true)
      × (r.frame ≡ record frame { mepc = bit_and h.guest.shadow.mtvec (not32 3) })
      × (r.hyp.guest ≡ record (h.guest) {
        shadow = record (h.guest.shadow) {
          mstatus = trapped_status h.guest.shadow.mstatus h.guest.priv;
          mepc = frame.mepc;
          mcause = frame.mcause;
          mtval = tval;
        };
        priv = 3;
      })
unfolding injected hyp_inject count_exception
hypervisor-GuestFault w frame h tval run v p fault =
    let trap = entry_trap frame in
    let (t, k) = hypervisor_trap_injects w trap (entered frame h) tval refl refl v fault in
    let r = injected trap frame.mcause tval (entered frame h) t in
    (
      record { handled = true; frame = r.trap.frame; hyp = count_exception w frame.mcause r },
      hypervisor_exception w frame h r run (GuestFault-exception frame tval fault) k
          ∙ ap some (finish-injected w trap frame.mcause tval frame.mcause (entered frame h) t p),
      refl,
      refl,
      refl,
    )
