-- ===== src/Core/Handlers.antt =====
-- The lengths that the handlers report to the end of main/hyp_core.c's dispatch.
use esp32_p4_linux_hyperviso.Base.{
  ℕ, ◌≡◌, ◌⊎◌, inl, inr, true, false, some, has, arith, Option-cases, Ensures, map-Ensures, ◌↔◌,
}
use esp32_p4_linux_hyperviso.Frame.{Frame, Memory}
use esp32_p4_linux_hyperviso.Decode.{GuestTrap, unhandled, advance, trap_decode}
use esp32_p4_linux_hyperviso.Decode.Laws.{trap_decode_lem}
use esp32_p4_linux_hyperviso.Monitor.{Hyp}
use esp32_p4_linux_hyperviso.Csr.{
  Handled, CsrHost, Cycles, hypervisor_csr, csr_instruction, hypervisor_mret,
}
use esp32_p4_linux_hyperviso.Mmio.{mmio_find, hypervisor_mmio}
use esp32_p4_linux_hyperviso.Mmio.Access.{emulated, refused, hypervisor_mmio_lem}
use esp32_p4_linux_hyperviso.Csr.Paths.{after_wfi, hypervisor_csr-Ensures}
use esp32_p4_linux_hyperviso.Core.Paths.{hypervisor_trap-Ensures}
use esp32_p4_linux_hyperviso.Core.Faults.{hypervisor_exception}
use esp32_p4_linux_hyperviso.Core.{
  World, Result, inject_or_refuse, access_fault, hypervisor_trap, leave, finish, count_exception,
  entry_trap, entered, hypervisor,
}

-- A handler that asks for the instruction to be skipped has found its length.
abbrev pub Measured : Handled → Type 0
Measured r = r.outcome ≡ advance → (r.trap.length ≡ 2) ⊎ (r.trap.length ≡ 4)

mmio_Measured :
    (w : World) (trap : GuestTrap) (h : Hyp) → Measured (hypervisor_mmio w.host w.memory trap h)
mmio_Measured w trap h a = elim (hypervisor_mmio_lem w.host w.memory trap h) [
  | emulated o g e ↦ e.length
  | refused r ↦ ground (arith, r.outcome)
]

access_fault-Measured : (w : World) (trap : GuestTrap) (h : Hyp) → Measured (access_fault w trap h)
unfolding access_fault inject_or_refuse
access_fault-Measured w trap h = elim (Option-cases (mmio_find trap.tval)) [
  | inl e ↦ rw (access_fault, e) (ground arith)
  | inr (d, e) ↦ rw (access_fault, e) (mmio_Measured w trap h)
]

csr_instruction-Measured :
    (now : ℕ) (trap : GuestTrap) (h : Hyp)
    → (trap.length ≡ 2) ⊎ (trap.length ≡ 4)
    → Measured (csr_instruction now trap h)
unfolding csr_instruction
csr_instruction-Measured now trap h l = ground arith

mret_Measured :
    (sync : Cycles) (trap : GuestTrap) (h : Hyp) → Measured (hypervisor_mret sync trap h)
unfolding hypervisor_mret
mret_Measured sync trap h = ground arith

hypervisor_csr-Measured :
    (host : CsrHost) (mem : Memory) (trap : GuestTrap) (h : Hyp)
    → Ensures Measured (hypervisor_csr host mem trap h)
hypervisor_csr-Measured host mem trap h =
    let (decoded, t) = trap_decode mem trap in
    let l = (trap_decode_lem mem trap).0 in
    hypervisor_csr-Ensures Measured host mem trap h (ground arith) (mret_Measured host.sync t h)
      (λ e.
        map-Ensures Measured (after_wfi t) (λ _. Unit {0}) _ (record { law = λ h' f. tt })
          (λ h' u a. l e))
      (λ e. csr_instruction-Measured host.now t h (l e))

inject_Measured :
    (cause tval : ℕ) (trap : GuestTrap) (h : Hyp) → Measured (inject_or_refuse cause tval trap h)
unfolding inject_or_refuse
inject_Measured cause tval trap h = ground arith

hypervisor_trap-Measured :
    (w : World) (trap : GuestTrap) (h : Hyp) → Ensures Measured (hypervisor_trap w trap h)
hypervisor_trap-Measured w trap h =
    hypervisor_trap-Ensures Measured w trap h (hypervisor_csr-Measured w.csr w.memory trap h)
      (λ cause tval. inject_Measured cause tval trap h) (access_fault-Measured w trap h)
      (ground arith)

-- The dispatch refuses an exception of a running guest, which is a panic, exactly when its handler
-- has answered TRAP_UNHANDLED: no handler asks for an instruction of unknown length to be skipped.
pub hypervisor-handled :
    (w : World) (frame : Frame) (h : Hyp) (r : Handled)
    → h.linux_running ≡ true
    → has frame.mcause 0x80000000 ≡ false
    → hypervisor_trap w (entry_trap frame) (entered frame h) ≡ some r
    → (result : Result) × (hypervisor w frame h ≡ some result)
      × ((result.handled ≡ false) ↔ (r.outcome ≡ unhandled))
hypervisor-handled w frame h r run exception e =
    let measured = (hypervisor_trap-Measured w (entry_trap frame) (entered frame h)).law r e in
    (
      finish w r (count_exception w frame.mcause r),
      hypervisor_exception w frame h r run exception e,
      unfold finish leave in grind (arith, measured),
    )
