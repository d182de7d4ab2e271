-- ===== src/Invariant/Hart.antt =====
-- The guest's part of the invariant: injection, delivery, mret, wfi and the CSR instructions.
use esp32_p4_linux_hyperviso.Base.{
  ℕ, ◌+◌, ◌/◌, ◌^◌, ◌<◌, ◌≡◌, ◌∙◌, inl, inr, true, not, ◌&&◌, List, [], ◌∷◌, bit, bit_and, bit_or,
  has, u32, not32, ◌>>◌, ◌==◌, arith, if_keeps, if◌then◌else◌, Option-cases, Ensures, none-Ensures,
  some-Ensures, map-Ensures,
}
use esp32_p4_linux_hyperviso.Base.Bits.{bit-bit_and, bit-lt, bit_and_mask, bit_and_shifted}
use esp32_p4_linux_hyperviso.Frame.{Frame, Memory, reg_read}
use esp32_p4_linux_hyperviso.Decode.{GuestTrap, trap_decode}
use esp32_p4_linux_hyperviso.Monitor.{Guest, Hyp, Arrivals}
use esp32_p4_linux_hyperviso.Intr.{
  hyp_inject, hyp_deliver_pending, hyp_pending_cause, hyp_poll_host_devices,
}
use esp32_p4_linux_hyperviso.Csr.{
  Slot, slot_write, shadow_slot, Handled, Cycles, hyp_sync_icache, hypervisor_mret, Round, wfi_loop,
  wfi_done, hypervisor_wfi, hyp_wfi_wake, wfi_timer_armed, wfi_ext_armed, csr_access, csr_count,
  csr_instruction, csr_read_only_zero, csr_writes, CsrHost, hypervisor_csr,
}
use esp32_p4_linux_hyperviso.Csr.Paths.{after_wfi, hypervisor_csr-Ensures}
use esp32_p4_linux_hyperviso.Csr.Slots.{slot_write-BankIsValid}
use esp32_p4_linux_hyperviso.Invariant.{GuestIsValid, HypIsValid}
use esp32_p4_linux_hyperviso.Invariant.Access.{hyp_poll_host_devices-DevicesIsValid}

pub with_guest-HypIsValid :
    (h : Hyp) (g : Guest) → GuestIsValid g → HypIsValid h → HypIsValid (record h { guest = g })
with_guest-HypIsValid h g k v = record {
  guest = k;
  devices = v.devices;
  stats = v.stats;
  trace = v.trace;
}

pub hyp_inject-HypIsValid :
    (frame : Frame) (cause tval : ℕ) (h : Hyp)
    → HypIsValid h
    → HypIsValid (hyp_inject frame cause tval h).1
unfolding hyp_inject
hyp_inject-HypIsValid frame cause tval h v = record {
  guest = record {
    bank = record { cfg = v.guest.bank.cfg; addr = v.guest.bank.addr };
    priv = omega arith;
    no_mtip = v.guest.no_mtip;
    no_meip = v.guest.no_meip;
  };
  devices = v.devices;
  stats = record {
    exc = v.stats.exc;
    irq = v.stats.irq;
    exc_cycles = v.stats.exc_cycles;
    irq_cycles = v.stats.irq_cycles;
    mmio = v.stats.mmio;
  };
  trace = v.trace;
}

pub hyp_deliver_pending-HypIsValid :
    (now : ℕ) (frame : Frame) (h : Hyp)
    → HypIsValid h
    → HypIsValid (hyp_deliver_pending now frame h).1
unfolding hyp_deliver_pending
hyp_deliver_pending-HypIsValid now frame h v = elim (Option-cases (hyp_pending_cause now h)) [
  | inl e ↦ rw (hyp_deliver_pending, e) v
  | inr (cause, e) ↦
      rw (hyp_deliver_pending, e)
        (if_keeps (λ (r : Frame × Hyp). HypIsValid r.1) (h.guest.shadow.mtvec == 0) v
          (hyp_inject-HypIsValid frame (bit_or 0x80000000 cause) 0 h v))
]

hypervisor_mret-HypIsValid :
    (sync : Cycles) (trap : GuestTrap) (h : Hyp)
    → HypIsValid h
    → HypIsValid (hypervisor_mret sync trap h).hyp
unfolding hypervisor_mret hyp_sync_icache
hypervisor_mret-HypIsValid sync trap h v =
    let p : bit_and h.guest.shadow.mstatus 0x1800 >> 11 < 4 = omega (
      arith,
      bit_and_shifted 11 h.guest.shadow.mstatus 3,
      bit_and_mask 2 (h.guest.shadow.mstatus / 2 ^ 11),
    ) in
    if_keeps (λ (r : Handled). HypIsValid r.hyp) (h.guest.shadow.mepc == 0) (ground arith)
      (ground arith)

-- The bits of mip that no write stores.
unstored : (x : ℕ) → (bit (bit_and x (not32 0x880)) 7 ≡ 0) × (bit (bit_and x (not32 0x880)) 11 ≡ 0)
unstored x = (
  bit-bit_and x (not32 0x880) 7 ∙ omega (arith, bit-lt x 7),
  bit-bit_and x (not32 0x880) 11 ∙ omega (arith, bit-lt x 11),
)

slot_write-GuestIsValid :
    (g : Guest) (slot : Slot) (v : ℕ) → GuestIsValid g → GuestIsValid (slot_write g slot v)
unfolding slot_write
slot_write-GuestIsValid g slot x v = record {
  bank = slot_write-BankIsValid g slot x v.bank;
  priv = ground (arith, v.priv);
  no_mtip = ground (arith, v.no_mtip);
  no_meip = ground (arith, v.no_meip);
}

csr_access-HypIsValid :
    (now csr funct3 rs1 src : ℕ) (h : Hyp)
    → HypIsValid h
    → Ensures (λ (r : ℕ × Hyp). HypIsValid r.1) (csr_access now csr funct3 rs1 src h)
unfolding csr_access
csr_access-HypIsValid now csr funct3 rs1 src h v =
    let P : ℕ × Hyp → Type 0 = λ r. HypIsValid r.1 in
    if_keeps (Ensures P) (csr == 0x344)
      (some-Ensures P _ (
        if_keeps HypIsValid (csr_writes funct3 rs1)
          (with_guest-HypIsValid h _
            (record {
              bank = record { cfg = v.guest.bank.cfg; addr = v.guest.bank.addr };
              priv = v.guest.priv;
              no_mtip = (unstored _).0;
              no_meip = (unstored _).1;
            })
            v)
          v))
      (elim (Option-cases (shadow_slot csr)) [
        | inl e ↦
            rw e
              (if_keeps (Ensures P) (csr_read_only_zero csr) (some-Ensures P _ v) (none-Ensures P))
        | inr (slot, e) ↦ rw e (
            some-Ensures P _ (
              if_keeps HypIsValid (csr_writes funct3 rs1)
                (with_guest-HypIsValid h _ (slot_write-GuestIsValid h.guest slot _ v.guest) v) v))
      ])

csr_count-HypIsValid :
    (funct3 rs1 : ℕ) (h : Hyp) → HypIsValid h → HypIsValid (csr_count funct3 rs1 h)
unfolding csr_count
csr_count-HypIsValid funct3 rs1 h v = ground arith

csr_instruction-HypIsValid :
    (now : ℕ) (trap : GuestTrap) (h : Hyp)
    → HypIsValid h
    → HypIsValid (csr_instruction now trap h).hyp
unfolding csr_instruction
csr_instruction-HypIsValid now trap h v =
    let instruction = trap.encoding in
    let funct3 = bit_and (instruction >> 12) 0x7 in
    let rs1 = bit_and (instruction >> 15) 0x1f in
    let src = if has funct3 0x4 then rs1 else reg_read trap.frame rs1 in
    let access = csr_access now (instruction >> 20) funct3 rs1 src h in
    elim (Option-cases access) [
      | inl e ↦ rw (csr_instruction, e) v
      | inr (p, e) ↦
          rw (csr_instruction, e)
            (csr_count-HypIsValid funct3 rs1 p.1
              ((csr_access-HypIsValid now (instruction >> 20) funct3 rs1 src h v).law p e))
    ]

pub poll-HypIsValid :
    (a : Arrivals) (h : Hyp) → HypIsValid h → HypIsValid (hyp_poll_host_devices a h)
unfolding hyp_poll_host_devices
poll-HypIsValid a h v = record {
  guest = v.guest;
  devices = hyp_poll_host_devices-DevicesIsValid a h v.devices;
  stats = v.stats;
  trace = v.trace;
}

wfi_loop-HypIsValid :
    (rounds : List Round) (h : Hyp) → HypIsValid h → Ensures HypIsValid (wfi_loop rounds h)
unfolding wfi_loop
wfi_loop-HypIsValid [] h v = none-Ensures HypIsValid
wfi_loop-HypIsValid (r ∷ rounds) h v =
    if_keeps (Ensures HypIsValid) (hyp_wfi_wake r.now h) (some-Ensures HypIsValid h v)
      (wfi_loop-HypIsValid rounds _ (poll-HypIsValid r.arrivals h v))

wfi_done-HypIsValid : (sleep : Cycles) (h : Hyp) → HypIsValid h → HypIsValid (wfi_done sleep h)
unfolding wfi_done
wfi_done-HypIsValid sleep h v = ground arith

hypervisor_wfi-HypIsValid :
    (sleep : Cycles) (rounds : List Round) (h : Hyp)
    → HypIsValid h
    → Ensures HypIsValid (hypervisor_wfi sleep rounds h)
unfolding hypervisor_wfi
hypervisor_wfi-HypIsValid sleep rounds h v =
    if_keeps (Ensures HypIsValid) (not (wfi_timer_armed h) && not (wfi_ext_armed h))
      (some-Ensures HypIsValid _ (ground arith))
      (elim (Option-cases (wfi_loop rounds start)) [
        | inl e ↦ rw e (none-Ensures HypIsValid)
        | inr (h', e) ↦ rw e (
            some-Ensures HypIsValid _ (
              wfi_done-HypIsValid sleep h'
                ((wfi_loop-HypIsValid rounds start (ground arith)).law h' e)))
      ])
  where
    start : Hyp
    start = record h {
      stats = record (h.stats) { wfi_blocks = u32 (h.stats.wfi_blocks + 1) };
      in_wfi = true;
    }

pub hypervisor_csr-HypIsValid :
    (host : CsrHost) (mem : Memory) (trap : GuestTrap) (h : Hyp)
    → HypIsValid h
    → Ensures (λ (r : Handled). HypIsValid r.hyp) (hypervisor_csr host mem trap h)
hypervisor_csr-HypIsValid host mem trap h v =
    let P : Handled → Type 0 = λ r. HypIsValid r.hyp in
    let (decoded, t) = trap_decode mem trap in
    hypervisor_csr-Ensures P host mem trap h v (hypervisor_mret-HypIsValid host.sync t h v)
      (λ _.
        map-Ensures P (after_wfi t) HypIsValid _
          (hypervisor_wfi-HypIsValid host.sleep host.rounds h v) (λ h' u. u))
      (λ _. csr_instruction-HypIsValid host.now t h v)
