-- ===== src/Tests/Traps.antt =====
-- Traps, from the vector to the return.
use esp32_p4_linux_hyperviso.Base.{
  ℕ, ◌+◌, ◌≡◌, ◌↔◌, refl, true, false, some, bit_and, not32, sub32, arith,
}
use esp32_p4_linux_hyperviso.Frame.{reg_write}
use esp32_p4_linux_hyperviso.Decode.{unhandled, advance}
use esp32_p4_linux_hyperviso.Intr.{trapped_status}
use esp32_p4_linux_hyperviso.Csr.{Handled}
use esp32_p4_linux_hyperviso.Mmio
use esp32_p4_linux_hyperviso.Mmio.{
  MmioDevice, mmio_find, find_in, device_read, device_write, hypervisor_mmio,
}
use esp32_p4_linux_hyperviso.Mmio.Access.{Outcome}
use esp32_p4_linux_hyperviso.Core.{Result, entry_trap, entered, hypervisor_trap, hypervisor}
use esp32_p4_linux_hyperviso.Core.Faults.{ecall}
use esp32_p4_linux_hyperviso.Core.Faults.{hypervisor-GuestFault}
use esp32_p4_linux_hyperviso.Core.Handlers.{hypervisor-handled}
use esp32_p4_linux_hyperviso.Mmio.Compressed.{hypervisor_mmio-c_lw}
use esp32_p4_linux_hyperviso.Mmio.Access.{hypervisor_mmio_lem}
use esp32_p4_linux_hyperviso.Tests.{busy_plic, some_hyp, code, a_host, a_world, a_frame, a_trap}

hypervisor-GuestFault_example :
    let w = a_world in
    let frame = a_frame 8 0 in
    let h = some_hyp busy_plic in
    let tval : ℕ = 0 in
    (r : Result) × (hypervisor w frame h ≡ some r)
    × (r.handled ≡ true)
    × (r.frame ≡ record frame { mepc = bit_and h.guest.shadow.mtvec (not32 3) })
    × (r.hyp.guest ≡ record (h.guest) {
      shadow = record (h.guest.shadow) {
        mstatus = trapped_status h.guest.shadow.mstatus h.guest.priv;
        mepc = frame.mepc;
        mcause = frame.mcause;
        mtval = tval;
      };
      priv = 3;
    })
hypervisor-GuestFault_example =
    hypervisor-GuestFault a_world (a_frame 8 0) (some_hyp busy_plic) 0 refl (omega arith)
      (omega arith) (ecall refl)

hypervisor-handled_example :
    let w = a_world in
    let frame = a_frame 9 0 in
    let h = some_hyp busy_plic in
    let r : Handled = record {
      outcome = unhandled;
      trap = entry_trap (a_frame 9 0);
      hyp = entered (a_frame 9 0) (some_hyp busy_plic);
    } in
    (result : Result) × (hypervisor w frame h ≡ some result)
    × ((result.handled ≡ false) ↔ (r.outcome ≡ unhandled))
unfolding hypervisor_trap
hypervisor-handled_example =
    hypervisor-handled a_world (a_frame 9 0) (some_hyp busy_plic)
      (record {
        outcome = unhandled;
        trap = entry_trap (a_frame 9 0);
        hyp = entered (a_frame 9 0) (some_hyp busy_plic);
      })
      refl refl refl

hypervisor_mmio-c_lw_example :
    let host = a_host in
    let mem = code 0x4100 in
    let trap = a_trap 5 0x10001070 in
    let h = some_hyp busy_plic in
    let d : MmioDevice = record { index = 3; base = 0x10001000; size = 0x1000; name = Mmio.vblk } in
    let rx : ℕ = 0 in
    let r = hypervisor_mmio host mem trap h in
    let (value, devices) = device_read host d.name (sub32 trap.tval d.base) 4 h.devices in
    (r.outcome ≡ advance)
    × (r.trap.length ≡ 2)
    × (r.trap.frame ≡ reg_write trap.frame (8 + rx) value)
    × (r.hyp.devices ≡ devices)
unfolding mmio_find find_in
hypervisor_mmio-c_lw_example =
    hypervisor_mmio-c_lw a_host (code 0x4100) (a_trap 5 0x10001070) (some_hyp busy_plic)
      (record { index = 3; base = 0x10001000; size = 0x1000; name = Mmio.vblk }) 0 2 0 (omega arith)
      (omega arith) (omega arith) (omega arith) refl refl

hypervisor_mmio_lem_example :
    let host = a_host in
    let mem = code 0x4100 in
    let trap = a_trap 5 0x10000000 in
    let h = some_hyp busy_plic in Outcome trap h (hypervisor_mmio host mem trap h)
hypervisor_mmio_lem_example =
    hypervisor_mmio_lem a_host (code 0x4100) (a_trap 5 0x10000000) (some_hyp busy_plic)
