-- ===== src/Tests/Csrs.antt =====
-- A CSR instruction of the guest: csrrs x5, mie, x2.
use esp32_p4_linux_hyperviso.Base.{refl, arith}
use esp32_p4_linux_hyperviso.Frame.{reg_read}
use esp32_p4_linux_hyperviso.Csr.{hypervisor_csr}
use esp32_p4_linux_hyperviso.Csr.Encoded.{csr_encoding, CsrDone, hypervisor_csr-CsrDone}
use esp32_p4_linux_hyperviso.Tests.{busy_plic, some_hyp, code, a_trap, a_world}

hypervisor_csr-CsrDone_example :
    let trap = a_trap 2 (csr_encoding 0x304 2 2 5) in
    CsrDone 6000 0x304 2 2 5 trap
      (some_hyp busy_plic)
      (hypervisor_csr (a_world.csr) (code 0x4100) trap (some_hyp busy_plic))
unfolding reg_read
hypervisor_csr-CsrDone_example =
    hypervisor_csr-CsrDone (a_world.csr) (code 0x4100) 0x304 2 2 5
      (a_trap 2 (csr_encoding 0x304 2 2 5)) (some_hyp busy_plic) refl refl (omega arith)
      (omega arith) (omega arith) (omega arith) (omega arith) (omega arith) (omega arith)
      (record { cfg = refl; addr = refl })
