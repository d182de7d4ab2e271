-- ===== src/Core/Paths.antt =====
-- The ways through `hypervisor_trap` of main/hyp_core.c.
use esp32_p4_linux_hyperviso.Base.{ℕ, ◌==◌, if_keeps, Ensures, some-Ensures}
use esp32_p4_linux_hyperviso.Decode.{GuestTrap, unhandled}
use esp32_p4_linux_hyperviso.Monitor.{Hyp}
use esp32_p4_linux_hyperviso.Csr.{Handled, hypervisor_csr}
use esp32_p4_linux_hyperviso.Core.{World, inject_or_refuse, access_fault, hypervisor_trap}

-- What holds of each handler's answer and of a refusal holds of whatever the dispatch returns.
pub hypervisor_trap-Ensures :
    (P : Handled → Type 0) (w : World) (trap : GuestTrap) (h : Hyp)
    → Ensures P (hypervisor_csr w.csr w.memory trap h)
    → ((cause tval : ℕ) → P (inject_or_refuse cause tval trap h))
    → P (access_fault w trap h)
    → P (record { outcome = unhandled; trap = trap; hyp = h })
    → Ensures P (hypervisor_trap w trap h)
unfolding hypervisor_trap
hypervisor_trap-Ensures P w trap h csr inject fault refused =
    if_keeps (Ensures P) (trap.cause == 2) csr (
      if_keeps (Ensures P) (trap.cause == 3) (some-Ensures P _ (inject 3 trap.frame.mepc)) (
        if_keeps (Ensures P) (trap.cause == 5) (some-Ensures P _ fault) (
          if_keeps (Ensures P) (trap.cause == 7) (some-Ensures P _ fault) (
            if_keeps (Ensures P) (trap.cause == 8) (some-Ensures P _ (inject 8 0))
              (some-Ensures P _ refused)))))
