-- ===== src/Mmio/Line.antt =====
-- The UART's interrupt line under the devices' accesses and the poll.
use esp32_p4_linux_hyperviso.Base.{ℕ, ◌≡◌, ◌⊎◌, ◌∙◌, inl, inr, Bool, false, arith}
use esp32_p4_linux_hyperviso.Plic.{plic_set_pending}
use esp32_p4_linux_hyperviso.Plic.Claim.{bit-plic_set_pending, claimed-plic_set_pending}
use esp32_p4_linux_hyperviso.Uart.{Console, uart_read, uart_write}
use esp32_p4_linux_hyperviso.Uart.Line.{
  LineIsKept, in_service, settled, uart_read_from-LineIsKept, uart_write_from-LineIsKept,
  plic_read-LineIsKept, plic_write-LineIsKept, v16550_reeval-LineIsKept,
}
use esp32_p4_linux_hyperviso.VirtioBlk.{Disk, hyp_virtio_blk_write, acknowledge, set_status}
use esp32_p4_linux_hyperviso.Monitor.{Devices, Hyp, Host, Arrivals, console, disk}
use esp32_p4_linux_hyperviso.Intr.{hyp_poll_host_devices}
use esp32_p4_linux_hyperviso.Mmio.{DeviceName, clint, uart, plic, vblk, device_read, device_write}

-- A write to the block device leaves the PLIC alone or lowers the device's own source.
pub blk_write_cases :
    (sd_ready : Bool) (d : Disk) (offset value : ℕ)
    → let p = (hyp_virtio_blk_write sd_ready d offset value).plic in
      (p ≡ d.plic) ⊎ (p ≡ plic_set_pending d.plic 11 false)
unfolding hyp_virtio_blk_write acknowledge set_status
blk_write_cases sd_ready d offset value = ground arith

-- Lowering the block device's source does not touch the UART's.
kept_other :
    (c : Console) → LineIsKept c → LineIsKept (record c { plic = plic_set_pending c.plic 11 false })
kept_other c (in_service e) = in_service (rw (claimed-plic_set_pending c.plic 11 false) e)
kept_other c (settled e) =
    settled (bit-plic_set_pending c.plic 11 10 false (omega arith) (omega arith) ∙ e)

-- Whatever register of whatever device the guest reads or writes, with whatever width, the UART's
-- pending bit in the PLIC goes on to be the state of its line unless its interrupt is in service;
-- and a poll of the host's devices makes it so.
pub device_access-LineIsKept :
    (host : Host) (name : DeviceName) (offset value width : ℕ) (d : Devices) (a : Arrivals)
    (h : Hyp)
    → LineIsKept (console d)
    → LineIsKept (console (device_read host name offset width d).1)
      × LineIsKept (console (device_write host name offset value width d))
      × LineIsKept (console (hyp_poll_host_devices a h).devices)
unfolding device_read device_write uart_read uart_write hyp_poll_host_devices
device_access-LineIsKept host clint offset value width d a h k = (k, k, v16550_reeval-LineIsKept _)
device_access-LineIsKept host uart offset value width d a h k = (
  uart_read_from-LineIsKept _ _ _ _ _ k,
  uart_write_from-LineIsKept _ _ _ _ _ _ k,
  v16550_reeval-LineIsKept _,
)
device_access-LineIsKept host plic offset value width d a h k = (
  plic_read-LineIsKept (console d) offset k,
  plic_write-LineIsKept (console d) offset value k,
  v16550_reeval-LineIsKept _,
)
device_access-LineIsKept host vblk offset value width d a h k =
    (k, written, v16550_reeval-LineIsKept _)
  where
    written : LineIsKept (console (device_write host vblk offset value width d))
    written = elim (blk_write_cases host.sd_ready (disk d) offset value) [
      | inl e ↦ rw e k
      | inr e ↦ rw e (kept_other (console d) k)
    ]
