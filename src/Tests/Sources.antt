-- ===== src/Tests/Sources.antt =====
-- Interrupt sources: the PLIC, the UART and the lines of the devices.
use esp32_p4_linux_hyperviso.Base.{
  ℕ, ◌+◌, ◌<◌, ◌≤◌, ◌≡◌, ◌≢◌, refl, true, false, bit, arith, [], ◌∷◌, ◌++◌, length, u32,
  if◌then◌else◌, ◌==◌,
}
use esp32_p4_linux_hyperviso.Plic.{plic_peek, plic_claim}
use esp32_p4_linux_hyperviso.Plic.Peek.{Claimable, priority_of}
use esp32_p4_linux_hyperviso.Uart.{uart_rx_push}
use esp32_p4_linux_hyperviso.Uart.Queue.{RingIsValid, unread}
use esp32_p4_linux_hyperviso.VirtioBlk.{hyp_virtio_blk_write, hyp_virtio_blk_poll}
use esp32_p4_linux_hyperviso.VirtioBlk.Interrupt.{BlkLineIsKept, quiet}
use esp32_p4_linux_hyperviso.Monitor.{disk}
use esp32_p4_linux_hyperviso.Plic.Peek.{plic_peek_lem}
use esp32_p4_linux_hyperviso.Plic.Claim.{plic_claim_lem}
use esp32_p4_linux_hyperviso.Uart.Queue.{uart_rx_push_refines}
use esp32_p4_linux_hyperviso.VirtioBlk.Interrupt.{hyp_virtio_blk_write-BlkLineIsKept}
use esp32_p4_linux_hyperviso.Tests.{busy_plic, quiet_plic, a_uart, some_devices}

plic_peek_lem_example :
    let plic = busy_plic in
    (plic_peek plic ≢ 0 → Claimable plic (plic_peek plic))
    × (plic_peek plic ≡ 0 → (n : ℕ) → ¬ Claimable plic n)
    × ((n : ℕ)
        → Claimable plic n
        → (priority_of plic n ≤ priority_of plic (plic_peek plic))
          × (priority_of plic n ≡ priority_of plic (plic_peek plic) → plic_peek plic ≤ n))
plic_peek_lem_example = plic_peek_lem busy_plic

plic_claim_lem_example :
    let plic = busy_plic in
    let (source, plic') = plic_claim plic in
    (source ≡ plic_peek plic)
    × (source ≡ 0 → plic' ≡ plic)
    × (source ≢ 0
        → (m : ℕ) → m < 32
        → (bit plic'.pending m ≡ (if source == m then 0 else bit plic.pending m))
          × (bit plic'.claimed m ≡ (if source == m then 1 else bit plic.claimed m)))
    × (source ≢ 0 → (raised : ℕ) → plic_peek (record plic' { pending = raised }) ≢ source)
plic_claim_lem_example = plic_claim_lem busy_plic

uart_rx_push_refines_example :
    let u = a_uart in
    let c : ℕ = 66 in
    let u' = uart_rx_push u c in
    RingIsValid u'
    × (length (unread u) < 511 → (unread u' ≡ unread u ++ (c ∷ [])) × (u'.overruns ≡ u.overruns))
    × (511 ≤ length (unread u) → u' ≡ record u { overruns = u32 (u.overruns + 1) })
uart_rx_push_refines_example =
    uart_rx_push_refines a_uart 66
      (record { storage = refl; head_in = omega arith; tail_in = omega arith })

hyp_virtio_blk_write-BlkLineIsKept_example :
    let sd_ready = true in
    let d = disk (some_devices quiet_plic) in
    let offset : ℕ = 0x70 in
    let value : ℕ = 0 in
    BlkLineIsKept (hyp_virtio_blk_write sd_ready d offset value)
    × BlkLineIsKept (hyp_virtio_blk_poll d)
    × (d.blk.irq ≡ true
        → let d' = hyp_virtio_blk_poll d in
          (d'.blk.irq ≡ false) × (bit d'.plic.pending 11 ≡ 1) × (bit d'.blk.interrupt_status 0 ≡ 1))
hyp_virtio_blk_write-BlkLineIsKept_example =
    hyp_virtio_blk_write-BlkLineIsKept true (disk (some_devices quiet_plic)) 0x70 0
      (quiet refl refl)
