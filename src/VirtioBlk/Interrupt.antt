-- ===== src/VirtioBlk/Interrupt.antt =====
-- The device's interrupt line under the guest's register writes and the poll.
use esp32_p4_linux_hyperviso.Base.{
  ℕ, ◌≡◌, ◌≢◌, ◌∙◌, sym, Bool, true, false, bit, bit_and, bit_or, not32, ◌==◌, if◌then◌else◌, arith,
}
use esp32_p4_linux_hyperviso.Base.Bits.{bit_or_step}
use native.Mathlib.Decide.{ℕ_discrete}
use Prim.Native.Nat.{bit_and-bitwise}
use esp32_p4_linux_hyperviso.Plic.{Plic, plic_set_pending}
use esp32_p4_linux_hyperviso.Plic.Claim.{bit-plic_set_pending}
use esp32_p4_linux_hyperviso.VirtioBlk.{
  Blk, Disk, acknowledge, set_status, set_queue_pfn, hyp_virtio_blk_write, hyp_virtio_blk_poll,
}

-- An interrupt that the guest has not acknowledged is pending or in service, and without one the
-- line is down.
pub data BlkLineIsKept (d : Disk) : Type 0 where
  quiet : d.blk.interrupt_status ≡ 0 → bit d.plic.pending 11 ≡ 0 → BlkLineIsKept d
  raised : d.blk.interrupt_status ≢ 0 → bit d.plic.pending 11 ≡ 1 → BlkLineIsKept d
  in_service : d.blk.interrupt_status ≢ 0 → bit d.plic.claimed 11 ≡ 1 → BlkLineIsKept d

lowered : (plic : Plic) → bit (plic_set_pending plic 11 false).pending 11 ≡ 0
lowered plic = bit-plic_set_pending plic 11 11 false (omega arith) (omega arith)

lifted : (plic : Plic) → bit (plic_set_pending plic 11 true).pending 11 ≡ 1
lifted plic = bit-plic_set_pending plic 11 11 true (omega arith) (omega arith)

zero_and : (mask : ℕ) → bit_and 0 mask ≡ 0
zero_and mask = bit_and-bitwise 0 mask

or_one : (x : ℕ) → bit_or x 1 ≢ 0
or_one x = omega (arith, bit_or_step x 1)

hyp_virtio_blk_poll-BlkLineIsKept :
    (d : Disk) → BlkLineIsKept d → BlkLineIsKept (hyp_virtio_blk_poll d)
unfolding hyp_virtio_blk_poll
hyp_virtio_blk_poll-BlkLineIsKept d h = grind (arith, raised, or_one, lifted)

-- Only a nonzero status can have bits left after an acknowledgement.
left-ne-zero : (status mask : ℕ) → bit_and status mask ≢ 0 → status ≢ 0
left-ne-zero status mask h e = h (rw e (zero_and mask))

acknowledged :
    (d : Disk) (left : ℕ)
    → (left ≢ 0 → d.blk.interrupt_status ≢ 0)
    → BlkLineIsKept d
    → BlkLineIsKept (record d {
      blk = record (d.blk) { interrupt_status = left };
      plic = if left == 0 then plic_set_pending d.plic 11 false else d.plic;
    })
acknowledged d left some_left h = elim (ℕ_discrete left 0) [
  | yes e ↦ quiet e (ground (arith, lowered d.plic))
  | no ne ↦ elim h [
    | quiet e p ↦ absurd (some_left ne e)
    | raised e p ↦ raised ne (ground arith)
    | in_service e p ↦ in_service ne (ground arith)
  ]
]

acknowledge-BlkLineIsKept :
    (d : Disk) (value : ℕ) → BlkLineIsKept d → BlkLineIsKept (acknowledge d value)
unfolding acknowledge
acknowledge-BlkLineIsKept d value h =
    acknowledged d (bit_and d.blk.interrupt_status (not32 value))
      (left-ne-zero d.blk.interrupt_status (not32 value)) h

-- Only the interrupt status counts among the device's own fields.
kept_blk :
    (d : Disk) (blk : Blk)
    → blk.interrupt_status ≡ d.blk.interrupt_status
    → BlkLineIsKept d
    → BlkLineIsKept (record d { blk = blk })
kept_blk d blk e (quiet s p) = quiet (e ∙ s) p
kept_blk d blk e (raised s p) = raised (λ z. s (sym e ∙ z)) p
kept_blk d blk e (in_service s p) = in_service (λ z. s (sym e ∙ z)) p

set_status-BlkLineIsKept :
    (d : Disk) (value : ℕ) → BlkLineIsKept d → BlkLineIsKept (set_status d value)
unfolding set_status
set_status-BlkLineIsKept d value h = grind (arith, quiet, lowered, kept_blk)

-- Every write of the guest to a register of the block device, of any offset and value, keeps the line
-- right: an unacknowledged interrupt stays pending or in service, and with none the line is down. Writes
-- to the interrupt controller's own registers are not among them. The poll keeps the line right too, and
-- raises it for a completion.
pub hyp_virtio_blk_write-BlkLineIsKept :
    (sd_ready : Bool) (d : Disk) (offset value : ℕ)
    → BlkLineIsKept d
    → BlkLineIsKept (hyp_virtio_blk_write sd_ready d offset value)
      × BlkLineIsKept (hyp_virtio_blk_poll d)
      × (d.blk.irq ≡ true
          → let d' = hyp_virtio_blk_poll d in
            (d'.blk.irq ≡ false)
            × (bit d'.plic.pending 11 ≡ 1)
            × (bit d'.blk.interrupt_status 0 ≡ 1))
hyp_virtio_blk_write-BlkLineIsKept sd_ready d offset value h =
    (writes, hyp_virtio_blk_poll-BlkLineIsKept d h, polled)
  where
    writes : BlkLineIsKept (hyp_virtio_blk_write sd_ready d offset value)
    writes =
        unfold hyp_virtio_blk_write set_queue_pfn in
        grind (arith, acknowledge-BlkLineIsKept, set_status-BlkLineIsKept, kept_blk)

    polled :
        d.blk.irq ≡ true
        → let d' = hyp_virtio_blk_poll d in
          (d'.blk.irq ≡ false) × (bit d'.plic.pending 11 ≡ 1) × (bit d'.blk.interrupt_status 0 ≡ 1)
    polled e =
        unfold hyp_virtio_blk_poll in
        ground (arith, lifted d.plic, bit_or_step d.blk.interrupt_status 1)
