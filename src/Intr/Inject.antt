-- ===== src/Intr/Inject.antt =====
-- Injecting a trap into the guest, and the guest's mret from it.
use esp32_p4_linux_hyperviso.Base.{
  ℕ, ◌+◌, ◌*◌, ◌/◌, ◌%◌, ◌^◌, ◌<◌, ◌≡◌, ◌≢◌, ◌∙◌, ap, none, bit, bit_and, ◌>>◌, arith,
}
use esp32_p4_linux_hyperviso.Base.Bits.{bit_and_mask, bit_and_shifted, bit_and_step}
use esp32_p4_linux_hyperviso.Frame.{Frame}
use esp32_p4_linux_hyperviso.Decode.{GuestTrap, resume}
use esp32_p4_linux_hyperviso.Monitor.{Hyp}
use esp32_p4_linux_hyperviso.Intr.{
  hyp_inject, hyp_pending_cause, hyp_deliver_pending, trapped_status,
}
use esp32_p4_linux_hyperviso.Intr.Status.{bit-trapped_status, bit-returned_status}
use esp32_p4_linux_hyperviso.Csr.{Cycles, hypervisor_mret, hyp_sync_icache, returned_status}
use esp32_p4_linux_hyperviso.Intr.Pending.{hyp_pending_cause_lem}

mpp_of : (status : ℕ) → bit_and status 0x1800 >> 11 ≡ bit status 11 + 2 * bit status 12
mpp_of status = omega (arith, bit_and_shifted 11 status 3, bit_and_mask 2 (status / 2 ^ 11))

guest-hypervisor_mret :
    (sync : Cycles) (trap : GuestTrap) (h : Hyp)
    → let r = hypervisor_mret sync trap h in
      (r.hyp.guest.priv ≡ bit_and h.guest.shadow.mstatus 0x1800 >> 11)
      × (r.hyp.guest.shadow.mstatus ≡ returned_status h.guest.shadow.mstatus)
unfolding hypervisor_mret hyp_sync_icache
guest-hypervisor_mret sync trap h = ground arith

-- mret after a trap, on mstatus alone.
status_round_trip :
    (status priv k : ℕ)
    → priv < 4
    → k < 32
    → k ≢ 7
    → k ≢ 11
    → k ≢ 12
    → bit (returned_status (trapped_status status priv)) k ≡ bit status k
status_round_trip status priv k p l a b c =
    rw
      (
        bit-returned_status,
        bit-trapped_status status priv k p l,
        bit-trapped_status status priv 7 p (omega arith),
      )
      (ground arith)

priv_round_trip :
    (status priv : ℕ) → priv < 4 → bit_and (trapped_status status priv) 0x1800 >> 11 ≡ priv
priv_round_trip status priv p =
    mpp_of (trapped_status status priv)
    ∙ omega (
      arith,
      bit-trapped_status status priv 11 p (omega arith),
      bit-trapped_status status priv 12 p (omega arith),
    )

-- The guest's mret from an injected trap returns where the trap was taken: to its pc, its
-- privilege and its interrupt enable, whatever the cause; every mstatus bit but MPIE and MPP is as
-- it was before the trap, and the registers are untouched. (The pc 0 is refused, and the
-- recorded privilege is a two-bit number.)
pub hypervisor_mret-hyp_inject :
    (sync : Cycles) (trap : GuestTrap) (cause tval : ℕ) (h : Hyp)
    → h.guest.priv < 4
    → trap.frame.mepc ≢ 0
    → let (frame, h') = hyp_inject trap.frame cause tval h in
      let r = hypervisor_mret sync (record trap { frame = frame }) h' in
      (r.outcome ≡ resume)
      × (r.trap.frame ≡ trap.frame)
      × (r.hyp.guest.priv ≡ h.guest.priv)
      × ((k : ℕ)
          → k < 32
          → k ≢ 7
          → k ≢ 11
          → k ≢ 12
          → bit r.hyp.guest.shadow.mstatus k ≡ bit h.guest.shadow.mstatus k)
unfolding hyp_inject hypervisor_mret
hypervisor_mret-hyp_inject sync trap cause tval h p ne = (
  ground arith,
  ground arith,
  (guest-hypervisor_mret sync (record trap { frame = (hyp_inject trap.frame cause tval h).0 })
        (hyp_inject trap.frame cause tval h).1).0
      ∙ priv_round_trip h.guest.shadow.mstatus h.guest.priv p,
  λ k l a b c.
      ap (λ (status : ℕ). bit status k)
        (guest-hypervisor_mret sync (record trap { frame = (hyp_inject trap.frame cause tval h).0 })
          (hyp_inject trap.frame cause tval h).1).1
      ∙ status_round_trip h.guest.shadow.mstatus h.guest.priv k p l a b c,
)

-- While an injected trap is being handled, its mstatus.MIE closed, nothing is delivered on top of
-- it; and the guest has been sent to a four-aligned address. The recorded privilege is a two-bit
-- number.
pub hyp_inject_masks :
    (now : ℕ) (frame : Frame) (cause tval : ℕ) (h : Hyp)
    → h.guest.priv < 4
    → let (frame', h') = hyp_inject frame cause tval h in
      (hyp_pending_cause now h' ≡ none)
      × (hyp_deliver_pending now frame' h' ≡ (frame', h'))
      × (frame'.mepc % 4 ≡ 0)
hyp_inject_masks now frame cause tval h p =
    let nothing = masked (hyp_inject frame cause tval h).1 gate in
    (
      nothing,
      unfold hyp_deliver_pending in ground (arith, nothing),
      unfold hyp_inject in
          omega (
            arith,
            bit_and_step h.guest.shadow.mtvec 0xFFFFFFFC,
            bit_and_step (h.guest.shadow.mtvec / 2) 0x7FFFFFFE,
          ),
    )
  where
    gate : bit (hyp_inject frame cause tval h).1.guest.shadow.mstatus 3 ≡ 0
    gate =
        unfold hyp_inject in
        bit-trapped_status h.guest.shadow.mstatus h.guest.priv 3 p (omega arith)

    masked : (h' : Hyp) → bit h'.guest.shadow.mstatus 3 ≡ 0 → hyp_pending_cause now h' ≡ none
    masked h' e = (hyp_pending_cause_lem now h').0 e
