-- ===== src/Csr/Wfi.antt =====
-- The wfi loop: when the guest's core comes back from its sleep, and when it cannot.
use esp32_p4_linux_hyperviso.Base.{
  ℕ, ◌+◌, ◌<◌, ◌≤◌, ◌≡◌, ◌∙◌, inl, inr, refl, ap, none, some, List, [], ◌∷◌, Bool, true, false, bit,
  Bool-cases, arith, u32,
}
use esp32_p4_linux_hyperviso.Base.Bits.{has-bit, bit-zero}
use esp32_p4_linux_hyperviso.Plic.{Plic, plic_peek, plic_set_pending, meip_pending}
use esp32_p4_linux_hyperviso.Plic.Peek.{plic_peek_lem}
use esp32_p4_linux_hyperviso.Uart.{Console, v16550_reeval}
use esp32_p4_linux_hyperviso.Clint.{mtip_pending, hyp_mtime_max}
use esp32_p4_linux_hyperviso.VirtioBlk.{Disk, hyp_virtio_blk_poll}
use esp32_p4_linux_hyperviso.Monitor.{Hyp, Arrivals}
use esp32_p4_linux_hyperviso.Intr.{hyp_poll_host_devices, arrive, acknowledge_alarm}
use esp32_p4_linux_hyperviso.Csr.{
  Round, Cycles, hyp_wfi_wake, wfi_loop, wfi_done, wfi_timer_armed, wfi_ext_armed, hypervisor_wfi,
}

enable-plic_set_pending :
    (p : Plic) (source : ℕ) (b : Bool) → (plic_set_pending p source b).enable ≡ p.enable
unfolding plic_set_pending
enable-plic_set_pending p source b = ground arith

enable-v16550_reeval : (c : Console) → (v16550_reeval c).plic.enable ≡ c.plic.enable
unfolding v16550_reeval
enable-v16550_reeval c = enable-plic_set_pending c.plic 10 _

enable-hyp_virtio_blk_poll : (d : Disk) → (hyp_virtio_blk_poll d).plic.enable ≡ d.plic.enable
unfolding hyp_virtio_blk_poll
enable-hyp_virtio_blk_poll d = ground (arith, enable-plic_set_pending d.plic 11 true)

-- A poll leaves the guest's CSRs, its deadline and the enabled sources alone.
hyp_poll_host_devices_keeps :
    (a : Arrivals) (h : Hyp)
    → let h' = hyp_poll_host_devices a h in
      (h'.guest ≡ h.guest)
      × (h'.devices.clint.mtimecmp ≡ h.devices.clint.mtimecmp)
      × (h'.devices.plic.enable ≡ h.devices.plic.enable)
unfolding hyp_poll_host_devices arrive acknowledge_alarm
hyp_poll_host_devices_keeps a h =
    (refl, ground arith, enable-v16550_reeval _ ∙ enable-hyp_virtio_blk_poll _)

-- Some round's snapshot of the counter has reached the deadline.
pub data Reaches (deadline : ℕ) : List Round → Type 0 where
  here : {r : Round} {rounds : List Round} → deadline ≤ r.now → Reaches deadline (r ∷ rounds)
  later :
      {r : Round} {rounds : List Round} → Reaches deadline rounds → Reaches deadline (r ∷ rounds)

wake_on_timer :
    (now : ℕ) (h : Hyp)
    → bit h.guest.shadow.mie 7 ≡ 1
    → h.devices.clint.mtimecmp ≤ now
    → hyp_wfi_wake now h ≡ true
unfolding hyp_wfi_wake mtip_pending
wake_on_timer now h e l = ground (arith, has-bit 7 h.guest.shadow.mie)

wfi_loop_returns :
    (rounds : List Round) (h : Hyp)
    → bit h.guest.shadow.mie 7 ≡ 1
    → Reaches h.devices.clint.mtimecmp rounds
    → (h' : Hyp) × (wfi_loop rounds h ≡ some h') × (h'.guest ≡ h.guest)
unfolding wfi_loop
wfi_loop_returns [] h e x = elim x [ ]
wfi_loop_returns (r ∷ rounds) h e (here l) = (h, rw (wake_on_timer r.now h e l), refl)
wfi_loop_returns (r ∷ rounds) h e (later more) = elim (Bool-cases (hyp_wfi_wake r.now h)) [
  | inl awake ↦ (h, rw awake, refl)
  | inr asleep ↦
      let kept = hyp_poll_host_devices_keeps r.arrivals h in
      let (h', k, g) =
        wfi_loop_returns rounds (hyp_poll_host_devices r.arrivals h)
          (ap (λ g. bit g.shadow.mie 7) kept.0 ∙ e) (rw kept.1 more) in
      (h', rw asleep k, g ∙ kept.0)
]

-- wfi comes back to the guest, whatever the devices bring, as soon as one round of its loop sees the
-- counter at or past the deadline, when the guest has enabled its timer interrupt and the deadline
-- is below the "never" value; the guest's CSRs are then as they were before the instruction.
pub hypervisor_wfi-returns :
    (sleep : Cycles) (rounds : List Round) (h : Hyp)
    → bit h.guest.shadow.mie 7 ≡ 1
    → h.devices.clint.mtimecmp < hyp_mtime_max
    → Reaches h.devices.clint.mtimecmp rounds
    → (h' : Hyp) × (hypervisor_wfi sleep rounds h ≡ some h') × (h'.guest ≡ h.guest)
unfolding hypervisor_wfi wfi_timer_armed wfi_done
hypervisor_wfi-returns sleep rounds h e l x =
    let armed : wfi_timer_armed h ≡ true = ground (arith, has-bit 7 h.guest.shadow.mie) in
    let (h', k, g) =
      wfi_loop_returns rounds
        (record h {
          stats = record (h.stats) { wfi_blocks = u32 (h.stats.wfi_blocks + 1) };
          in_wfi = true;
        })
        e x in
    (wfi_done sleep h', rw (armed, k) refl, g)

-- Nothing that the code waits for can come: no source is enabled, and the deadline stays ahead.
pub data OutOfReach (deadline : ℕ) : List Round → Type 0 where
  done : OutOfReach deadline []
  turn :
      {r : Round} {rounds : List Round}
      → r.now < deadline
      → OutOfReach deadline rounds
      → OutOfReach deadline (r ∷ rounds)

meip_pending-nothing : (p : Plic) → p.enable ≡ 0 → meip_pending p ≡ false
unfolding meip_pending
meip_pending-nothing p e = elim (Bool-cases (meip_pending p)) [
  | inr c ↦ c
  | inl c ↦
      let b = ((plic_peek_lem p).0 (λ z. ground (arith, z))).enabled in
      let z : bit p.enable (plic_peek p) ≡ 0 =
        ap (λ x. bit x (plic_peek p)) e ∙ bit-zero (plic_peek p) in
      absurd (omega arith)
]

stays_asleep :
    (now : ℕ) (h : Hyp)
    → h.devices.plic.enable ≡ 0
    → bit h.guest.shadow.mip 3 ≡ 0
    → now < h.devices.clint.mtimecmp
    → hyp_wfi_wake now h ≡ false
unfolding hyp_wfi_wake mtip_pending
stays_asleep now h e m l =
    ground (arith, has-bit 3 h.guest.shadow.mip, meip_pending-nothing h.devices.plic e)

wfi_loop_sleeps :
    (rounds : List Round) (h : Hyp)
    → h.devices.plic.enable ≡ 0
    → bit h.guest.shadow.mip 3 ≡ 0
    → OutOfReach h.devices.clint.mtimecmp rounds
    → wfi_loop rounds h ≡ none
unfolding wfi_loop
wfi_loop_sleeps [] h e m x = refl
wfi_loop_sleeps (r ∷ rounds) h e m (turn l more) =
    let kept = hyp_poll_host_devices_keeps r.arrivals h in
    rw (stays_asleep r.now h e m l) (
      wfi_loop_sleeps rounds (hyp_poll_host_devices r.arrivals h) (kept.2 ∙ e)
        (ap (λ g. bit g.shadow.mip 3) kept.0 ∙ m) (rw kept.1 more))

-- wfi does not come back, after any number of rounds and whatever arrives in them, when the guest
-- has set mie.MEIE but enabled no source in the PLIC, no software interrupt is pending, and no round
-- sees the counter reach the deadline.
pub hypervisor_wfi-sleeps :
    (sleep : Cycles) (rounds : List Round) (h : Hyp)
    → bit h.guest.shadow.mie 11 ≡ 1
    → h.devices.plic.enable ≡ 0
    → bit h.guest.shadow.mip 3 ≡ 0
    → OutOfReach h.devices.clint.mtimecmp rounds
    → hypervisor_wfi sleep rounds h ≡ none
unfolding hypervisor_wfi wfi_ext_armed
hypervisor_wfi-sleeps sleep rounds h b e m x =
    let armed : wfi_ext_armed h ≡ true = ground (arith, has-bit 11 h.guest.shadow.mie) in
    rw
      (
        armed,
        wfi_loop_sleeps rounds
            (record h {
              stats = record (h.stats) { wfi_blocks = u32 (h.stats.wfi_blocks + 1) };
              in_wfi = true;
            })
            e m x,
      )
      (ground arith)
