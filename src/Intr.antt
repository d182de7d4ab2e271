-- ===== src/Intr.antt =====
-- main/hyp_intr.c: shadow mip, injection into the guest, delivery, and the poll of the host's
-- devices. `now` is the systimer's counter at the one snapshot that a call takes.
pub mod Status
pub mod Inject
pub mod Pending
use esp32_p4_linux_hyperviso.Base.{
  ℕ, ◌+◌, Bool, true, false, not, ◌&&◌, ◌||◌, Option, none, some, List, [], ◌∷◌, bit_and, bit_or,
  ◌==◌, has, not32, ◌<<◌, u32, if◌then◌else◌,
}
use esp32_p4_linux_hyperviso.Frame.{Frame}
use esp32_p4_linux_hyperviso.Plic.{meip_pending}
use esp32_p4_linux_hyperviso.Uart.{Uart, uart_rx_push, v16550_reeval}
use esp32_p4_linux_hyperviso.Clint.{Clint, mtip_pending}
use esp32_p4_linux_hyperviso.VirtioBlk.{hyp_virtio_blk_poll}
use esp32_p4_linux_hyperviso.Monitor.{
  Devices, Hyp, Arrivals, console, with_console, disk, with_disk, priv_m, mstatus_mie, mstatus_mpie,
  mstatus_mpp, mstatus_mpp_s, mip_msip, mip_mtip, mip_meip,
}

unfoldable pub shadow_mip_read : ℕ → Hyp → ℕ
shadow_mip_read now h =
    let mip = bit_and h.guest.shadow.mip (not32 (bit_or mip_mtip mip_meip)) in
    let mip' = if mtip_pending now h.devices.clint then bit_or mip mip_mtip else mip in
    if meip_pending h.devices.plic then bit_or mip' mip_meip else mip'

-- `none` is the -1 of the C function.
unfoldable pub hyp_pending_cause : ℕ → Hyp → Option ℕ
hyp_pending_cause now h =
    let s = h.guest.shadow in
    if not (has s.mstatus mstatus_mie)
    then none
    else if has s.mie mip_meip && meip_pending h.devices.plic
    then some 11
    else if has s.mie mip_msip && has s.mip mip_msip
    then some 3
    else if has s.mie mip_mtip && mtip_pending now h.devices.clint
    then some 7
    else none

-- mstatus as a trap into M-mode from privilege `priv` leaves it.
unfoldable pub trapped_status : ℕ → ℕ → ℕ
trapped_status status priv =
    let saved =
      bit_or (bit_and status (not32 mstatus_mpie))
        (if has status mstatus_mie then mstatus_mpie else 0) in
    let closed = bit_and saved (not32 mstatus_mie) in
    bit_or (bit_and closed (not32 mstatus_mpp)) (priv << mstatus_mpp_s)

unfoldable pub hyp_inject : Frame → ℕ → ℕ → Hyp → Frame × Hyp
hyp_inject frame cause tval h =
    let s = h.guest.shadow in
    (
      record frame { mepc = bit_and s.mtvec (not32 0x3) },
      record h {
        guest = record (h.guest) {
          shadow = record s {
            mstatus = trapped_status s.mstatus h.guest.priv;
            mepc = frame.mepc;
            mcause = cause;
            mtval = tval;
          };
          priv = priv_m;
        };
        stats = record (h.stats) { injections = u32 (h.stats.injections + 1) };
      },
    )

unfoldable pub hyp_deliver_pending : ℕ → Frame → Hyp → Frame × Hyp
hyp_deliver_pending now frame h = elim (hyp_pending_cause now h) [
  | none ↦ (frame, h)
  | some cause ↦
      if h.guest.shadow.mtvec == 0
      then (frame, h)
      else hyp_inject frame (bit_or 0x80000000 cause) 0 h
]

-- The loop over the received bytes: Ctrl-^ asks for the statistics, any other byte is pushed.
unfoldable pub drain : List ℕ → Uart → Bool → Uart × Bool
drain [] u wanted = (u, wanted)
drain (c ∷ rx) u wanted =
    drain rx (if c == 0x1e then u else uart_rx_push u c) (if c == 0x1e then true else wanted)

-- The hardware's and core 0's part: what has come in by the time of the poll.
unfoldable pub arrive : Arrivals → Devices → Devices
arrive a d = record d {
  clint = record (d.clint) {
    alarm = record (d.clint.alarm) { int_pending = d.clint.alarm.int_pending || a.alarm_fired };
  };
  blk = record (d.blk) { irq = d.blk.irq || a.completed };
}

unfoldable pub acknowledge_alarm : Clint → Clint
acknowledge_alarm c =
    if c.alarm.int_pending
    then record c { alarm = record (c.alarm) { enabled = false; int_pending = false } }
    else c

unfoldable pub hyp_poll_host_devices : Arrivals → Hyp → Hyp
hyp_poll_host_devices a h =
    let d = arrive a h.devices in
    let (u, wanted) =
      if a.rx_status then drain a.rx d.uart h.stats_wanted else (d.uart, h.stats_wanted) in
    let d' = record d { clint = acknowledge_alarm d.clint; uart = u } in
    let polled = with_disk d' (hyp_virtio_blk_poll (disk d')) in
    record h {
      devices = with_console polled (v16550_reeval (console polled));
      stats_wanted = wanted;
    }
