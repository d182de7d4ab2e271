-- ===== src/Invariant/Access.antt =====
-- The devices' part of the invariant: register accesses of the guest and the poll of the host's
-- devices.
use esp32_p4_linux_hyperviso.Base.{
  ℕ, ◌≡◌, ◌∙◌, inl, inr, refl, Bool, true, false, List, [], ◌∷◌, length, arith, if_keeps, ◌==◌,
  if◌then◌else◌,
}
use esp32_p4_linux_hyperviso.Uart.{Uart, uart_read, uart_write}
use esp32_p4_linux_hyperviso.Uart.Queue.{RingIsValid, uart_rx_push_refines}
use esp32_p4_linux_hyperviso.Uart.Line.{LineIsKept, v16550_reeval-LineIsKept}
use esp32_p4_linux_hyperviso.Clint.{Clint, hyp_arm_timer, clint_write}
use esp32_p4_linux_hyperviso.VirtioBlk.{Disk, hyp_virtio_blk_write, hyp_virtio_blk_poll}
use esp32_p4_linux_hyperviso.Monitor.{Devices, Hyp, Host, Arrivals, console, disk}
use esp32_p4_linux_hyperviso.Intr.{drain, arrive, acknowledge_alarm, hyp_poll_host_devices}
use esp32_p4_linux_hyperviso.Mmio.{DeviceName, clint, uart, plic, vblk, device_read, device_write}
use esp32_p4_linux_hyperviso.Mmio.Line.{device_access-LineIsKept, blk_write_cases}
use esp32_p4_linux_hyperviso.Invariant.{ConsoleIsValid, AlarmIsKept, DevicesIsValid}
use esp32_p4_linux_hyperviso.Invariant.Serial.{
  Sound, sources-plic_set_pending, uart_read_from-Sound, uart_write_from-Sound, sources-plic_read,
  plic_write-Sound, v16550_reeval-Sound,
}

hyp_arm_timer-AlarmIsKept : (c : Clint) → AlarmIsKept (hyp_arm_timer c)
unfolding hyp_arm_timer
hyp_arm_timer-AlarmIsKept c = ground arith

clint_write-AlarmIsKept :
    (c : Clint) (offset value : ℕ) → AlarmIsKept c → AlarmIsKept (clint_write c offset value)
unfolding clint_write
clint_write-AlarmIsKept c offset value k = grind (arith, hyp_arm_timer-AlarmIsKept)

acknowledge_alarm-AlarmIsKept : (c : Clint) → AlarmIsKept c → AlarmIsKept (acknowledge_alarm c)
unfolding acknowledge_alarm
acknowledge_alarm-AlarmIsKept c k = ground (arith, k.on_time)

-- A poll that finds nothing.
abbrev quiet : Arrivals
quiet = record { alarm_fired = false; completed = false; rx_status = false; rx = [] }

-- What the accesses and the poll keep of the console, apart from the line.
abbrev Kept : Devices → Type 0
Kept d = Sound (console d)

sound : (d : Devices) → ConsoleIsValid d → Kept d
sound d v = record { ring = v.ring; sources = v.sources }

read-Sound :
    (host : Host) (name : DeviceName) (offset width : ℕ) (d : Devices)
    → Kept d
    → Kept (device_read host name offset width d).1
unfolding device_read uart_read
read-Sound host clint offset width d s = s
read-Sound host uart offset width d s = uart_read_from-Sound width 0 offset (console d) 0 s
read-Sound host plic offset width d s = record {
  ring = s.ring;
  sources = sources-plic_read d.plic offset ∙ s.sources;
}
read-Sound host vblk offset width d s = s

write-Sound :
    (host : Host) (name : DeviceName) (offset value width : ℕ) (d : Devices)
    → Kept d
    → Kept (device_write host name offset value width d)
unfolding device_write uart_write
write-Sound host clint offset value width d s = s
write-Sound host uart offset value width d s =
    uart_write_from-Sound host.tx_room width 0 offset value (console d) s
write-Sound host plic offset value width d s = plic_write-Sound (console d) offset value s
write-Sound host vblk offset value width d s = record { ring = s.ring; sources = kept ∙ s.sources }
  where
    kept :
        length (hyp_virtio_blk_write host.sd_ready (disk d) offset value).plic.priority
        ≡ length d.plic.priority
    kept = elim (blk_write_cases host.sd_ready (disk d) offset value) [
      | inl e ↦ rw e refl
      | inr e ↦ rw e (sources-plic_set_pending d.plic 11 false)
    ]

read-AlarmIsKept :
    (host : Host) (name : DeviceName) (offset width : ℕ) (d : Devices)
    → (device_read host name offset width d).1.clint ≡ d.clint
unfolding device_read
read-AlarmIsKept host clint offset width d = refl
read-AlarmIsKept host uart offset width d = refl
read-AlarmIsKept host plic offset width d = refl
read-AlarmIsKept host vblk offset width d = refl

write-AlarmIsKept :
    (host : Host) (name : DeviceName) (offset value width : ℕ) (d : Devices)
    → AlarmIsKept d.clint
    → AlarmIsKept (device_write host name offset value width d).clint
unfolding device_write
write-AlarmIsKept host clint offset value width d k = clint_write-AlarmIsKept d.clint offset value k
write-AlarmIsKept host uart offset value width d k = k
write-AlarmIsKept host plic offset value width d k = k
write-AlarmIsKept host vblk offset value width d k = k

valid : (d : Devices) → Kept d → LineIsKept (console d) → AlarmIsKept d.clint → DevicesIsValid d
valid d s l k = record {
  console = record { ring = s.ring; line = l; sources = s.sources };
  alarm = k;
}

pub device_read-DevicesIsValid :
    (host : Host) (name : DeviceName) (offset width : ℕ) (d : Devices) (h : Hyp)
    → DevicesIsValid d
    → DevicesIsValid (device_read host name offset width d).1
device_read-DevicesIsValid host name offset width d h v =
    valid (device_read host name offset width d).1
      (read-Sound host name offset width d (sound d v.console))
      (device_access-LineIsKept host name offset 0 width d quiet h v.console.line).0
      (rw (read-AlarmIsKept host name offset width d) v.alarm)

pub device_write-DevicesIsValid :
    (host : Host) (name : DeviceName) (offset value width : ℕ) (d : Devices) (h : Hyp)
    → DevicesIsValid d
    → DevicesIsValid (device_write host name offset value width d)
device_write-DevicesIsValid host name offset value width d h v =
    valid (device_write host name offset value width d)
      (write-Sound host name offset value width d (sound d v.console))
      (device_access-LineIsKept host name offset value width d quiet h v.console.line).1
      (write-AlarmIsKept host name offset value width d v.alarm)

drain-RingIsValid :
    (rx : List ℕ) (u : Uart) (wanted : Bool) → RingIsValid u → RingIsValid (drain rx u wanted).0
unfolding drain
drain-RingIsValid [] u wanted v = v
drain-RingIsValid (c ∷ rx) u wanted v =
    drain-RingIsValid rx _ _ (if_keeps RingIsValid (c == 0x1e) v (uart_rx_push_refines u c v).0)

blk_poll-sources :
    (k : Disk) → length (hyp_virtio_blk_poll k).plic.priority ≡ length k.plic.priority
unfolding hyp_virtio_blk_poll
blk_poll-sources k = ground (arith, sources-plic_set_pending k.plic 11 true)

pub hyp_poll_host_devices-DevicesIsValid :
    (a : Arrivals) (h : Hyp)
    → DevicesIsValid h.devices
    → DevicesIsValid (hyp_poll_host_devices a h).devices
unfolding hyp_poll_host_devices arrive
hyp_poll_host_devices-DevicesIsValid a h v =
    valid (hyp_poll_host_devices a h).devices
      (v16550_reeval-Sound _
        (record { ring = drained; sources = blk_poll-sources _ ∙ v.console.sources }))
      (v16550_reeval-LineIsKept _)
      (acknowledge_alarm-AlarmIsKept _ (record { on_time = v.alarm.on_time }))
  where
    drained :
        RingIsValid
          (if a.rx_status
            then drain a.rx h.devices.uart h.stats_wanted
            else (h.devices.uart, h.stats_wanted)).0
    drained =
        if_keeps (λ (r : Uart × Bool). RingIsValid r.0) a.rx_status
          (drain-RingIsValid a.rx h.devices.uart h.stats_wanted v.console.ring) v.console.ring
