-- ===== src/Mmio.antt =====
-- main/hyp_mmio.c: the device table and the load/store decoder.
pub mod Find
pub mod Access
pub mod Line
pub mod Compressed
use esp32_p4_linux_hyperviso.Base.{
  ℕ, ◌+◌, ◌-◌, ◌%◌, ◌^◌, not, ◌&&◌, Option, none, some, List, [], ◌∷◌, bit_and, bit_or, ltb, leb,
  ◌==◌, ◌>>◌, u8, u16, u32, sub32, if◌then◌else◌,
}
use esp32_p4_linux_hyperviso.Frame.{Memory, reg_read, reg_write}
use esp32_p4_linux_hyperviso.Decode.{GuestTrap, unhandled, advance, trap_decode}
use esp32_p4_linux_hyperviso.Plic.{plic_read}
use esp32_p4_linux_hyperviso.Plic.Write.{plic_write}
use esp32_p4_linux_hyperviso.Uart.{uart_read, uart_write}
use esp32_p4_linux_hyperviso.Clint.{clint_read, clint_write}
use esp32_p4_linux_hyperviso.VirtioBlk.{hyp_virtio_blk_read, hyp_virtio_blk_write}
use esp32_p4_linux_hyperviso.Monitor.{
  Devices, Hyp, Host, console, with_console, disk, with_disk, bump,
}
use esp32_p4_linux_hyperviso.Csr.{Handled}

-- The accessors of a row of the table, by the device's name.
pub data DeviceName : Type 0 where
  clint uart plic vblk : DeviceName

-- A row of `mmio_devices` with its index.
pub record MmioDevice : Type 0 where
  pub index : ℕ
  pub base : ℕ
  pub size : ℕ
  pub name : DeviceName

abbrev pub mmio_devices : List MmioDevice
mmio_devices =
    record { index = 0; base = 0x02000000; size = 0x00010000; name = clint }
    ∷ record { index = 1; base = 0x10000000; size = 0x00000100; name = uart }
    ∷ record { index = 2; base = 0x0C000000; size = 0x00400000; name = plic }
    ∷ record { index = 3; base = 0x10001000; size = 0x00001000; name = vblk }
    ∷ []

unfoldable pub find_in : List MmioDevice → ℕ → Option MmioDevice
find_in [] address = none
find_in (d ∷ devices) address =
    if leb d.base address && ltb address (u32 (d.base + d.size))
    then some d
    else find_in devices address

unfoldable pub mmio_find : ℕ → Option MmioDevice
unfolding find_in
mmio_find address = find_in mmio_devices address

-- `device->read(offset, width)`.
unfoldable pub device_read : Host → DeviceName → ℕ → ℕ → Devices → ℕ × Devices
device_read host clint offset width d = (clint_read host.now d.clint offset, d)
device_read host uart offset width d =
    let (value, c) = uart_read (console d) offset width in (value, with_console d c)
device_read host plic offset width d =
    let (value, p) = plic_read d.plic offset in (value, record d { plic = p })
device_read host vblk offset width d = (hyp_virtio_blk_read host.sd_sectors d.blk offset width, d)

-- `device->write(offset, value, width)`.
unfoldable pub device_write : Host → DeviceName → ℕ → ℕ → ℕ → Devices → Devices
device_write host clint offset value width d = record d { clint = clint_write d.clint offset value }
device_write host uart offset value width d =
    with_console d (uart_write host.tx_room (console d) offset value width)
device_write host plic offset value width d = with_console d (plic_write (console d) offset value)
device_write host vblk offset value width d =
    with_disk d (hyp_virtio_blk_write host.sd_ready (disk d) offset value)

-- The sign-extending casts `(uint32_t)(int32_t)(int8_t)` and `(uint32_t)(int32_t)(int16_t)`.
unfoldable pub sign8 : ℕ → ℕ
sign8 v = if ltb (u8 v) (2 ^ 7) then u8 v else u8 v + (2 ^ 32 - 2 ^ 8)

unfoldable pub sign16 : ℕ → ℕ
sign16 v = if ltb (u16 v) (2 ^ 15) then u16 v else u16 v + (2 ^ 32 - 2 ^ 16)

-- A load of `width` bytes: the device is read, then the destination register written.
unfoldable pub mmio_load : Host → MmioDevice → ℕ → (ℕ → ℕ) → GuestTrap → Hyp → Handled
mmio_load host device width extend trap h =
    let offset = sub32 trap.tval device.base in
    let rd = bit_and (trap.encoding >> 7) 0x1f in
    let (value, d) = device_read host device.name offset width h.devices in
    record {
      outcome = advance;
      trap = record trap { frame = reg_write trap.frame rd (extend value) };
      hyp = record h { devices = d };
    }

-- A store of `width` bytes of the source register.
unfoldable pub mmio_store : Host → MmioDevice → ℕ → GuestTrap → Hyp → Handled
mmio_store host device width trap h =
    let offset = sub32 trap.tval device.base in
    let src = reg_read trap.frame (bit_and (trap.encoding >> 20) 0x1f) in
    record {
      outcome = advance;
      trap = trap;
      hyp = record h { devices = device_write host device.name offset src width h.devices };
    }

-- funct3 in bits 0-2, load or store in bit 3.
unfoldable pub mmio_key : ℕ → ℕ
mmio_key instruction = bit_or (bit_and (instruction >> 12) 0x7) (bit_and (instruction >> 2) 0x8)

-- The switch on the access, counted for its device.
unfoldable pub mmio_access : Host → MmioDevice → GuestTrap → Hyp → Handled
mmio_access host device trap h =
    let key = mmio_key trap.encoding in
    let counted = record h {
      stats = record (h.stats) { mmio = bump h.stats.mmio (device.index % 8) };
    } in
    if key == 0x0
    then mmio_load host device 1 sign8 trap counted
    else if key == 0x1
    then mmio_load host device 2 sign16 trap counted
    else if key == 0x2
    then mmio_load host device 4 (λ v. v) trap counted
    else if key == 0x4
    then mmio_load host device 1 (λ v. v) trap counted
    else if key == 0x5
    then mmio_load host device 2 (λ v. v) trap counted
    else if key == 0x8
    then mmio_store host device 1 trap counted
    else if key == 0x9
    then mmio_store host device 2 trap counted
    else if key == 0xa
    then mmio_store host device 4 trap counted
    else record { outcome = unhandled; trap = trap; hyp = counted }

unfoldable pub hypervisor_mmio : Host → Memory → GuestTrap → Hyp → Handled
hypervisor_mmio host mem trap h =
    let (decoded, t) = trap_decode mem trap in
    elim (mmio_find trap.tval) [
      | none ↦ record { outcome = unhandled; trap = trap; hyp = h }
      | some device ↦
          if not decoded
          then record { outcome = unhandled; trap = t; hyp = h }
          else if not (bit_and t.encoding 0x5f == 0x03)
          then record { outcome = unhandled; trap = t; hyp = h }
          else mmio_access host device t h
    ]
