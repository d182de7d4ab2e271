-- ===== src/Mmio/Compressed.antt =====
-- Compressed loads and stores at a device, from the halfword in memory to the device's register.
use esp32_p4_linux_hyperviso.Base.{
  ℕ, ◌+◌, ◌*◌, ◌<◌, ◌≡◌, ◌≢◌, ◌∙◌, refl, ap, Bool, true, ◌&&◌, some, bit_and, ◌>>◌, ◌==◌, sub32,
  arith, not,
}
use esp32_p4_linux_hyperviso.Base.Finite.{holds_below, holds_below_sound}
use esp32_p4_linux_hyperviso.Frame.{Memory, load16, reg_read, reg_write}
use esp32_p4_linux_hyperviso.Decode.{GuestTrap, advance, guest_fetch, rvc_expand, trap_decode}
use esp32_p4_linux_hyperviso.Decode.Rvc.{c_lw, c_sw, lw, sw, rvc_expand-compressed}
use esp32_p4_linux_hyperviso.Monitor.{Hyp, Host}
use esp32_p4_linux_hyperviso.Mmio.{
  MmioDevice, mmio_find, device_read, device_write, mmio_load, mmio_store, mmio_key, mmio_access,
  hypervisor_mmio,
}

-- What the decoder reads in an expanded load and in an expanded store.
load_fields : ℕ → ℕ → ℕ → Bool
load_fields rx rs1 w =
    let i = lw (8 + rx) (8 + rs1) (4 * w) in
    bit_and (c_lw rx rs1 w) 3 == 0
    && (not (i == 0)
        && (mmio_key i == 2 && (bit_and (i >> 7) 0x1f == 8 + rx && bit_and i 0x5f == 3)))

store_fields : ℕ → ℕ → ℕ → Bool
store_fields rx rs1 w =
    let i = sw (8 + rx) (8 + rs1) (4 * w) in
    bit_and (c_sw rx rs1 w) 3 == 0
    && (not (i == 0)
        && (mmio_key i == 0xa && (bit_and (i >> 20) 0x1f == 8 + rx && bit_and i 0x5f == 3)))

all_below : (ℕ → ℕ → ℕ → Bool) → Bool
all_below test = holds_below 8 (λ rx. holds_below 8 (λ rs1. holds_below 32 (test rx rs1)))

all_below_sound :
    (test : ℕ → ℕ → ℕ → Bool) (rx rs1 w : ℕ)
    → all_below test ≡ true
    → rx < 8
    → rs1 < 8
    → w < 32
    → test rx rs1 w ≡ true
unfolding all_below
all_below_sound test rx rs1 w h hx hs hw =
    holds_below_sound 32 _ w (holds_below_sound 8 _ rs1 (holds_below_sound 8 _ rx h hx) hs) hw

load_table : all_below load_fields ≡ true
unfolding all_below load_fields holds_below mmio_key
load_table = refl

store_table : all_below store_fields ≡ true
unfolding all_below store_fields holds_below mmio_key
store_table = refl

load_facts :
    (rx rs1 w : ℕ)
    → rx < 8
    → rs1 < 8
    → w < 32
    → let i = lw (8 + rx) (8 + rs1) (4 * w) in
      (bit_and (c_lw rx rs1 w) 3 ≡ 0)
      × (i ≢ 0)
      × (mmio_key i ≡ 2)
      × (bit_and (i >> 7) 0x1f ≡ 8 + rx)
      × (bit_and i 0x5f ≡ 3)
unfolding load_fields
load_facts rx rs1 w hx hs hw =
    ground (arith, all_below_sound load_fields rx rs1 w load_table hx hs hw)

store_facts :
    (rx rs1 w : ℕ)
    → rx < 8
    → rs1 < 8
    → w < 32
    → let i = sw (8 + rx) (8 + rs1) (4 * w) in
      (bit_and (c_sw rx rs1 w) 3 ≡ 0)
      × (i ≢ 0)
      × (mmio_key i ≡ 0xa)
      × (bit_and (i >> 20) 0x1f ≡ 8 + rx)
      × (bit_and i 0x5f ≡ 3)
unfolding store_fields
store_facts rx rs1 w hx hs hw =
    ground (arith, all_below_sound store_fields rx rs1 w store_table hx hs hw)

-- A compressed halfword that expands is what the decoder answers, with length 2.
decoded :
    (mem : Memory) (trap : GuestTrap) (c i : ℕ)
    → trap.cause ≢ 2
    → load16 mem trap.frame.mepc ≡ c
    → bit_and c 3 ≡ 0
    → rvc_expand c ≡ i
    → i ≢ 0
    → trap_decode mem trap ≡ (true, record trap { encoding = i; length = 2 })
unfolding trap_decode guest_fetch
decoded mem trap c i n m q x z = ground arith

load_step :
    (host : Host) (d : MmioDevice) (t : GuestTrap) (h : Hyp)
    → mmio_key t.encoding ≡ 2
    → let r = mmio_access host d t h in
      let (value, devices) = device_read host d.name (sub32 t.tval d.base) 4 h.devices in
      (r.outcome ≡ advance)
      × (r.trap ≡ record t { frame = reg_write t.frame (bit_and (t.encoding >> 7) 0x1f) value })
      × (r.hyp.devices ≡ devices)
unfolding mmio_access mmio_load
load_step host d t h k = rw (mmio_access, k) (refl, refl, refl)

store_step :
    (host : Host) (d : MmioDevice) (t : GuestTrap) (h : Hyp)
    → mmio_key t.encoding ≡ 0xa
    → let r = mmio_access host d t h in
      let src = reg_read t.frame (bit_and (t.encoding >> 20) 0x1f) in
      (r.outcome ≡ advance)
      × (r.trap ≡ t)
      × (r.hyp.devices ≡ device_write host d.name (sub32 t.tval d.base) src 4 h.devices)
unfolding mmio_access mmio_store
store_step host d t h k = rw (mmio_access, k) (refl, refl, refl)

-- A decoded access to a device goes to the switch.
dispatched :
    (host : Host) (mem : Memory) (trap t : GuestTrap) (h : Hyp) (d : MmioDevice)
    → trap_decode mem trap ≡ (true, t)
    → mmio_find trap.tval ≡ some d
    → bit_and t.encoding 0x5f ≡ 3
    → hypervisor_mmio host mem trap h ≡ mmio_access host d t h
unfolding hypervisor_mmio
dispatched host mem trap t h d e f o = rw (hypervisor_mmio, f, e, o) refl

-- A c.lw that faults at a device's address is emulated with length 2: the device is read at the
-- fault's offset with width 4, and its answer goes into the register x8..x15 that the halfword
-- names, and nowhere else in the frame.
pub hypervisor_mmio-c_lw :
    (host : Host) (mem : Memory) (trap : GuestTrap) (h : Hyp) (d : MmioDevice) (rx rs1 w : ℕ)
    → rx < 8
    → rs1 < 8
    → w < 32
    → trap.cause ≢ 2
    → load16 mem trap.frame.mepc ≡ c_lw rx rs1 w
    → mmio_find trap.tval ≡ some d
    → let r = hypervisor_mmio host mem trap h in
      let (value, devices) = device_read host d.name (sub32 trap.tval d.base) 4 h.devices in
      (r.outcome ≡ advance)
      × (r.trap.length ≡ 2)
      × (r.trap.frame ≡ reg_write trap.frame (8 + rx) value)
      × (r.hyp.devices ≡ devices)
hypervisor_mmio-c_lw host mem trap h d rx rs1 w hx hs hw n m f =
    let i = lw (8 + rx) (8 + rs1) (4 * w) in
    let t : GuestTrap = record trap { encoding = i; length = 2 } in
    let (low, ne, key, rd, opcode) = load_facts rx rs1 w hx hs hw in
    let e =
      decoded mem trap (c_lw rx rs1 w) i n m low (rvc_expand-compressed rx rs1 w hx hs hw).0 ne in
    let s = load_step host d t h key in
    rw (dispatched host mem trap t h d e f opcode) (
      s.0,
      ap (λ t'. t'.length) s.1,
      ap (λ t'. t'.frame) s.1
          ∙ ap
              (λ k.
                reg_write trap.frame k
                  (device_read host d.name (sub32 trap.tval d.base) 4 h.devices).0)
              rd,
      s.2,
    )

-- A c.sw that faults at a device's address is emulated with length 2: the device is written at the
-- fault's offset with width 4, with the register x8..x15 that the halfword names, and the frame is
-- as it was.
pub hypervisor_mmio-c_sw :
    (host : Host) (mem : Memory) (trap : GuestTrap) (h : Hyp) (d : MmioDevice) (rx rs1 w : ℕ)
    → rx < 8
    → rs1 < 8
    → w < 32
    → trap.cause ≢ 2
    → load16 mem trap.frame.mepc ≡ c_sw rx rs1 w
    → mmio_find trap.tval ≡ some d
    → let r = hypervisor_mmio host mem trap h in
      (r.outcome ≡ advance)
      × (r.trap.length ≡ 2)
      × (r.trap.frame ≡ trap.frame)
      × (r.hyp.devices
          ≡ device_write host d.name
              (sub32 trap.tval d.base)
              (reg_read trap.frame (8 + rx))
              4
              h.devices)
hypervisor_mmio-c_sw host mem trap h d rx rs1 w hx hs hw n m f =
    let i = sw (8 + rx) (8 + rs1) (4 * w) in
    let t : GuestTrap = record trap { encoding = i; length = 2 } in
    let (low, ne, key, rs2, opcode) = store_facts rx rs1 w hx hs hw in
    let e =
      decoded mem trap (c_sw rx rs1 w) i n m low (rvc_expand-compressed rx rs1 w hx hs hw).1 ne in
    let s = store_step host d t h key in
    rw (dispatched host mem trap t h d e f opcode) (
      s.0,
      ap (λ t'. t'.length) s.1,
      ap (λ t'. t'.frame) s.1,
      s.2
          ∙ ap
              (λ k.
                device_write host d.name (sub32 trap.tval d.base) (reg_read trap.frame k) 4
                  h.devices)
              rs2,
    )
