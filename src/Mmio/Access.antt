-- ===== src/Mmio/Access.antt =====
-- What an emulated access does to the guest: main/hyp_mmio.c on every path.
use esp32_p4_linux_hyperviso.Base.{
  ℕ, ◌≡◌, ◌≢◌, ◌⊎◌, inl, inr, refl, Bool, bit_and, ◌>>◌, ◌==◌, arith, if◌then◌else◌, Option-cases,
  Bool-cases, not, if_keeps, ◌%◌,
}
use esp32_p4_linux_hyperviso.Frame.{Memory, reg_write}
use esp32_p4_linux_hyperviso.Decode.{GuestTrap, unhandled, advance, trap_decode}
use esp32_p4_linux_hyperviso.Decode.Laws.{trap_decode_lem}
use esp32_p4_linux_hyperviso.Monitor.{Hyp, Host, bump}
use esp32_p4_linux_hyperviso.Csr.{Handled}
use esp32_p4_linux_hyperviso.Mmio.{
  MmioDevice, mmio_find, mmio_load, mmio_store, sign8, sign16, mmio_access, hypervisor_mmio,
}

-- An emulated access: the instruction's length is known, and no register but the encoding's rd
-- has changed, mepc included.
pub record Emulated (trap trap' : GuestTrap) : Type 0 where
  pub length : (trap'.length ≡ 2) ⊎ (trap'.length ≡ 4)
  pub mepc : trap'.frame.mepc ≡ trap.frame.mepc
  pub others : (i : ℕ) → i ≢ bit_and (trap'.encoding >> 7) 0x1f → trap'.frame.x i ≡ trap.frame.x i

-- A refused access: the frame and the devices are as they were.
pub record Refused (trap : GuestTrap) (h : Hyp) (r : Handled) : Type 0 where
  pub outcome : r.outcome ≡ unhandled
  pub frame : r.trap.frame ≡ trap.frame
  pub devices : r.hyp.devices ≡ h.devices
  pub guest : r.hyp.guest ≡ h.guest

-- The two ways in which an access may end.
pub data Outcome (trap : GuestTrap) (h : Hyp) (r : Handled) : Type 0 where
  emulated : r.outcome ≡ advance → r.hyp.guest ≡ h.guest → Emulated trap r.trap → Outcome trap h r
  refused : Refused trap h r → Outcome trap h r

load_Outcome :
    (host : Host) (device : MmioDevice) (width : ℕ) (extend : ℕ → ℕ) (trap t : GuestTrap)
    (h h' : Hyp)
    → t.frame ≡ trap.frame
    → (t.length ≡ 2) ⊎ (t.length ≡ 4)
    → h'.guest ≡ h.guest
    → Outcome trap h (mmio_load host device width extend t h')
unfolding mmio_load reg_write
load_Outcome host device width extend trap t h h' e l g =
    emulated refl g (record { length = l; mepc = ground arith; others = λ i ne. ground arith })

store_Outcome :
    (host : Host) (device : MmioDevice) (width : ℕ) (trap t : GuestTrap) (h h' : Hyp)
    → t.frame ≡ trap.frame
    → (t.length ≡ 2) ⊎ (t.length ≡ 4)
    → h'.guest ≡ h.guest
    → Outcome trap h (mmio_store host device width t h')
unfolding mmio_store
store_Outcome host device width trap t h h' e l g =
    emulated refl g (record { length = l; mepc = ground arith; others = λ i ne. ground arith })

mmio_access-Outcome :
    (host : Host) (device : MmioDevice) (trap t : GuestTrap) (h : Hyp)
    → t.frame ≡ trap.frame
    → (t.length ≡ 2) ⊎ (t.length ≡ 4)
    → Outcome trap h (mmio_access host device t h)
unfolding mmio_access
mmio_access-Outcome host device trap t h e l = keeps _ (loads 1 sign8) (
    keeps _ (loads 2 sign16) (
      keeps _ (loads 4 (λ v. v)) (
        keeps _ (loads 1 (λ v. v)) (
          keeps _ (loads 2 (λ v. v))
            (keeps _ (stores 1) (keeps _ (stores 2) (keeps _ (stores 4) refuses)))))))
  where
    counted : Hyp
    counted = record h { stats = record (h.stats) { mmio = bump h.stats.mmio (device.index % 8) } }

    keeps :
        (b : Bool) {x y : Handled}
        → Outcome trap h x
        → Outcome trap h y
        → Outcome trap h (if b then x else y)
    keeps = if_keeps (Outcome trap h)

    loads :
        (width : ℕ) (extend : ℕ → ℕ) → Outcome trap h (mmio_load host device width extend t counted)
    loads width extend = load_Outcome host device width extend trap t h counted e l refl

    stores : (width : ℕ) → Outcome trap h (mmio_store host device width t counted)
    stores width = store_Outcome host device width trap t h counted e l refl

    refuses : Outcome trap h (record { outcome = unhandled; trap = t; hyp = counted })
    refuses = refused (record { outcome = refl; frame = e; devices = refl; guest = refl })

-- Every access that traps ends in one of two ways. Either it is emulated: the handler asks for the
-- instruction to be skipped, its length is 2 or 4, the guest's CSRs are untouched, and no register
-- but the encoding's rd has changed; or it is refused, with the frame, the devices and the guest's
-- CSRs as they were.
pub hypervisor_mmio_lem :
    (host : Host) (mem : Memory) (trap : GuestTrap) (h : Hyp)
    → Outcome trap h (hypervisor_mmio host mem trap h)
unfolding hypervisor_mmio
hypervisor_mmio_lem host mem trap h = elim (Option-cases (mmio_find trap.tval)) [
  | inl e ↦
      rw (hypervisor_mmio, e)
        (refused (record { outcome = refl; frame = refl; devices = refl; guest = refl }))
  | inr (d, e) ↦
      let (done, t) = trap_decode mem trap in
      let law = trap_decode_lem mem trap in
      let no : Outcome trap h (record { outcome = unhandled; trap = t; hyp = h }) =
        refused (record { outcome = refl; frame = law.2; devices = refl; guest = refl }) in
      rw (hypervisor_mmio, e)
        (elim (Bool-cases done) [
          | inr f ↦ rw f no
          | inl f ↦ rw f (
              if_keeps (Outcome trap h) (not (bit_and t.encoding 0x5f == 0x03)) no
                (mmio_access-Outcome host d trap t h law.2 (law.0 f)))
        ])
]
