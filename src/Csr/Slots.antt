-- ===== src/Csr/Slots.antt =====
-- The shadow bank as storage.
use esp32_p4_linux_hyperviso.Base.{
  ℕ, ◌+◌, ◌<◌, ◌≡◌, ◌≢◌, refl, some, length, get_or-set_self, get_or-set_ne, length-set, ap, sym,
  ◌∙◌, ==_refl, arith, ◌==◌, if◌then◌else◌,
}
use mathlib.Core.Option.{some-injective}
use native.Mathlib.Decide.{ℕ_discrete}
use esp32_p4_linux_hyperviso.Monitor.{Guest}
use esp32_p4_linux_hyperviso.Csr.{Slot, shadow_slot, slot_read, slot_write}

-- The PMP arrays have their declared sizes.
pub record BankIsValid (g : Guest) : Type 0 where
  pub cfg : length g.pmpcfg ≡ 4
  pub addr : length g.pmpaddr ≡ 16

-- The slot lies inside its array.
abbrev pub InBank : Guest → Slot → Type 0
InBank g (Slot.pmpcfg i) = i < length g.pmpcfg
InBank g (Slot.pmpaddr i) = i < length g.pmpaddr
InBank g _ = Unit {0}

-- The CSR number of a place.
abbrev slot_number : Slot → ℕ
slot_number Slot.mstatus = 0x300
slot_number Slot.mie = 0x304
slot_number Slot.mtvec = 0x305
slot_number Slot.mscratch = 0x340
slot_number Slot.mepc = 0x341
slot_number Slot.mcause = 0x342
slot_number Slot.mtval = 0x343
slot_number (Slot.pmpcfg i) = 0x3a0 + i
slot_number (Slot.pmpaddr i) = 0x3b0 + i

slot_number-shadow_slot :
    (csr : ℕ) (slot : Slot) → shadow_slot csr ≡ some slot → slot_number slot ≡ csr
unfolding shadow_slot
slot_number-shadow_slot csr slot e = ground arith

-- A CSR number names a place inside the bank.
shadow_slot-InBank :
    (g : Guest) (csr : ℕ) (slot : Slot)
    → BankIsValid g
    → shadow_slot csr ≡ some slot
    → InBank g slot
unfolding shadow_slot
shadow_slot-InBank g csr (Slot.pmpcfg i) v e = ground (arith, v.cfg)
shadow_slot-InBank g csr (Slot.pmpaddr i) v e = ground (arith, v.addr)
shadow_slot-InBank g csr Slot.mstatus v e = tt
shadow_slot-InBank g csr Slot.mie v e = tt
shadow_slot-InBank g csr Slot.mtvec v e = tt
shadow_slot-InBank g csr Slot.mscratch v e = tt
shadow_slot-InBank g csr Slot.mepc v e = tt
shadow_slot-InBank g csr Slot.mcause v e = tt
shadow_slot-InBank g csr Slot.mtval v e = tt

slot_read-slot_write :
    (g : Guest) (slot : Slot) (v : ℕ) → InBank g slot → slot_read (slot_write g slot v) slot ≡ v
unfolding slot_read slot_write
slot_read-slot_write g Slot.mstatus v h = refl
slot_read-slot_write g Slot.mie v h = refl
slot_read-slot_write g Slot.mtvec v h = refl
slot_read-slot_write g Slot.mscratch v h = refl
slot_read-slot_write g Slot.mepc v h = refl
slot_read-slot_write g Slot.mcause v h = refl
slot_read-slot_write g Slot.mtval v h = refl
slot_read-slot_write g (Slot.pmpcfg i) v h = get_or-set_self g.pmpcfg i v 0 h
slot_read-slot_write g (Slot.pmpaddr i) v h = get_or-set_self g.pmpaddr i v 0 h

slot_read-slot_write_ne :
    (g : Guest) (slot slot' : Slot) (v : ℕ)
    → slot ≢ slot'
    → slot_read (slot_write g slot v) slot' ≡ slot_read g slot'
unfolding slot_read slot_write
slot_read-slot_write_ne g (Slot.pmpcfg i) (Slot.pmpcfg j) v ne =
    get_or-set_ne g.pmpcfg i j v 0 (λ e. ne (ap Slot.pmpcfg e))
slot_read-slot_write_ne g (Slot.pmpaddr i) (Slot.pmpaddr j) v ne =
    get_or-set_ne g.pmpaddr i j v 0 (λ e. ne (ap Slot.pmpaddr e))
slot_read-slot_write_ne g slot slot' v ne = ground arith

pub slot_write-BankIsValid :
    (g : Guest) (slot : Slot) (v : ℕ) → BankIsValid g → BankIsValid (slot_write g slot v)
unfolding slot_write
slot_write-BankIsValid g (Slot.pmpcfg i) v b = record {
  cfg = length-set g.pmpcfg i v ∙ b.cfg;
  addr = b.addr;
}
slot_write-BankIsValid g (Slot.pmpaddr i) v b = record {
  cfg = b.cfg;
  addr = length-set g.pmpaddr i v ∙ b.addr;
}
slot_write-BankIsValid g slot v b = ground arith

-- The bank is storage: whatever is written to a CSR it has is read back, every other CSR number
-- keeps its value, the write lies inside the arrays and keeps their sizes.
pub slot_write_lem :
    (g : Guest) (csr csr' v : ℕ) {slot slot' : Slot}
    → BankIsValid g
    → shadow_slot csr ≡ some slot
    → shadow_slot csr' ≡ some slot'
    → let g' = slot_write g slot v in
      (slot_read g' slot' ≡ (if csr == csr' then v else slot_read g slot'))
      × InBank g slot
      × BankIsValid g'
slot_write_lem g csr csr' v {slot} {slot'} b e e' = (
  elim (ℕ_discrete csr csr') [
    | yes same ↦
        let one : slot ≡ slot' = some-injective slot slot' (sym e ∙ ap shadow_slot same ∙ e') in
        let here = shadow_slot-InBank g csr slot b e in
        rw (same, ==_refl csr', ← one) (slot_read-slot_write g slot v here)
    | no other ↦
        let apart : slot ≢ slot' = λ (one : slot ≡ slot'). other (
          sym (slot_number-shadow_slot csr slot e)
          ∙ ap slot_number one
          ∙ slot_number-shadow_slot csr' slot' e') in
        rw (slot_read-slot_write_ne g slot slot' v apart) (ground arith)
  ],
  shadow_slot-InBank g csr slot b e,
  slot_write-BankIsValid g slot v b,
)
