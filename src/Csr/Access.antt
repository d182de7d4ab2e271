-- ===== src/Csr/Access.antt =====
-- `csr_access` on the CSRs as the guest sees them.
use esp32_p4_linux_hyperviso.Base.{
  ℕ, ◌%◌, ◌^◌, ◌<◌, ◌≡◌, ◌≢◌, refl, sym, ap, ◌∙◌, inl, inr, false, Option, none, some, bit, bit_and,
  bit_or, not32, ◌==◌, if◌then◌else◌, arith, Bool-cases, Option-cases, ==_refl,
}
use native.Mathlib.Decide.{ℕ_discrete}
use esp32_p4_linux_hyperviso.Base.Bits.{bit-zero, bit-lt}
use esp32_p4_linux_hyperviso.Plic.{meip_pending}
use esp32_p4_linux_hyperviso.Clint.{mtip_pending}
use esp32_p4_linux_hyperviso.Monitor.{Guest, Hyp, mip_mtip, mip_meip}
use esp32_p4_linux_hyperviso.Intr.{shadow_mip_read}
use esp32_p4_linux_hyperviso.Csr.{
  Slot, shadow_slot, slot_read, slot_write, csr_read_only_zero, csr_update, csr_writes, csr_access,
}
use esp32_p4_linux_hyperviso.Csr.Slots.{BankIsValid, slot_write_lem}
use esp32_p4_linux_hyperviso.Csr.View.{
  csr_view, updated_bit, csr_writable, bit-csr_update, mip_written, with_live,
}

-- The new value of a CSR, by its bits.
abbrev pub Updated : ℕ → ℕ → ℕ → ℕ → ℕ → Type 0
Updated csr funct3 src old new =
    (k : ℕ)
    → k < 32
    → bit new k
      ≡ (if csr_writable csr k then updated_bit funct3 (bit old k) (bit src k) else bit old k)

-- What an access answers and leaves.
pub data Accessed (now csr funct3 src : ℕ) (h : Hyp) : Option (ℕ × Hyp) → Type 0 where
  absent : csr_view now h csr ≡ none → Accessed now csr funct3 src h none
  present :
      (old new : ℕ) (h' : Hyp)
      → csr_view now h csr ≡ some old
      → csr_view now h' csr ≡ some new
      → Updated csr funct3 src old new
      → ((c : ℕ) → c ≢ csr → csr_view now h' c ≡ csr_view now h c)
      → h'.devices ≡ h.devices
      → Accessed now csr funct3 src h (some (old, h'))

slot_number_facts :
    (csr : ℕ) (slot : Slot)
    → shadow_slot csr ≡ some slot
    → (csr ≢ 0x344) × (csr_read_only_zero csr ≡ false)
unfolding shadow_slot csr_read_only_zero
slot_number_facts csr slot e = ground arith

view_slot :
    (now csr : ℕ) (h : Hyp) (slot : Slot)
    → shadow_slot csr ≡ some slot
    → csr_view now h csr ≡ some (slot_read h.guest slot)
unfolding csr_view
view_slot now csr h slot e =
    let (n, _) = slot_number_facts csr slot e in rw (csr_view, e) (ground arith)

view_constant :
    (now csr : ℕ) (h : Hyp)
    → shadow_slot csr ≡ none
    → csr ≢ 0x344
    → csr_view now h csr ≡ (if csr_read_only_zero csr then some 0 else none)
unfolding csr_view
view_constant now csr h e n = rw (csr_view, e) (ground arith)

view_same :
    (now c : ℕ) (h h' : Hyp)
    → (c ≡ 0x344 → shadow_mip_read now h' ≡ shadow_mip_read now h)
    → ((s : Slot) → shadow_slot c ≡ some s → slot_read h'.guest s ≡ slot_read h.guest s)
    → csr_view now h' c ≡ csr_view now h c
unfolding csr_view
view_same now c h h' m s = elim (ℕ_discrete c 0x344) [
  | yes e ↦ rw e (ap some (m e))
  | no n ↦ elim (Option-cases (shadow_slot c)) [
    | inl e ↦ view_constant now c h' e n ∙ sym (view_constant now c h e n)
    | inr (slot, e) ↦
        view_slot now c h' slot e ∙ ap some (s slot e) ∙ sym (view_slot now c h slot e)
  ]
]

mip-slot_write : (g : Guest) (s : Slot) (v : ℕ) → (slot_write g s v).shadow.mip ≡ g.shadow.mip
unfolding slot_write
mip-slot_write g s v = ground arith

-- Where nothing is written the source is 0, and an update with 0 is none.
nothing_new : (csr funct3 src old : ℕ) → funct3 % 4 ≢ 1 → src ≡ 0 → Updated csr funct3 src old old
nothing_new csr funct3 src old n e k l =
    ground (arith, ap (λ s. bit s k) e ∙ bit-zero k, bit-lt old k)

-- The monitor after a write to mip.
abbrev stored : ℕ → Hyp → Hyp
stored updated h = record h {
  guest = record (h.guest) {
    shadow = record (h.guest.shadow) { mip = bit_and updated (not32 (bit_or mip_mtip mip_meip)) };
  };
}

module _ (now funct3 rs1 src : ℕ) (h : Hyp) (small : src < 2 ^ 32)
    (idle : csr_writes funct3 rs1 ≡ false → (funct3 % 4 ≢ 1) × (src ≡ 0)) where
  -- Nothing is written.
  unwritten :
      (csr old : ℕ)
      → csr_writes funct3 rs1 ≡ false
      → csr_view now h csr ≡ some old
      → Accessed now csr funct3 src h (some (old, h))
  unwritten csr old e v =
      let (n, z) = idle e in
      present old old h v v (nothing_new csr funct3 src old n z) (λ c _. refl) refl

  mip_access : Accessed now 0x344 funct3 src h (csr_access now 0x344 funct3 rs1 src h)
  unfolding csr_access csr_view shadow_mip_read slot_read csr_read_only_zero
  mip_access = elim (Bool-cases (csr_writes funct3 rs1)) [
    | inr e ↦ rw (csr_access, e) (unwritten 0x344 (shadow_mip_read now h) e refl)
    | inl e ↦ rw (csr_access, e) (written (shadow_mip_read now h) refl)
  ]
    where
      written :
          (old : ℕ)
          → shadow_mip_read now h ≡ old
          → Accessed now 0x344 funct3 src h (some (old, stored (csr_update funct3 old src) h))
      written old q =
          let t = mtip_pending now h.devices.clint in
          let e = meip_pending h.devices.plic in
          let h' = stored (csr_update funct3 old src) h in
          present old (shadow_mip_read now h') h' (ap some q) refl
            (λ k l.
              let w = mip_written t e h.guest.shadow.mip (csr_update funct3 old src) k l in
              let b = bit-csr_update funct3 old src k small l in
              let o = ap (λ x. bit x k) q in w ∙ ground (arith, b, o))
            (λ c n. view_same now c h h' (λ x. absurd (n x)) (λ s _. ground arith)) refl

  slot_access :
      (csr : ℕ) (slot : Slot)
      → BankIsValid h.guest
      → shadow_slot csr ≡ some slot
      → Accessed now csr funct3 src h (csr_access now csr funct3 rs1 src h)
  unfolding csr_access shadow_mip_read
  slot_access csr slot bank q =
      let (n, w) = slot_number_facts csr slot q in
      let apart : (csr == 0x344) ≡ false = ground (arith, n) in
      let old = slot_read h.guest slot in
      let new = csr_update funct3 old src in
      let h' = record h { guest = slot_write h.guest slot new } in
      elim (Bool-cases (csr_writes funct3 rs1)) [
        | inr e ↦ rw (csr_access, apart, q, e) (unwritten csr old e (view_slot now csr h slot q))
        | inl e ↦
            rw (csr_access, apart, q, e)
              (present old new h' (view_slot now csr h slot q)
                (view_slot now csr h' slot q
                  ∙ ap some
                      ((slot_write_lem h.guest csr csr new bank q q).0 ∙ rw (==_refl csr) refl))
                (λ k l. bit-csr_update funct3 old src k small l ∙ ground (arith, w, apart))
                (λ c other.
                  view_same now c h h'
                    (λ x.
                      ap
                        (with_live (mtip_pending now h.devices.clint) (meip_pending h.devices.plic))
                        (mip-slot_write h.guest slot new))
                    (λ s p. (slot_write_lem h.guest csr c new bank q p).0 ∙ ground (arith, other)))
                refl)
      ]

  constant_access :
      (csr : ℕ)
      → shadow_slot csr ≡ none
      → csr ≢ 0x344
      → Accessed now csr funct3 src h (csr_access now csr funct3 rs1 src h)
  unfolding csr_access
  constant_access csr q n =
      let apart : (csr == 0x344) ≡ false = ground (arith, n) in
      let v = view_constant now csr h q n in
      elim (Bool-cases (csr_read_only_zero csr)) [
        | inr e ↦ rw (csr_access, apart, q, e) (absent (v ∙ rw e refl))
        | inl e ↦
            let zero_there : csr_view now h csr ≡ some 0 = v ∙ rw e refl in
            rw (csr_access, apart, q, e)
              (present 0 0 h zero_there zero_there (λ k l. ground (arith, e)) (λ c _. refl) refl)
      ]

  -- An access answers none exactly for a CSR that is not there. Else it answers the value that the CSR
  -- had and leaves it updated in the bits that may be changed, and every other CSR and the devices as
  -- they were.
  pub csr_access-Accessed :
      (csr : ℕ)
      → BankIsValid h.guest
      → Accessed now csr funct3 src h (csr_access now csr funct3 rs1 src h)
  csr_access-Accessed csr bank = elim (ℕ_discrete csr 0x344) [
    | yes e ↦ rw e mip_access
    | no n ↦ elim (Option-cases (shadow_slot csr)) [
      | inl q ↦ constant_access csr q n
      | inr (slot, q) ↦ slot_access csr slot bank q
    ]
  ]
