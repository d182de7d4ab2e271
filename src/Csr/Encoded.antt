-- ===== src/Csr/Encoded.antt =====
-- A trapped CSR instruction, from the word that the guest executed to the CSR file it sees.
use esp32_p4_linux_hyperviso.Base.{
  ℕ, ◌+◌, ◌*◌, ◌%◌, ◌^◌, ◌<◌, ◌≡◌, ◌≢◌, refl, sym, ap, ◌∙◌, bit, inl, inr, true, false, not, Option,
  none, some, bit_and, has, leb, ◌==◌, ◌>>◌, if◌then◌else◌, arith, Option-cases, if_keeps,
}
use mathlib.Core.Path.{subst}
use esp32_p4_linux_hyperviso.Base.Bits.{bit_and_mask}
use esp32_p4_linux_hyperviso.Base.Finite.{holds_below, holds_below_sound}
use esp32_p4_linux_hyperviso.Frame.{Memory, reg_read, reg_write}
use esp32_p4_linux_hyperviso.Decode.{GuestTrap, unhandled, advance, trap_decode}
use esp32_p4_linux_hyperviso.Monitor.{Hyp}
use esp32_p4_linux_hyperviso.Intr.{shadow_mip_read}
use esp32_p4_linux_hyperviso.Csr.{
  Handled, CsrHost, csr_writes, csr_access, csr_count, csr_read_only_zero, csr_instruction,
  hypervisor_csr,
}
use esp32_p4_linux_hyperviso.Csr.Slots.{BankIsValid}
use esp32_p4_linux_hyperviso.Csr.View.{csr_view, updated_bit}
use esp32_p4_linux_hyperviso.Csr.File.{csr_file, is_writable, csr_file-csr_view}
use esp32_p4_linux_hyperviso.Csr.Access.{Accessed, absent, present, csr_access-Accessed}

-- The word of a CSR instruction, from its fields.
abbrev pub csr_encoding : ℕ → ℕ → ℕ → ℕ → ℕ
csr_encoding csr rs1 funct3 rd = csr * 2 ^ 20 + rs1 * 2 ^ 15 + funct3 * 2 ^ 12 + rd * 2 ^ 7 + 0x73

-- The operand: the register, or the field itself in the immediate forms.
abbrev pub csr_operand : GuestTrap → ℕ → ℕ → ℕ
csr_operand trap funct3 rs1 = if leb 4 funct3 then rs1 else reg_read trap.frame rs1

-- The new value of a CSR, by its bits.
abbrev pub IsUpdated : ℕ → ℕ → ℕ → ℕ → ℕ → Type 0
IsUpdated csr funct3 src old new =
    (k : ℕ)
    → k < 32
    → bit new k
      ≡ (if is_writable csr k then updated_bit funct3 (bit old k) (bit src k) else bit old k)

-- How the instruction ends.
pub data CsrDone (now csr rs1 funct3 rd : ℕ) (trap : GuestTrap) (h : Hyp)
    : Option Handled → Type 0 where
  refused :
      (r : Handled)
      → csr_file now h csr ≡ none
      → r.outcome ≡ unhandled
      → r.trap.frame ≡ trap.frame
      → r.hyp ≡ h
      → CsrDone now csr rs1 funct3 rd trap h (some r)
  done :
      (r : Handled) (old new : ℕ)
      → r.outcome ≡ advance
      → r.trap.length ≡ 4
      → csr_file now h csr ≡ some old
      → r.trap.frame ≡ reg_write trap.frame rd old
      → csr_file now r.hyp csr ≡ some new
      → IsUpdated csr funct3 (csr_operand trap funct3 rs1) old new
      → ((c : ℕ) → c ≢ csr → csr_file now r.hyp c ≡ csr_file now h c)
      → r.hyp.devices ≡ h.devices
      → CsrDone now csr rs1 funct3 rd trap h (some r)

-- The counters are no CSRs.
view-csr_count :
    (now funct3 rs1 c : ℕ) (h : Hyp)
    → (csr_view now (csr_count funct3 rs1 h) c ≡ csr_view now h c)
      × ((csr_count funct3 rs1 h).devices ≡ h.devices)
unfolding csr_count csr_view shadow_mip_read
view-csr_count now funct3 rs1 c h = (
  if_keeps (λ h'. csr_view now h' c ≡ csr_view now h c) (csr_writes funct3 rs1) refl refl,
  if_keeps (λ (h' : Hyp). h'.devices ≡ h.devices) (csr_writes funct3 rs1) refl refl,
)

immediate : (funct3 : ℕ) → funct3 < 8 → has funct3 0x4 ≡ leb 4 funct3
unfolding holds_below
immediate funct3 h =
    ground
      (arith, holds_below_sound 8 (λ f. if has f 0x4 then leb 4 f else not (leb 4 f)) funct3 refl h)

fields :
    (csr rs1 funct3 rd : ℕ)
    → csr < 4096
    → rs1 < 32
    → funct3 < 8
    → rd < 32
    → let i = csr_encoding csr rs1 funct3 rd in
      (i >> 20 ≡ csr)
      × (bit_and (i >> 15) 0x1f ≡ rs1)
      × (bit_and (i >> 12) 0x7 ≡ funct3)
      × (bit_and (i >> 7) 0x1f ≡ rd)
      × (bit_and i 0x7f ≡ 0x73)
      × (bit_and i 0x3 ≡ 3)
fields csr rs1 funct3 rd a b c d =
    let i = csr_encoding csr rs1 funct3 rd in
    (
      omega arith,
      omega (arith, bit_and_mask 5 (i >> 15)),
      omega (arith, bit_and_mask 3 (i >> 12)),
      omega (arith, bit_and_mask 5 (i >> 7)),
      omega (arith, bit_and_mask 7 i),
      omega (arith, bit_and_mask 2 i),
    )

module _ (now csr rs1 funct3 rd : ℕ) (trap : GuestTrap) (h : Hyp) (a : csr < 4096) (b : rs1 < 32)
    (c : funct3 < 8) (d : rd < 32) (n0 : funct3 ≢ 0) (n4 : funct3 ≢ 4)
    (small : reg_read trap.frame rs1 < 2 ^ 32) (bank : BankIsValid h.guest) where
  answered : GuestTrap → Option (ℕ × Hyp) → Handled
  answered t none = record { outcome = unhandled; trap = t; hyp = h }
  answered t (some (old, h')) = record {
    outcome = advance;
    trap = record t { frame = reg_write t.frame rd old };
    hyp = csr_count funct3 rs1 h';
  }

  answer :
      (t : GuestTrap)
      → t.length ≡ 4
      → t.frame ≡ trap.frame
      → {o : Option (ℕ × Hyp)} → Accessed now csr funct3 (csr_operand trap funct3 rs1) h o
      → CsrDone now csr rs1 funct3 rd trap h (some (answered t o))
  unfolding answered csr_read_only_zero
  answer t l f (absent v) = refused _ (csr_file-csr_view now csr h ∙ v) refl f refl
  answer t l f (present old new h' v w u o z) =
      let counted = λ (c' : ℕ). view-csr_count now funct3 rs1 c' h' in
      let filed = λ (c' : ℕ). csr_file-csr_view now c' in
      done _ old new refl l (filed csr h ∙ v) (ap (λ g. reg_write g rd old) f)
        (filed csr _ ∙ (counted csr).0 ∙ w) u
        (λ c' n. filed c' _ ∙ (counted c').0 ∙ o c' n ∙ sym (filed c' h)) ((counted csr).1 ∙ z)

  instruction-CsrDone :
      (t : GuestTrap)
      → t.encoding ≡ csr_encoding csr rs1 funct3 rd
      → t.length ≡ 4
      → t.frame ≡ trap.frame
      → CsrDone now csr rs1 funct3 rd trap h (some (csr_instruction now t h))
  unfolding csr_instruction answered reg_read
  instruction-CsrDone t e l f =
      let (p20, p15, p12, p7, _, _) = fields csr rs1 funct3 rd a b c d in
      let q20 = ap (λ i. i >> 20) e ∙ p20 in
      let q15 = ap (λ i. bit_and (i >> 15) 0x1f) e ∙ p15 in
      let q12 = ap (λ i. bit_and (i >> 12) 0x7) e ∙ p12 in
      let q7 = ap (λ i. bit_and (i >> 7) 0x1f) e ∙ p7 in
      let src = csr_operand trap funct3 rs1 in
      let o = csr_access now csr funct3 rs1 src h in
      let access = csr_access-Accessed now funct3 rs1 src h operand idle csr bank in
      elim (Option-cases o) [
        | inl q ↦
            rw (csr_instruction, q20, q15, q12, immediate funct3 c, f, q)
              (answer t l f (subst (Accessed now csr funct3 src h) q access))
        | inr (r, q) ↦
            rw (csr_instruction, q20, q15, q12, immediate funct3 c, f, q, q7, q12, q15)
              (answer t l f (subst (Accessed now csr funct3 src h) q access))
      ]
    where
      operand : csr_operand trap funct3 rs1 < 2 ^ 32
      operand = ground (arith, small, b)

      idle : csr_writes funct3 rs1 ≡ false → (funct3 % 4 ≢ 1) × (csr_operand trap funct3 rs1 ≡ 0)
      idle q = ground (arith, q, bit_and_mask 2 funct3)

-- A trapped CSR instruction that is encoded with a CSR number, a register or immediate field, a
-- function of the six that exist and a destination acts on the file of CSRs that the guest is given, as
-- long as the source register is of 32 bits and the banks of PMP registers have their sizes. If the file
-- has no such CSR, it is refused with nothing changed. Else the guest's next instruction is
-- four bytes on, the destination gets the CSR's old value, each bit of the CSR that may be changed is
-- swapped for, set by or cleared by the operand's, and the CSR's other bits, every other CSR and the
-- devices are as they were. A write to one of the file's constants is accepted too and changes nothing.
pub hypervisor_csr-CsrDone :
    (host : CsrHost) (mem : Memory) (csr rs1 funct3 rd : ℕ) (trap : GuestTrap) (h : Hyp)
    → trap.cause ≡ 2
    → trap.tval ≡ csr_encoding csr rs1 funct3 rd
    → csr < 4096
    → rs1 < 32
    → funct3 < 8
    → rd < 32
    → funct3 ≢ 0
    → funct3 ≢ 4
    → reg_read trap.frame rs1 < 2 ^ 32
    → BankIsValid h.guest
    → CsrDone host.now csr rs1 funct3 rd trap h (hypervisor_csr host mem trap h)
unfolding hypervisor_csr trap_decode
hypervisor_csr-CsrDone host mem csr rs1 funct3 rd trap h u e a b c d n0 n4 small bank =
    let (_, _, p12, _, p0, p3) = fields csr rs1 funct3 rd a b c d in
    let t = record trap {
      encoding = trap.tval;
      length = if bit_and trap.tval 0x3 == 0x3 then 4 else 2;
    } in
    let l : t.length ≡ 4 = ground (arith, e, p3) in
    let z : (funct3 == 0) ≡ false = ground (arith, n0) in
    let f : (funct3 == 4) ≡ false = ground (arith, n4) in
    let u' : (trap.cause == 2) ≡ true = ground (arith, u) in
    let w0 : bit_and trap.tval 0x7f ≡ 0x73 = ap (λ i. bit_and i 0x7f) e ∙ p0 in
    let w12 : bit_and (trap.tval >> 12) 0x7 ≡ funct3 = ap (λ i. bit_and (i >> 12) 0x7) e ∙ p12 in
    rw (hypervisor_csr, trap_decode, u', w0, w12, z, f)
      (instruction-CsrDone host.now csr rs1 funct3 rd trap h a b c d n0 n4 small bank t e l refl)
