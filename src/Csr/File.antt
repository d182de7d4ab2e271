-- ===== src/Csr/File.antt =====
-- The CSRs that the guest is given, by their numbers.
use esp32_p4_linux_hyperviso.Base.{
  ℕ, ◌-◌, ◌≡◌, refl, Bool, not, ◌&&◌, ◌||◌, Option, none, some, get_or, leb, ◌==◌, if◌then◌else◌,
  arith,
}
use esp32_p4_linux_hyperviso.Monitor.{Hyp}
use esp32_p4_linux_hyperviso.Intr.{shadow_mip_read}
use esp32_p4_linux_hyperviso.Csr.{shadow_slot, slot_read, csr_read_only_zero}
use esp32_p4_linux_hyperviso.Csr.View.{csr_view, csr_writable}

-- fflags, frm and fcsr, misa, and mvendorid, marchid, mimpid and mhartid.
abbrev pub is_constant : ℕ → Bool
is_constant csr =
    csr == 0x001
    || csr == 0x002
    || csr == 0x003
    || csr == 0x301
    || csr == 0xf11
    || csr == 0xf12
    || csr == 0xf13
    || csr == 0xf14

-- What a CSR's number reads as; `none` for one that is not there.
abbrev pub csr_file : ℕ → Hyp → ℕ → Option ℕ
csr_file now h csr =
    if csr == 0x300
    then some h.guest.shadow.mstatus
    else if csr == 0x304
    then some h.guest.shadow.mie
    else if csr == 0x305
    then some h.guest.shadow.mtvec
    else if csr == 0x340
    then some h.guest.shadow.mscratch
    else if csr == 0x341
    then some h.guest.shadow.mepc
    else if csr == 0x342
    then some h.guest.shadow.mcause
    else if csr == 0x343
    then some h.guest.shadow.mtval
    else if csr == 0x344
    then some (shadow_mip_read now h)
    else if leb 0x3a0 csr && leb csr 0x3a3
    then some (get_or h.guest.pmpcfg (csr - 0x3a0) 0)
    else if leb 0x3b0 csr && leb csr 0x3bf
    then some (get_or h.guest.pmpaddr (csr - 0x3b0) 0)
    else if is_constant csr
    then some 0
    else none

-- The bits that an access may change: of mip not those of the timer and of the PLIC, of the constants
-- none.
abbrev pub is_writable : ℕ → ℕ → Bool
is_writable csr k = not (is_constant csr) && not (csr == 0x344 && (k == 7 || k == 11))

pub csr_file-csr_view : (now csr : ℕ) (h : Hyp) → csr_file now h csr ≡ csr_view now h csr
unfolding csr_view shadow_slot slot_read csr_read_only_zero
csr_file-csr_view now csr h = ground arith

pub is_writable-csr_writable : (csr k : ℕ) → is_writable csr k ≡ csr_writable csr k
unfolding csr_read_only_zero
is_writable-csr_writable csr k = refl
