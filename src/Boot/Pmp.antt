-- ===== src/Boot/Pmp.antt =====
-- main/hyp_boot.c: the PMP entry that opens the guest's window to U-mode.
use esp32_p4_linux_hyperviso.Base.{
  ℕ, not, ◌||◌, bit_and, bit_or, ltb, ◌==◌, has, ◌>>◌, sub32, if◌then◌else◌,
}
use esp32_p4_linux_hyperviso.Boot.{EspErr, esp_ok, esp_fail, invalid_arg, invalid_state}

-- One PMP entry of the core: its configuration byte and its pmpaddr register.
pub record PmpEntry : Type 0 where
  pub cfg : ℕ
  pub addr : ℕ

-- The bits of the configuration that the RISC-V architecture numbers.
abbrev pub pmp_l : ℕ
pmp_l = 0x80

abbrev pub pmp_rwx_napot : ℕ
pmp_rwx_napot = 0x1f

-- `settle` is what the core keeps of a configuration written to the entry; ESP-IDF's macro writes
-- the address shifted right by two.
unfoldable pub pmp_set_rwx_region : (ℕ → ℕ) → ℕ → ℕ → PmpEntry → EspErr × PmpEntry
pmp_set_rwx_region settle base size e =
    let addr = bit_or base (sub32 size 1 >> 1) in
    let e' : PmpEntry = record { cfg = settle pmp_rwx_napot; addr = addr >> 2 } in
    if ltb size 8
      || not (bit_and size (sub32 size 1) == 0)
      || not (bit_and base (sub32 size 1) == 0)
    then (invalid_arg, e)
    else if has e.cfg pmp_l
    then (invalid_state, e)
    else if not (e'.cfg == pmp_rwx_napot)
    then (esp_fail, e')
    else (esp_ok, e')
