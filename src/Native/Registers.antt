-- ===== src/Native/Registers.antt =====
-- native/linux-native/main/main.c: the registers that the loader leaves for Linux, as words by address.
use esp32_p4_linux_hyperviso.Base.{ℕ, List, [], ◌∷◌, bit_and, bit_or, not32, ◌<<◌}
use esp32_p4_linux_hyperviso.Frame.{update}

-- A register keeps what is written to it.
abbrev pub Registers : Type 0
Registers = ℕ → ℕ

unfoldable pub boot_shim_reg_setbits : ℕ → ℕ → Registers → Registers
boot_shim_reg_setbits addr mask regs = update regs addr (bit_or (regs addr) mask)

unfoldable pub boot_shim_reg_clrsetbits : ℕ → ℕ → ℕ → Registers → Registers
boot_shim_reg_clrsetbits addr clr set regs =
    update regs addr (bit_or (bit_and (regs addr) (not32 clr)) set)

abbrev pub pmu_ext_ldo_p1_0p2a : ℕ
pmu_ext_ldo_p1_0p2a = 0x501151d8

abbrev pub hp_clkrst_soc_clk_ctrl1 : ℕ
hp_clkrst_soc_clk_ctrl1 = 0x500E6018

abbrev pub hp_clkrst_peri_clk_ctrl01 : ℕ
hp_clkrst_peri_clk_ctrl01 = 0x500E6034

abbrev pub hp_clkrst_peri_clk_ctrl02 : ℕ
hp_clkrst_peri_clk_ctrl02 = 0x500E6038

abbrev pub lp_clkrst_hp_sdmmc_emac_rst : ℕ
lp_clkrst_hp_sdmmc_emac_rst = 0x5011104c

-- The fields of the clock divider and of its three phases: the bits that step 4 clears, and those that
-- it sets.
abbrev pub divider_clr : ℕ
divider_clr =
    bit_or
      (bit_or (bit_or (bit_or (bit_or (0xf << 9) (0xf << 13)) (0xf << 17)) (0x3 << 21)) (0x3 << 23))
      (0x3 << 25)

abbrev pub divider_set : ℕ
divider_set =
    bit_or
      (bit_or (bit_or (bit_or (bit_or (bit_or (3 << 9) (1 << 13)) (3 << 17)) (1 << 23)) (1 << 28))
        (1 << 29))
      (1 << 27)

-- ESP-IDF's calls on a pin, which are not under the repository's sources: what each makes of the
-- registers.
pub record PinCalls : Type 0 where
  pub gpio_pulldown_dis : ℕ → Registers → Registers
  pub gpio_pullup_en : ℕ → Registers → Registers
  pub gpio_input_enable : ℕ → Registers → Registers
  pub gpio_iomux_output : ℕ → ℕ → Registers → Registers
  pub gpio_set_drive_capability : ℕ → ℕ → Registers → Registers

abbrev pub sdmmc_iomux_pins : List ℕ
sdmmc_iomux_pins = 39 ∷ 40 ∷ 41 ∷ 42 ∷ 43 ∷ 44 ∷ []

-- Step 5's loop over the pins.
unfoldable pub route_pins : PinCalls → List ℕ → Registers → Registers
route_pins calls [] regs = regs
route_pins calls (pin ∷ pins) regs =
    let down = calls.gpio_pulldown_dis pin regs in
    let up = calls.gpio_pullup_en pin down in
    let input = calls.gpio_input_enable pin up in
    let output = calls.gpio_iomux_output pin 0 input in
    let driven = calls.gpio_set_drive_capability pin 3 output in route_pins calls pins driven

-- Steps 1 to 4: power, bus clock, clock source and divider.
unfoldable pub card_clocked : Registers → Registers
card_clocked regs =
    let powered =
      boot_shim_reg_clrsetbits pmu_ext_ldo_p1_0p2a (0x7 << 9)
        (bit_or (bit_or (1 << 8) (1 << 7)) (1 << 14)) regs in
    let clocked = boot_shim_reg_setbits hp_clkrst_soc_clk_ctrl1 (1 << 14) powered in
    let reset = boot_shim_reg_setbits lp_clkrst_hp_sdmmc_emac_rst (1 << 28) clocked in
    let released = boot_shim_reg_clrsetbits lp_clkrst_hp_sdmmc_emac_rst (1 << 28) 0 reset in
    let source =
      boot_shim_reg_clrsetbits hp_clkrst_peri_clk_ctrl01 (bit_or (1 << 23) (1 << 22)) (1 << 24)
        released in
    let divided =
      boot_shim_reg_clrsetbits hp_clkrst_peri_clk_ctrl02 divider_clr divider_set source in
    let strobed = boot_shim_reg_setbits hp_clkrst_peri_clk_ctrl02 (1 << 8) divided in
    boot_shim_reg_clrsetbits hp_clkrst_peri_clk_ctrl02 (1 << 8) 0 strobed

unfoldable pub boot_shim_init_sdmmc : PinCalls → Registers → Registers
boot_shim_init_sdmmc calls regs = route_pins calls sdmmc_iomux_pins (card_clocked regs)

-- The two PMP registers that the loader writes.
pub record PmpRegisters : Type 0 where
  pub pmpaddr9 : ℕ
  pub pmpcfg2 : ℕ

unfoldable pub pmp_grant_psram_umode : PmpRegisters → PmpRegisters
pmp_grant_psram_umode r = record {
  pmpaddr9 = 0x127fffff;
  pmpcfg2 = bit_or (bit_and r.pmpcfg2 (not32 (0xff << 8))) (0x1f << 8);
}
