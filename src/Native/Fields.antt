-- ===== src/Native/Fields.antt =====
-- Which bits of its registers the loader changes.
use esp32_p4_linux_hyperviso.Base.{
  ℕ, zero, suc, ◌+◌, ◌-◌, List, [], ◌∷◌, Bool, false, ◌^◌, ◌≤◌, ◌<◌, ◌≡◌, ◌≢◌, ◌↔◌, refl, ap, ◌∙◌,
  true, ◌&&◌, min, max, bit, bit_and, bit_or, not32, ltb, leb, ◌==◌, ◌<<◌, if◌then◌else◌, arith,
}
use native.Mathlib.Decide.{dec_lt}
use esp32_p4_linux_hyperviso.Base.Bits.{bit-bit_and, bit-bit_or, bit-complement, bit-lt}
use esp32_p4_linux_hyperviso.Base.Finite.{holds_below, holds_below_sound}
use esp32_p4_linux_hyperviso.Boot.Region.{matches, matches-napot}
use esp32_p4_linux_hyperviso.Native.Registers.{
  Registers, boot_shim_reg_setbits, boot_shim_reg_clrsetbits, card_clocked, boot_shim_init_sdmmc,
  PinCalls, route_pins, hp_clkrst_peri_clk_ctrl02, hp_clkrst_peri_clk_ctrl01,
  hp_clkrst_soc_clk_ctrl1, lp_clkrst_hp_sdmmc_emac_rst, pmu_ext_ldo_p1_0p2a, divider_clr,
  divider_set, PmpRegisters, pmp_grant_psram_umode,
}

-- Bit `k` of a word with some bits cleared, then some set.
abbrev changed : ℕ → ℕ → ℕ → ℕ → ℕ
changed clr set b k = max (min b (1 - bit clr k)) (bit set k)

bit-changed :
    (v clr set k : ℕ)
    → clr < 2 ^ 32
    → k < 32
    → bit (bit_or (bit_and v (not32 clr)) set) k ≡ changed clr set (bit v k) k
bit-changed v clr set k h l =
    bit-bit_or (bit_and v (not32 clr)) set k
    ∙ ap (λ t. max t (bit set k))
        (bit-bit_and v (not32 clr) k ∙ ap (min (bit v k)) (bit-complement 32 clr k h l))

-- A rule for the bits of a word, tried for each bit and both its values.
tried :
    (f g : ℕ → ℕ → ℕ)
    → holds_below 32 (λ k. f 0 k == g 0 k && f 1 k == g 1 k) ≡ true
    → (b k : ℕ) → b < 2
    → k < 32
    → f b k ≡ g b k
tried f g e b k h l =
    let both = holds_below_sound 32 (λ k. f 0 k == g 0 k && f 1 k == g 1 k) k e l in
    elim (dec_lt b 1) [
      | yes p ↦ let z : b ≡ 0 = omega arith in rw z (ground (arith, both))
      | no p ↦ let z : b ≡ 1 = omega arith in rw z (ground (arith, both))
    ]

-- The loader's PMP registers open the 64 MB of PSRAM from 0x48000000 on, and nothing else, to U-mode,
-- and of the word with the configurations of four entries change the second byte only.
pub pmp_grant_psram_umode_lem :
    (r : PmpRegisters)
    → let r' = pmp_grant_psram_umode r in
      ((x : ℕ) → (matches r'.pmpaddr9 x ≡ true) ↔ ((0x48000000 ≤ x) × (x < 0x4c000000)))
      × ((k : ℕ)
          → k < 32
          → bit r'.pmpcfg2 k ≡ (if leb 8 k && ltb k 16 then bit 0x1f00 k else bit r.pmpcfg2 k))
unfolding pmp_grant_psram_umode holds_below
pmp_grant_psram_umode_lem r = (
  λ x. matches-napot 0x12 23 x (omega arith),
  λ k l.
      bit-changed r.pmpcfg2 (0xff << 8) (0x1f << 8) k (omega arith) l
      ∙ tried (changed 0xff00 0x1f00) (λ b k. if leb 8 k && ltb k 16 then bit 0x1f00 k else b) refl
          (bit r.pmpcfg2 k) k (bit-lt r.pmpcfg2 k) l,
)

-- The clocks of the card.
card_clocked_lem :
    (regs : Registers)
    → let regs' = card_clocked regs in
      ((k : ℕ)
        → k < 32
        → bit (regs' hp_clkrst_peri_clk_ctrl02) k ≡ (
            if leb 8 k && ltb k 30
            then bit divider_set k
            else bit (regs hp_clkrst_peri_clk_ctrl02) k))
      × ((a : ℕ)
          → a ≢ pmu_ext_ldo_p1_0p2a
          → a ≢ hp_clkrst_soc_clk_ctrl1
          → a ≢ lp_clkrst_hp_sdmmc_emac_rst
          → a ≢ hp_clkrst_peri_clk_ctrl01
          → a ≢ hp_clkrst_peri_clk_ctrl02
          → regs' a ≡ regs a)
unfolding card_clocked boot_shim_reg_setbits boot_shim_reg_clrsetbits holds_below
card_clocked_lem regs = (
  λ k l.
      let v = regs hp_clkrst_peri_clk_ctrl02 in
      let d = bit_or (bit_and v (not32 divider_clr)) divider_set in
      let step : bit (bit_or (bit_and (bit_or d 0x100) (not32 0x100)) 0) k
          ≡ changed 0x100 0 (max (changed divider_clr divider_set (bit v k) k) (bit 0x100 k)) k =
        bit-changed (bit_or d 0x100) 0x100 0 k (omega arith) l
        ∙ ap (λ b. changed 0x100 0 b k)
            (bit-bit_or d 0x100 k
              ∙ ap (λ b. max b (bit 0x100 k))
                  (bit-changed v divider_clr divider_set k (omega arith) l)) in
      step
      ∙ tried (λ b k. changed 0x100 0 (max (changed divider_clr divider_set b k) (bit 0x100 k)) k)
          (λ b k. if leb 8 k && ltb k 30 then bit divider_set k else b) refl (bit v k) k
          (bit-lt v k) l,
  λ a n1 n2 n3 n4 n5. ground (arith, n1, n2, n3, n4, n5),
)

-- A call on a pin that changes no register but the pads'.
abbrev pub Kept : (ℕ → Bool) → (ℕ → Registers → Registers) → Type 0
Kept is_pad call =
    (pin : ℕ)
    → 39 ≤ pin
    → pin ≤ 44
    → (regs : Registers) (a : ℕ) → is_pad a ≡ false
    → call pin regs a ≡ regs a

-- ESP-IDF's calls on the six pins change the registers of the pads only.
pub record KeepToPads (is_pad : ℕ → Bool) (calls : PinCalls) : Type 0 where
  pub pulldown_kept : Kept is_pad calls.gpio_pulldown_dis
  pub pullup_kept : Kept is_pad calls.gpio_pullup_en
  pub input_kept : Kept is_pad calls.gpio_input_enable
  pub output_kept : Kept is_pad (λ pin. calls.gpio_iomux_output pin 0)
  pub drive_kept : Kept is_pad (λ pin. calls.gpio_set_drive_capability pin 3)

abbrev pins_from : ℕ → ℕ → List ℕ
pins_from zero pin = []
pins_from (suc left) pin = pin ∷ pins_from left (pin + 1)

-- So does the routing of one pin after the other.
route_pin-kept :
    (is_pad : ℕ → Bool) (calls : PinCalls) (pin : ℕ) (pins : List ℕ) (regs : Registers) (a : ℕ)
    → KeepToPads is_pad calls
    → 39 ≤ pin
    → pin ≤ 44
    → is_pad a ≡ false
    → ((regs : Registers) → route_pins calls pins regs a ≡ regs a)
    → route_pins calls (pin ∷ pins) regs a ≡ regs a
unfolding route_pins
route_pin-kept is_pad calls pin pins regs a keep low high away rest =
    rest _
    ∙ keep.drive_kept pin low high _ a away
    ∙ keep.output_kept pin low high _ a away
    ∙ keep.input_kept pin low high _ a away
    ∙ keep.pullup_kept pin low high _ a away
    ∙ keep.pulldown_kept pin low high regs a away

route_pins-kept :
    (is_pad : ℕ → Bool) (calls : PinCalls) (a : ℕ)
    → KeepToPads is_pad calls
    → is_pad a ≡ false
    → (left pin : ℕ) → 39 ≤ pin
    → pin + left ≤ 45
    → (regs : Registers) → route_pins calls (pins_from left pin) regs a ≡ regs a
unfolding route_pins
route_pins-kept is_pad calls a keep away zero pin low high regs = refl
route_pins-kept is_pad calls a keep away (suc left) pin low high regs =
    route_pin-kept is_pad calls pin (pins_from left (pin + 1)) regs a keep low (omega arith) away
      (route_pins-kept is_pad calls a keep away left (pin + 1) (omega arith) (omega arith))

-- With ESP-IDF's calls on the six pins changing the pads' registers only, among which the clock control
-- register is not, bringing up the card changes of all other registers no more than five. In the
-- clock control register that it shares with the display, bits 8 to 29 get the divider's fields,
-- whatever they held, and the display's bits 30 and 31 stay as they were, as do bits 0 to 7.
pub boot_shim_init_sdmmc_lem :
    (is_pad : ℕ → Bool) (calls : PinCalls) (regs : Registers)
    → KeepToPads is_pad calls
    → is_pad hp_clkrst_peri_clk_ctrl02 ≡ false
    → let regs' = boot_shim_init_sdmmc calls regs in
      ((k : ℕ)
        → k < 32
        → bit (regs' hp_clkrst_peri_clk_ctrl02) k ≡ (
            if leb 8 k && ltb k 30
            then bit divider_set k
            else bit (regs hp_clkrst_peri_clk_ctrl02) k))
      × ((a : ℕ)
          → is_pad a ≡ false
          → a ≢ pmu_ext_ldo_p1_0p2a
          → a ≢ hp_clkrst_soc_clk_ctrl1
          → a ≢ lp_clkrst_hp_sdmmc_emac_rst
          → a ≢ hp_clkrst_peri_clk_ctrl01
          → a ≢ hp_clkrst_peri_clk_ctrl02
          → regs' a ≡ regs a)
unfolding boot_shim_init_sdmmc
boot_shim_init_sdmmc_lem is_pad calls regs keep away =
    let (bits, others) = card_clocked_lem regs in
    let kept = λ (a : ℕ) (out : is_pad a ≡ false).
      route_pins-kept is_pad calls a keep out 6 39 (omega arith) (omega arith)
        (card_clocked regs) in
    (
      λ k l. ap (λ v. bit v k) (kept hp_clkrst_peri_clk_ctrl02 away) ∙ bits k l,
      λ a out n1 n2 n3 n4 n5. kept a out ∙ others a n1 n2 n3 n4 n5,
    )
