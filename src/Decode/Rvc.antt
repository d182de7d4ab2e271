-- ===== src/Decode/Rvc.antt =====
-- `rvc_expand` against the RISC-V encodings of c.lw, c.sw, lw and sw.
use esp32_p4_linux_hyperviso.Base.{
  ℕ, ◌+◌, ◌*◌, ◌/◌, ◌%◌, ◌^◌, ◌<◌, ◌≡◌, ◌≢◌, ◌↔◌, ◌⊎◌, refl, true, ◌==◌, ==_iff, arith, bit_and,
  bit_or, ◌>>◌,
}
use esp32_p4_linux_hyperviso.Base.Bits.{bit_or_step, bit_and_mask}
use esp32_p4_linux_hyperviso.Base.Finite.{holds_below, holds_below_sound}
use esp32_p4_linux_hyperviso.Decode.{rvc_expand}

-- The compressed forms: registers x8..x15 by three bits, and the offset, a number `w` of words,
-- scattered over bits 12..10 (uimm[5:3]), 6 (uimm[2]) and 5 (uimm[6]).
abbrev pub compressed : ℕ → ℕ → ℕ → ℕ → ℕ
compressed funct3 rx rs1 w =
    funct3 * 2 ^ 13 + w / 2 % 8 * 2 ^ 10 + rs1 * 2 ^ 7 + w % 2 * 2 ^ 6 + w / 16 * 2 ^ 5 + rx * 2 ^ 2

abbrev pub c_lw : ℕ → ℕ → ℕ → ℕ
c_lw = compressed 2

abbrev pub c_sw : ℕ → ℕ → ℕ → ℕ
c_sw = compressed 6

-- `lw rd, imm(rs1)`, I-type, and `sw rs2, imm(rs1)`, S-type.
abbrev pub lw : ℕ → ℕ → ℕ → ℕ
lw rd rs1 imm = imm * 2 ^ 20 + rs1 * 2 ^ 15 + 2 * 2 ^ 12 + rd * 2 ^ 7 + 0x03

abbrev pub sw : ℕ → ℕ → ℕ → ℕ
sw rs2 rs1 imm =
    imm / 32 * 2 ^ 25 + rs2 * 2 ^ 20 + rs1 * 2 ^ 15 + 2 * 2 ^ 12 + imm % 32 * 2 ^ 7 + 0x23

lw_table :
    holds_below 8 (λ rx.
      holds_below 8
        (λ rs1. holds_below 32 (λ w. rvc_expand (c_lw rx rs1 w) == lw (8 + rx) (8 + rs1) (4 * w))))
    ≡ true
unfolding holds_below rvc_expand
lw_table = refl

sw_table :
    holds_below 8 (λ rx.
      holds_below 8
        (λ rs1. holds_below 32 (λ w. rvc_expand (c_sw rx rs1 w) == sw (8 + rx) (8 + rs1) (4 * w))))
    ≡ true
unfolding holds_below rvc_expand
sw_table = refl

-- `rvc_expand` rewrites each c.lw and each c.sw, whatever its two registers (three-bit fields) and
-- its word offset below 32, as the lw or sw of the same registers and byte offset.
pub rvc_expand-compressed :
    (rx rs1 w : ℕ)
    → rx < 8
    → rs1 < 8
    → w < 32
    → (rvc_expand (c_lw rx rs1 w) ≡ lw (8 + rx) (8 + rs1) (4 * w))
      × (rvc_expand (c_sw rx rs1 w) ≡ sw (8 + rx) (8 + rs1) (4 * w))
rvc_expand-compressed rx rs1 w hx hs hw = (
  (==_iff _ _).0 (
      holds_below_sound 32 _ w (holds_below_sound 8 _ rs1 (holds_below_sound 8 _ rx lw_table hx) hs)
        hw),
  (==_iff _ _).0 (
      holds_below_sound 32 _ w (holds_below_sound 8 _ rs1 (holds_below_sound 8 _ rx sw_table hx) hs)
        hw),
)

or_low : (a b : ℕ) → b % 4 ≡ 3 → bit_or a b % 4 ≡ 3
or_low a b h = omega (arith, bit_or_step a b, bit_or_step (a / 2) (b / 2))

-- `rvc_expand` returns 0, its mark of failure, on exactly the halfwords that are no c.lw or c.sw:
-- quadrant 0 with funct3 2 or 6 is expanded, everything else is refused.
pub rvc_expand-ne-zero_iff :
    (c : ℕ)
    → (rvc_expand c ≢ 0)
      ↔ ((bit_and c 3 ≡ 0) × ((bit_and (c >> 13) 7 ≡ 2) ⊎ (bit_and (c >> 13) 7 ≡ 6)))
unfolding rvc_expand
rvc_expand-ne-zero_iff c = grind (arith, or_low)

-- An expansion that succeeds is a 32-bit encoding: its low two bits are set.
pub rvc_expand-low_bits : (c : ℕ) → rvc_expand c ≢ 0 → bit_and (rvc_expand c) 3 ≡ 3
unfolding rvc_expand
rvc_expand-low_bits c h = grind (arith, or_low, bit_and_mask 2)
