-- ===== src/Intr/Status.antt =====
-- mstatus, bit by bit, as a trap into the guest and an mret leave it.
use esp32_p4_linux_hyperviso.Base.{
  ℕ, ◌/◌, ◌%◌, ◌<◌, ◌≡◌, refl, true, bit, ◌==◌, ==_iff, has, not32, ◌<<◌, if◌then◌else◌, ◌||◌,
  arith, Bool-cases, inl, inr,
}
use esp32_p4_linux_hyperviso.Base.Bits.{bit-bit_or, bit-bit_and, bit-lt, has-bit, bit-zero}
use esp32_p4_linux_hyperviso.Base.Finite.{holds_below, holds_below_sound}
use esp32_p4_linux_hyperviso.Intr.{trapped_status}
use esp32_p4_linux_hyperviso.Csr.{returned_status}

-- The masks of mstatus.MIE, MPIE and MPP and their complements, at every bit.
mask_table : holds_below 32 (λ k. bit 0x8 k == (if k == 3 then 1 else 0)) ≡ true
unfolding holds_below
mask_table = refl

mie_mask : (k : ℕ) → k < 32 → bit 0x8 k ≡ (if k == 3 then 1 else 0)
mie_mask k h = (==_iff _ _).0 (holds_below_sound 32 _ k mask_table h)

mpie_table : holds_below 32 (λ k. bit 0x80 k == (if k == 7 then 1 else 0)) ≡ true
unfolding holds_below
mpie_table = refl

mpie_mask : (k : ℕ) → k < 32 → bit 0x80 k ≡ (if k == 7 then 1 else 0)
mpie_mask k h = (==_iff _ _).0 (holds_below_sound 32 _ k mpie_table h)

not_mie_table : holds_below 32 (λ k. bit (not32 0x8) k == (if k == 3 then 0 else 1)) ≡ true
unfolding holds_below
not_mie_table = refl

not_mie : (k : ℕ) → k < 32 → bit (not32 0x8) k ≡ (if k == 3 then 0 else 1)
not_mie k h = (==_iff _ _).0 (holds_below_sound 32 _ k not_mie_table h)

not_mpie_table : holds_below 32 (λ k. bit (not32 0x80) k == (if k == 7 then 0 else 1)) ≡ true
unfolding holds_below
not_mpie_table = refl

not_mpie : (k : ℕ) → k < 32 → bit (not32 0x80) k ≡ (if k == 7 then 0 else 1)
not_mpie k h = (==_iff _ _).0 (holds_below_sound 32 _ k not_mpie_table h)

not_mpp_table :
    holds_below 32 (λ k. bit (not32 0x1800) k == (if k == 11 || k == 12 then 0 else 1)) ≡ true
unfolding holds_below
not_mpp_table = refl

not_mpp : (k : ℕ) → k < 32 → bit (not32 0x1800) k ≡ (if k == 11 || k == 12 then 0 else 1)
not_mpp k h = (==_iff _ _).0 (holds_below_sound 32 _ k not_mpp_table h)

-- The privilege in the MPP field.
abbrev mpp_bit : ℕ → ℕ → ℕ
mpp_bit priv k = if k == 11 then priv % 2 else if k == 12 then priv / 2 else 0

mpp_table :
    holds_below 4 (λ priv. holds_below 32 (λ k. bit (priv << 11) k == mpp_bit priv k)) ≡ true
unfolding holds_below
mpp_table = refl

mpp_field : (priv k : ℕ) → priv < 4 → k < 32 → bit (priv << 11) k ≡ mpp_bit priv k
mpp_field priv k h l =
    (==_iff _ _).0 (holds_below_sound 32 _ k (holds_below_sound 4 _ priv mpp_table h) l)

-- A trap saves MIE in MPIE, clears MIE, puts the privilege in MPP and keeps every other bit.
pub bit-trapped_status :
    (status priv k : ℕ)
    → priv < 4
    → k < 32
    → bit (trapped_status status priv) k ≡ (
        if k == 3
        then 0
        else if k == 7
        then bit status 3
        else if k == 11 || k == 12
        then mpp_bit priv k
        else bit status k)
unfolding trapped_status
bit-trapped_status status priv k h l =
    rw
      (
        bit-bit_or,
        bit-bit_and,
        bit-bit_and,
        bit-bit_or,
        bit-bit_and,
        not_mpie k l,
        not_mie k l,
        not_mpp k l,
        mpp_field priv k h l,
        saved_bit,
      )
      (ground (arith, bit-lt status k, bit-lt status 3))
  where
    saved_bit : bit (if has status 0x8 then 0x80 else 0) k ≡ (if k == 7 then bit status 3 else 0)
    saved_bit = elim (Bool-cases (has status 0x8)) [
      | inl e ↦ rw e (ground (arith, has-bit 3 status, mpie_mask k l))
      | inr e ↦ rw e (ground (arith, has-bit 3 status, bit-zero k, bit-lt status 3))
    ]

-- An mret restores MIE from MPIE, sets MPIE, clears MPP and keeps every other bit.
pub bit-returned_status :
    (status k : ℕ)
    → k < 32
    → bit (returned_status status) k ≡ (
        if k == 3
        then bit status 7
        else if k == 7
        then 1
        else if k == 11 || k == 12
        then 0
        else bit status k)
unfolding returned_status
bit-returned_status status k l =
    rw
      (
        bit-bit_and,
        bit-bit_or,
        bit-bit_or,
        bit-bit_and,
        not_mie k l,
        not_mpp k l,
        mpie_mask k l,
        restored_bit,
      )
      (ground (arith, bit-lt status k, bit-lt status 7))
  where
    restored_bit : bit (if has status 0x80 then 0x8 else 0) k ≡ (if k == 3 then bit status 7 else 0)
    restored_bit = elim (Bool-cases (has status 0x80)) [
      | inl e ↦ rw e (ground (arith, has-bit 7 status, mie_mask k l))
      | inr e ↦ rw e (ground (arith, has-bit 7 status, bit-zero k, bit-lt status 7))
    ]
