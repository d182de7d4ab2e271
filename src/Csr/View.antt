-- ===== src/Csr/View.antt =====
-- The CSRs as the guest sees them: a value for each number, and what an access does to its bits.
use esp32_p4_linux_hyperviso.Base.{
  ℕ, ◌-◌, ◌%◌, ◌^◌, ◌<◌, ◌≡◌, refl, Bool, true, false, not, ◌&&◌, ◌||◌, Option, none, some, min,
  max, bit, bit_and, bit_or, not32, ◌==◌, if◌then◌else◌, arith,
}
use esp32_p4_linux_hyperviso.Base.Bits.{
  bit-bit_and, bit-bit_or, bit-complement, bit-lt, bit_and_mask,
}
use esp32_p4_linux_hyperviso.Base.Finite.{holds_below, holds_below_sound}
use esp32_p4_linux_hyperviso.Monitor.{Hyp}
use esp32_p4_linux_hyperviso.Intr.{shadow_mip_read}
use esp32_p4_linux_hyperviso.Csr.{shadow_slot, slot_read, csr_read_only_zero, csr_update}

-- What a CSR's number reads as; `none` for one that is not there.
unfoldable pub csr_view : ℕ → Hyp → ℕ → Option ℕ
csr_view now h csr = if csr == 0x344 then some (shadow_mip_read now h) else elim (shadow_slot csr) [
  | some slot ↦ some (slot_read h.guest slot)
  | none ↦ if csr_read_only_zero csr then some 0 else none
]

-- A bit of a CSR after a swap, a set or a clear with a bit of the source.
abbrev pub updated_bit : ℕ → ℕ → ℕ → ℕ
updated_bit funct3 old src =
    if funct3 % 4 == 1
    then src
    else if funct3 % 4 == 2
    then max old src
    else if funct3 % 4 == 3
    then min old (1 - src)
    else old

-- The bits that an access may change: of mip not the two that are computed, of the constants none.
abbrev pub csr_writable : ℕ → ℕ → Bool
csr_writable csr k = not (csr_read_only_zero csr) && not (csr == 0x344 && (k == 7 || k == 11))

pub bit-csr_update :
    (funct3 old src k : ℕ)
    → src < 2 ^ 32
    → k < 32
    → bit (csr_update funct3 old src) k ≡ updated_bit funct3 (bit old k) (bit src k)
unfolding csr_update
bit-csr_update funct3 old src k h l = ground (
  arith,
  bit_and_mask 2 funct3,
  bit-bit_or old src k,
  bit-bit_and old (not32 src) k,
  bit-complement 32 src k h l,
)

-- mip's stored bits under the two that the PLIC and the CLINT compute.
abbrev pub with_live : Bool → Bool → ℕ → ℕ
with_live timer external mip =
    let stored = bit_and mip (not32 0x880) in
    let mip' = if timer then bit_or stored 0x80 else stored in
    if external then bit_or mip' 0x800 else mip'

abbrev live_bit : Bool → Bool → ℕ → ℕ → ℕ
live_bit timer external b k =
    let stored = min b (bit (not32 0x880) k) in
    let timed = if timer then max stored (bit 0x80 k) else stored in
    if external then max timed (bit 0x800 k) else timed

bit-with_live : (t e : Bool) (mip k : ℕ) → bit (with_live t e mip) k ≡ live_bit t e (bit mip k) k
bit-with_live t e mip k =
    let s = bit_and mip (not32 0x880) in
    ground (
      arith,
      bit-bit_and mip (not32 0x880) k,
      bit-bit_or s 0x80 k,
      bit-bit_or s 0x800 k,
      bit-bit_or (bit_or s 0x80) 0x800 k,
    )

-- Tried for each bit, and for both values of the stored and of the new one.
kept_bits : (t e : Bool) → Bool
kept_bits t e = holds_below 32 (λ k. holds_below 2 (λ b. holds_below 2 (λ u.
    live_bit t e (min u (bit (not32 0x880) k)) k
    == (if k == 7 || k == 11 then live_bit t e b k else u))))

kept_bits-all : (t e : Bool) → kept_bits t e ≡ true
unfolding kept_bits holds_below
kept_bits-all true true = refl
kept_bits-all true false = refl
kept_bits-all false true = refl
kept_bits-all false false = refl

-- What a write to mip leaves of it.
pub mip_written :
    (t e : Bool) (mip updated k : ℕ)
    → k < 32
    → bit (with_live t e (bit_and updated (not32 0x880))) k
      ≡ (if k == 7 || k == 11 then bit (with_live t e mip) k else bit updated k)
unfolding kept_bits
mip_written t e mip updated k l =
    let b = bit mip k in
    let u = bit updated k in
    let known =
      holds_below_sound 2 _ u
        (holds_below_sound 2 _ b (holds_below_sound 32 _ k (kept_bits-all t e) l) (bit-lt mip k))
        (bit-lt updated k) in
    ground (
      arith,
      known,
      bit-with_live t e (bit_and updated (not32 0x880)) k,
      bit-with_live t e mip k,
      bit-bit_and updated (not32 0x880) k,
    )
