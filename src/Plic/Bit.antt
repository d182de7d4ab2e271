-- ===== src/Plic/Bit.antt =====
-- The PLIC's masks `1 << n` read as single bits.
use esp32_p4_linux_hyperviso.Base.{
  ℕ, ◌^◌, ◌<◌, ◌≡◌, bit_and, bit_or, ◌==◌, has, not32, bit, ◌<<◌, if◌then◌else◌,
}
use esp32_p4_linux_hyperviso.Base.Bits.{has-bit, pow-lt-word, bit-set, bit-clear}
use native.Mathlib.Nat.{one-mul, mod-eq_of_lt}

shift_one : (n : ℕ) → n < 32 → 1 << n ≡ 2 ^ n
shift_one n h = rw one-mul (mod-eq_of_lt (pow-lt-word n h))

pub has-shift : (x n : ℕ) → n < 32 → has x (1 << n) ≡ (bit x n == 1)
has-shift x n h = rw (shift_one n h) (has-bit n x)

pub bit-raise : (x n m : ℕ) → n < 32 → bit (bit_or x (1 << n)) m ≡ (if n == m then 1 else bit x m)
bit-raise x n m h = rw (shift_one n h) (bit-set x n m)

pub bit-lower :
    (x n m : ℕ)
    → n < 32
    → m < 32
    → bit (bit_and x (not32 (1 << n))) m ≡ (if n == m then 0 else bit x m)
bit-lower x n m h k = rw (shift_one n h) (bit-clear x n m h k)
