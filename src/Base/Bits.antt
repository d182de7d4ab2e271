-- ===== src/Base/Bits.antt =====
-- The laws of single bits under `&`, `|`, `~` and `1 << n`.
mod Step
pub use Step.*
use Prim.Native.Nat.{
  ℕ, zero, suc, ◌+◌, ◌-◌, ◌*◌, ◌/◌, ◌%◌, ◌^◌, ◌≤◌, ◌<◌, min, max, bit_and, bit_or,
}
use mathlib.Core.Path.{◌≡◌, refl, ap, ◌∙◌}
use mathlib.Core.Logic.{◌≢◌}
use mathlib.Core.Bool.{Bool, true, false, not}
use native.Mathlib.Nat.{
  pow-suc, one-le-pow, mod-lt, mod-eq_of_lt, div-add-mod', mul-add-mod_self_right, zero-mul,
  one-mul, mul-one, div-one, div-div-eq-div-mul,
}
use native.Mathlib.Decide.{dec_lt}
use native.Mathlib.Omega.{arith}
use esp32_p4_linux_hyperviso.Base.Tests.{◌==◌, ltb, if◌then◌else◌}
use esp32_p4_linux_hyperviso.Base.Words.{bit, has, not32}

pub bit-lt : (x k : ℕ) → bit x k < 2
bit-lt x zero = omega arith
bit-lt x (suc k) = bit-lt (x / 2) k

pub bit-zero : (k : ℕ) → bit 0 k ≡ 0
bit-zero zero = refl
bit-zero (suc k) = bit-zero k

bit_and-zero : (a : ℕ) → bit_and a 0 ≡ 0
bit_and-zero a = fuel a a (omega arith)
  where
    fuel : (n a : ℕ) → a ≤ n → bit_and a 0 ≡ 0
    fuel n zero h = refl
    fuel zero (suc a) h = absurd (omega arith)
    fuel (suc n) (suc a) h = omega (arith, bit_and_step (suc a) 0, fuel n (suc a / 2) (omega arith))

pub bit-bit_and : (a b k : ℕ) → bit (bit_and a b) k ≡ min (bit a k) (bit b k)
bit-bit_and a b zero = omega (arith, bit_and_step a b)
bit-bit_and a b (suc k) = rw half (bit-bit_and (a / 2) (b / 2) k)
  where
    half : bit_and a b / 2 ≡ bit_and (a / 2) (b / 2)
    half = omega (arith, bit_and_step a b)

pub bit-bit_or : (a b k : ℕ) → bit (bit_or a b) k ≡ max (bit a k) (bit b k)
bit-bit_or a b zero = omega (arith, bit_or_step a b)
bit-bit_or a b (suc k) = rw half (bit-bit_or (a / 2) (b / 2) k)
  where
    half : bit_or a b / 2 ≡ bit_or (a / 2) (b / 2)
    half = omega (arith, bit_or_step a b)

pub bit-complement : (w x k : ℕ) → x < 2 ^ w → k < w → bit (2 ^ w - 1 - x) k ≡ 1 - bit x k
bit-complement zero x k h l = absurd (omega arith)
bit-complement (suc w) x zero h l = omega (arith, pow-suc 2 w)
bit-complement (suc w) x (suc k) h l =
    rw half (bit-complement w (x / 2) k (omega (arith, pow-suc 2 w)) (omega arith))
  where
    half : (2 ^ suc w - 1 - x) / 2 ≡ 2 ^ w - 1 - x / 2
    half = omega (arith, pow-suc 2 w)

-- Two words with the same bits are equal.
pub bit_ext : (w a b : ℕ) → a < 2 ^ w → b < 2 ^ w → ((k : ℕ) → k < w → bit a k ≡ bit b k) → a ≡ b
bit_ext zero a b ha hb h = omega arith
bit_ext (suc w) a b ha hb h = omega (
  arith,
  h 0 (omega arith),
  bit_ext w (a / 2) (b / 2) (omega (arith, pow-suc 2 w)) (omega (arith, pow-suc 2 w))
      (λ k l. h (suc k) (omega arith)),
)

half-pow : (n : ℕ) → 2 ^ suc n / 2 ≡ 2 ^ n
half-pow n = omega (arith, pow-suc 2 n)

bit-pow : (n k : ℕ) → bit (2 ^ n) k ≡ (if n == k then 1 else 0)
bit-pow zero zero = refl
bit-pow zero (suc k) = ground (arith, bit-zero k)
bit-pow (suc n) zero = ground (arith, pow-suc 2 n)
bit-pow (suc n) (suc k) = rw (half-pow n) (ground (arith, bit-pow n k))

pub pow_mono : (n m : ℕ) → n ≤ m → 2 ^ n ≤ 2 ^ m
pow_mono zero m h = one-le-pow m 2 (omega arith)
pow_mono (suc n) zero h = absurd (omega arith)
pow_mono (suc n) (suc m) h = omega (arith, pow-suc 2 n, pow-suc 2 m, pow_mono n m (omega arith))

pub pow-lt-word : (n : ℕ) → n < 32 → 2 ^ n < 2 ^ 32
pow-lt-word n h = omega (arith, pow_mono n 31 (omega arith))

pub bit_and-le_right : (b a : ℕ) → bit_and a b ≤ b
bit_and-le_right b a = fuel b b a (omega arith)
  where
    fuel : (n b a : ℕ) → b ≤ n → bit_and a b ≤ b
    fuel zero b a h = omega (arith, none_left a b (omega arith))
      where
        none_left : (a b : ℕ) → b ≡ 0 → bit_and a b ≡ 0
        none_left a b e = rw e (bit_and-zero a)
    fuel (suc n) b a h = omega (arith, bit_and_step a b, fuel n (b / 2) (a / 2) (omega arith))

-- `|` of two words that fit `w` bits fits `w` bits.
pub bit_or-lt : (w a b : ℕ) → a < 2 ^ w → b < 2 ^ w → bit_or a b < 2 ^ w
bit_or-lt zero a b ha hb = omega (arith, both_zero a b (omega arith) (omega arith))
  where
    both_zero : (a b : ℕ) → a ≡ 0 → b ≡ 0 → bit_or a b ≡ 0
    both_zero a b p q = rw (p, q)
bit_or-lt (suc w) a b ha hb = omega (
  arith,
  bit_or_step a b,
  pow-suc 2 w,
  bit_or-lt w (a / 2) (b / 2) (omega (arith, pow-suc 2 w)) (omega (arith, pow-suc 2 w)),
)

-- The test of one bit, `(x & (1 << k)) != 0`.
bit_and-pow : (k x : ℕ) → bit_and x (2 ^ k) ≡ bit x k * 2 ^ k
bit_and-pow zero x = omega (arith, bit_and_step x 1, bit_and-zero (x / 2))
bit_and-pow (suc k) x =
    let doubled : bit_and x (2 ^ suc k) ≡ bit_and (x / 2) (2 ^ k) * 2 =
      rw (← half-pow k) (omega (arith, bit_and_step x (2 ^ suc k), pow-suc 2 k)) in
    omega (arith, doubled, bit_and-pow k (x / 2), ap (λ (t : ℕ). bit (x / 2) k * t) (pow-suc 2 k))

pub has-bit : (k x : ℕ) → has x (2 ^ k) ≡ (bit x k == 1)
has-bit k x = rw (bit_and-pow k x) (tested (bit x k) (bit-lt x k))
  where
    tested : (b : ℕ) → b < 2 → not (b * 2 ^ k == 0) ≡ (b == 1)
    tested zero h = rw zero-mul
    tested (suc zero) h = rw one-mul (ground (arith, one-le-pow k 2 (omega arith)))
    tested (suc (suc b)) h = absurd (omega arith)

mod-pow-suc : (k a : ℕ) → a % 2 ^ suc k ≡ a / 2 % 2 ^ k * 2 + a % 2
mod-pow-suc k a =
    ap (λ (t : ℕ). t % 2 ^ suc k) whole
    ∙ mul-add-mod_self_right (a / 2 / 2 ^ k) (2 ^ suc k) (a / 2 % 2 ^ k * 2 + a % 2)
    ∙ mod-eq_of_lt (omega (arith, pow-suc 2 k, mod-lt (a / 2) (one-le-pow k 2 (omega arith))))
  where
    whole : a ≡ a / 2 / 2 ^ k * 2 ^ suc k + (a / 2 % 2 ^ k * 2 + a % 2)
    whole =
        omega (arith, div-add-mod' (a / 2) (2 ^ k), ap (λ (t : ℕ). a / 2 / 2 ^ k * t) (pow-suc 2 k))

-- `x & (2^k - 1)` is the remainder.
pub bit_and_mask : (k a : ℕ) → bit_and a (2 ^ k - 1) ≡ a % 2 ^ k
bit_and_mask zero a = rw (bit_and-zero a) (omega arith)
bit_and_mask (suc k) a =
    let shifted : bit_and (a / 2) ((2 ^ suc k - 1) / 2) ≡ a / 2 % 2 ^ k =
      rw (mask_half k) (bit_and_mask k (a / 2)) in
    omega (
      arith,
      bit_and_step a (2 ^ suc k - 1),
      pow-suc 2 k,
      one-le-pow k 2 (omega arith),
      shifted,
      mod-pow-suc k a,
    )
  where
    mask_half : (k : ℕ) → (2 ^ suc k - 1) / 2 ≡ 2 ^ k - 1
    mask_half k = omega (arith, pow-suc 2 k, one-le-pow k 2 (omega arith))

pub bit_or-zero : (a : ℕ) → bit_or a 0 ≡ a
bit_or-zero a = fuel a a (omega arith)
  where
    fuel : (n a : ℕ) → a ≤ n → bit_or a 0 ≡ a
    fuel n zero h = refl
    fuel zero (suc a) h = absurd (omega arith)
    fuel (suc n) (suc a) h = omega (arith, bit_or_step (suc a) 0, fuel n (suc a / 2) (omega arith))

-- `(q << k) | r` is a sum when `r` fits below bit `k`.
pub bit_or_fields : (k q r : ℕ) → r < 2 ^ k → bit_or (q * 2 ^ k) r ≡ q * 2 ^ k + r
bit_or_fields zero q r h =
    let none_left : r ≡ 0 = omega arith in rw (none_left, bit_or-zero) (omega arith)
bit_or_fields (suc k) q r h =
    let doubled : q * 2 ^ suc k ≡ q * 2 ^ k * 2 =
      omega (arith, ap (λ (t : ℕ). q * t) (pow-suc 2 k)) in
    let halved : q * 2 ^ suc k / 2 ≡ q * 2 ^ k = omega arith in
    let rest : bit_or (q * 2 ^ suc k / 2) (r / 2) ≡ q * 2 ^ k + r / 2 =
      rw halved (bit_or_fields k q (r / 2) (omega (arith, pow-suc 2 k))) in
    omega (arith, bit_or_step (q * 2 ^ suc k) r)

pub bit_or_comm : (a b : ℕ) → bit_or a b ≡ bit_or b a
bit_or_comm a b = fuel (a + b) a b (omega arith) (omega arith)
  where
    fuel : (n a b : ℕ) → a ≤ n → b ≤ n → bit_or a b ≡ bit_or b a
    fuel zero zero zero h k = refl
    fuel zero (suc a) b h k = absurd (omega arith)
    fuel zero zero (suc b) h k = absurd (omega arith)
    fuel (suc n) a b h k = omega (
      arith,
      bit_or_step a b,
      bit_or_step b a,
      fuel n (a / 2) (b / 2) (omega arith) (omega arith),
    )

-- Setting a bit, `p | (1 << n)`.
pub bit-set : (p n m : ℕ) → bit (bit_or p (2 ^ n)) m ≡ (if n == m then 1 else bit p m)
bit-set p n m = rw (bit-bit_or p (2 ^ n) m, bit-pow n m) (ground (arith, bit-lt p m))

-- Clearing a bit, `p & ~(1 << n)`.
pub bit-clear :
    (p n m : ℕ)
    → n < 32
    → m < 32
    → bit (bit_and p (not32 (2 ^ n))) m ≡ (if n == m then 0 else bit p m)
bit-clear p n m hn hm =
    rw
      (
        bit-bit_and p (not32 (2 ^ n)) m,
        bit-complement 32 (2 ^ n) m (pow-lt-word n hn) hm,
        bit-pow n m,
      )
      (ground (arith, bit-lt p m))

-- A mask whose low `k` bits are clear.
pub bit_and_shifted : (k x m : ℕ) → bit_and x (m * 2 ^ k) ≡ bit_and (x / 2 ^ k) m * 2 ^ k
bit_and_shifted zero x m = rw (mul-one m, div-one x, mul-one (bit_and x m))
bit_and_shifted (suc k) x m =
    let doubled : m * 2 ^ suc k ≡ m * 2 ^ k * 2 =
      omega (arith, ap (λ (t : ℕ). m * t) (pow-suc 2 k)) in
    let halved : m * 2 ^ suc k / 2 ≡ m * 2 ^ k = omega arith in
    let rest : bit_and (x / 2) (m * 2 ^ suc k / 2) ≡ bit_and (x / 2 / 2 ^ k) m * 2 ^ k =
      rw halved (bit_and_shifted k (x / 2) m) in
    let split : x / 2 ^ suc k ≡ x / 2 / 2 ^ k = rw (div-div-eq-div-mul, ← two_mul_pow k) in
    rw split (
      omega (
        arith,
        bit_and_step x (m * 2 ^ suc k),
        ap (λ (t : ℕ). bit_and (x / 2 / 2 ^ k) m * t) (pow-suc 2 k),
      ))
  where
    two_mul_pow : (k : ℕ) → 2 ^ suc k ≡ 2 * 2 ^ k
    two_mul_pow k = omega (arith, pow-suc 2 k)
