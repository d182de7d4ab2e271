-- ===== src/Base/Bits/Step.antt =====
-- One binary digit of `&` and of `|`: the native operations are a recursion on digits with fuel,
-- which is dropped here.
use Prim.Native.Nat.{ℕ, zero, suc, ◌+◌, ◌*◌, ◌/◌, ◌%◌, ◌≤◌, min, max, bit_and, bit_or}
use Prim.Native.Nat.{digits, bitwise, bit_and-bitwise, bit_or-bitwise}
use mathlib.Core.Path.{◌≡◌, refl, ap}
use native.Mathlib.Omega.{arith}

module _ (rest : ℕ → ℕ) (digit : ℕ → ℕ → ℕ) where
  -- Any two amounts of fuel that cover the number give the same digits.
  fuel_free : (x y k l : ℕ) → x ≤ k → x ≤ l → digits rest digit l x y ≡ digits rest digit k x y
  fuel_free zero y zero zero g h = refl
  fuel_free zero y zero (suc l) g h = refl
  fuel_free zero y (suc k) zero g h = refl
  fuel_free zero y (suc k) (suc l) g h = refl
  fuel_free (suc x) y zero l g h = absurd (omega arith)
  fuel_free (suc x) y (suc k) zero g h = absurd (omega arith)
  fuel_free (suc x) y (suc k) (suc l) g h =
      ap (λ d. d * 2 + digit (suc x % 2) (y % 2))
        (fuel_free (suc x / 2) (y / 2) k l (omega arith) (omega arith))

  lowest_digit :
      (x y : ℕ)
      → bitwise rest digit (suc x) y
        ≡ bitwise rest digit (suc x / 2) (y / 2) * 2 + digit (suc x % 2) (y % 2)
  lowest_digit x y =
      ap (λ d. d * 2 + digit (suc x % 2) (y % 2))
        (fuel_free (suc x / 2) (y / 2) (suc x / 2) x (omega arith) (omega arith))

pub bit_and_step : (x y : ℕ) → bit_and x y ≡ bit_and (x / 2) (y / 2) * 2 + min (x % 2) (y % 2)
bit_and_step zero y = simp bit_and-bitwise (omega arith)
bit_and_step (suc x) y = simp bit_and-bitwise (lowest_digit (λ d. 0) min x y)

pub bit_or_step : (x y : ℕ) → bit_or x y ≡ bit_or (x / 2) (y / 2) * 2 + max (x % 2) (y % 2)
bit_or_step zero y = simp bit_or-bitwise (omega arith)
bit_or_step (suc x) y = simp bit_or-bitwise (lowest_digit (λ d. d) max x y)
