-- ===== src/Base/Cyclic.antt =====
-- The occupied slots of an array used as a ring: read from an index on, going round at its size.
use Prim.Native.Nat.{ℕ, zero, suc, ◌+◌, ◌-◌, ◌%◌, ◌<◌}
use mathlib.Core.Path.{◌≡◌, refl, ap, ap₂}
use mathlib.Core.Logic.{◌≢◌, ◌⊎◌, inl, inr}
use mathlib.Core.List.{List, [], ◌∷◌, ◌++◌}
use native.Mathlib.Decide.{dec_lt}
use native.Mathlib.Nat.{mod-eq_of_lt, mod_self}
use native.Mathlib.Omega.{arith}
use esp32_p4_linux_hyperviso.Base.Lists.{length, get_or, set, get_or-set_self, get_or-set_ne}

module _ (size : ℕ) where
  abbrev pub slots : List ℕ → ℕ → ℕ → List ℕ
  slots ring i zero = []
  slots ring i (suc n) = get_or ring i 0 ∷ slots ring ((i + 1) % size) n

  pub length-slots : (ring : List ℕ) (i n : ℕ) → length (slots ring i n) ≡ n
  length-slots ring i zero = refl
  length-slots ring i (suc n) = ap suc (length-slots ring ((i + 1) % size) n)

  next_cases :
      (i : ℕ)
      → i < size
      → ((i + 1) % size ≡ i + 1) × (i + 1 < size) ⊎ ((i + 1) % size ≡ 0) × (i + 1 ≡ size)
  next_cases i h = elim (dec_lt (i + 1) size) [
    | yes l ↦ inl (mod-eq_of_lt l, l)
    | no g ↦ let e : i + 1 ≡ size = omega arith in inr (rw e (mod_self size), e)
  ]

  -- The slot just past the last one takes the new byte, and none of the others is overwritten.
  pub slots-set :
      (ring : List ℕ) (c n i k : ℕ)
      → length ring ≡ size
      → i < size
      → n < size
      → k < size
      → (k ≡ i + n) ⊎ (k + size ≡ i + n)
      → slots (set ring k c) i (suc n) ≡ slots ring i n ++ (c ∷ [])
  slots-set ring c zero i k s hi hn hk e =
      let at_start : k ≡ i = ground arith in
      ap (λ (b : ℕ). b ∷ []) (rw at_start (get_or-set_self ring i c 0 (omega arith)))
  slots-set ring c (suc n) i k s hi hn hk e =
      ap₂ ◌∷◌ (get_or-set_ne ring k i c 0 (ground arith)) (elim (next_cases i hi) [
        | inl (a, b) ↦
            slots-set ring c n ((i + 1) % size) k s (omega arith) (omega arith) hk (ground arith)
        | inr (a, b) ↦
            slots-set ring c n ((i + 1) % size) k s (omega arith) (omega arith) hk (ground arith)
      ])

  pub slots-unroll :
      (ring : List ℕ) (i n : ℕ)
      → n ≢ 0
      → slots ring i n ≡ get_or ring i 0 ∷ slots ring ((i + 1) % size) (n - 1)
  slots-unroll ring i zero h = absurd (h refl)
  slots-unroll ring i (suc n) h = ap (λ (m : ℕ). slots ring i (suc m)) (omega arith)
