-- ===== src/Boot/Bytes.antt =====
-- Strings of bytes in memory, as main/hyp_boot.c compares and writes them.
use esp32_p4_linux_hyperviso.Base.{
  ℕ, zero, suc, ◌+◌, ◌*◌, ◌/◌, ◌^◌, ◌≤◌, ◌<◌, ◌≡◌, refl, sym, ap, ◌∙◌, ◌⊎◌, inl, Bool, true, ◌&&◌,
  List, [], ◌∷◌, ◌++◌, length, get_or, bit_or, ◌==◌, ◌>>◌, ◌<<◌, u8, arith,
}
use esp32_p4_linux_hyperviso.Base.Bits.{bit_or_fields}
use esp32_p4_linux_hyperviso.Frame.{Memory, update}

-- `memcmp(mem + a, s, length of s) == 0`.
unfoldable pub memcmp_equal : Memory → ℕ → List ℕ → Bool
memcmp_equal mem a [] = true
memcmp_equal mem a (c ∷ s) = u8 (mem a) == c && memcmp_equal mem (a + 1) s

-- The bytes of a string stored one after the other.
unfoldable pub write_bytes : Memory → ℕ → List ℕ → Memory
write_bytes mem a [] = mem
write_bytes mem a (c ∷ s) = write_bytes (update mem a c) (a + 1) s

-- A 32-bit word, its high byte first.
abbrev pub be_bytes : ℕ → List ℕ
be_bytes v = u8 (v >> 24) ∷ u8 (v >> 16) ∷ u8 (v >> 8) ∷ u8 v ∷ []

abbrev pub be32 : Memory → ℕ → ℕ
be32 mem a =
    bit_or (bit_or (bit_or (u8 (mem a) << 24) (u8 (mem (a + 1)) << 16)) (u8 (mem (a + 2)) << 8))
      (u8 (mem (a + 3)))

pub write_bytes-others :
    (mem : Memory) (a : ℕ) (s : List ℕ) (b : ℕ)
    → (b < a) ⊎ (a + length s ≤ b)
    → write_bytes mem a s b ≡ mem b
unfolding write_bytes
write_bytes-others mem a [] b h = refl
write_bytes-others mem a (c ∷ s) b h =
    write_bytes-others (update mem a c) (a + 1) s b (ground arith) ∙ ground arith

pub write_bytes-read :
    (mem : Memory) (a : ℕ) (s : List ℕ) (k : ℕ)
    → k < length s
    → write_bytes mem a s (a + k) ≡ get_or s k 0
unfolding write_bytes
write_bytes-read mem a [] k h = absurd (omega arith)
write_bytes-read mem a (c ∷ s) zero h =
    write_bytes-others (update mem a c) (a + 1) s (a + 0) (inl (omega arith)) ∙ ground arith
write_bytes-read mem a (c ∷ s) (suc k) h =
    let e : a + suc k ≡ a + 1 + k = omega arith in
    rw e (write_bytes-read (update mem a c) (a + 1) s k (omega arith))

or_sum : (k q x y : ℕ) → x ≡ q * 2 ^ k → y < 2 ^ k → bit_or x y ≡ x + y
or_sum k q x y e h = rw e (bit_or_fields k q y h)

be_word :
    (v : ℕ)
    → v < 2 ^ 32
    → bit_or
        (bit_or
          (bit_or (u8 (u8 (v >> 24)) << 24) (u8 (u8 (v >> 16)) << 16))
          (u8 (u8 (v >> 8)) << 8))
        (u8 (u8 v))
      ≡ v
be_word v h =
    let b3 = u8 (u8 (v >> 24)) << 24 in
    let b2 = u8 (u8 (v >> 16)) << 16 in
    let b1 = u8 (u8 (v >> 8)) << 8 in
    let top = or_sum 24 (v / 2 ^ 24) b3 b2 (omega arith) (omega arith) in
    let high = or_sum 16 (v / 2 ^ 16) (bit_or b3 b2) b1 (omega (arith, top)) (omega arith) in
    let low =
      or_sum 8 (v / 2 ^ 8) (bit_or (bit_or b3 b2) b1) (u8 (u8 v)) (omega (arith, top, high))
        (omega arith) in
    omega (arith, top, high, low)

be32_of :
    (mem : Memory) (a v : ℕ)
    → v < 2 ^ 32
    → mem a ≡ u8 (v >> 24)
    → mem (a + 1) ≡ u8 (v >> 16)
    → mem (a + 2) ≡ u8 (v >> 8)
    → mem (a + 3) ≡ u8 v
    → be32 mem a ≡ v
be32_of mem a v h e0 e1 e2 e3 = rw (e0, e1, e2, e3) (be_word v h)

-- Two words written one after the other are read back.
pub be32-write_bytes :
    (mem : Memory) (a v w : ℕ)
    → v < 2 ^ 32
    → w < 2 ^ 32
    → let mem' = write_bytes mem a (be_bytes v ++ be_bytes w) in
      (be32 mem' a ≡ v) × (be32 mem' (a + 4) ≡ w)
be32-write_bytes mem a v w h k =
    let mem' = write_bytes mem a (be_bytes v ++ be_bytes w) in
    let at = write_bytes-read mem a (be_bytes v ++ be_bytes w) in
    let here : a + 0 ≡ a = omega arith in
    (
      be32_of mem' a v h (ap mem' (sym here) ∙ at 0 (omega arith)) (at 1 (omega arith))
          (at 2 (omega arith)) (at 3 (omega arith)),
      be32_of mem' (a + 4) w k (at 4 (omega arith)) (second 1 ∙ at 5 (omega arith))
          (second 2 ∙ at 6 (omega arith)) (second 3 ∙ at 7 (omega arith)),
    )
  where
    second :
        (i : ℕ)
        → write_bytes mem a (be_bytes v ++ be_bytes w) (a + 4 + i)
          ≡ write_bytes mem a (be_bytes v ++ be_bytes w) (a + (4 + i))
    second i = ap (write_bytes mem a (be_bytes v ++ be_bytes w)) (omega arith)
