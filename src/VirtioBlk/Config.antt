-- ===== src/VirtioBlk/Config.antt =====
-- The config space: the capacity in sectors, little-endian, read byte by byte or wider.
use esp32_p4_linux_hyperviso.Base.{ℕ, ◌+◌, ◌*◌, ◌/◌, ◌%◌, ◌^◌, ◌<◌, ◌≡◌, ◌∙◌, bit_or, arith, ◌<<◌}
use esp32_p4_linux_hyperviso.Base.Bits.{bit_or-zero, bit_or_comm, bit_or_fields}
use native.Mathlib.Nat.{mod-eq_of_lt}
use esp32_p4_linux_hyperviso.VirtioBlk.{Blk, hyp_virtio_blk_read}

zero_or : (a : ℕ) → bit_or 0 a ≡ a
zero_or a = bit_or_comm 0 a ∙ bit_or-zero a

-- A byte put above what has been read so far.
or_above : (k a b : ℕ) → a < 2 ^ k → b * 2 ^ k < 2 ^ 32 → bit_or a (b << k) ≡ a + b * 2 ^ k
or_above k a b h l =
    let fits : b << k ≡ b * 2 ^ k = mod-eq_of_lt l in
    rw (fits, bit_or_comm) (bit_or_fields k b a h ∙ omega arith)

-- The driver's eight one-byte reads at 0x100..0x107 give the bytes of the card's sector count: put
-- together they are the sector count, whatever it is. A 32-bit read gives it at 0x100 and 0 at
-- 0x104.
pub capacity_read :
    (sectors : ℕ) (blk : Blk)
    → sectors < 2 ^ 32
    → let byte_at = λ (o : ℕ). hyp_virtio_blk_read sectors blk (0x100 + o) 1 in
      (byte_at 0
          + byte_at 1 * 2 ^ 8
          + byte_at 2 * 2 ^ 16
          + byte_at 3 * 2 ^ 24
          + (byte_at 4 + byte_at 5 * 2 ^ 8 + byte_at 6 * 2 ^ 16 + byte_at 7 * 2 ^ 24) * 2 ^ 32
        ≡ sectors)
      × (hyp_virtio_blk_read sectors blk 0x100 4 ≡ sectors)
      × (hyp_virtio_blk_read sectors blk 0x104 4 ≡ 0)
unfolding hyp_virtio_blk_read
capacity_read sectors blk h =
    let b4 : sectors / 2 ^ 32 % 256 * 2 ^ 0 % 2 ^ 32 ≡ 0 = omega arith in
    let b5 : sectors / 2 ^ 40 % 256 * 2 ^ 8 % 2 ^ 32 ≡ 0 = omega arith in
    let b6 : sectors / 2 ^ 48 % 256 * 2 ^ 16 % 2 ^ 32 ≡ 0 = omega arith in
    let b7 : sectors / 2 ^ 56 % 256 * 2 ^ 24 % 2 ^ 32 ≡ 0 = omega arith in
    (
      omega (arith, zero_or),
      rw
          (
            zero_or (sectors / 2 ^ 0 % 256 * 2 ^ 0 % 2 ^ 32),
            or_above 8 (sectors / 2 ^ 0 % 256 * 2 ^ 0 % 2 ^ 32) (sectors / 2 ^ 8 % 256)
                (omega arith) (omega arith),
            or_above 16 (sectors / 2 ^ 0 % 256 * 2 ^ 0 % 2 ^ 32 + sectors / 2 ^ 8 % 256 * 2 ^ 8)
                (sectors / 2 ^ 16 % 256) (omega arith) (omega arith),
            or_above 24
                (sectors / 2 ^ 0 % 256 * 2 ^ 0 % 2 ^ 32
                  + sectors / 2 ^ 8 % 256 * 2 ^ 8
                  + sectors / 2 ^ 16 % 256 * 2 ^ 16)
                (sectors / 2 ^ 24 % 256) (omega arith) (omega arith),
          )
          (omega arith),
      rw (b4, b5, b6, b7),
    )
