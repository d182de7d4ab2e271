-- ===== src/VirtioBlk/Ring.antt =====
-- main/hyp_virtio_blk.c: the split virtqueue in guest memory, and what core 0 works on.
--
-- The card's driver is ESP-IDF's: `Card` stands for its two calls.
use esp32_p4_linux_hyperviso.Base.{
  ℕ, ◌+◌, ◌-◌, ◌*◌, ◌%◌, ◌^◌, Bool, Option, bit_and, ◌==◌, not32, ◌>>◌, u8, u32, if◌then◌else◌,
}
use esp32_p4_linux_hyperviso.Frame.{Memory, load16}
unfoldable pub use esp32_p4_linux_hyperviso.Frame.{copy_in, load32}
use esp32_p4_linux_hyperviso.VirtioBlk.{Blk}

-- `sdmmc_read_sectors` and `sdmmc_write_sectors` on a card in a state of type S: the bytes read, by
-- their place in the buffer, and the success of a write with the card after it.
pub record Card (S : Type 0) : Type 0 where
  pub read_sectors : S → ℕ → ℕ → Option (ℕ → ℕ)
  pub write_sectors : S → ℕ → ℕ → (ℕ → ℕ) → Bool × S

-- What core 0 works on: guest memory, the card, `s_ready` of main/hyp_sd.c, and the device.
pub record Store (S : Type 0) : Type 0 where
  pub memory : Memory
  pub card : S
  pub ready : Bool
  pub blk : Blk

abbrev pub store16 : Memory → ℕ → ℕ → Memory
store16 mem address v = copy_in mem address 2 (λ i. u8 (v >> 8 * i))

abbrev pub store32 : Memory → ℕ → ℕ → Memory
store32 mem address v = copy_in mem address 4 (λ i. u8 (v >> 8 * i))

-- `gpa`: the low 32 bits of a descriptor's 64-bit address.
pub record VringDesc : Type 0 where
  pub addr : ℕ
  pub len : ℕ
  pub flags : ℕ
  pub next : ℕ

unfoldable pub desc_table : Blk → ℕ
desc_table blk = u32 (blk.queue_pfn * blk.guest_page_size)

unfoldable pub avail_ring : Blk → ℕ
avail_ring blk = u32 (desc_table blk + blk.queue_num * 16)

unfoldable pub used_ring : Blk → ℕ
used_ring blk =
    let after_avail = u32 (avail_ring blk + 4 + blk.queue_num * 2 + 2) in
    let align = if blk.queue_align == 0 then 4096 else blk.queue_align in
    bit_and (u32 (after_avail + align + 2 ^ 32 - 1)) (not32 (align - 1))

-- `desc[index % blk.queue_num]`.
unfoldable pub descriptor : Memory → Blk → ℕ → VringDesc
unfolding desc_table
descriptor mem blk index =
    let at = u32 (desc_table blk + 16 * (index % blk.queue_num)) in
    record {
      addr = load32 mem at;
      len = load32 mem (u32 (at + 8));
      flags = load16 mem (u32 (at + 12));
      next = load16 mem (u32 (at + 14));
    }
