-- ===== src/VirtioBlk.antt =====
-- main/hyp_virtio_blk.c, core 1's half: the registers of the virtio-mmio block device and the poll
-- that turns core 0's completions into a guest interrupt. Core 0's half is in VirtioBlk/Ring and
-- VirtioBlk/Service.
pub mod Config
pub mod Interrupt
pub mod Ring
pub mod Service
pub mod Transfer
pub mod Failure
pub mod Write
pub mod Chain
pub mod ReadChain
pub mod Start
pub mod Offered
use esp32_p4_linux_hyperviso.Base.{
  ℕ, zero, suc, ◌+◌, ◌-◌, ◌*◌, Bool, true, false, not, ◌&&◌, List, get_or, set, replicate, bit_and,
  bit_or, ltb, leb, ◌==◌, not32, ◌<<◌, ◌>>◌, u8, u32, if◌then◌else◌,
}
use esp32_p4_linux_hyperviso.Plic.{Plic, plic_set_pending, plic_virtio_blk_source}

-- The device's state, the two flags that the cores share, and the counters.
pub record Blk : Type 0 where
  pub status : ℕ
  pub device_features_sel : ℕ
  pub driver_features : ℕ
  pub guest_page_size : ℕ
  pub queue_sel : ℕ
  pub queue_num : ℕ
  pub queue_align : ℕ
  pub queue_pfn : ℕ
  pub interrupt_status : ℕ
  pub last_avail : ℕ
  pub live : Bool
  pub kick : Bool
  pub irq : Bool
  pub reads : ℕ
  pub writes : ℕ
  pub errors : ℕ
  pub requests : ℕ

-- `cfg[16]`, filled by its loop: `left` bytes to go, from byte `i` on.
unfoldable pub fill_capacity : ℕ → ℕ → ℕ → List ℕ → List ℕ
fill_capacity zero i capacity cfg = cfg
fill_capacity (suc left) i capacity cfg =
    fill_capacity left (i + 1) capacity (set cfg i (u8 (capacity >> 8 * i)))

unfoldable pub config_image : ℕ → List ℕ
unfolding fill_capacity
config_image capacity = fill_capacity 8 0 capacity (replicate 16 0)

-- The bytes `i` to `width` of a read at `o`; past the image the loop ends.
unfoldable pub config_from : List ℕ → ℕ → ℕ → ℕ → ℕ → ℕ
config_from cfg o zero i value = value
config_from cfg o (suc left) i value =
    let rest = config_from cfg o left (i + 1) (bit_or value (get_or cfg (o + i) 0 << 8 * i)) in
    if ltb (o + i) 16 then rest else value

-- `sectors` is `hyp_sd_sector_count()`.
unfoldable pub hyp_virtio_blk_read : ℕ → Blk → ℕ → ℕ → ℕ
unfolding config_image config_from
hyp_virtio_blk_read sectors blk offset width =
    if leb 0x100 offset
    then config_from (config_image sectors) (offset - 0x100) width 0 0
    else if offset == 0x000
    then 0x74726976
    else if offset == 0x004
    then 1
    else if offset == 0x008
    then 2
    else if offset == 0x00c
    then 0x50345052
    else if offset == 0x010
    then 0
    else if offset == 0x034
    then 128
    else if offset == 0x040
    then blk.queue_pfn
    else if offset == 0x060
    then blk.interrupt_status
    else if offset == 0x070
    then blk.status
    else 0

-- The block device and the PLIC that its line goes to.
pub record Disk : Type 0 where
  pub blk : Blk
  pub plic : Plic

unfoldable pub set_queue_pfn : Bool → Blk → ℕ → Blk
set_queue_pfn sd_ready blk value = record blk {
  queue_pfn = value;
  live = not (value == 0) && not (blk.queue_num == 0) && not (blk.guest_page_size == 0) && sd_ready;
  last_avail = 0;
}

unfoldable pub acknowledge : Disk → ℕ → Disk
acknowledge d value =
    let left = bit_and d.blk.interrupt_status (not32 value) in
    record d {
      blk = record (d.blk) { interrupt_status = left };
      plic = if left == 0 then plic_set_pending d.plic plic_virtio_blk_source false else d.plic;
    }

unfoldable pub set_status : Disk → ℕ → Disk
set_status d value =
    if value == 0
    then record d {
      blk = record (d.blk) { status = value; live = false; interrupt_status = 0; last_avail = 0 };
      plic = plic_set_pending d.plic plic_virtio_blk_source false;
    }
    else record d { blk = record (d.blk) { status = value } }

-- `sd_ready` is `hyp_sd_ready()`.
unfoldable pub hyp_virtio_blk_write : Bool → Disk → ℕ → ℕ → Disk
hyp_virtio_blk_write sd_ready d offset value =
    if offset == 0x014
    then record d { blk = record (d.blk) { device_features_sel = value } }
    else if offset == 0x020
    then record d { blk = record (d.blk) { driver_features = value } }
    else if offset == 0x024
    then d
    else if offset == 0x028
    then record d { blk = record (d.blk) { guest_page_size = value } }
    else if offset == 0x030
    then record d { blk = record (d.blk) { queue_sel = value } }
    else if offset == 0x038
    then record d { blk = record (d.blk) { queue_num = value } }
    else if offset == 0x03c
    then record d { blk = record (d.blk) { queue_align = value } }
    else if offset == 0x040
    then record d { blk = set_queue_pfn sd_ready d.blk value }
    else if offset == 0x050
    then record d { blk = record (d.blk) { kick = true } }
    else if offset == 0x064
    then acknowledge d value
    else if offset == 0x070
    then set_status d value
    else d

unfoldable pub hyp_virtio_blk_poll : Disk → Disk
hyp_virtio_blk_poll d =
    if d.blk.irq
    then record d {
      blk = record (d.blk) { irq = false; interrupt_status = bit_or d.blk.interrupt_status 1 };
      plic = plic_set_pending d.plic plic_virtio_blk_source true;
    }
    else d
