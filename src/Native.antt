-- ===== src/Native.antt =====
-- native/linux-native/main/main.c: the loader that boots Linux without the monitor.
--
-- ESP-IDF's partition calls are not under the repository's sources: `Image` is what they answer for
-- one partition.
pub mod Copy
pub mod Whole
pub mod Probe
pub mod Header
pub mod Registers
pub mod Fields
pub mod Shim
pub mod Jump
use esp32_p4_linux_hyperviso.Base.{ℕ, Bool}
use esp32_p4_linux_hyperviso.Boot.{EspErr}

-- A partition: its size, its bytes, and `esp_partition_mmap`'s result for a page of it by its offset.
-- A mapped page shows the partition's bytes.
pub record Image : Type 0 where
  pub size : ℕ
  pub content : ℕ → ℕ
  pub mmap : ℕ → EspErr

abbrev pub kernel_load_pa : ℕ
kernel_load_pa = 0x48000000

abbrev pub dtb_load_pa : ℕ
dtb_load_pa = 0x48800000

-- CONFIG_MMU_PAGE_SIZE, which is 64 KB on this chip.
abbrev pub page : ℕ
page = 0x10000
