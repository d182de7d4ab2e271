-- ===== src/Boot.antt =====
-- main/hyp_boot.c: the guest's memory, and what the boot code's calls answer.
pub mod Pmp
pub mod Bytes
pub mod Region
pub mod Dtb
pub mod Patch
pub mod Cmdline
pub mod Field
pub mod Load
pub mod Window
pub mod Cores
pub mod Steps
pub mod Handshake
use esp32_p4_linux_hyperviso.Base.{ℕ}

abbrev pub linux_base_address : ℕ
linux_base_address = 0x48000000

abbrev pub linux_size : ℕ
linux_size = 0x02000000

abbrev pub dtb_address : ℕ
dtb_address = 0x49F00000

-- `esp_err_t`: the codes that the boot code names, and any other.
pub data EspErr : Type 0 where
  esp_ok esp_fail invalid_arg invalid_state not_found : EspErr
  other : ℕ → EspErr
