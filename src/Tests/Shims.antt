-- ===== src/Tests/Shims.antt =====
-- A small guest for the loader that runs without the monitor.
use esp32_p4_linux_hyperviso.Base.{
  ℕ, ◌+◌, ◌*◌, Bool, ◌≤◌, ◌<◌, ◌≡◌, ◌≢◌, ◌↔◌, ◌⊎◌, refl, false, bit, ltb, leb, ◌==◌, if◌then◌else◌,
  ◌&&◌, ◌∷◌, ◌++◌, replicate, get_or, arith,
}
use esp32_p4_linux_hyperviso.Frame.{Memory, update}
use esp32_p4_linux_hyperviso.Boot.{esp_ok}
use esp32_p4_linux_hyperviso.Boot.Load.{is_ok}
use esp32_p4_linux_hyperviso.Native.{Image, kernel_load_pa}
use esp32_p4_linux_hyperviso.Native.Copy.{load_partition_mmap}
use esp32_p4_linux_hyperviso.Native.Whole.{Loaded, load_partition_mmap-Loaded}
use esp32_p4_linux_hyperviso.Native.Probe.{field64, riscv_image_magic, probe_kernel_size}
use esp32_p4_linux_hyperviso.Native.Header.{probe_kernel_size_lem}
use esp32_p4_linux_hyperviso.Native.Registers.{
  PinCalls, Registers, boot_shim_init_sdmmc, hp_clkrst_peri_clk_ctrl02, hp_clkrst_peri_clk_ctrl01,
  hp_clkrst_soc_clk_ctrl1, lp_clkrst_hp_sdmmc_emac_rst, pmu_ext_ldo_p1_0p2a, divider_set,
}
use esp32_p4_linux_hyperviso.Native.Fields.{Kept, KeepToPads, boot_shim_init_sdmmc_lem}
use esp32_p4_linux_hyperviso.Native.Shim.{flash_placeholder}

-- A kernel of 70000 bytes in a partition of 128 KB: its size at byte 16, its magic at byte 48.
abbrev kernel_byte : ℕ → ℕ
kernel_byte i =
    if i == 16
    then 0x70
    else if i == 17
    then 0x11
    else if i == 18
    then 1
    else if i == 48
    then 0x52
    else if i == 49
    then 0x49
    else if i == 50
    then 0x53
    else if i == 51
    then 0x43
    else if i == 52
    then 0x56
    else 0

abbrev kernel_part : Image
kernel_part = record { size = 0x20000; content = kernel_byte; mmap = λ i. esp_ok }

-- A blob of 24 bytes that ends in the placeholder.
abbrev dtb_part : Image
dtb_part = record {
  size = 0x1000;
  content = λ i.
      get_or ((0xd0 ∷ 0x0d ∷ 0xfe ∷ 0xed ∷ 0 ∷ 0 ∷ 0 ∷ 24 ∷ replicate 8 0) ++ flash_placeholder) i
        0;
  mmap = λ i. esp_ok;
}

abbrev rootfs_part : Image
rootfs_part = record { size = 0x800000; content = λ i. 0; mmap = λ i. esp_ok }

abbrev blank : Memory
blank = λ a. 0

load_partition_mmap-Loaded_example :
    Loaded kernel_part kernel_load_pa 70000 blank
      (load_partition_mmap kernel_part kernel_load_pa 70000 blank)
load_partition_mmap-Loaded_example =
    load_partition_mmap-Loaded kernel_part kernel_load_pa 70000 blank (omega arith) (omega arith)

probe_kernel_size_lem_example :
    let size = probe_kernel_size kernel_part in
    let image_size = field64 kernel_part.content 16 in
    (size ≤ kernel_part.size)
    × ((size ≡ 0) ↔ (
        (is_ok (kernel_part.mmap 0) ≡ false)
        ⊎ (field64 kernel_part.content 48 ≢ riscv_image_magic)))
    × (size ≢ 0 → 1 ≤ image_size → image_size ≤ kernel_part.size → size ≡ image_size)
    × (size ≢ 0 → (image_size ≡ 0) ⊎ (kernel_part.size < image_size) → size ≡ kernel_part.size)
probe_kernel_size_lem_example = probe_kernel_size_lem kernel_part (omega arith) (omega arith)

abbrev some_registers : Registers
some_registers = λ a. 0xc0000001

-- Each call on a pin writes a word of its own in the pads' page.
abbrev pad_call : ℕ → ℕ → Registers → Registers
pad_call value pin regs = update regs (0x500e1000 + 4 * pin) value

abbrev pad_calls : PinCalls
pad_calls = record {
  gpio_pulldown_dis = pad_call 1;
  gpio_pullup_en = pad_call 2;
  gpio_input_enable = pad_call 3;
  gpio_iomux_output = λ pin f. pad_call (16 + f) pin;
  gpio_set_drive_capability = λ pin c. pad_call (32 + c) pin;
}

abbrev pads : ℕ → Bool
pads a = leb 0x500e1000 a && ltb a 0x500e2000

pad_call-Kept : (value : ℕ) → Kept pads (pad_call value)
pad_call-Kept value pin low high regs a out = ground (arith, out)

pad_calls-KeepToPads : KeepToPads pads pad_calls
pad_calls-KeepToPads = record {
  pulldown_kept = pad_call-Kept 1;
  pullup_kept = pad_call-Kept 2;
  input_kept = pad_call-Kept 3;
  output_kept = pad_call-Kept 16;
  drive_kept = pad_call-Kept 35;
}

boot_shim_init_sdmmc_lem_example :
    let regs' = boot_shim_init_sdmmc pad_calls some_registers in
    ((k : ℕ)
      → k < 32
      → bit (regs' hp_clkrst_peri_clk_ctrl02) k ≡ (
          if leb 8 k && ltb k 30
          then bit divider_set k
          else bit (some_registers hp_clkrst_peri_clk_ctrl02) k))
    × ((a : ℕ)
        → pads a ≡ false
        → a ≢ pmu_ext_ldo_p1_0p2a
        → a ≢ hp_clkrst_soc_clk_ctrl1
        → a ≢ lp_clkrst_hp_sdmmc_emac_rst
        → a ≢ hp_clkrst_peri_clk_ctrl01
        → a ≢ hp_clkrst_peri_clk_ctrl02
        → regs' a ≡ some_registers a)
boot_shim_init_sdmmc_lem_example =
    boot_shim_init_sdmmc_lem pads pad_calls some_registers pad_calls-KeepToPads refl
