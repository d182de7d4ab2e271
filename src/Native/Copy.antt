-- ===== src/Native/Copy.antt =====
-- native/linux-native/main/main.c: a partition copied to PSRAM a page at a time.
use esp32_p4_linux_hyperviso.Base.{
  ℕ, zero, suc, ◌+◌, ◌-◌, ◌/◌, true, false, Option, none, some, bit_and, not32, min, ltb, u32,
}
use esp32_p4_linux_hyperviso.Frame.{Memory, copy_in}
use esp32_p4_linux_hyperviso.Boot.{EspErr, esp_ok}
use esp32_p4_linux_hyperviso.Boot.Load.{is_ok}
use esp32_p4_linux_hyperviso.Native.{Image, page}

-- The loop on fuel, with `done` bytes copied.
unfoldable pub load_from : ℕ → Image → ℕ → ℕ → ℕ → Memory → Option (EspErr × Memory)
load_from zero part psram_pa size done mem = none
load_from (suc fuel) part psram_pa size done mem =
    let part_off = bit_and done (not32 (page - 1)) in
    let intra = done - part_off in
    let n = min (page - intra) (size - done) in
    elim (ltb done size) [
      | false ↦ some (esp_ok, mem)
      | true ↦ elim (is_ok (part.mmap part_off)) [
        | false ↦ some (part.mmap part_off, mem)
        | true ↦
            load_from fuel part psram_pa size (u32 (done + n))
              (copy_in mem (u32 (psram_pa + done)) n (λ i. part.content (part_off + intra + i)))
      ]
    ]

-- One turn of fuel for each page, and one for the loop's last test.
unfoldable pub load_partition_mmap : Image → ℕ → ℕ → Memory → Option (EspErr × Memory)
load_partition_mmap part psram_pa size mem = load_from (size / page + 2) part psram_pa size 0 mem
