-- ===== src/Tests/Loading.antt =====
-- A small guest in flash, and the boot code on it.
use esp32_p4_linux_hyperviso.Base.{
  ◌+◌, ◌≤◌, ◌≡◌, ℕ, true, false, refl, Bool, Option, some, none, ◌∷◌, ◌++◌, replicate, arith,
}
use esp32_p4_linux_hyperviso.Frame.{Memory}
use esp32_p4_linux_hyperviso.Boot.{esp_ok, linux_base_address, linux_size, dtb_address}
use esp32_p4_linux_hyperviso.Boot.Pmp.{PmpEntry, pmp_set_rwx_region}
use esp32_p4_linux_hyperviso.Boot.Region.{Opened, pmp_set_rwx_region-Opened}
use esp32_p4_linux_hyperviso.Boot.Bytes.{memcmp_equal, write_bytes, be32}
use esp32_p4_linux_hyperviso.Boot.Dtb.{patch_from, patch_dtb_window}
use esp32_p4_linux_hyperviso.Boot.Patch.{Patched, patch_dtb_window-Patched}
use esp32_p4_linux_hyperviso.Boot.Cmdline.{
  needle, strlen, rewrite_field, cmdline_from, patch_guest_cmdline,
}
use esp32_p4_linux_hyperviso.Boot.Field.{Rewritten, patch_guest_cmdline-Rewritten}
use esp32_p4_linux_hyperviso.Boot.Load.{
  Label, Partition, Flash, GuestWindow, kernel, dtb, rootfs, rootfs_window, partition_cp_to_psram,
  window_map_from_flash, load_windows, hyp_load_guest, is_ok,
}
use esp32_p4_linux_hyperviso.Boot.Cores.{
  Board, powered_on, Shared, watching, guest, app_main_start, core0_step, core1_step,
}
use esp32_p4_linux_hyperviso.VirtioBlk.Start.{
  bring_up, hyp_sd_init, hyp_virtio_blk_init, hyp_sd_ready,
}
use esp32_p4_linux_hyperviso.Boot.Steps.{Booted, power_on, core0_moves, core1_moves}
use esp32_p4_linux_hyperviso.Boot.Handshake.{Booted-lem, Settled, Booted-Settled}
use esp32_p4_linux_hyperviso.Boot.Window.{IsTold, hyp_load_guest-IsTold}

pmp_set_rwx_region-Opened_example :
    let e : PmpEntry = record { cfg = 0; addr = 0 } in
    Opened linux_base_address linux_size e
      (pmp_set_rwx_region (λ c. c) linux_base_address linux_size e)
pmp_set_rwx_region-Opened_example =
    pmp_set_rwx_region-Opened (λ c. c) linux_base_address linux_size (record { cfg = 0; addr = 0 })
      (omega arith)

-- In flash: a kernel that is a command line of 64 bytes, and a blob of 24 bytes that ends in the
-- placeholder.
abbrev in_flash : Memory
unfolding write_bytes
in_flash =
    write_bytes (write_bytes (λ a. 0) 0x40000000 (needle ++ replicate 38 97)) 0x40001000
      (replicate 7 0 ++ (24 ∷ replicate 8 0) ++ rootfs_window.placeholder)

abbrev partition : Label → Option Partition
partition kernel = some (record { size = 65; result = esp_ok; address = 0x40000000 })
partition dtb = some (record { size = 24; result = esp_ok; address = 0x40001000 })
partition rootfs = some (record { size = 0x400000; result = esp_ok; address = 0x40400000 })

abbrev flash : Flash
flash = record { find = partition; drom_low = 0x40000000; drom_high = 0x44000000 }

-- The guest's memory once the two images are copied.
abbrev in_psram : Memory
in_psram =
    (partition_cp_to_psram (partition dtb) dtb_address 0
      (partition_cp_to_psram (partition kernel) linux_base_address 0 in_flash).1).1

patch_dtb_window-Patched_example :
    Patched rootfs_window.placeholder 0x40400000 0x400000
      (be32 in_psram (dtb_address + 4))
      in_psram
      (patch_dtb_window rootfs_window.placeholder 0x40400000 0x400000 in_psram)
patch_dtb_window-Patched_example =
    patch_dtb_window-Patched rootfs_window.placeholder 0x40400000 0x400000 in_psram (omega arith)
      (omega arith)

patch_guest_cmdline-Rewritten_example :
    Rewritten 100 100 in_psram (patch_guest_cmdline 100 100 in_psram)
patch_guest_cmdline-Rewritten_example = patch_guest_cmdline-Rewritten 100 100 in_psram

abbrev memory_of : Option (Bool × Memory) → Memory
memory_of none = λ a. 0
memory_of (some r) = r.1

abbrev mapped : GuestWindow
mapped = record rootfs_window { mapping = 0x40400000; span = 0x400000 }

hyp_load_guest-IsTold_example :
    let mem1 = (partition_cp_to_psram (partition kernel) linux_base_address 0 in_flash).1 in
    let mem2 = (partition_cp_to_psram (partition dtb) dtb_address 0 mem1).1 in
    IsTold rootfs_window.placeholder mem2
      (memory_of (hyp_load_guest flash 100 in_flash))
      mapped.mapping
      mapped.span
unfolding hyp_load_guest load_windows window_map_from_flash partition_cp_to_psram patch_dtb_window
    patch_from memcmp_equal write_bytes patch_guest_cmdline cmdline_from rewrite_field strlen
hyp_load_guest-IsTold_example =
    hyp_load_guest-IsTold flash 100 in_flash (memory_of (hyp_load_guest flash 100 in_flash)) mapped
      (omega arith) (omega arith) (omega arith) refl refl

abbrev free_entry : PmpEntry
free_entry = record { cfg = 0; addr = 0 }

abbrev kept_byte : ℕ → ℕ
kept_byte c = c

-- A card that comes up, and no memory for the bounce buffer.
abbrev board : Board
board = record {
  sd = record { ldo = esp_ok; host = esp_ok; slot = esp_ok; card = esp_ok; capacity = 1000 };
  blk = record { bounce = false; task = true };
}

-- Both cores at their end, after a start in which core 1 waits for the image.
abbrev both_up : Shared
both_up = record {
  memory = memory_of (hyp_load_guest flash 100 in_flash);
  guest_loaded = true;
  guest_image_ready = true;
  startup_done_0 = true;
  startup_done_1 = true;
  entry = (pmp_set_rwx_region kept_byte linux_base_address linux_size free_entry).1;
  linux_running = true;
  card = (bring_up board.sd board.blk (powered_on in_flash free_entry).card).1;
  serving = false;
}

started : Booted flash 100 board kept_byte in_flash free_entry 9 watching guest both_up
unfolding hyp_load_guest load_windows window_map_from_flash partition_cp_to_psram patch_dtb_window
    patch_from memcmp_equal write_bytes patch_guest_cmdline cmdline_from rewrite_field strlen
    core0_step app_main_start bring_up hyp_sd_init hyp_virtio_blk_init hyp_sd_ready core1_step
    pmp_set_rwx_region
started =
    core1_moves
      (core1_moves
        (core1_moves
          (core0_moves
            (core0_moves
              (core0_moves (core1_moves (core1_moves (core0_moves power_on refl) refl) refl) refl)
              refl)
            refl)
          refl)
        refl)
      refl

Booted-lem_example :
    (9 ≤ 9)
    × (both_up.linux_running ≡ true
        → (hyp_load_guest flash 100 in_flash ≡ some (true, both_up.memory))
          × (is_ok (pmp_set_rwx_region kept_byte linux_base_address linux_size free_entry).0 ≡ true)
          × (both_up.entry
              ≡ (pmp_set_rwx_region kept_byte linux_base_address linux_size free_entry).1))
Booted-lem_example = Booted-lem flash 100 board kept_byte in_flash free_entry started

Booted-Settled_example :
    Settled true
      (is_ok (pmp_set_rwx_region kept_byte linux_base_address linux_size free_entry).0)
      watching
      guest
unfolding hyp_load_guest load_windows window_map_from_flash partition_cp_to_psram patch_dtb_window
    patch_from memcmp_equal write_bytes patch_guest_cmdline cmdline_from rewrite_field strlen
    core0_step app_main_start bring_up hyp_sd_init hyp_virtio_blk_init hyp_sd_ready core1_step
Booted-Settled_example =
    Booted-Settled flash 100 board kept_byte in_flash both_up.memory free_entry true refl started
      refl refl
