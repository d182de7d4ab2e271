-- ===== src/Native/Shim.antt =====
-- native/linux-native/main/main.c: `app_main`, from the partitions to the jump into the kernel.
use esp32_p4_linux_hyperviso.Base.{
  ℕ, ◌+◌, ◌-◌, Bool, not, ◌&&◌, ◌||◌, Option, none, some, List, [], ◌∷◌, ltb, ◌==◌, u8,
  if◌then◌else◌,
}
use esp32_p4_linux_hyperviso.Frame.{Memory}
use esp32_p4_linux_hyperviso.Boot.{EspErr}
use esp32_p4_linux_hyperviso.Boot.Bytes.{be32}
use esp32_p4_linux_hyperviso.Boot.Dtb.{patch_from}
use esp32_p4_linux_hyperviso.Boot.Load.{is_ok}
use esp32_p4_linux_hyperviso.Native.{Image, kernel_load_pa, dtb_load_pa}
use esp32_p4_linux_hyperviso.Native.Copy.{load_partition_mmap}
use esp32_p4_linux_hyperviso.Native.Probe.{probe_kernel_size}

-- `esp_restart`, or the jump to the kernel with memory as it then is.
pub data Shim : Type 0 where
  restart : Shim
  jump : Memory → Shim

abbrev pub flash_placeholder : List ℕ
flash_placeholder = 0xde ∷ 0xad ∷ 0xbe ∷ 0xef ∷ 0xca ∷ 0xfe ∷ 0xfa ∷ 0xde ∷ []

-- The blob's magic and its own size, against the partition's.
unfoldable pub blob_ok : ℕ → Memory → Bool
blob_ok size mem =
    let total = be32 mem (dtb_load_pa + 4) in
    u8 (mem dtb_load_pa) == 0xd0
    && u8 (mem (dtb_load_pa + 1)) == 0x0d
    && u8 (mem (dtb_load_pa + 2)) == 0xfe
    && u8 (mem (dtb_load_pa + 3)) == 0xed
    && not (ltb total 16 || ltb size total)

-- The patch of the blob: a placeholder that is missing is only a warning.
unfoldable pub patch_and_jump : ℕ → ℕ → Memory → Shim
patch_and_jump rootfs_va rootfs_size mem =
    let total = be32 mem (dtb_load_pa + 4) in
    jump (patch_from dtb_load_pa (total - 7) 0 flash_placeholder rootfs_va rootfs_size mem).1

-- A load that fails restarts.
abbrev pub and_then : Option (EspErr × Memory) → (Memory → Option Shim) → Option Shim
and_then none next = none
and_then (some (err, mem)) next = if is_ok err then next mem else some restart

-- From the root file system's partition on; `mapped` is the answer of its `esp_partition_mmap`.
unfoldable pub boot_rootfs : ℕ → Option Image → EspErr × ℕ → Memory → Option Shim
boot_rootfs dtb_size none mapped mem = some restart
boot_rootfs dtb_size (some rootfs) mapped mem =
    if not (is_ok mapped.0)
    then some restart
    else if not (blob_ok dtb_size mem)
    then some restart
    else some (patch_and_jump mapped.1 rootfs.size mem)

-- The partitions by their labels, and memory before the loader runs.
unfoldable pub app_main :
    Option Image → Option Image → Option Image → EspErr × ℕ → Memory → Option Shim
app_main none dtb rootfs mapped mem = some restart
app_main (some kernel) none rootfs mapped mem = some restart
app_main (some kernel) (some dtb) rootfs mapped mem =
    let kern_size = probe_kernel_size kernel in
    let loaded = and_then (load_partition_mmap kernel kernel_load_pa kern_size mem) (λ (m : Memory).
      and_then (load_partition_mmap dtb dtb_load_pa dtb.size m)
        (boot_rootfs dtb.size rootfs mapped)) in
    if kern_size == 0 then some restart else loaded
