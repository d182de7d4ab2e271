-- ===== src/Native/Jump.antt =====
-- What Linux finds when the loader jumps to it, and why the loader restarts otherwise.
use esp32_p4_linux_hyperviso.Base.{
  ℕ, ◌+◌, ◌*◌, ◌≤◌, ◌<◌, ◌≡◌, ◌≢◌, ◌⊎◌, true, false, Option, none, some,
}
use esp32_p4_linux_hyperviso.Frame.{Memory}
use esp32_p4_linux_hyperviso.Boot.{EspErr}
use esp32_p4_linux_hyperviso.Boot.Bytes.{be32}
use esp32_p4_linux_hyperviso.Boot.Patch.{at}
use esp32_p4_linux_hyperviso.Boot.Load.{is_ok}
use esp32_p4_linux_hyperviso.Native.{Image, kernel_load_pa, dtb_load_pa, page}
use esp32_p4_linux_hyperviso.Native.Whole.{Holds}
use esp32_p4_linux_hyperviso.Native.Probe.{probe_kernel_size}
use esp32_p4_linux_hyperviso.Native.Shim.{Shim, restart, jump, flash_placeholder, blob_ok}

-- Why the loader restarts.
pub data Fault (kernel dtb rootfs : Option Image) (mapped : EspErr × ℕ) (mem : Memory)
    : Type 0 where
  no_kernel : kernel ≡ none → Fault kernel dtb rootfs mapped mem
  no_dtb : dtb ≡ none → Fault kernel dtb rootfs mapped mem
  no_rootfs : rootfs ≡ none → Fault kernel dtb rootfs mapped mem
  no_image :
      (k : Image) → kernel ≡ some k → probe_kernel_size k ≡ 0 → Fault kernel dtb rootfs mapped mem
  kernel_page :
      (k : Image) (i : ℕ)
      → kernel ≡ some k
      → i * page < probe_kernel_size k
      → is_ok (k.mmap (i * page)) ≡ false
      → Fault kernel dtb rootfs mapped mem
  dtb_page :
      (d : Image) (i : ℕ)
      → dtb ≡ some d
      → i * page < d.size
      → is_ok (d.mmap (i * page)) ≡ false
      → Fault kernel dtb rootfs mapped mem
  rootfs_unmapped : is_ok mapped.0 ≡ false → Fault kernel dtb rootfs mapped mem
  bad_blob :
      (k d : Image) (m m' : Memory)
      → kernel ≡ some k
      → dtb ≡ some d
      → Holds k kernel_load_pa (probe_kernel_size k) mem m
      → Holds d dtb_load_pa d.size m m'
      → blob_ok d.size m' ≡ false
      → Fault kernel dtb rootfs mapped mem

-- What Linux is told of its root file system: its address and size at the placeholder's first place in
-- the blob, and every other byte of memory is as before, all of it if the blob has no placeholder.
pub data Told (va size : ℕ) (before mem : Memory) : Type 0 where
  told :
      (o : ℕ)
      → o + 8 ≤ be32 before (dtb_load_pa + 4)
      → at dtb_load_pa flash_placeholder before o ≡ true
      → ((k : ℕ) → k < o → at dtb_load_pa flash_placeholder before k ≡ false)
      → be32 mem (dtb_load_pa + o) ≡ va
      → be32 mem (dtb_load_pa + o + 4) ≡ size
      → ((a : ℕ) → (a < dtb_load_pa + o) ⊎ (dtb_load_pa + o + 8 ≤ a) → mem a ≡ before a)
      → Told va size before mem
  untold :
      ((k : ℕ)
        → k + 8 ≤ be32 before (dtb_load_pa + 4)
        → at dtb_load_pa flash_placeholder before k ≡ false)
      → mem ≡ before
      → Told va size before mem

-- How the loader ends, from the memory `mem` that it is started with: a kernel and a device tree that
-- are copied to their places, one after the other, and what is patched of them.
pub data Outcome (kernel dtb rootfs : Option Image) (mapped : EspErr × ℕ) (mem : Memory)
    : Option Shim → Type 0 where
  restarted :
      Fault kernel dtb rootfs mapped mem → Outcome kernel dtb rootfs mapped mem (some restart)
  jumped :
      (k d r : Image) (m before after : Memory)
      → kernel ≡ some k
      → dtb ≡ some d
      → rootfs ≡ some r
      → probe_kernel_size k ≢ 0
      → Holds k kernel_load_pa (probe_kernel_size k) mem m
      → Holds d dtb_load_pa d.size m before
      → ((j : ℕ) → j < probe_kernel_size k → after (kernel_load_pa + j) ≡ k.content j)
      → blob_ok d.size before ≡ true
      → Told mapped.1 r.size before after
      → Outcome kernel dtb rootfs mapped mem (some (jump after))

module _ (kernel dtb rootfs : Option Image) (mapped : EspErr × ℕ) (start : Memory) where
  End : Option Shim → Type 0
  End = Outcome kernel dtb rootfs mapped start
