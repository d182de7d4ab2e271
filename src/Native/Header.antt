-- ===== src/Native/Header.antt =====
-- What the probe of the kernel's header answers.
use esp32_p4_linux_hyperviso.Base.{
  ℕ, ◌^◌, ◌≤◌, ◌<◌, ◌≡◌, ◌≢◌, ◌↔◌, ◌⊎◌, Bool, false, not, ◌||◌, ltb, ◌==◌, u32, if◌then◌else◌,
  arith,
}
use esp32_p4_linux_hyperviso.Boot.Load.{is_ok}
use esp32_p4_linux_hyperviso.Native.{Image}
use esp32_p4_linux_hyperviso.Native.Probe.{field64, riscv_image_magic, probe_kernel_size}

-- The size that the probe answers never reaches past the partition. It is 0, on which the loader
-- restarts, exactly when the header cannot be mapped or bears no magic. Otherwise it is the header's
-- own size if that is from 1 to the partition's, and the partition's size if not.
pub probe_kernel_size_lem :
    (part : Image)
    → 0 < part.size
    → part.size < 2 ^ 32
    → let size = probe_kernel_size part in
      let image_size = field64 part.content 16 in
      (size ≤ part.size)
      × ((size ≡ 0)
          ↔ ((is_ok (part.mmap 0) ≡ false) ⊎ (field64 part.content 48 ≢ riscv_image_magic)))
      × (size ≢ 0 → 1 ≤ image_size → image_size ≤ part.size → size ≡ image_size)
      × (size ≢ 0 → (image_size ≡ 0) ⊎ (part.size < image_size) → size ≡ part.size)
unfolding probe_kernel_size
probe_kernel_size_lem part pos b =
    go (is_ok (part.mmap 0)) (field64 part.content 48) (field64 part.content 16)
  where
    go :
        (ok : Bool) (magic image_size : ℕ)
        → let size =
            if not ok
            then 0
            else if not (magic == riscv_image_magic)
            then 0
            else if image_size == 0 || ltb part.size image_size
            then part.size
            else u32 image_size in
          (size ≤ part.size)
          × ((size ≡ 0) ↔ ((ok ≡ false) ⊎ (magic ≢ riscv_image_magic)))
          × (size ≢ 0 → 1 ≤ image_size → image_size ≤ part.size → size ≡ image_size)
          × (size ≢ 0 → (image_size ≡ 0) ⊎ (part.size < image_size) → size ≡ part.size)
    go ok magic image_size = ground arith
