-- ===== src/Native/Probe.antt =====
-- native/linux-native/main/main.c: the size of the kernel, from the header of its image.
use esp32_p4_linux_hyperviso.Base.{ℕ, ◌+◌, ◌*◌, not, ◌||◌, ltb, ◌==◌, u8, u32, if◌then◌else◌}
use esp32_p4_linux_hyperviso.Boot.Load.{is_ok}
use esp32_p4_linux_hyperviso.Native.{Image}

-- A `uint64_t` of a mapped page, its low byte first.
abbrev pub field64 : (ℕ → ℕ) → ℕ → ℕ
field64 content off =
    u8 (content off)
    + 256
      * (u8 (content (off + 1))
          + 256
            * (u8 (content (off + 2))
                + 256
                  * (u8 (content (off + 3))
                      + 256
                        * (u8 (content (off + 4))
                            + 256
                              * (u8 (content (off + 5))
                                  + 256
                                    * (u8 (content (off + 6)) + 256 * u8 (content (off + 7))))))))

abbrev pub riscv_image_magic : ℕ
riscv_image_magic = 0x5643534952

unfoldable pub probe_kernel_size : Image → ℕ
probe_kernel_size part =
    let image_size = field64 part.content 16 in
    if not (is_ok (part.mmap 0))
    then 0
    else if not (field64 part.content 48 == riscv_image_magic)
    then 0
    else if image_size == 0 || ltb part.size image_size
    then part.size
    else u32 image_size
