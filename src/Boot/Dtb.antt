-- ===== src/Boot/Dtb.antt =====
-- main/hyp_boot.c: the placeholder in the device tree that is replaced by a window's place.
use esp32_p4_linux_hyperviso.Base.{
  ℕ, zero, suc, ◌+◌, ◌-◌, Bool, true, false, ◌||◌, List, ◌++◌, ltb, if◌then◌else◌,
}
use esp32_p4_linux_hyperviso.Frame.{Memory}
use esp32_p4_linux_hyperviso.Boot.{dtb_address}
use esp32_p4_linux_hyperviso.Boot.Bytes.{memcmp_equal, write_bytes, be_bytes, be32}

-- The loop from offset `i` of the blob at `base` on, with `left` places to go.
unfoldable pub patch_from : ℕ → ℕ → ℕ → List ℕ → ℕ → ℕ → Memory → Bool × Memory
patch_from base zero i needle address span mem = (false, mem)
patch_from base (suc left) i needle address span mem =
    let rest = patch_from base left (i + 1) needle address span mem in
    if memcmp_equal mem (base + i) needle
    then (true, write_bytes mem (base + i) (be_bytes address ++ be_bytes span))
    else rest

-- The blob's own size bounds the scan: the places are those with `i + 8 <= total`.
unfoldable pub patch_dtb_window : List ℕ → ℕ → ℕ → Memory → Bool × Memory
patch_dtb_window needle address span mem =
    let total = be32 mem (dtb_address + 4) in
    if ltb total 8 || ltb 0x00100000 total
    then (false, mem)
    else patch_from dtb_address (total - 7) 0 needle address span mem
