-- ===== src/Boot/Load.antt =====
-- main/hyp_boot.c: the guest assembled from the flash partitions.
--
-- ESP-IDF's partition calls are not under the repository's sources: what they answer for a label is
-- `Flash`.
use esp32_p4_linux_hyperviso.Base.{
  ℕ, ◌+◌, ◌-◌, Bool, true, false, not, ◌&&◌, ◌||◌, Option, none, some, List, [], ◌∷◌, ltb, leb,
  ◌==◌, u32, if◌then◌else◌,
}
use mathlib.Core.Option
use esp32_p4_linux_hyperviso.Frame.{Memory}
use esp32_p4_linux_hyperviso.Boot.{
  EspErr, esp_ok, esp_fail, invalid_arg, invalid_state, not_found, other, linux_base_address,
  dtb_address,
}
use esp32_p4_linux_hyperviso.Boot.Dtb.{patch_dtb_window}
use esp32_p4_linux_hyperviso.Boot.Cmdline.{patch_guest_cmdline}

pub data Label : Type 0 where
  kernel dtb rootfs : Label

-- A partition: its size, and `esp_partition_mmap`'s answer with the address it maps to.
pub record Partition : Type 0 where
  pub size : ℕ
  pub result : EspErr
  pub address : ℕ

-- `esp_partition_find_first` by label, and SOC_DROM_LOW and SOC_DROM_HIGH.
pub record Flash : Type 0 where
  pub find : Label → Option Partition
  pub drom_low : ℕ
  pub drom_high : ℕ

-- `struct guest_window`.
pub record GuestWindow : Type 0 where
  pub label : Label
  pub placeholder : List ℕ
  pub mapping : ℕ
  pub span : ℕ

abbrev pub rootfs_window : GuestWindow
rootfs_window = record {
  label = rootfs;
  placeholder = 0x49 ∷ 0xd0 ∷ 0x00 ∷ 0x00 ∷ 0x00 ∷ 0x20 ∷ 0x00 ∷ 0x00 ∷ [];
  mapping = 0;
  span = 0;
}

abbrev pub guest_windows : List GuestWindow
guest_windows = rootfs_window ∷ []

abbrev pub is_ok : EspErr → Bool
is_ok esp_ok = true
is_ok esp_fail = false
is_ok invalid_arg = false
is_ok invalid_state = false
is_ok not_found = false
is_ok (other n) = false

-- `memcpy(destination, source, n)` of disjoint ranges.
abbrev pub memcpy : Memory → ℕ → ℕ → ℕ → Memory
memcpy mem destination source n b =
    if leb destination b && ltb b (destination + n) then mem (source + (b - destination)) else mem b

unfoldable pub partition_cp_to_psram : Option Partition → ℕ → ℕ → Memory → EspErr × Memory
partition_cp_to_psram none destination limit mem = (not_found, mem)
partition_cp_to_psram (some p) destination limit mem =
    let span = if not (limit == 0) && ltb limit p.size then limit else p.size in
    if is_ok p.result then (esp_ok, memcpy mem destination p.address span) else (p.result, mem)

unfoldable pub window_map_from_flash : Flash → GuestWindow → EspErr × GuestWindow
window_map_from_flash flash w = elim (flash.find w.label) [
  | none ↦ (not_found, w)
  | some p ↦
      let w' = record w { mapping = p.address; span = p.size } in
      if not (is_ok p.result)
      then (p.result, w)
      else if ltb w'.mapping flash.drom_low || ltb flash.drom_high (u32 (w'.mapping + w'.span))
      then (invalid_state, w')
      else (esp_ok, w')
]

-- The loop over the windows: one that cannot be mapped is passed over.
unfoldable pub load_windows : Flash → List GuestWindow → Memory → Bool × Memory
load_windows flash [] mem = (true, mem)
load_windows flash (w ∷ windows) mem =
    let (result, w') = window_map_from_flash flash w in
    let (patched, mem') = patch_dtb_window w'.placeholder w'.mapping w'.span mem in
    elim (is_ok result) [
      | false ↦ load_windows flash windows mem
      | true ↦ elim patched [ false ↦ (false, mem') | true ↦ load_windows flash windows mem' ]
    ]

-- `limit` bounds the search for the end of the command line; `none` is one that has no end there.
unfoldable pub hyp_load_guest : Flash → ℕ → Memory → Option (Bool × Memory)
hyp_load_guest flash limit mem =
    let (copied, mem1) = partition_cp_to_psram (flash.find kernel) linux_base_address 0 mem in
    let (told, mem2) = partition_cp_to_psram (flash.find dtb) dtb_address 0 mem1 in
    let (loaded, mem3) = load_windows flash guest_windows mem2 in
    if not (is_ok copied)
    then some (false, mem1)
    else if not (is_ok told)
    then some (false, mem2)
    else if not loaded
    then some (false, mem3)
    else Option.map (λ (r : Bool × Memory). (true, r.1)) (patch_guest_cmdline limit 0x00400000 mem3)
