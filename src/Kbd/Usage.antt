-- ===== src/Kbd/Usage.antt =====
-- main/hyp_kbd.c: HID usages to the bytes of a terminal.
use esp32_p4_linux_hyperviso.Base.{
  ℕ, ◌+◌, ◌-◌, ◌&&◌, Option, none, some, List, [], ◌∷◌, get_or, has, leb, ◌==◌, if◌then◌else◌,
}
use esp32_p4_linux_hyperviso.Kbd.{Kbd, kbd_push, kbd_push_str}

abbrev pub mod_ctrl : ℕ
mod_ctrl = 0x11

abbrev pub mod_shift : ℕ
mod_shift = 0x22

abbrev pub mod_alt : ℕ
mod_alt = 0x44

abbrev pub usage_max : ℕ
usage_max = 0x64

unfoldable pub usage_plain : List ℕ
usage_plain =
    0x00 ∷ 0x00 ∷ 0x00 ∷ 0x00 ∷ 0x61 ∷ 0x62 ∷ 0x63 ∷ 0x64 ∷ 0x65 ∷ 0x66 ∷ 0x67 ∷ 0x68 ∷ 0x69 ∷ 0x6a
    ∷ 0x6b ∷ 0x6c ∷ 0x6d ∷ 0x6e ∷ 0x6f ∷ 0x70 ∷ 0x71 ∷ 0x72 ∷ 0x73 ∷ 0x74 ∷ 0x75 ∷ 0x76 ∷ 0x77
    ∷ 0x78 ∷ 0x79 ∷ 0x7a ∷ 0x31 ∷ 0x32 ∷ 0x33 ∷ 0x34 ∷ 0x35 ∷ 0x36 ∷ 0x37 ∷ 0x38 ∷ 0x39 ∷ 0x30
    ∷ 0x0d ∷ 0x1b ∷ 0x7f ∷ 0x09 ∷ 0x20 ∷ 0x2d ∷ 0x3d ∷ 0x5b ∷ 0x5d ∷ 0x5c ∷ 0x00 ∷ 0x3b ∷ 0x27
    ∷ 0x60 ∷ 0x2c ∷ 0x2e ∷ 0x2f ∷ 0x00 ∷ 0x00 ∷ 0x00 ∷ 0x00 ∷ 0x00 ∷ 0x00 ∷ 0x00 ∷ 0x00 ∷ 0x00
    ∷ 0x00 ∷ 0x00 ∷ 0x00 ∷ 0x00 ∷ 0x00 ∷ 0x00 ∷ 0x00 ∷ 0x00 ∷ 0x00 ∷ 0x00 ∷ 0x00 ∷ 0x00 ∷ 0x00
    ∷ 0x00 ∷ 0x00 ∷ 0x00 ∷ 0x00 ∷ 0x00 ∷ 0x2f ∷ 0x2a ∷ 0x2d ∷ 0x2b ∷ 0x0d ∷ 0x31 ∷ 0x32 ∷ 0x33
    ∷ 0x34 ∷ 0x35 ∷ 0x36 ∷ 0x37 ∷ 0x38 ∷ 0x39 ∷ 0x30 ∷ 0x2e ∷ []

unfoldable pub usage_shift : List ℕ
usage_shift =
    0x00 ∷ 0x00 ∷ 0x00 ∷ 0x00 ∷ 0x41 ∷ 0x42 ∷ 0x43 ∷ 0x44 ∷ 0x45 ∷ 0x46 ∷ 0x47 ∷ 0x48 ∷ 0x49 ∷ 0x4a
    ∷ 0x4b ∷ 0x4c ∷ 0x4d ∷ 0x4e ∷ 0x4f ∷ 0x50 ∷ 0x51 ∷ 0x52 ∷ 0x53 ∷ 0x54 ∷ 0x55 ∷ 0x56 ∷ 0x57
    ∷ 0x58 ∷ 0x59 ∷ 0x5a ∷ 0x21 ∷ 0x40 ∷ 0x23 ∷ 0x24 ∷ 0x25 ∷ 0x5e ∷ 0x26 ∷ 0x2a ∷ 0x28 ∷ 0x29
    ∷ 0x0d ∷ 0x1b ∷ 0x7f ∷ 0x09 ∷ 0x20 ∷ 0x5f ∷ 0x2b ∷ 0x7b ∷ 0x7d ∷ 0x7c ∷ 0x00 ∷ 0x3a ∷ 0x22
    ∷ 0x7e ∷ 0x3c ∷ 0x3e ∷ 0x3f ∷ 0x00 ∷ 0x00 ∷ 0x00 ∷ 0x00 ∷ 0x00 ∷ 0x00 ∷ 0x00 ∷ 0x00 ∷ 0x00
    ∷ 0x00 ∷ 0x00 ∷ 0x00 ∷ 0x00 ∷ 0x00 ∷ 0x00 ∷ 0x00 ∷ 0x00 ∷ 0x00 ∷ 0x00 ∷ 0x00 ∷ 0x00 ∷ 0x00
    ∷ 0x00 ∷ 0x00 ∷ 0x00 ∷ 0x00 ∷ 0x00 ∷ 0x2f ∷ 0x2a ∷ 0x2d ∷ 0x2b ∷ 0x0d ∷ 0x31 ∷ 0x32 ∷ 0x33
    ∷ 0x34 ∷ 0x35 ∷ 0x36 ∷ 0x37 ∷ 0x38 ∷ 0x39 ∷ 0x30 ∷ 0x2e ∷ []

unfoldable pub usage_escape : ℕ → Option (List ℕ)
usage_escape usage =
    if usage == 0x3a
    then some (0x1b ∷ 0x4f ∷ 0x50 ∷ [])
    else if usage == 0x3b
    then some (0x1b ∷ 0x4f ∷ 0x51 ∷ [])
    else if usage == 0x3c
    then some (0x1b ∷ 0x4f ∷ 0x52 ∷ [])
    else if usage == 0x3d
    then some (0x1b ∷ 0x4f ∷ 0x53 ∷ [])
    else if usage == 0x3e
    then some (0x1b ∷ 0x5b ∷ 0x31 ∷ 0x35 ∷ 0x7e ∷ [])
    else if usage == 0x3f
    then some (0x1b ∷ 0x5b ∷ 0x31 ∷ 0x37 ∷ 0x7e ∷ [])
    else if usage == 0x40
    then some (0x1b ∷ 0x5b ∷ 0x31 ∷ 0x38 ∷ 0x7e ∷ [])
    else if usage == 0x41
    then some (0x1b ∷ 0x5b ∷ 0x31 ∷ 0x39 ∷ 0x7e ∷ [])
    else if usage == 0x42
    then some (0x1b ∷ 0x5b ∷ 0x32 ∷ 0x30 ∷ 0x7e ∷ [])
    else if usage == 0x43
    then some (0x1b ∷ 0x5b ∷ 0x32 ∷ 0x31 ∷ 0x7e ∷ [])
    else if usage == 0x44
    then some (0x1b ∷ 0x5b ∷ 0x32 ∷ 0x33 ∷ 0x7e ∷ [])
    else if usage == 0x45
    then some (0x1b ∷ 0x5b ∷ 0x32 ∷ 0x34 ∷ 0x7e ∷ [])
    else if usage == 0x49
    then some (0x1b ∷ 0x5b ∷ 0x32 ∷ 0x7e ∷ [])
    else if usage == 0x4a
    then some (0x1b ∷ 0x5b ∷ 0x31 ∷ 0x7e ∷ [])
    else if usage == 0x4b
    then some (0x1b ∷ 0x5b ∷ 0x35 ∷ 0x7e ∷ [])
    else if usage == 0x4c
    then some (0x1b ∷ 0x5b ∷ 0x33 ∷ 0x7e ∷ [])
    else if usage == 0x4d
    then some (0x1b ∷ 0x5b ∷ 0x34 ∷ 0x7e ∷ [])
    else if usage == 0x4e
    then some (0x1b ∷ 0x5b ∷ 0x36 ∷ 0x7e ∷ [])
    else if usage == 0x4f
    then some (0x1b ∷ 0x5b ∷ 0x43 ∷ [])
    else if usage == 0x50
    then some (0x1b ∷ 0x5b ∷ 0x44 ∷ [])
    else if usage == 0x51
    then some (0x1b ∷ 0x5b ∷ 0x42 ∷ [])
    else if usage == 0x52
    then some (0x1b ∷ 0x5b ∷ 0x41 ∷ [])
    else none

-- What ctrl makes of the unshifted character, `none` where it changes nothing.
unfoldable pub control_of : ℕ → Option ℕ
control_of base =
    if leb 0x61 base && leb base 0x7a
    then some (base - 0x61 + 1)
    else if base == 0x20
    then some 0x00
    else if base == 0x5b
    then some 0x1b
    else if base == 0x5c
    then some 0x1c
    else if base == 0x5d
    then some 0x1d
    else if base == 0x2d
    then some 0x1f
    else none

-- A character, behind an escape if alt is held.
unfoldable pub push_character : ℕ → ℕ → Kbd → Kbd
push_character c mods k = kbd_push (if has mods mod_alt then kbd_push k 0x1b else k) c

unfoldable pub emit_usage : ℕ → ℕ → Kbd → Kbd
emit_usage usage mods k = elim (usage_escape usage) [
  | some seq ↦ kbd_push_str k seq
  | none ↦
      let c =
        if has mods mod_shift then get_or usage_shift usage 0 else get_or usage_plain usage 0 in
      if leb usage_max usage
      then k
      else if c == 0
      then k
      else if has mods mod_ctrl
      then elim (control_of (get_or usage_plain usage 0)) [
        | some control ↦ kbd_push k control
        | none ↦ push_character c mods k
      ]
      else push_character c mods k
]
