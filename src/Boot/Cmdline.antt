-- ===== src/Boot/Cmdline.antt =====
-- main/hyp_boot.c: the kernel's built-in command line, rewritten in place.
use esp32_p4_linux_hyperviso.Base.{
  ℕ, zero, suc, ◌+◌, ◌-◌, Bool, true, false, ◌&&◌, Option, none, some, List, [], ◌∷◌, length, ltb,
  leb, ◌==◌, u8, if◌then◌else◌,
}
use mathlib.Core.Option
use esp32_p4_linux_hyperviso.Frame.{Memory}
use esp32_p4_linux_hyperviso.Boot.{linux_base_address}
use esp32_p4_linux_hyperviso.Boot.Bytes.{memcmp_equal, write_bytes}

-- "root=/dev/vda rw earlycon="
abbrev pub needle : List ℕ
needle =
    0x72 ∷ 0x6f ∷ 0x6f ∷ 0x74 ∷ 0x3d ∷ 0x2f ∷ 0x64 ∷ 0x65 ∷ 0x76 ∷ 0x2f ∷ 0x76 ∷ 0x64 ∷ 0x61 ∷ 0x20
    ∷ 0x72 ∷ 0x77 ∷ 0x20 ∷ 0x65 ∷ 0x61 ∷ 0x72 ∷ 0x6c ∷ 0x79 ∷ 0x63 ∷ 0x6f ∷ 0x6e ∷ 0x3d ∷ []

-- "earlycon=uart8250,mmio,0x10000000 console=ttyS0 keep_bootcon"
abbrev pub replacement : List ℕ
replacement =
    0x65 ∷ 0x61 ∷ 0x72 ∷ 0x6c ∷ 0x79 ∷ 0x63 ∷ 0x6f ∷ 0x6e ∷ 0x3d ∷ 0x75 ∷ 0x61 ∷ 0x72 ∷ 0x74 ∷ 0x38
    ∷ 0x32 ∷ 0x35 ∷ 0x30 ∷ 0x2c ∷ 0x6d ∷ 0x6d ∷ 0x69 ∷ 0x6f ∷ 0x2c ∷ 0x30 ∷ 0x78 ∷ 0x31 ∷ 0x30
    ∷ 0x30 ∷ 0x30 ∷ 0x30 ∷ 0x30 ∷ 0x30 ∷ 0x30 ∷ 0x20 ∷ 0x63 ∷ 0x6f ∷ 0x6e ∷ 0x73 ∷ 0x6f ∷ 0x6c
    ∷ 0x65 ∷ 0x3d ∷ 0x74 ∷ 0x74 ∷ 0x79 ∷ 0x53 ∷ 0x30 ∷ 0x20 ∷ 0x6b ∷ 0x65 ∷ 0x65 ∷ 0x70 ∷ 0x5f
    ∷ 0x62 ∷ 0x6f ∷ 0x6f ∷ 0x74 ∷ 0x63 ∷ 0x6f ∷ 0x6e ∷ []

-- `strlen(mem + a)`, `none` when the first `limit` bytes are no NUL.
unfoldable pub strlen : ℕ → Memory → ℕ → Option ℕ
strlen zero mem a = none
strlen (suc limit) mem a = elim (u8 (mem a) == 0) [
  | true ↦ some 0
  | false ↦ Option.map suc (strlen limit mem (a + 1))
]

-- `memset(mem + a, c, n)`.
abbrev pub memset : Memory → ℕ → ℕ → ℕ → Memory
memset mem a c n b = if leb a b && ltb b (a + n) then c else mem b

-- The field at an address, once the needle is found there.
unfoldable pub rewrite_field : ℕ → ℕ → Memory → Option (Bool × Memory)
rewrite_field limit a mem = elim (strlen limit mem a) [
  | none ↦ none
  | some original ↦
      if ltb original (length replacement)
      then some (false, mem)
      else some (true, write_bytes (memset mem a 0 original) a replacement)
]

-- The loop from offset `i` on, with `left` places to go.
unfoldable pub cmdline_from : ℕ → ℕ → ℕ → Memory → Option (Bool × Memory)
cmdline_from limit zero i mem = some (false, mem)
cmdline_from limit (suc left) i mem = elim (memcmp_equal mem (linux_base_address + i) needle) [
  | true ↦ rewrite_field limit (linux_base_address + i) mem
  | false ↦ cmdline_from limit left (i + 1) mem
]

-- The places are those with `i + needle_len < span`; `none` is a command line with no end.
unfoldable pub patch_guest_cmdline : ℕ → ℕ → Memory → Option (Bool × Memory)
patch_guest_cmdline limit span mem = cmdline_from limit (span - length needle) 0 mem
