-- ===== src/Decode.antt =====
-- main/hyp_decode.c: instruction fetch, expansion of compressed loads and stores, trap decoding.
pub mod Rvc
pub mod Laws
use esp32_p4_linux_hyperviso.Base.{
  ℕ, ◌+◌, Bool, true, false, not, Option, none, some, bit_and, bit_or, ◌==◌, if◌then◌else◌, u32,
  ◌<<◌, ◌>>◌,
}
use esp32_p4_linux_hyperviso.Frame.{Frame, Memory, load16}

-- `GuestTrap`; the frame that the C structure points at is a field.
pub record GuestTrap : Type 0 where
  pub frame : Frame
  pub cause : ℕ
  pub tval : ℕ
  pub encoding : ℕ
  pub length : ℕ

-- `TrapResult`.
pub data TrapResult : Type 0 where
  unhandled advance resume : TrapResult

-- The instruction at `mepc` and its length; `none` is the `false` of the C function.
unfoldable pub guest_fetch : Memory → ℕ → Option (ℕ × ℕ)
guest_fetch mem mepc =
    let low = load16 mem mepc in
    if not (bit_and low 0x3 == 0x3)
    then some (low, 2)
    else if bit_and low 0x1f == 0x1f
    then none
    else some (bit_or low (load16 mem (u32 (mepc + 2)) << 16), 4)

unfoldable pub rvc_expand : ℕ → ℕ
rvc_expand c =
    let rs1 = 8 + bit_and (c >> 7) 0x7 in
    let rx = 8 + bit_and (c >> 2) 0x7 in
    let off =
      bit_or (bit_or (bit_and (c >> 10) 0x7 << 3) (bit_and (c >> 6) 0x1 << 2))
        (bit_and (c >> 5) 0x1 << 6) in
    let funct3 = bit_and (c >> 13) 0x7 in
    if not (bit_and c 0x3 == 0x0)
    then 0
    else if funct3 == 0x2
    then bit_or (bit_or (bit_or (bit_or (off << 20) (rs1 << 15)) (0x2 << 12)) (rx << 7)) 0x03
    else if funct3 == 0x6
    then bit_or
        (bit_or (bit_or (bit_or (bit_or (off >> 5 << 25) (rx << 20)) (rs1 << 15)) (0x2 << 12))
          (bit_and off 0x1f << 7))
        0x23
    else 0

-- The second component is the trap with `encoding` and `length` filled in.
unfoldable pub trap_decode : Memory → GuestTrap → Bool × GuestTrap
trap_decode mem trap =
    if trap.cause == 2
    then (
      true,
      record trap { encoding = trap.tval; length = if bit_and trap.tval 0x3 == 0x3 then 4 else 2 },
    )
    else elim (guest_fetch mem trap.frame.mepc) [
      | none ↦ (false, trap)
      | some (encoding, length) ↦
          if length == 2
          then if rvc_expand encoding == 0
            then (false, trap)
            else (true, record trap { encoding = rvc_expand encoding; length = length })
          else (true, record trap { encoding = encoding; length = length })
    ]
