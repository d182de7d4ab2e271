-- ===== src/Frame.antt =====
-- The trap frame and the guest's memory, as main/hyp_decode.c reads and writes them.
--
-- `RvExcFrame` starts with mepc, then x1..x31, so word n of it is register n for n in 1..31.
-- `x n` is that word; word 0 is the field `mepc`.
use esp32_p4_linux_hyperviso.Base.{ℕ, ◌+◌, ◌*◌, ◌^◌, ◌==◌, ltb, sub32, if◌then◌else◌, u8, u32}

pub record Frame : Type 0 where
  pub mepc : ℕ
  pub x : ℕ → ℕ
  pub mcause : ℕ
  pub mtval : ℕ

-- A function changed at one argument.
abbrev pub update {ℓ} : {A : Type ℓ} → (ℕ → A) → ℕ → A → ℕ → A
update f i v j = if j == i then v else f j

unfoldable pub reg_read : Frame → ℕ → ℕ
reg_read frame index = if index == 0 then 0 else frame.x index

unfoldable pub reg_write : Frame → ℕ → ℕ → Frame
reg_write frame index value =
    if index == 0 then frame else record frame { x = update frame.x index value }

-- The bytes of the address space, by address.
abbrev pub Memory : Type 0
Memory = ℕ → ℕ

-- A `uint16_t` load: two bytes, the low one first.
abbrev pub load16 : Memory → ℕ → ℕ
load16 mem address = u8 (mem address) + 256 * u8 (mem (u32 (address + 1)))

abbrev pub load32 : Memory → ℕ → ℕ
load32 mem address = load16 mem address + 2 ^ 16 * load16 mem (u32 (address + 2))

-- `memcpy(dst, ..., n)` of the bytes that `source` gives.
unfoldable pub copy_in : Memory → ℕ → ℕ → (ℕ → ℕ) → Memory
copy_in mem dst n source j = if ltb (sub32 j dst) n then source (sub32 j dst) else mem j
