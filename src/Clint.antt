-- ===== src/Clint.antt =====
-- main/hyp_clint.c: the guest's timer. The 52-bit counter of the host's systimer is read by
-- hardware; `now` is the value that a function's one snapshot of it gives.
pub mod Timer
use esp32_p4_linux_hyperviso.Base.{
  ℕ, ◌*◌, ◌/◌, ◌%◌, ◌^◌, Bool, true, false, bit_and, bit_or, leb, ◌==◌, u32, if◌then◌else◌,
}

abbrev pub hyp_mtime_max : ℕ
hyp_mtime_max = 2 ^ 52

-- The host's alarm, as the `systimer_ll_*` calls leave it.
pub record Alarm : Type 0 where
  pub enabled : Bool
  pub int_pending : Bool
  pub int_enabled : Bool
  pub oneshot : Bool
  pub target : ℕ

pub record Clint : Type 0 where
  pub mtimecmp : ℕ
  pub alarm : Alarm

-- The value that two 32-bit halves of a snapshot make.
unfoldable pub hyp_mtime : ℕ → ℕ → ℕ
hyp_mtime lo hi = bit_or (hi * 2 ^ 32) lo

unfoldable pub hyp_arm_timer : Clint → Clint
hyp_arm_timer c =
    let off = record (c.alarm) { enabled = false; int_pending = false } in
    if leb hyp_mtime_max c.mtimecmp then record c { alarm = off } else record c {
      alarm = record off {
        oneshot = true;
        target = c.mtimecmp;
        int_enabled = true;
        enabled = true;
      };
    }

unfoldable pub mtip_pending : ℕ → Clint → Bool
mtip_pending now c = leb c.mtimecmp now

unfoldable pub clint_read : ℕ → Clint → ℕ → ℕ
clint_read now c offset =
    if offset == 0x0000
    then 0
    else if offset == 0x4000
    then u32 c.mtimecmp
    else if offset == 0x4004
    then u32 (c.mtimecmp / 2 ^ 32)
    else if offset == 0xBFF8
    then u32 now
    else if offset == 0xBFFC
    then u32 (now / 2 ^ 32)
    else 0

unfoldable pub clint_write : Clint → ℕ → ℕ → Clint
clint_write c offset value =
    if offset == 0x0000
    then c
    else if offset == 0x4000
    then hyp_arm_timer
        (record c { mtimecmp = bit_or (bit_and c.mtimecmp 0xFFFFFFFF00000000) value })
    else if offset == 0x4004
    then hyp_arm_timer (record c {
      mtimecmp = bit_or (bit_and c.mtimecmp 0x00000000FFFFFFFF) (value * 2 ^ 32 % 2 ^ 64);
    })
    else c
