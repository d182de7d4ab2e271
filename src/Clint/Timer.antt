-- ===== src/Clint/Timer.antt =====
-- The guest's deadline, its two halves, and the host's alarm that follows it.
use esp32_p4_linux_hyperviso.Base.{
  ℕ, ◌+◌, ◌*◌, ◌/◌, ◌%◌, ◌^◌, ◌<◌, ◌≤◌, ◌≡◌, ◌∙◌, ap, ◌↔◌, true, false, bit_and, bit_or, arith,
}
use esp32_p4_linux_hyperviso.Base.Bits.{bit_and_mask, bit_and_shifted, bit_or_fields, bit_or_comm}
use esp32_p4_linux_hyperviso.Clint.{
  Clint, hyp_arm_timer, mtip_pending, clint_read, clint_write, hyp_mtime_max,
}

high_half : (x : ℕ) → x < 2 ^ 64 → bit_and x 0xFFFFFFFF00000000 ≡ x / 2 ^ 32 * 2 ^ 32
high_half x h = ground (arith, bit_and_shifted 32 x 0xFFFFFFFF, bit_and_mask 32 (x / 2 ^ 32))

-- The deadline after a store to its low half, and after one to its high half.
abbrev pub with_low : ℕ → ℕ → ℕ
with_low mtimecmp value = mtimecmp / 2 ^ 32 * 2 ^ 32 + value

abbrev pub with_high : ℕ → ℕ → ℕ
with_high mtimecmp value = value * 2 ^ 32 + mtimecmp % 2 ^ 32

-- The host's alarm follows the deadline: armed one-shot at it, its interrupt enabled, if it is below
-- 2^52, and off otherwise.
pub record AlarmIsSet (c : Clint) : Type 0 where
  pub armed :
      c.mtimecmp < hyp_mtime_max
      → (c.alarm.enabled ≡ true)
        × (c.alarm.oneshot ≡ true)
        × (c.alarm.int_enabled ≡ true)
        × (c.alarm.target ≡ c.mtimecmp)
  pub off : hyp_mtime_max ≤ c.mtimecmp → c.alarm.enabled ≡ false
  pub acknowledged : c.alarm.int_pending ≡ false

hyp_arm_timer-AlarmIsSet : (c : Clint) → AlarmIsSet (hyp_arm_timer c)
unfolding hyp_arm_timer
hyp_arm_timer-AlarmIsSet c = ground arith

mtimecmp-hyp_arm_timer : (c : Clint) → (hyp_arm_timer c).mtimecmp ≡ c.mtimecmp
unfolding hyp_arm_timer
mtimecmp-hyp_arm_timer c = ground arith

low_word :
    (x value : ℕ)
    → x < 2 ^ 64
    → value < 2 ^ 32
    → bit_or (bit_and x 0xFFFFFFFF00000000) value ≡ with_low x value
low_word x value h k = rw (high_half x h) (bit_or_fields 32 (x / 2 ^ 32) value k)

high_word :
    (x value : ℕ)
    → value < 2 ^ 32
    → bit_or (bit_and x 0xFFFFFFFF) (value * 2 ^ 32 % 2 ^ 64) ≡ with_high x value
high_word x value k =
    let fits : value * 2 ^ 32 % 2 ^ 64 ≡ value * 2 ^ 32 = omega arith in
    rw (fits, bit_or_comm, bit_and_mask 32 x) (bit_or_fields 32 value (x % 2 ^ 32) (omega arith))

-- A store to a half of the guest's deadline sets that half, leaves the other as it was, and leaves the
-- host's alarm following the new deadline; a later read gives back each half.
pub clint_write_lem :
    (c : Clint) (now value : ℕ)
    → c.mtimecmp < 2 ^ 64
    → value < 2 ^ 32
    → let low = clint_write c 0x4000 value in
      let high = clint_write c 0x4004 value in
      (low.mtimecmp ≡ with_low c.mtimecmp value)
      × (high.mtimecmp ≡ with_high c.mtimecmp value)
      × AlarmIsSet low
      × AlarmIsSet high
      × (clint_read now low 0x4000 ≡ value)
      × (clint_read now low 0x4004 ≡ clint_read now c 0x4004)
      × (clint_read now high 0x4004 ≡ value)
      × (clint_read now high 0x4000 ≡ clint_read now c 0x4000)
unfolding clint_write clint_read
clint_write_lem c now value h k =
    let low : (clint_write c 0x4000 value).mtimecmp ≡ with_low c.mtimecmp value =
      mtimecmp-hyp_arm_timer _ ∙ low_word c.mtimecmp value h k in
    let high : (clint_write c 0x4004 value).mtimecmp ≡ with_high c.mtimecmp value =
      mtimecmp-hyp_arm_timer _ ∙ high_word c.mtimecmp value k in
    (
      low,
      high,
      hyp_arm_timer-AlarmIsSet _,
      hyp_arm_timer-AlarmIsSet _,
      rw low (omega arith),
      rw low (omega arith),
      rw high (omega arith),
      rw high (omega arith),
    )

-- Linux's RV32 sequence (low half all ones, then the high half, then the low half) ends with the
-- deadline that was meant and the alarm following it; between the second store and the last the
-- deadline is at least the one meant, so the timer interrupt is not pending there before its time.
pub clint_write_sequence :
    (c : Clint) (now lo hi : ℕ)
    → c.mtimecmp < 2 ^ 64
    → lo < 2 ^ 32
    → hi < 2 ^ 32
    → let before = clint_write (clint_write c 0x4000 0xFFFFFFFF) 0x4004 hi in
      let after = clint_write before 0x4000 lo in
      (after.mtimecmp ≡ hi * 2 ^ 32 + lo)
      × AlarmIsSet after
      × (mtip_pending now before ≡ true → hi * 2 ^ 32 + lo ≤ now)
      × ((mtip_pending now after ≡ true) ↔ (hi * 2 ^ 32 + lo ≤ now))
unfolding mtip_pending
clint_write_sequence c now lo hi h l k =
    let first = (clint_write_lem c now 0xFFFFFFFF h (omega arith)).0 in
    let second =
      (clint_write_lem (clint_write c 0x4000 0xFFFFFFFF) now hi (rw first (omega arith)) k).1 in
    let before = clint_write (clint_write c 0x4000 0xFFFFFFFF) 0x4004 hi in
    let meant : before.mtimecmp ≡ hi * 2 ^ 32 + 0xFFFFFFFF =
      second ∙ ap (λ (t : ℕ). with_high t hi) first ∙ omega arith in
    let third = clint_write_lem before now lo (rw meant (omega arith)) l in
    let done : (clint_write before 0x4000 lo).mtimecmp ≡ hi * 2 ^ 32 + lo =
      third.0 ∙ ap (λ (t : ℕ). with_low t lo) meant ∙ omega arith in
    (done, third.2, rw meant (ground arith), rw done (ground arith))
