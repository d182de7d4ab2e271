-- ===== src/Decode/Laws.antt =====
-- `trap_decode`: what a handler may rely on when it answers true.
use esp32_p4_linux_hyperviso.Base.{
  ℕ, ◌/◌, ◌%◌, ◌≡◌, ◌≢◌, ◌⊎◌, true, false, some, arith, bit_and, bit_or, Option-cases, inl, inr,
}
use esp32_p4_linux_hyperviso.Base.Bits.{bit_or_step, bit_and_mask}
use esp32_p4_linux_hyperviso.Frame.{Memory}
use esp32_p4_linux_hyperviso.Decode.{GuestTrap, guest_fetch, trap_decode}
use esp32_p4_linux_hyperviso.Decode.Rvc.{rvc_expand-low_bits}

or_low_left : (a b : ℕ) → a % 4 ≡ 3 → bit_or a b % 4 ≡ 3
or_low_left a b h = omega (arith, bit_or_step a b, bit_or_step (a / 2) (b / 2))

-- A fetched instruction is a compressed halfword, of length 2, or a 32-bit word, of length 4.
guest_fetch_length :
    (mem : Memory) (mepc encoding length : ℕ)
    → guest_fetch mem mepc ≡ some (encoding, length)
    → (length ≡ 2) ⊎ ((length ≡ 4) × (bit_and encoding 3 ≡ 3))
unfolding guest_fetch
guest_fetch_length mem mepc encoding length h = grind (arith, or_low_left, bit_and_mask 2)

-- When `trap_decode` answers true it has set the length to 2 or 4, and has changed neither the
-- frame nor the cause nor tval; unless the encoding was taken from tval (cause 2) it is a 32-bit
-- encoding, its low two bits set. When it answers false it has changed nothing.
pub trap_decode_lem :
    (mem : Memory) (trap : GuestTrap)
    → let (done, trap') = trap_decode mem trap in
      (done ≡ true → (trap'.length ≡ 2) ⊎ (trap'.length ≡ 4))
      × (done ≡ true → trap.cause ≢ 2 → bit_and trap'.encoding 3 ≡ 3)
      × (trap'.frame ≡ trap.frame)
      × (trap'.cause ≡ trap.cause)
      × (trap'.tval ≡ trap.tval)
      × (done ≡ false → trap' ≡ trap)
unfolding trap_decode
trap_decode_lem mem trap = elim (Option-cases (guest_fetch mem trap.frame.mepc)) [
  | inl e ↦ ground arith
  | inr ((w, n), e) ↦
      ground (arith, guest_fetch_length mem trap.frame.mepc w n, rvc_expand-low_bits w)
]

-- `trap_decode` is idempotent: handlers call it without caring whether it has been called.
pub trap_decode-trap_decode :
    (mem : Memory) (trap : GuestTrap)
    → trap_decode mem (trap_decode mem trap).1 ≡ trap_decode mem trap
unfolding trap_decode
trap_decode-trap_decode mem trap = ground arith
