-- ===== src/Intr/Pending.antt =====
-- Which interrupt is delivered, what the guest reads of it in mip, and when wfi wakes.
use esp32_p4_linux_hyperviso.Base.{
  ℕ, ◌≡◌, ◌↔◌, ◌⊎◌, ◌∙◌, refl, Option, none, some, Bool, true, false, bit, bit_and, bit_or, has,
  not32, if◌then◌else◌, not, ◌&&◌, arith, min, max,
}
use esp32_p4_linux_hyperviso.Base.Bits.{has-bit, bit-bit_and, bit-bit_or, bit-lt}
use esp32_p4_linux_hyperviso.Plic.{meip_pending}
use esp32_p4_linux_hyperviso.Clint.{mtip_pending}
use esp32_p4_linux_hyperviso.Monitor.{Hyp}
use esp32_p4_linux_hyperviso.Intr.{shadow_mip_read, hyp_pending_cause}
use esp32_p4_linux_hyperviso.Csr.{hyp_wfi_wake}

-- Interrupt `c` is pending in mip as the guest reads it, and enabled in mie.
abbrev pub Ready : ℕ → Hyp → ℕ → Type 0
Ready now h c = (bit (shadow_mip_read now h) c ≡ 1) × (bit h.guest.shadow.mie c ≡ 1)

-- mip composed of a stored word and the two wires.
abbrev composed : ℕ → Bool → Bool → ℕ
composed stored timer external =
    let mip = bit_and stored (not32 (bit_or 0x80 0x800)) in
    let mip' = if timer then bit_or mip 0x80 else mip in
    if external then bit_or mip' 0x800 else mip'

digit-composed :
    (stored : ℕ) (timer external : Bool) (k : ℕ)
    → bit (composed stored timer external) k
      ≡ max
          (max (min (bit stored k) (bit (not32 0x880) k)) (if timer then bit 0x80 k else 0))
          (if external then bit 0x800 k else 0)
digit-composed stored true true k = rw (bit-bit_or, bit-bit_or, bit-bit_and)
digit-composed stored true false k = rw (bit-bit_or, bit-bit_and) (omega arith)
digit-composed stored false true k = rw (bit-bit_or, bit-bit_and) (omega arith)
digit-composed stored false false k = rw bit-bit_and (omega arith)

mip_bits :
    (now : ℕ) (h : Hyp)
    → (bit (shadow_mip_read now h) 11 ≡ (if meip_pending h.devices.plic then 1 else 0))
      × (bit (shadow_mip_read now h) 7 ≡ (if mtip_pending now h.devices.clint then 1 else 0))
      × (bit (shadow_mip_read now h) 3 ≡ bit h.guest.shadow.mip 3)
unfolding shadow_mip_read
mip_bits now h =
    let digit =
      digit-composed h.guest.shadow.mip (mtip_pending now h.devices.clint)
        (meip_pending h.devices.plic) in
    (
      digit 11 ∙ ground (arith, bit-lt h.guest.shadow.mip 11),
      digit 7 ∙ ground (arith, bit-lt h.guest.shadow.mip 7),
      digit 3 ∙ ground (arith, bit-lt h.guest.shadow.mip 3),
    )

-- The three tests of the code, as what the guest reads.
external_iff :
    (now : ℕ) (h : Hyp)
    → ((has h.guest.shadow.mie 0x800 && meip_pending h.devices.plic) ≡ true) ↔ Ready now h 11
external_iff now h = grind (arith, has-bit 11 h.guest.shadow.mie, mip_bits now h)

software_iff :
    (now : ℕ) (h : Hyp)
    → ((has h.guest.shadow.mie 0x8 && has h.guest.shadow.mip 0x8) ≡ true) ↔ Ready now h 3
software_iff now h =
    grind (arith, has-bit 3 h.guest.shadow.mie, has-bit 3 h.guest.shadow.mip, mip_bits now h)

timer_iff :
    (now : ℕ) (h : Hyp)
    → ((has h.guest.shadow.mie 0x80 && mtip_pending now h.devices.clint) ≡ true) ↔ Ready now h 7
timer_iff now h = grind (arith, has-bit 7 h.guest.shadow.mie, mip_bits now h)

-- The code's ladder over its four tests.
ladder : Bool → Bool → Bool → Bool → Option ℕ
ladder enabled external software timer =
    if not enabled
    then none
    else if external
    then some 11
    else if software
    then some 3
    else if timer
    then some 7
    else none

ladder_lem :
    (external software timer : Bool) {E S T : Type 0}
    → ((external ≡ true) ↔ E)
    → ((software ≡ true) ↔ S)
    → ((timer ≡ true) ↔ T)
    → let found = ladder true external software timer in
      ((found ≡ some 11) ↔ E)
      × ((found ≡ some 3) ↔ (S × ¬ E))
      × ((found ≡ some 7) ↔ (T × ¬ S × ¬ E))
      × ((found ≡ none) ↔ (¬ T × ¬ S × ¬ E))
unfolding ladder
ladder_lem true software timer e s t = (
  (λ _. e.0 refl, λ _. refl),
  (λ c. cc, λ x. absurd (x.1 (e.0 refl))),
  (λ c. cc, λ x. absurd (x.2 (e.0 refl))),
  (λ c. cc, λ x. absurd (x.2 (e.0 refl))),
)
ladder_lem false true timer e s t = (
  (λ c. cc, λ x. cc (e.1 x)),
  (λ _. (s.0 refl, λ x. cc (e.1 x)), λ _. refl),
  (λ c. cc, λ x. absurd (x.1 (s.0 refl))),
  (λ c. cc, λ x. absurd (x.1 (s.0 refl))),
)
ladder_lem false false true e s t = (
  (λ c. cc, λ x. cc (e.1 x)),
  (λ c. cc, λ x. cc (s.1 x.0)),
  (λ _. (t.0 refl, λ x. cc (s.1 x), λ x. cc (e.1 x)), λ _. refl),
  (λ c. cc, λ x. absurd (x.0 (t.0 refl))),
)
ladder_lem false false false e s t = (
  (λ c. cc, λ x. cc (e.1 x)),
  (λ c. cc, λ x. cc (s.1 x.0)),
  (λ c. cc, λ x. cc (t.1 x.0)),
  (λ _. (λ x. cc (t.1 x), λ x. cc (s.1 x), λ x. cc (e.1 x)), λ _. refl),
)

-- `hyp_pending_cause` agrees with what the guest reads: with mstatus.MIE clear it finds nothing;
-- otherwise external (11) goes before software (3) and software before timer (7), each found when it is
-- pending in mip and enabled in mie, and nothing is found exactly when none of the three is.
pub hyp_pending_cause_lem :
    (now : ℕ) (h : Hyp)
    → let found = hyp_pending_cause now h in
      (bit h.guest.shadow.mstatus 3 ≡ 0 → found ≡ none)
      × (bit h.guest.shadow.mstatus 3 ≡ 1
          → ((found ≡ some 11) ↔ Ready now h 11)
            × ((found ≡ some 3) ↔ (Ready now h 3 × ¬ Ready now h 11))
            × ((found ≡ some 7) ↔ (Ready now h 7 × ¬ Ready now h 3 × ¬ Ready now h 11))
            × ((found ≡ none) ↔ (¬ Ready now h 7 × ¬ Ready now h 3 × ¬ Ready now h 11)))
unfolding hyp_pending_cause
hyp_pending_cause_lem now h =
    (λ closed. ground (arith, has-bit 3 h.guest.shadow.mstatus), λ open_gate. opened open_gate)
  where
    opened :
        bit h.guest.shadow.mstatus 3 ≡ 1
        → let found = hyp_pending_cause now h in
          ((found ≡ some 11) ↔ Ready now h 11)
          × ((found ≡ some 3) ↔ (Ready now h 3 × ¬ Ready now h 11))
          × ((found ≡ some 7) ↔ (Ready now h 7 × ¬ Ready now h 3 × ¬ Ready now h 11))
          × ((found ≡ none) ↔ (¬ Ready now h 7 × ¬ Ready now h 3 × ¬ Ready now h 11))
    opened gate =
        let on : has h.guest.shadow.mstatus 0x8 ≡ true =
          ground (arith, has-bit 3 h.guest.shadow.mstatus) in
        rw on (
          unfold ladder in
          ladder_lem _ _ _ (external_iff now h) (software_iff now h) (timer_iff now h))

-- A wfi wakes exactly when some interrupt is pending in mip and enabled in mie; mstatus.MIE does not count.
pub hyp_wfi_wake_iff :
    (now : ℕ) (h : Hyp)
    → (hyp_wfi_wake now h ≡ true) ↔ (Ready now h 11 ⊎ Ready now h 3 ⊎ Ready now h 7)
unfolding hyp_wfi_wake
hyp_wfi_wake_iff now h = grind (arith, external_iff now h, software_iff now h, timer_iff now h)
