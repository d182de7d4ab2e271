-- ===== src/Uart/Queue.antt =====
-- The receive ring is a queue of at most 511 bytes.
use esp32_p4_linux_hyperviso.Base.{
  ℕ, suc, ◌+◌, ◌-◌, ◌%◌, ◌≤◌, ◌<◌, ◌≡◌, ◌≢◌, refl, ap, ◌∙◌, List, [], ◌∷◌, ◌++◌, get_or, set,
  length, length-set, u32, arith,
}
use esp32_p4_linux_hyperviso.Base.Cyclic.{slots, length-slots, slots-set, slots-unroll}
use native.Mathlib.Decide.{dec_lt, ℕ_discrete}
use esp32_p4_linux_hyperviso.Uart.{
  Uart, uart_rx_ring_size, uart_rx_empty, uart_rx_push, uart_rx_pop,
}

pub record RingIsValid (u : Uart) : Type 0 where
  pub storage : length u.ring ≡ uart_rx_ring_size
  pub head_in : u.head < uart_rx_ring_size
  pub tail_in : u.tail < uart_rx_ring_size

-- How many bytes wait between the tail and the head.
abbrev pub waiting : Uart → ℕ
waiting u = (u.head + uart_rx_ring_size - u.tail) % uart_rx_ring_size

-- What the guest has yet to read, oldest first.
abbrev pub unread : Uart → List ℕ
unread u = slots uart_rx_ring_size u.ring u.tail (waiting u)

push_full :
    (u : Uart) (c : ℕ)
    → RingIsValid u
    → waiting u ≡ 511
    → uart_rx_push u c ≡ record u { overruns = u32 (u.overruns + 1) }
unfolding uart_rx_push
push_full u c v e = ground arith

push_room :
    (u : Uart) (c : ℕ)
    → RingIsValid u
    → waiting u < 511
    → uart_rx_push u c ≡ record u { ring = set u.ring u.head c; head = (u.head + 1) % 512 }
unfolding uart_rx_push
push_room u c v e = ground arith

-- `uart_rx_push` keeps the ring valid. With fewer than 511 bytes waiting it appends the byte to the
-- unread ones and counts no overrun; with 511 it changes nothing but the overrun count.
pub uart_rx_push_refines :
    (u : Uart) (c : ℕ)
    → RingIsValid u
    → let u' = uart_rx_push u c in
      RingIsValid u'
      × (length (unread u) < 511 → (unread u' ≡ unread u ++ (c ∷ [])) × (u'.overruns ≡ u.overruns))
      × (511 ≤ length (unread u) → u' ≡ record u { overruns = u32 (u.overruns + 1) })
uart_rx_push_refines u c v = elim (dec_lt (waiting u) 511) [
  | yes room ↦ rw (push_room u c v room) (
    record {
      storage = length-set u.ring u.head c ∙ v.storage;
      head_in = omega arith;
      tail_in = v.tail_in;
    },
    λ _. (appended room, refl),
    λ h. absurd (omega (arith, length-slots uart_rx_ring_size u.ring u.tail (waiting u))),
  )
  | no full ↦ rw (push_full u c v (omega arith)) (
    record { storage = v.storage; head_in = v.head_in; tail_in = v.tail_in },
    λ h. absurd (omega (arith, length-slots uart_rx_ring_size u.ring u.tail (waiting u))),
    λ _. refl,
  )
]
  where
    appended :
        waiting u < 511
        → slots uart_rx_ring_size
            (set u.ring u.head c)
            u.tail
            (((u.head + 1) % 512 + 512 - u.tail) % 512)
          ≡ unread u ++ (c ∷ [])
    appended room =
        let one_more : ((u.head + 1) % 512 + 512 - u.tail) % 512 ≡ suc (waiting u) =
          omega (arith, v.head_in, v.tail_in) in
        rw one_more (
          slots-set uart_rx_ring_size u.ring c (waiting u) u.tail u.head v.storage v.tail_in
            (omega arith) v.head_in (ground (arith, v.head_in, v.tail_in)))

pop_empty : (u : Uart) → u.head ≡ u.tail → uart_rx_pop u ≡ (0, u)
unfolding uart_rx_pop uart_rx_empty
pop_empty u e = ground arith

pop_some :
    (u : Uart)
    → RingIsValid u
    → u.head ≢ u.tail
    → uart_rx_pop u ≡ (get_or u.ring u.tail 0, record u { tail = (u.tail + 1) % 512 })
unfolding uart_rx_pop uart_rx_empty
pop_some u v ne = ground arith

-- `uart_rx_pop` keeps the ring valid, takes the oldest unread byte, and on an empty ring answers 0
-- and changes nothing.
pub uart_rx_pop_refines :
    (u : Uart)
    → RingIsValid u
    → let (c, u') = uart_rx_pop u in
      RingIsValid u'
      × (unread u ≡ [] → (c ≡ 0) × (u' ≡ u))
      × (unread u ≢ [] → unread u ≡ c ∷ unread u')
uart_rx_pop_refines u v = elim (ℕ_discrete u.head u.tail) [
  | yes e ↦ rw (pop_empty u e) (v, λ _. (refl, refl), λ h. absurd (h (none_waiting e)))
  | no ne ↦ rw (pop_some u v ne) (
    record { storage = v.storage; head_in = v.head_in; tail_in = omega arith },
    λ h. absurd (
        omega (
          arith,
          length-slots uart_rx_ring_size u.ring u.tail (waiting u),
          ap length h,
          v.head_in,
          v.tail_in,
        )),
    λ _. unrolled ne,
  )
]
  where
    none_waiting : u.head ≡ u.tail → unread u ≡ []
    none_waiting e = let z : waiting u ≡ 0 = omega (arith, v.tail_in) in rw z

    unrolled :
        u.head ≢ u.tail
        → unread u
          ≡ get_or u.ring u.tail 0
            ∷ slots uart_rx_ring_size u.ring
                ((u.tail + 1) % 512)
                ((u.head + 512 - (u.tail + 1) % 512) % 512)
    unrolled ne =
        let one_less : (u.head + 512 - (u.tail + 1) % 512) % 512 ≡ waiting u - 1 =
          omega (arith, v.head_in, v.tail_in) in
        rw one_less (
          slots-unroll uart_rx_ring_size u.ring u.tail (waiting u)
            (omega (arith, v.head_in, v.tail_in)))
