-- ===== src/Kbd/Queue.antt =====
-- The keyboard's ring is a queue of at most 255 bytes.
use esp32_p4_linux_hyperviso.Base.{
  ℕ, suc, ◌+◌, ◌-◌, ◌%◌, ◌≤◌, ◌<◌, ◌≡◌, ◌≢◌, refl, sym, ap, ◌∙◌, none, some, List, [], ◌∷◌, ◌++◌,
  get_or, set, length, length-set, length-append, bit_and, u32, arith,
}
use mathlib.Core.List.{append-nil, append_assoc, head-eq_of_cons-eq, tail-eq_of_cons-eq}
use esp32_p4_linux_hyperviso.Base.Bits.{bit_and_mask}
use esp32_p4_linux_hyperviso.Base.Cyclic.{slots, length-slots, slots-set, slots-unroll}
use native.Mathlib.Decide.{dec_lt, ℕ_discrete}
use esp32_p4_linux_hyperviso.Kbd.{Kbd, kbd_ring_size, kbd_push, kbd_push_str, hyp_kbd_pop}

pub record KbdIsValid (k : Kbd) : Type 0 where
  pub storage : length k.ring ≡ kbd_ring_size
  pub head_in : k.head < kbd_ring_size
  pub tail_in : k.tail < kbd_ring_size

abbrev pub typed : Kbd → ℕ
typed k = (k.head + kbd_ring_size - k.tail) % kbd_ring_size

-- The bytes typed and not yet taken, oldest first.
abbrev pub untaken : Kbd → List ℕ
untaken k = slots kbd_ring_size k.ring k.tail (typed k)

next_index : (i : ℕ) → i < 256 → bit_and (u32 (i + 1)) 0xff ≡ (i + 1) % 256
next_index i h = bit_and_mask 8 (u32 (i + 1)) ∙ omega arith

push_full :
    (k : Kbd) (c : ℕ)
    → KbdIsValid k
    → typed k ≡ 255
    → kbd_push k c ≡ record k { overruns = u32 (k.overruns + 1) }
unfolding kbd_push
push_full k c v e = ground (arith, next_index k.head v.head_in, v.head_in, v.tail_in)

push_room :
    (k : Kbd) (c : ℕ)
    → KbdIsValid k
    → typed k < 255
    → kbd_push k c ≡ record k { ring = set k.ring k.head c; head = (k.head + 1) % 256 }
unfolding kbd_push
push_room k c v l =
    let next = next_index k.head v.head_in in
    rw (kbd_push, next) (ground (arith, v.head_in, v.tail_in))

-- A push keeps the ring valid. With fewer than 255 bytes in it it appends the byte and counts no
-- overrun; with 255 it changes nothing but the overrun count.
pub kbd_push_refines :
    (k : Kbd) (c : ℕ)
    → KbdIsValid k
    → let k' = kbd_push k c in
      KbdIsValid k'
      × (length (untaken k) < 255
          → (untaken k' ≡ untaken k ++ (c ∷ [])) × (k'.overruns ≡ k.overruns))
      × (255 ≤ length (untaken k) → k' ≡ record k { overruns = u32 (k.overruns + 1) })
kbd_push_refines k c v = elim (dec_lt (typed k) 255) [
  | yes room ↦ rw (push_room k c v room) (
    record {
      storage = length-set k.ring k.head c ∙ v.storage;
      head_in = omega arith;
      tail_in = v.tail_in;
    },
    λ _. (appended room, refl),
    λ h. absurd (omega (arith, length-slots 256 k.ring k.tail (typed k))),
  )
  | no full ↦ rw (push_full k c v (omega arith)) (
    record { storage = v.storage; head_in = v.head_in; tail_in = v.tail_in },
    λ h. absurd (omega (arith, length-slots 256 k.ring k.tail (typed k))),
    λ _. refl,
  )
]
  where
    appended :
        typed k < 255
        → slots 256 (set k.ring k.head c) k.tail (((k.head + 1) % 256 + 256 - k.tail) % 256)
          ≡ untaken k ++ (c ∷ [])
    appended room =
        let one_more : ((k.head + 1) % 256 + 256 - k.tail) % 256 ≡ suc (typed k) =
          omega (arith, v.head_in, v.tail_in) in
        rw one_more (
          slots-set 256 k.ring c (typed k) k.tail k.head v.storage v.tail_in (omega arith) v.head_in
            (ground (arith, v.head_in, v.tail_in)))

-- A string that fits behind the bytes waiting is appended whole, and no overrun is counted; the ring
-- stays valid whether it fits or not.
pub kbd_push_str_refines :
    (s : List ℕ) (k : Kbd)
    → KbdIsValid k
    → let k' = kbd_push_str k s in
      KbdIsValid k'
      × (length (untaken k) + length s ≤ 255
          → (untaken k' ≡ untaken k ++ s) × (k'.overruns ≡ k.overruns))
unfolding kbd_push_str
kbd_push_str_refines [] k v = (v, λ h. (sym (append-nil (untaken k)), refl))
kbd_push_str_refines (c ∷ s) k v =
    let (v1, room, full) = kbd_push_refines k c v in
    let (v2, rest) = kbd_push_str_refines s (kbd_push k c) v1 in
    (
      v2,
      λ h.
          let (u1, o1) = room (omega arith) in
          let (u2, o2) = rest (omega (arith, ap length u1, length-append (untaken k) (c ∷ []))) in
          (u2 ∙ ap (λ (m : List ℕ). m ++ s) u1 ∙ append_assoc (untaken k) (c ∷ []) s, o2 ∙ o1),
    )

pop_empty : (k : Kbd) → k.tail ≡ k.head → hyp_kbd_pop k ≡ (none, k)
unfolding hyp_kbd_pop
pop_empty k e = ground arith

pop_some :
    (k : Kbd)
    → KbdIsValid k
    → k.tail ≢ k.head
    → hyp_kbd_pop k ≡ (some (get_or k.ring k.tail 0), record k { tail = (k.tail + 1) % 256 })
unfolding hyp_kbd_pop
pop_some k v ne = let next = next_index k.tail v.tail_in in rw (hyp_kbd_pop, next) (ground arith)

-- The next byte: `none` and nothing changed exactly on an empty ring; otherwise the oldest byte, which
-- leaves the ring.
pub hyp_kbd_pop_refines :
    (k : Kbd)
    → KbdIsValid k
    → let (c, k') = hyp_kbd_pop k in
      KbdIsValid k'
      × (untaken k ≡ [] → (c ≡ none) × (k' ≡ k))
      × ((b : ℕ) (bs : List ℕ) → untaken k ≡ b ∷ bs → (c ≡ some b) × (untaken k' ≡ bs))
hyp_kbd_pop_refines k v = elim (ℕ_discrete k.tail k.head) [
  | yes e ↦
      let none_typed : typed k ≡ 0 = omega (arith, v.tail_in) in
      rw (pop_empty k e) (
        v,
        λ _. (refl, refl),
        λ b bs h. absurd (omega (arith, ap length h, length-slots 256 k.ring k.tail (typed k))),
      )
  | no ne ↦ rw (pop_some k v ne) (
    record { storage = v.storage; head_in = v.head_in; tail_in = omega arith },
    λ h. absurd (
        omega (arith, length-slots 256 k.ring k.tail (typed k), ap length h, v.head_in, v.tail_in)),
    λ b bs h.
        let u = sym (unrolled ne) ∙ h in (ap some (head-eq_of_cons-eq u), tail-eq_of_cons-eq u),
  )
]
  where
    unrolled :
        k.tail ≢ k.head
        → untaken k
          ≡ get_or k.ring k.tail 0
            ∷ slots 256 k.ring ((k.tail + 1) % 256) ((k.head + 256 - (k.tail + 1) % 256) % 256)
    unrolled ne =
        let one_less : (k.head + 256 - (k.tail + 1) % 256) % 256 ≡ typed k - 1 =
          omega (arith, v.head_in, v.tail_in) in
        rw one_less (slots-unroll 256 k.ring k.tail (typed k) (omega (arith, v.head_in, v.tail_in)))
