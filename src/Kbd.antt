-- ===== src/Kbd.antt =====
-- main/hyp_kbd.c: the ring that core 0's keyboard thread fills and core 1 drains.
--
-- The fences order the stores of the two cores; here every operation is one step.
pub mod Usage
pub mod Report
pub mod Thread
pub mod Queue
pub mod Keys
pub mod Press
pub mod Repeat
pub mod Urb
pub mod Held
use esp32_p4_linux_hyperviso.Base.{
  ℕ, ◌+◌, Option, none, some, List, [], ◌∷◌, get_or, set, bit_and, ◌==◌, u32, if◌then◌else◌,
}

abbrev pub kbd_ring_size : ℕ
kbd_ring_size = 256

pub record Kbd : Type 0 where
  pub head : ℕ
  pub tail : ℕ
  pub overruns : ℕ
  pub devices : ℕ
  pub reports : ℕ
  pub ring : List ℕ

unfoldable pub kbd_push : Kbd → ℕ → Kbd
kbd_push k c =
    let next = bit_and (u32 (k.head + 1)) 0xff in
    if next == k.tail
    then record k { overruns = u32 (k.overruns + 1) }
    else record k { ring = set k.ring k.head c; head = next }

-- A string is the list of its bytes.
unfoldable pub kbd_push_str : Kbd → List ℕ → Kbd
kbd_push_str k [] = k
kbd_push_str k (c ∷ s) = kbd_push_str (kbd_push k c) s

-- The next byte, `none` where the C function answers false.
unfoldable pub hyp_kbd_pop : Kbd → Option ℕ × Kbd
hyp_kbd_pop k =
    if k.tail == k.head
    then (none, k)
    else (some (get_or k.ring k.tail 0), record k { tail = bit_and (u32 (k.tail + 1)) 0xff })
