-- ===== src/Tests/Keys.antt =====
-- A keyboard at rest, and the theorems on it.
use esp32_p4_linux_hyperviso.Base.{
  ℕ, ◌+◌, ◌≤◌, ◌≡◌, refl, true, false, some, List, [], ◌∷◌, ◌++◌, length, replicate, arith,
  if◌then◌else◌,
}
use esp32_p4_linux_hyperviso.Kbd.{Kbd, kbd_push_str}
use esp32_p4_linux_hyperviso.Kbd.Report.{
  Keyboard, among, one_key, kbd_handle_report, wait_timed_out,
}
use esp32_p4_linux_hyperviso.Kbd.Thread.{
  Turn, fine, gone, failed, reported, hyp_kbd_thread, thread_start,
}
use esp32_p4_linux_hyperviso.Kbd.Queue.{KbdIsValid, untaken, kbd_push_str_refines}
use esp32_p4_linux_hyperviso.Kbd.Press.{pressed, type_all, last_or, kbd_handle_report_lem}
use esp32_p4_linux_hyperviso.Kbd.Urb.{urb_armed, blocked, hyp_kbd_thread-urb}
use esp32_p4_linux_hyperviso.Kbd.Held.{KeyboardIsValid, begun, report, wait, Typing-KeyboardIsValid}

abbrev ring : Kbd
ring = record {
  head = 254;
  tail = 253;
  overruns = 0;
  devices = 1;
  reports = 0;
  ring = replicate 256 65;
}

abbrev at_rest : Keyboard
at_rest = record { kbd = ring; prev = one_key 0; held = 0; held_mods = 0; held_ms = 0 }

-- The key A is down.
abbrev pressing : Keyboard
pressing = record { kbd = ring; prev = one_key 4; held = 4; held_mods = 0; held_ms = 0 }

ring-KbdIsValid : KbdIsValid ring
ring-KbdIsValid = record { storage = refl; head_in = omega arith; tail_in = omega arith }

at_rest-KeyboardIsValid : KeyboardIsValid at_rest
at_rest-KeyboardIsValid = record {
  ring = ring-KbdIsValid;
  down = λ ne. absurd (ne refl);
  waited = omega arith;
  idle = λ e. refl;
}

abbrev bytes : List ℕ
bytes = 0 ∷ 0 ∷ 4 ∷ 0 ∷ 0 ∷ 0 ∷ 0 ∷ 0 ∷ []

Typing-KeyboardIsValid_example : KeyboardIsValid (wait_timed_out (reported bytes at_rest))
Typing-KeyboardIsValid_example =
    Typing-KeyboardIsValid at_rest (wait_timed_out (reported bytes at_rest)) at_rest-KeyboardIsValid
      (wait (reported bytes at_rest) (report bytes at_rest begun))

kbd_handle_report_lem_example :
    let s' = kbd_handle_report (one_key 5) 0 pressing in
    (s'.kbd ≡ type_all 0 (pressed pressing.prev (one_key 5)) pressing.kbd)
    × (s'.prev ≡ one_key 5)
    × (s'.held
        ≡ last_or
            (pressed pressing.prev (one_key 5))
            (if among pressing.held (one_key 5) then pressing.held else 0))
kbd_handle_report_lem_example = kbd_handle_report_lem (one_key 5) 0 pressing

-- What the up arrow sends.
abbrev up_arrow : List ℕ
up_arrow = 27 ∷ 91 ∷ 65 ∷ []

kbd_push_str_refines_example :
    let k' = kbd_push_str ring up_arrow in
    KbdIsValid k'
    × (length (untaken ring) + length up_arrow ≤ 255
        → (untaken k' ≡ untaken ring ++ up_arrow) × (k'.overruns ≡ ring.overruns))
kbd_push_str_refines_example = kbd_push_str_refines up_arrow ring ring-KbdIsValid

-- A submission that fails, one that is accepted and times out, its completion, and the unplugging.
abbrev some_turns : List Turn
some_turns =
    record { submit = failed; given = false; errorcode = fine; actual_length = 0; report = [] }
    ∷ record { submit = fine; given = false; errorcode = fine; actual_length = 0; report = [] }
    ∷ record { submit = fine; given = true; errorcode = fine; actual_length = 8; report = bytes }
    ∷ record { submit = fine; given = true; errorcode = gone; actual_length = 0; report = [] }
    ∷ []

hyp_kbd_thread-urb_example :
    let (ended, t) = hyp_kbd_thread some_turns (thread_start at_rest) in
    (ended ≡ true → urb_armed t.calls ≡ some false)
    × (ended ≡ false → (urb_armed t.calls ≡ some t.pending) × (length some_turns ≤ blocked t.calls))
hyp_kbd_thread-urb_example = hyp_kbd_thread-urb some_turns at_rest
