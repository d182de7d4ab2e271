-- ===== src/Kbd/Report.antt =====
-- main/hyp_kbd.c: the boot report, a state of the keys, and what it types.
use esp32_p4_linux_hyperviso.Base.{
  ℕ, ◌+◌, ◌-◌, Bool, true, false, not, ◌&&◌, ◌||◌, List, [], ◌∷◌, leb, ◌==◌, u32, if◌then◌else◌,
}
use esp32_p4_linux_hyperviso.Kbd.{Kbd}
use esp32_p4_linux_hyperviso.Kbd.Usage.{emit_usage}

-- The ring and the statics of the press tracking.
pub record Keyboard : Type 0 where
  pub kbd : Kbd
  pub prev : List ℕ
  pub held : ℕ
  pub held_mods : ℕ
  pub held_ms : ℕ

-- The search that sets `was_down` and `still_held`.
unfoldable pub among : ℕ → List ℕ → Bool
among usage [] = false
among usage (key ∷ keys) = if key == usage then true else among usage keys

-- One key of the report; `prev` does not change before the end.
unfoldable pub press : List ℕ → ℕ → ℕ → Keyboard → Keyboard
press prev mods usage s =
    if usage == 0 || usage == 0x01
    then s
    else if among usage prev
    then s
    else record s { kbd = emit_usage usage mods s.kbd; held = usage; held_mods = mods; held_ms = 0 }

unfoldable pub press_all : List ℕ → ℕ → List ℕ → Keyboard → Keyboard
press_all prev mods [] s = s
press_all prev mods (usage ∷ keys) s = press_all prev mods keys (press prev mods usage s)

-- The repeat stops when its key is up.
unfoldable pub release : List ℕ → Keyboard → Keyboard
release keys s =
    if not (s.held == 0) && among s.held keys then s else record s { held = 0; held_ms = 0 }

unfoldable pub kbd_handle_report : List ℕ → ℕ → Keyboard → Keyboard
kbd_handle_report keys mods s = record (release keys (press_all s.prev mods keys s)) { prev = keys }

abbrev pub selftest_usages : List ℕ
selftest_usages = 0x0e ∷ 0x05 ∷ 0x07 ∷ 0x2d ∷ 0x12 ∷ 0x0e ∷ 0x28 ∷ []

abbrev pub one_key : ℕ → List ℕ
one_key usage = usage ∷ 0 ∷ 0 ∷ 0 ∷ 0 ∷ 0 ∷ []

-- Each usage pressed, then released.
unfoldable pub type_usages : List ℕ → Keyboard → Keyboard
type_usages [] s = s
type_usages (usage ∷ usages) s =
    type_usages usages (kbd_handle_report (one_key 0) 0 (kbd_handle_report (one_key usage) 0 s))

-- The self-test taken alone: what it leaves if no report of core 0 comes in while it types. The code has
-- no lock on the tracking state that the two share.
unfoldable pub hyp_kbd_selftest : Keyboard → Keyboard
hyp_kbd_selftest s = type_usages selftest_usages s

abbrev pub repeat_delay_ms : ℕ
repeat_delay_ms = 400

abbrev pub repeat_period_ms : ℕ
repeat_period_ms = 35

abbrev pub report_wait_ms : ℕ
report_wait_ms = 35

-- A wait for the report that timed out.
unfoldable pub wait_timed_out : Keyboard → Keyboard
wait_timed_out s =
    if s.held == 0
    then s
    else (let waited = u32 (s.held_ms + report_wait_ms) in
        if leb repeat_delay_ms waited
        then record s {
          kbd = emit_usage s.held s.held_mods s.kbd;
          held_ms = waited - repeat_period_ms;
        }
        else record s { held_ms = waited })
