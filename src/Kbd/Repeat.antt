-- ===== src/Kbd/Repeat.antt =====
-- The keyboard over time: the auto-repeat's clock, and the self-test's typing.
use esp32_p4_linux_hyperviso.Base.{
  ℕ, zero, suc, ◌+◌, ◌-◌, ◌*◌, ◌≤◌, ◌<◌, ◌≡◌, ◌≢◌, refl, sym, ap, ◌∙◌, Bool, true, false, ◌&&◌,
  List, [], ◌∷◌, leb, arith,
}
use native.Mathlib.Decide.{dec_lt}
use esp32_p4_linux_hyperviso.Kbd.{Kbd, kbd_push_str}
use esp32_p4_linux_hyperviso.Kbd.Usage.{emit_usage, usage_escape, usage_plain, push_character}
use esp32_p4_linux_hyperviso.Kbd.Report.{
  Keyboard, among, kbd_handle_report, one_key, type_usages, hyp_kbd_selftest, wait_timed_out,
}
use esp32_p4_linux_hyperviso.Kbd.Press.{pressed, type_all, kbd_handle_report_lem}

-- Waits that time out, one after the other.
abbrev pub waits : ℕ → Keyboard → Keyboard
waits zero s = s
waits (suc n) s = waits n (wait_timed_out s)

-- A key sent a number of times.
abbrev pub repeats : ℕ → ℕ → ℕ → Kbd → Kbd
repeats zero usage mods k = k
repeats (suc n) usage mods k = repeats n usage mods (emit_usage usage mods k)

wait_early :
    (s : Keyboard)
    → s.held ≢ 0
    → s.held_ms < 365
    → wait_timed_out s ≡ record s { held_ms = s.held_ms + 35 }
unfolding wait_timed_out
wait_early s h l = ground arith

wait_due :
    (s : Keyboard)
    → s.held ≢ 0
    → s.held_ms ≡ 385
    → wait_timed_out s ≡ record s { kbd = emit_usage s.held s.held_mods s.kbd; held_ms = 385 }
unfolding wait_timed_out
wait_due s h e = ground arith

waits_from :
    (n i : ℕ) (s : Keyboard)
    → s.held ≢ 0
    → i ≤ 11
    → s.held_ms ≡ 35 * i
    → (waits n s).kbd ≡ repeats (n - (11 - i)) s.held s.held_mods s.kbd
waits_from zero i s h l e = let z : 0 - (11 - i) ≡ 0 = omega arith in rw z refl
waits_from (suc n) i s h l e =
    let after : Keyboard → Kbd = λ t. (waits n t).kbd in
    let times : ℕ → Kbd = λ m. repeats m s.held s.held_mods s.kbd in
    elim (dec_lt i 11) [
      | yes early ↦
          let m : suc n - (11 - i) ≡ n - (11 - (i + 1)) = omega arith in
          ap after (wait_early s h (omega arith))
          ∙ waits_from n (i + 1) (record s { held_ms = s.held_ms + 35 }) h (omega arith)
              (omega arith)
          ∙ ap times (sym m)
      | no due ↦
          let m : suc n - (11 - i) ≡ suc (n - (11 - 11)) = omega arith in
          ap after (wait_due s h (omega arith))
          ∙ waits_from n 11 (record s { kbd = emit_usage s.held s.held_mods s.kbd; held_ms = 385 })
              h (omega arith) refl
          ∙ ap times (sym m)
    ]

-- While a key stays down and no report comes, nothing is sent in the first eleven waits, and the key
-- once in each wait after them.
pub waits_lem :
    (n : ℕ) (s : Keyboard)
    → s.held ≢ 0
    → s.held_ms ≡ 0
    → (waits n s).kbd ≡ repeats (n - 11) s.held s.held_mods s.kbd
waits_lem n s h e = waits_from n 0 s h (omega arith) (omega arith)

type_one :
    (usage : ℕ) (s : Keyboard)
    → 2 ≤ usage
    → among usage s.prev ≡ false
    → let s' = kbd_handle_report (one_key 0) 0 (kbd_handle_report (one_key usage) 0 s) in
      (s'.kbd ≡ emit_usage usage 0 s.kbd) × (s'.prev ≡ one_key 0) × (s'.held ≡ 0)
type_one usage s h a =
    let s1 = kbd_handle_report (one_key usage) 0 s in
    let (k1, p1, h1) = kbd_handle_report_lem (one_key usage) 0 s in
    let (k2, p2, h2) = kbd_handle_report_lem (one_key 0) 0 s1 in
    let news : pressed s.prev (one_key usage) ≡ usage ∷ [] = ground (arith, a) in
    let down : among 0 (one_key 0) ≡ true = unfold among in refl in
    (k2 ∙ k1 ∙ rw news refl, p2, h2 ∙ (unfold among in ground arith))

-- The usages that the self-test presses are keys.
abbrev keys_only : List ℕ → Bool
keys_only [] = true
keys_only (usage ∷ usages) = leb 2 usage && keys_only usages

type_usages_lem :
    (usage : ℕ) (usages : List ℕ) (s : Keyboard)
    → keys_only (usage ∷ usages) ≡ true
    → among usage s.prev ≡ false
    → let s' = type_usages (usage ∷ usages) s in
      (s'.kbd ≡ type_all 0 (usage ∷ usages) s.kbd) × (s'.prev ≡ one_key 0) × (s'.held ≡ 0)
unfolding type_usages
type_usages_lem usage [] s h a = type_one usage s (ground (arith, h)) a
type_usages_lem usage (next ∷ usages) s h a =
    let s' = kbd_handle_report (one_key 0) 0 (kbd_handle_report (one_key usage) 0 s) in
    let (k, p, _) = type_one usage s (ground (arith, h)) a in
    let up : among next s'.prev ≡ false = unfold among in rw p (ground (arith, h)) in
    let (k', p', h') = type_usages_lem next usages s' (ground (arith, h)) up in
    (k' ∙ ap (type_all 0 (next ∷ usages)) k, p', h')

-- The self-test, run while the key K is not down, types kbd-ok and a return, whatever else is held,
-- and leaves no key down and none repeating.
pub hyp_kbd_selftest_lem :
    (s : Keyboard)
    → among 0x0e s.prev ≡ false
    → let s' = hyp_kbd_selftest s in
      (s'.kbd ≡ kbd_push_str s.kbd (0x6b ∷ 0x62 ∷ 0x64 ∷ 0x2d ∷ 0x6f ∷ 0x6b ∷ 0x0d ∷ []))
      × (s'.prev ≡ one_key 0)
      × (s'.held ≡ 0)
unfolding hyp_kbd_selftest emit_usage usage_escape usage_plain push_character kbd_push_str
hyp_kbd_selftest_lem s a =
    let (k, p, h) = type_usages_lem 0x0e (0x05 ∷ 0x07 ∷ 0x2d ∷ 0x12 ∷ 0x0e ∷ 0x28 ∷ []) s refl a in
    (k, p, h)
