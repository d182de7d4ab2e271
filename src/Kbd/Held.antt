-- ===== src/Kbd/Held.antt =====
-- What holds of the keyboard between any two steps of the two cores.
use esp32_p4_linux_hyperviso.Base.{
  ℕ, ◌+◌, ◌<◌, ◌≡◌, ◌≢◌, inl, inr, true, List, [], ◌∷◌, get_or, leb, ◌==◌, u32, Bool-cases, arith,
}
use esp32_p4_linux_hyperviso.Kbd.{Kbd, hyp_kbd_pop}
use esp32_p4_linux_hyperviso.Kbd.Usage.{emit_usage}
use esp32_p4_linux_hyperviso.Kbd.Report.{
  Keyboard, among, kbd_handle_report, one_key, type_usages, hyp_kbd_selftest, wait_timed_out,
  selftest_usages,
}
use esp32_p4_linux_hyperviso.Kbd.Thread.{reported, report_keys}
use esp32_p4_linux_hyperviso.Kbd.Queue.{KbdIsValid, kbd_push_str_refines, hyp_kbd_pop_refines}
use esp32_p4_linux_hyperviso.Kbd.Keys.{emit_usage-Sends}
use esp32_p4_linux_hyperviso.Kbd.Press.{
  pressed, type_all, kbd_handle_report_lem, kbd_handle_report_clock,
}

-- The ring is in bounds, the key that repeats is down in the last report, its clock is short of the
-- delay, and stands at 0 when no key repeats.
pub record KeyboardIsValid (s : Keyboard) : Type 0 where
  pub ring : KbdIsValid s.kbd
  pub down : s.held ≢ 0 → among s.held s.prev ≡ true
  pub waited : s.held_ms < 400
  pub idle : s.held ≡ 0 → s.held_ms ≡ 0

emit_usage-KbdIsValid :
    (usage mods : ℕ) (k : Kbd) → KbdIsValid k → KbdIsValid (emit_usage usage mods k)
emit_usage-KbdIsValid usage mods k v =
    let (s, e) = emit_usage-Sends usage mods in rw (e.pushed k) (kbd_push_str_refines s k v).0

type_all-KbdIsValid :
    (mods : ℕ) (usages : List ℕ) (k : Kbd) → KbdIsValid k → KbdIsValid (type_all mods usages k)
type_all-KbdIsValid mods [] k v = v
type_all-KbdIsValid mods (usage ∷ usages) k v =
    type_all-KbdIsValid mods usages _ (emit_usage-KbdIsValid usage mods k v)

kbd_handle_report-KeyboardIsValid :
    (keys : List ℕ) (mods : ℕ) (s : Keyboard)
    → KeyboardIsValid s
    → KeyboardIsValid (kbd_handle_report keys mods s)
kbd_handle_report-KeyboardIsValid keys mods s v =
    let (k, p, _) = kbd_handle_report_lem keys mods s in
    let (down, clock, idle) = kbd_handle_report_clock keys mods s in
    record {
      ring = rw k (type_all-KbdIsValid mods (pressed s.prev keys) s.kbd v.ring);
      down = λ ne. rw p (down ne);
      waited = ground (arith, clock, v.waited);
      idle = idle;
    }

wait_timed_out-KeyboardIsValid :
    (s : Keyboard) → KeyboardIsValid s → KeyboardIsValid (wait_timed_out s)
unfolding wait_timed_out
wait_timed_out-KeyboardIsValid s v = elim (Bool-cases (s.held == 0)) [
  | inl e ↦ rw (wait_timed_out, e) v
  | inr e ↦
      let ne : s.held ≢ 0 = λ z. ground (arith, e, z) in
      let early : u32 (s.held_ms + 35) < 435 = omega (arith, v.waited) in
      elim (Bool-cases (leb 400 (u32 (s.held_ms + 35)))) [
        | inl f ↦
            rw (wait_timed_out, e, f)
              (record {
                ring = emit_usage-KbdIsValid s.held s.held_mods s.kbd v.ring;
                down = v.down;
                waited = omega arith;
                idle = λ z. absurd (ne z);
              })
        | inr f ↦
            rw (wait_timed_out, e, f)
              (record {
                ring = v.ring;
                down = v.down;
                waited = ground (arith, f);
                idle = λ z. absurd (ne z);
              })
      ]
]

-- The states that the reports and waits of core 0 and the bytes that the other core takes may lead to,
-- in any order. The self-test is not among the steps: it works on the same key tracking as the reports.
pub data Typing (start : Keyboard) : Keyboard → Type 0 where
  begun : Typing start start
  report : (bytes : List ℕ) (s : Keyboard) → Typing start s → Typing start (reported bytes s)
  wait : (s : Keyboard) → Typing start s → Typing start (wait_timed_out s)
  take : (s : Keyboard) → Typing start s → Typing start (record s { kbd = (hyp_kbd_pop s.kbd).1 })

type_usages-KeyboardIsValid :
    (usages : List ℕ) (s : Keyboard) → KeyboardIsValid s → KeyboardIsValid (type_usages usages s)
unfolding type_usages
type_usages-KeyboardIsValid [] s v = v
type_usages-KeyboardIsValid (usage ∷ usages) s v = type_usages-KeyboardIsValid usages _ (
    kbd_handle_report-KeyboardIsValid (one_key 0) 0 _
      (kbd_handle_report-KeyboardIsValid (one_key usage) 0 s v))

-- The counter of reports is no part of it.
reported-KeyboardIsValid :
    (bytes : List ℕ) (s : Keyboard) → KeyboardIsValid s → KeyboardIsValid (reported bytes s)
unfolding reported
reported-KeyboardIsValid bytes s v =
    let w = kbd_handle_report-KeyboardIsValid (report_keys bytes) (get_or bytes 0 0) s v in
    record {
      ring = record {
        storage = w.ring.storage;
        head_in = w.ring.head_in;
        tail_in = w.ring.tail_in;
      };
      down = w.down;
      waited = w.waited;
      idle = w.idle;
    }

-- The self-test, as long as no report comes in while it runs.
hyp_kbd_selftest-KeyboardIsValid :
    (s : Keyboard) → KeyboardIsValid s → KeyboardIsValid (hyp_kbd_selftest s)
unfolding hyp_kbd_selftest
hyp_kbd_selftest-KeyboardIsValid s v = type_usages-KeyboardIsValid selftest_usages s v

-- As long as the self-test is not run, whatever reports come, whenever the waits for them time out and
-- whenever between these the other core takes a byte: the ring stays in bounds, a key repeats only while the
-- last report has it down, and its clock stays short of the repeat delay, so it never wraps.
pub Typing-KeyboardIsValid :
    (start s : Keyboard) → KeyboardIsValid start → Typing start s → KeyboardIsValid s
Typing-KeyboardIsValid start s v begun = v
Typing-KeyboardIsValid start s v (report bytes s' t) =
    reported-KeyboardIsValid bytes s' (Typing-KeyboardIsValid start s' v t)
Typing-KeyboardIsValid start s v (wait s' t) =
    wait_timed_out-KeyboardIsValid s' (Typing-KeyboardIsValid start s' v t)
Typing-KeyboardIsValid start s v (take s' t) =
    let w = Typing-KeyboardIsValid start s' v t in
    record {
      ring = (hyp_kbd_pop_refines s'.kbd w.ring).0;
      down = w.down;
      waited = w.waited;
      idle = w.idle;
    }
