-- ===== src/Kbd/Press.antt =====
-- The press diff: what a report types, and which key may repeat.
use esp32_p4_linux_hyperviso.Base.{
  ℕ, ◌≡◌, ◌≢◌, refl, ◌∙◌, ◌⊎◌, inl, inr, Bool, true, false, not, ◌&&◌, ◌||◌, List, [], ◌∷◌, ◌==◌,
  if◌then◌else◌, Bool-cases, arith, ==_refl,
}
use esp32_p4_linux_hyperviso.Kbd.{Kbd}
use esp32_p4_linux_hyperviso.Kbd.Usage.{emit_usage}
use esp32_p4_linux_hyperviso.Kbd.Report.{
  Keyboard, among, press, press_all, release, kbd_handle_report,
}

-- A usage that is a key, and was not down before.
abbrev pub is_new : List ℕ → ℕ → Bool
is_new prev usage = not (usage == 0 || usage == 0x01) && not (among usage prev)

-- The new keys of a report, in its order.
abbrev pub pressed : List ℕ → List ℕ → List ℕ
pressed prev [] = []
pressed prev (usage ∷ keys) =
    if is_new prev usage then usage ∷ pressed prev keys else pressed prev keys

abbrev pub type_all : ℕ → List ℕ → Kbd → Kbd
type_all mods [] k = k
type_all mods (usage ∷ usages) k = type_all mods usages (emit_usage usage mods k)

-- The key that may repeat after new presses: the last of them.
abbrev pub last_or : List ℕ → ℕ → ℕ
last_or [] held = held
last_or (usage ∷ usages) held = last_or usages usage

press_new :
    (prev : List ℕ) (mods usage : ℕ) (s : Keyboard)
    → is_new prev usage ≡ true
    → press prev mods usage s
      ≡ record s { kbd = emit_usage usage mods s.kbd; held = usage; held_mods = mods; held_ms = 0 }
unfolding press
press_new prev mods usage s e = ground arith

press_old :
    (prev : List ℕ) (mods usage : ℕ) (s : Keyboard)
    → is_new prev usage ≡ false
    → press prev mods usage s ≡ s
unfolding press
press_old prev mods usage s e = ground arith

-- The loop over a report's keys.
record Pressed (prev : List ℕ) (mods : ℕ) (keys : List ℕ) (s s' : Keyboard) : Type 0 where
  kbd : s'.kbd ≡ type_all mods (pressed prev keys) s.kbd
  held : s'.held ≡ last_or (pressed prev keys) s.held
  held_ms : (s'.held_ms ≡ 0) ⊎ (s'.held_ms ≡ s.held_ms)

press_all-Pressed :
    (prev : List ℕ) (mods : ℕ) (keys : List ℕ) (s : Keyboard)
    → Pressed prev mods keys s (press_all prev mods keys s)
unfolding press_all
press_all-Pressed prev mods [] s = record { kbd = refl; held = refl; held_ms = inr refl }
press_all-Pressed prev mods (usage ∷ keys) s = elim (Bool-cases (is_new prev usage)) [
  | inl e ↦
      let s' = record s {
        kbd = emit_usage usage mods s.kbd;
        held = usage;
        held_mods = mods;
        held_ms = 0;
      } in
      let r = press_all-Pressed prev mods keys s' in
      rw (press_new prev mods usage s e)
        (record { kbd = rw e r.kbd; held = rw e r.held; held_ms = ground (arith, r.held_ms) })
  | inr e ↦
      let r = press_all-Pressed prev mods keys s in
      rw (press_old prev mods usage s e)
        (record { kbd = rw e r.kbd; held = rw e r.held; held_ms = r.held_ms })
]

among_later : (u usage : ℕ) (keys : List ℕ) → among u keys ≡ true → among u (usage ∷ keys) ≡ true
unfolding among
among_later u usage keys h = ground arith

-- The last new key, when there is one, is a key of the report.
last_pressed :
    (prev keys : List ℕ) (d : ℕ)
    → let l = last_or (pressed prev keys) d in
      (pressed prev keys ≡ [])
      ⊎ (l ≢ 0) × (among l keys ≡ true) × ((d' : ℕ) → last_or (pressed prev keys) d' ≡ l)
last_pressed prev [] d = inl refl
last_pressed prev (usage ∷ keys) d = elim (Bool-cases (is_new prev usage)) [
  | inl e ↦ rw e (elim (last_pressed prev keys usage) [
    | inl n ↦
        rw n (inr (λ z. ground (arith, e, z), unfold among in rw (==_refl usage) refl, λ d'. refl))
    | inr (n, a, c) ↦ inr (n, among_later _ usage keys a, λ d'. c usage)
  ])
  | inr e ↦ rw e (elim (last_pressed prev keys d) [
    | inl n ↦ inl n
    | inr (n, a, c) ↦ inr (n, among_later _ usage keys a, c)
  ])
]

release_lem :
    (keys : List ℕ) (s : Keyboard)
    → let s' = release keys s in
      (s'.kbd ≡ s.kbd)
      × (s'.held ≡ (if among s.held keys then s.held else 0))
      × ((s'.held_ms ≡ s.held_ms) ⊎ (s'.held_ms ≡ 0))
      × (s'.held ≡ 0 → s'.held_ms ≡ 0)
unfolding release
release_lem keys s = elim (Bool-cases (not (s.held == 0) && among s.held keys)) [
  | inl e ↦ rw (release, e) (refl, ground (arith, e), inl refl, λ z. ground (arith, e, z))
  | inr e ↦ rw (release, e) (refl, ground (arith, e), inr refl, λ z. refl)
]

-- A report types its new keys, in its order, and no others. Afterwards the key that may repeat is the
-- last new one; with no new one it is the one from before if that is still down, and otherwise none.
pub kbd_handle_report_lem :
    (keys : List ℕ) (mods : ℕ) (s : Keyboard)
    → let s' = kbd_handle_report keys mods s in
      (s'.kbd ≡ type_all mods (pressed s.prev keys) s.kbd)
      × (s'.prev ≡ keys)
      × (s'.held ≡ last_or (pressed s.prev keys) (if among s.held keys then s.held else 0))
unfolding kbd_handle_report
kbd_handle_report_lem keys mods s =
    let s1 = press_all s.prev mods keys s in
    let p = press_all-Pressed s.prev mods keys s in
    let (k, h, _, _) = release_lem keys s1 in (k ∙ p.kbd, refl, h ∙ rw p.held repeating)
  where
    repeating :
        let l = last_or (pressed s.prev keys) s.held in
        (if among l keys then l else 0)
        ≡ last_or (pressed s.prev keys) (if among s.held keys then s.held else 0)
    repeating = elim (last_pressed s.prev keys s.held) [
      | inl n ↦ rw n refl
      | inr (n, a, c) ↦ rw (a, c (if among s.held keys then s.held else 0)) refl
    ]

-- The repeating key and its clock after a report.
pub kbd_handle_report_clock :
    (keys : List ℕ) (mods : ℕ) (s : Keyboard)
    → let s' = kbd_handle_report keys mods s in
      (s'.held ≢ 0 → among s'.held keys ≡ true)
      × ((s'.held_ms ≡ s.held_ms) ⊎ (s'.held_ms ≡ 0))
      × (s'.held ≡ 0 → s'.held_ms ≡ 0)
unfolding kbd_handle_report
kbd_handle_report_clock keys mods s =
    let s1 = press_all s.prev mods keys s in
    let p = press_all-Pressed s.prev mods keys s in
    let (_, h, c, z) = release_lem keys s1 in (rw h (down s1.held), ground (arith, c, p.held_ms), z)
  where
    down :
        (l : ℕ)
        → (if among l keys then l else 0) ≢ 0
        → among (if among l keys then l else 0) keys ≡ true
    down l ne = elim (Bool-cases (among l keys)) [
      | inl a ↦ rw (a, a) refl
      | inr a ↦ absurd (ne (rw a refl))
    ]

none_new :
    (prev keys : List ℕ)
    → ((u : ℕ) → among u keys ≡ true → among u prev ≡ true)
    → pressed prev keys ≡ []
none_new prev [] h = refl
none_new prev (usage ∷ keys) h =
    let old = h usage (unfold among in rw (==_refl usage) refl) in
    let rest = none_new prev keys (λ u a. h u (among_later u usage keys a)) in
    let f : is_new prev usage ≡ false = ground (arith, old) in rw f rest

-- A report that repeats the last one types nothing: a key that stays down is typed once.
pub kbd_handle_report_again :
    (keys : List ℕ) (mods mods' : ℕ) (s : Keyboard)
    → let s' = kbd_handle_report keys mods s in (kbd_handle_report keys mods' s').kbd ≡ s'.kbd
kbd_handle_report_again keys mods mods' s =
    let s' = kbd_handle_report keys mods s in
    let (k, p, h) = kbd_handle_report_lem keys mods s in
    let (k', _, _) = kbd_handle_report_lem keys mods' s' in
    k' ∙ rw p (rw (none_new keys keys (λ u a. a)) refl)
