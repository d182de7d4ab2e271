-- ===== src/Boot/Steps.antt =====
-- What holds of the two cores and of what they share, after any steps of either.
use mathlib.Core.Bool.{false≢true}
use esp32_p4_linux_hyperviso.Base.{
  ℕ, suc, ◌+◌, ◌≤◌, ◌≡◌, inl, inr, refl, sym, ap, ◌∙◌, true, false, not, ◌&&◌, some, arith,
  Bool-cases, Option-cases, Ensures, some-Ensures, none-Ensures, if_keeps, if_cases,
}
use esp32_p4_linux_hyperviso.Frame.{Memory}
use esp32_p4_linux_hyperviso.Boot.{EspErr, linux_base_address, linux_size}
use esp32_p4_linux_hyperviso.Boot.Pmp.{PmpEntry, pmp_set_rwx_region}
use esp32_p4_linux_hyperviso.Boot.Load.{Flash, is_ok, hyp_load_guest}
use esp32_p4_linux_hyperviso.Boot.Cores.{
  Board, Shared, Core0, loading, scheduling, main_task, entering, watching, parked, Core1, starting,
  own_stack, waiting, opening, arming, guest, halted, app_main_start, core0_step, core1_step,
  powered_on,
}

module _ (flash : Flash) (limit : ℕ) (board : Board) (settle : ℕ → ℕ) (mem : Memory)
    (e : PmpEntry) where
  -- The states after some steps of either core, and how many.
  pub data Booted : ℕ → Core0 → Core1 → Shared → Type 0 where
    power_on : Booted 0 loading starting (powered_on mem e)
    core0_moves :
        {n : ℕ} {c0 c0' : Core0} {c1 : Core1} {s s' : Shared}
        → Booted n c0 c1 s
        → core0_step flash limit board c0 s ≡ some (c0', s')
        → Booted (suc n) c0' c1 s'
    core1_moves :
        {n : ℕ} {c0 : Core0} {c1 c1' : Core1} {s s' : Shared}
        → Booted n c0 c1 s
        → core1_step settle c1 s ≡ some (c1', s')
        → Booted (suc n) c0 c1' s'

  -- What holds of the shared state by where core 0 stands.
  unfoldable pub Loaded0 : Core0 → Shared → Type 0
  Loaded0 loading s = (s.memory ≡ mem) × (s.guest_image_ready ≡ false)
  Loaded0 scheduling s =
      (hyp_load_guest flash limit mem ≡ some (s.guest_loaded, s.memory))
      × (s.guest_image_ready ≡ false)
  Loaded0 main_task s =
      (hyp_load_guest flash limit mem ≡ some (s.guest_loaded, s.memory))
      × (s.guest_image_ready ≡ false)
      × (s.startup_done_0 ≡ true)
  Loaded0 entering s =
      (hyp_load_guest flash limit mem ≡ some (s.guest_loaded, s.memory))
      × (s.guest_image_ready ≡ false)
  Loaded0 watching s =
      (hyp_load_guest flash limit mem ≡ some (true, s.memory)) × (s.guest_image_ready ≡ true)
  Loaded0 parked s =
      (hyp_load_guest flash limit mem ≡ some (false, s.memory)) × (s.guest_image_ready ≡ false)

  abbrev opened : EspErr × PmpEntry
  opened = pmp_set_rwx_region settle linux_base_address linux_size e

  -- And by where core 1 stands.
  unfoldable pub Ready1 : Core1 → Shared → Type 0
  Ready1 starting s = (s.entry ≡ e) × (s.linux_running ≡ false)
  Ready1 own_stack s = (s.entry ≡ e) × (s.linux_running ≡ false)
  Ready1 waiting s = (s.entry ≡ e) × (s.linux_running ≡ false) × (s.startup_done_1 ≡ true)
  Ready1 opening s =
      (s.entry ≡ e)
      × (s.linux_running ≡ false)
      × (s.startup_done_1 ≡ true)
      × (s.guest_image_ready ≡ true)
  Ready1 arming s =
      (opened ≡ (opened.0, s.entry))
      × (is_ok opened.0 ≡ true)
      × (s.linux_running ≡ false)
      × (s.startup_done_1 ≡ true)
      × (s.guest_image_ready ≡ true)
  Ready1 guest s =
      (opened ≡ (opened.0, s.entry))
      × (is_ok opened.0 ≡ true)
      × (s.startup_done_1 ≡ true)
      × (s.guest_image_ready ≡ true)
  Ready1 halted s =
      (is_ok opened.0 ≡ false)
      × (s.linux_running ≡ false)
      × (s.startup_done_1 ≡ true)
      × (s.guest_image_ready ≡ true)

  abbrev pub stage0 : Core0 → ℕ
  stage0 loading = 0
  stage0 scheduling = 1
  stage0 main_task = 2
  stage0 entering = 3
  stage0 watching = 4
  stage0 parked = 4

  abbrev pub stage1 : Core1 → ℕ
  stage1 starting = 0
  stage1 own_stack = 1
  stage1 waiting = 2
  stage1 opening = 3
  stage1 arming = 4
  stage1 guest = 5
  stage1 halted = 4

  pub stage0-le : (c0 : Core0) → stage0 c0 ≤ 4
  stage0-le c0 = ground arith

  pub stage1-le : (c1 : Core1) → stage1 c1 ≤ 5
  stage1-le c1 = ground arith

  Ready1-same :
      (c1 : Core1) (s s' : Shared)
      → s'.entry ≡ s.entry
      → s'.linux_running ≡ s.linux_running
      → s'.startup_done_1 ≡ s.startup_done_1
      → (s.guest_image_ready ≡ true → s'.guest_image_ready ≡ true)
      → Ready1 c1 s
      → Ready1 c1 s'
  unfolding Ready1
  Ready1-same starting s s' a b c d (x, y) = (a ∙ x, b ∙ y)
  Ready1-same own_stack s s' a b c d (x, y) = (a ∙ x, b ∙ y)
  Ready1-same waiting s s' a b c d (x, y, z) = (a ∙ x, b ∙ y, c ∙ z)
  Ready1-same opening s s' a b c d (x, y, z, w) = (a ∙ x, b ∙ y, c ∙ z, d w)
  Ready1-same arming s s' a b c d (x, k, y, z, w) =
      (x ∙ ap (λ i. (opened.0, i)) (sym a), k, b ∙ y, c ∙ z, d w)
  Ready1-same guest s s' a b c d (x, k, z, w) = (x ∙ ap (λ i. (opened.0, i)) (sym a), k, c ∙ z, d w)
  Ready1-same halted s s' a b c d (k, y, z, w) = (k, b ∙ y, c ∙ z, d w)

  Loaded0-same :
      (c0 : Core0) (s s' : Shared)
      → s'.memory ≡ s.memory
      → s'.guest_loaded ≡ s.guest_loaded
      → s'.guest_image_ready ≡ s.guest_image_ready
      → s'.startup_done_0 ≡ s.startup_done_0
      → Loaded0 c0 s
      → Loaded0 c0 s'
  unfolding Loaded0
  Loaded0-same loading s s' a b c d (x, y) = (a ∙ x, c ∙ y)
  Loaded0-same scheduling s s' a b c d (x, y) = (rw (a, b) x, c ∙ y)
  Loaded0-same main_task s s' a b c d (x, y, z) = (rw (a, b) x, c ∙ y, d ∙ z)
  Loaded0-same entering s s' a b c d (x, y) = (rw (a, b) x, c ∙ y)
  Loaded0-same watching s s' a b c d (x, y) = (rw a x, c ∙ y)
  Loaded0-same parked s s' a b c d (x, y) = (rw a x, c ∙ y)

  -- A step of one core keeps what holds for both, and brings it one stage on.
  abbrev Next0 : Core0 → Core1 → Core0 × Shared → Type 0
  Next0 c0 c1 r = Loaded0 r.0 r.1 × Ready1 c1 r.1 × (stage0 r.0 ≡ suc (stage0 c0))

  core0_step-Ensures :
      (c0 : Core0) (c1 : Core1) (s : Shared)
      → Loaded0 c0 s
      → Ready1 c1 s
      → Ensures (Next0 c0 c1) (core0_step flash limit board c0 s)
  unfolding Loaded0 core0_step app_main_start
  core0_step-Ensures loading c1 s (x, y) r =
      elim (Option-cases (hyp_load_guest flash limit s.memory)) [
        | inl q ↦ rw (core0_step, q) (none-Ensures _)
        | inr (p, q) ↦
            rw (core0_step, q)
              (some-Ensures (Next0 loading c1) _ (
                (ap (hyp_load_guest flash limit) (sym x) ∙ q, y),
                Ready1-same c1 s _ refl refl refl (λ z. z) r,
                refl,
              ))
      ]
  core0_step-Ensures scheduling c1 s (x, y) r =
      some-Ensures (Next0 scheduling c1) _
        ((x, y, refl), Ready1-same c1 s _ refl refl refl (λ z. z) r, refl)
  core0_step-Ensures main_task c1 s (x, y, z) r =
      if_keeps (Ensures (Next0 main_task c1)) (s.startup_done_0 && s.startup_done_1)
        (some-Ensures (Next0 main_task c1) _ ((x, y), r, refl)) (none-Ensures _)
  core0_step-Ensures entering c1 s (x, y) r =
      if_cases (λ r. Ensures (Next0 entering c1) (some r)) (not s.guest_loaded)
        (λ q.
          let no_guest : s.guest_loaded ≡ false = ground (arith, q) in
          some-Ensures (Next0 entering c1) _
            ((x ∙ ap (λ b. some (b, s.memory)) no_guest, y), r, refl))
        (λ q.
          let there : s.guest_loaded ≡ true = ground (arith, q) in
          some-Ensures (Next0 entering c1) _ (
            (x ∙ ap (λ b. some (b, s.memory)) there, refl),
            Ready1-same c1 s _ refl refl refl (λ z. refl) r,
            refl,
          ))
  core0_step-Ensures watching c1 s l r = none-Ensures _
  core0_step-Ensures parked c1 s l r = none-Ensures _

  abbrev Next1 : Core0 → Core1 → Core1 × Shared → Type 0
  Next1 c0 c1 r = Loaded0 c0 r.1 × Ready1 r.0 r.1 × (stage1 r.0 ≡ suc (stage1 c1))

  core1_step-Ensures :
      (c0 : Core0) (c1 : Core1) (s : Shared)
      → Loaded0 c0 s
      → Ready1 c1 s
      → Ensures (Next1 c0 c1) (core1_step settle c1 s)
  unfolding Ready1 core1_step
  core1_step-Ensures c0 starting s l r = some-Ensures (Next1 c0 starting) _ (l, r, refl)
  core1_step-Ensures c0 own_stack s l (x, y) =
      some-Ensures (Next1 c0 own_stack) _
        (Loaded0-same c0 s _ refl refl refl refl l, (x, y, refl), refl)
  core1_step-Ensures c0 waiting s l (x, y, z) =
      if_cases (Ensures (Next1 c0 waiting)) s.guest_image_ready
        (λ q. some-Ensures (Next1 c0 waiting) _ (l, (x, y, z, q), refl)) (λ q. none-Ensures _)
  core1_step-Ensures c0 opening s l (x, y, z, w) = elim (Bool-cases (is_ok opened.0)) [
    | inl q ↦
        rw (core1_step, x, q)
          (some-Ensures (Next1 c0 opening) _
            (Loaded0-same c0 s _ refl refl refl refl l, (refl, q, y, z, w), refl))
    | inr q ↦
        rw (core1_step, x, q)
          (some-Ensures (Next1 c0 opening) _
            (Loaded0-same c0 s _ refl refl refl refl l, (q, y, z, w), refl))
  ]
  core1_step-Ensures c0 arming s l (x, k, y, z, w) =
      some-Ensures (Next1 c0 arming) _
        (Loaded0-same c0 s _ refl refl refl refl l, (x, k, z, w), refl)
  core1_step-Ensures c0 guest s l r = none-Ensures _
  core1_step-Ensures c0 halted s l r = none-Ensures _

  pub Booted-holds :
      {n : ℕ} {c0 : Core0} {c1 : Core1} {s : Shared}
      → Booted n c0 c1 s
      → Loaded0 c0 s × Ready1 c1 s × (n ≡ stage0 c0 + stage1 c1)
  unfolding Loaded0 Ready1
  Booted-holds power_on = ((refl, refl), (refl, refl), refl)
  Booted-holds (core0_moves {c0 = c0} {c1 = c1} {s = s} b q) =
      let (l, r, k) = Booted-holds b in
      let (l', r', k') = (core0_step-Ensures c0 c1 s l r).law _ q in (l', r', omega (arith, k, k'))
  Booted-holds (core1_moves {c0 = c0} {c1 = c1} {s = s} b q) =
      let (l, r, k) = Booted-holds b in
      let (l', r', k') = (core1_step-Ensures c0 c1 s l r).law _ q in (l', r', omega (arith, k, k'))

  -- Once the image is released, it is loaded.
  pub released :
      (c0 : Core0) (s : Shared)
      → Loaded0 c0 s
      → s.guest_image_ready ≡ true
      → (c0 ≡ watching) × (hyp_load_guest flash limit mem ≡ some (true, s.memory))
  unfolding Loaded0
  released loading s (x, y) r = absurd (false≢true (sym y ∙ r))
  released scheduling s (x, y) r = absurd (false≢true (sym y ∙ r))
  released main_task s (x, y, z) r = absurd (false≢true (sym y ∙ r))
  released entering s (x, y) r = absurd (false≢true (sym y ∙ r))
  released watching s (x, y) r = (refl, x)
  released parked s (x, y) r = absurd (false≢true (sym y ∙ r))

  -- While Linux runs, core 1's entry is set and the image is released.
  pub running :
      (c1 : Core1) (s : Shared)
      → Ready1 c1 s
      → s.linux_running ≡ true
      → (s.guest_image_ready ≡ true) × (opened ≡ (opened.0, s.entry)) × (is_ok opened.0 ≡ true)
  unfolding Ready1
  running starting s (x, y) r = absurd (false≢true (sym y ∙ r))
  running own_stack s (x, y) r = absurd (false≢true (sym y ∙ r))
  running waiting s (x, y, z) r = absurd (false≢true (sym y ∙ r))
  running opening s (x, y, z, w) r = absurd (false≢true (sym y ∙ r))
  running arming s (x, k, y, z, w) r = absurd (false≢true (sym y ∙ r))
  running guest s (x, k, z, w) r = (w, x, k)
  running halted s (k, y, z, w) r = absurd (false≢true (sym y ∙ r))
