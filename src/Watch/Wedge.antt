-- ===== src/Watch/Wedge.antt =====
-- When the service loop reports a wedged guest.
use esp32_p4_linux_hyperviso.Base.{
  ℕ, zero, suc, ◌+◌, ◌-◌, ◌*◌, ◌<◌, ◌≡◌, ◌≢◌, refl, sym, ◌∙◌, inl, inr, true, false, ltb, ◌==◌,
  if◌then◌else◌, Bool-cases, arith,
}
use native.Mathlib.Decide.{dec_lt}
use esp32_p4_linux_hyperviso.Watch.{Seen, Watch, watch_traps, watch_second, watch_turn}

-- A number of turns that all see the same.
abbrev pub turns : ℕ → Seen → Watch → Watch
turns zero seen w = w
turns (suc n) seen w = turns n seen (watch_turn seen w)

-- A guest that runs, is not in wfi, and has taken no trap since the last look.
pub record IsStopped (seen : Seen) (w : Watch) : Type 0 where
  pub total : seen.trace.total ≡ w.last_traps
  pub running : seen.linux_running ≡ true
  pub awake : seen.in_wfi ≡ false

turn_early :
    (seen : Seen) (w : Watch)
    → w.ticks < 9
    → let w' = watch_turn seen w in
      (w'.ticks ≡ w.ticks + 1)
      × (w'.quiet_ticks ≡ w.quiet_ticks)
      × (w'.last_traps ≡ w.last_traps)
      × (w'.reported ≡ w.reported)
      × (w'.wedge_reports ≡ w.wedge_reports)
unfolding watch_turn
turn_early seen w h = ground arith

turn_look :
    (seen : Seen) (w : Watch)
    → w.ticks ≡ 9
    → w.quiet_ticks < 4
    → IsStopped seen w
    → let w' = watch_turn seen w in
      (w'.ticks ≡ 0)
      × (w'.quiet_ticks ≡ w.quiet_ticks + 1)
      × (w'.last_traps ≡ w.last_traps)
      × (w'.reported ≡ w.reported)
      × (w'.wedge_reports ≡ w.wedge_reports)
unfolding watch_turn watch_second watch_traps
turn_look seen w h q g = ground (arith, g.total)

turn_report :
    (seen : Seen) (w : Watch)
    → w.ticks ≡ 9
    → w.quiet_ticks ≡ 4
    → w.reported ≡ false
    → IsStopped seen w
    → let w' = watch_turn seen w in
      (w'.reported ≡ true)
      × (w'.last_traps ≡ w.last_traps)
      × (w'.wedge_reports ≡ w.wedge_reports + 1)
unfolding watch_turn watch_second watch_traps
turn_report seen w h q r g = ground (arith, g.total, g.running, g.awake)

turn_reported :
    (seen : Seen) (w : Watch)
    → w.reported ≡ true
    → seen.trace.total ≡ w.last_traps
    → let w' = watch_turn seen w in
      (w'.reported ≡ true) × (w'.last_traps ≡ w.last_traps) × (w'.wedge_reports ≡ w.wedge_reports)
unfolding watch_turn watch_second watch_traps
turn_reported seen w r e = ground (arith, e, r)

once :
    (n : ℕ) (seen : Seen) (w : Watch)
    → w.reported ≡ true
    → seen.trace.total ≡ w.last_traps
    → (turns n seen w).wedge_reports ≡ w.wedge_reports
once zero seen w r e = refl
once (suc n) seen w r e =
    let (r', l, c) = turn_reported seen w r e in once n seen (watch_turn seen w) r' (e ∙ sym l) ∙ c

-- How many turns a stopped guest has still to be watched.
abbrev left : Watch → ℕ
left w = 50 - (10 * w.quiet_ticks + w.ticks)

counted :
    (n : ℕ) (seen : Seen) (w : Watch)
    → w.ticks < 10
    → w.quiet_ticks < 5
    → w.reported ≡ false
    → IsStopped seen w
    → (turns n seen w).wedge_reports ≡ w.wedge_reports + (if ltb n (left w) then 0 else 1)
counted zero seen w h q r g = ground arith
counted (suc n) seen w h q r g = elim (dec_lt w.ticks 9) [
  | yes early ↦
      let (t, k, l, p, c) = turn_early seen w early in
      let later =
        counted n seen (watch_turn seen w) (omega arith) (omega arith) (p ∙ r)
          (record { total = g.total ∙ sym l; running = g.running; awake = g.awake }) in
      ground (arith, later, t, k, c)
  | no late ↦ elim (dec_lt w.quiet_ticks 4) [
    | yes more ↦
        let (t, k, l, p, c) = turn_look seen w (omega arith) more g in
        let later =
          counted n seen (watch_turn seen w) (omega arith) (omega arith) (p ∙ r)
            (record { total = g.total ∙ sym l; running = g.running; awake = g.awake }) in
        ground (arith, later, t, k, c)
    | no last ↦
        let (p, l, c) = turn_report seen w (omega arith) (omega arith) r g in
        let later = once n seen (watch_turn seen w) p (g.total ∙ sym l) in ground (arith, later, c)
  ]
]

-- The look that finds a trap forgets the quiet seconds before it, and the report.
turn_reset :
    (seen : Seen) (w : Watch)
    → w.ticks ≡ 9
    → seen.trace.total ≢ w.last_traps
    → let w' = watch_turn seen w in
      (w'.ticks ≡ 0)
      × (w'.quiet_ticks ≡ 0)
      × (w'.last_traps ≡ seen.trace.total)
      × (w'.reported ≡ false)
      × (w'.wedge_reports ≡ w.wedge_reports)
unfolding watch_turn watch_second watch_traps
turn_reset seen w h n = ground (arith, n)

counted_reset :
    (n : ℕ) (seen : Seen) (w : Watch)
    → w.ticks < 10
    → seen.trace.total ≢ w.last_traps
    → seen.linux_running ≡ true
    → seen.in_wfi ≡ false
    → (turns n seen w).wedge_reports ≡ w.wedge_reports + (if ltb n (60 - w.ticks) then 0 else 1)
counted_reset zero seen w h d r a = ground arith
counted_reset (suc n) seen w h d r a = elim (dec_lt w.ticks 9) [
  | yes early ↦
      let (t, k, l, p, c) = turn_early seen w early in
      let later = counted_reset n seen (watch_turn seen w) (omega arith) (λ e. d (e ∙ l)) r a in
      ground (arith, later, t, c)
  | no late ↦
      let (t, k, l, p, c) = turn_reset seen w (omega arith) d in
      let later =
        counted n seen (watch_turn seen w) (omega arith) (omega arith) p
          (record { total = sym l; running = r; awake = a }) in
      ground (arith, later, t, k, c)
]

-- The turns until the report: with a trap since the last look, those up to the next look and fifty
-- more; without one, what the quiet seconds and turns counted so far leave of fifty.
abbrev pub due : Seen → Watch → ℕ
due seen w = if seen.trace.total == w.last_traps then left w else 60 - w.ticks

-- With fewer than ten turns counted since the last look, as the loop always has between its turns, a
-- guest that from now on runs outside wfi and takes no trap is reported as wedged once in any number
-- of turns, not before a turn that is fixed now, and never again while it stays so. If it has taken a
-- trap since the last of the loop's looks, which come every ten turns, that turn is the fiftieth after
-- the next look, whatever has been counted or reported before. If it has not, and the looks since its
-- last trap have counted fewer than five quiet seconds and reported nothing, that turn is the fiftieth
-- after the look that found the last trap.
pub watch_turn-wedged :
    (n : ℕ) (seen : Seen) (w : Watch)
    → w.ticks < 10
    → seen.linux_running ≡ true
    → seen.in_wfi ≡ false
    → (seen.trace.total ≡ w.last_traps → (w.quiet_ticks < 5) × (w.reported ≡ false))
    → (turns n seen w).wedge_reports ≡ w.wedge_reports + (if ltb n (due seen w) then 0 else 1)
watch_turn-wedged n seen w t r a q = elim (Bool-cases (seen.trace.total == w.last_traps)) [
  | inl e ↦
      let same : seen.trace.total ≡ w.last_traps = ground (arith, e) in
      let (k, p) = q same in
      rw (due, e) (counted n seen w t k p (record { total = same; running = r; awake = a }))
  | inr e ↦ rw (due, e) (counted_reset n seen w t (λ z. ground (arith, e, z)) r a)
]
