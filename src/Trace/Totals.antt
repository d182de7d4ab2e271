-- ===== src/Trace/Totals.antt =====
-- The report always comes, and its lines account for every trap.
use esp32_p4_linux_hyperviso.Base.{
  ℕ, zero, suc, ◌+◌, ◌*◌, ◌/◌, ◌%◌, ◌^◌, ◌<◌, ◌≡◌, ◌≢◌, refl, ap, ap₂, ◌∙◌, inl, inr, Option, some,
  List, [], ◌∷◌, ◌++◌, get_or, ◌==◌, u32, u64, if◌then◌else◌, arith, Bool-cases,
}
use esp32_p4_linux_hyperviso.Monitor.{Stats, Hyp}
use esp32_p4_linux_hyperviso.VirtioBlk.{Blk}
use esp32_p4_linux_hyperviso.Trace.Report.{
  Cause, Line, head_line, cause_line, mmio_line, csr_line, code_line, wfi_line, icache_line,
  uart_line, blk_line, divide, totals_from, cause_lines, icache_lines, hyp_virtio_blk_stats,
  hyp_stats_dump, hyp_cause_name, irq_name,
}

-- The traps that the lines by cause speak of.
abbrev pub counted : List Line → ℕ
counted [] = 0
counted (cause_line name count each ∷ lines) = count + counted lines
counted (head_line _ _ _ ∷ lines) = counted lines
counted (mmio_line _ ∷ lines) = counted lines
counted (csr_line _ _ _ _ ∷ lines) = counted lines
counted (code_line _ ∷ lines) = counted lines
counted (wfi_line _ _ _ _ ∷ lines) = counted lines
counted (icache_line _ _ _ _ ∷ lines) = counted lines
counted (uart_line _ _ ∷ lines) = counted lines
counted (blk_line _ _ _ _ ∷ lines) = counted lines

-- The sum of `left` entries of an array from `i` on.
unfoldable pub sum_from : List ℕ → ℕ → ℕ → ℕ
sum_from counts zero i = 0
sum_from counts (suc left) i = get_or counts i 0 + sum_from counts left (i + 1)

-- The traps and the cycles that the histograms hold.
unfoldable pub traps_of : Stats → ℕ
traps_of s = (sum_from s.exc 48 0 + sum_from s.irq 48 0) % 2 ^ 32

unfoldable pub cycles_of : Stats → ℕ
cycles_of s = (sum_from s.exc_cycles 48 0 + sum_from s.irq_cycles 48 0) % 2 ^ 64

counted-append : (xs ys : List Line) → counted (xs ++ ys) ≡ counted xs + counted ys
counted-append [] ys = omega arith
counted-append (cause_line name count each ∷ xs) ys = omega (arith, counted-append xs ys)
counted-append (head_line _ _ _ ∷ xs) ys = counted-append xs ys
counted-append (mmio_line _ ∷ xs) ys = counted-append xs ys
counted-append (csr_line _ _ _ _ ∷ xs) ys = counted-append xs ys
counted-append (code_line _ ∷ xs) ys = counted-append xs ys
counted-append (wfi_line _ _ _ _ ∷ xs) ys = counted-append xs ys
counted-append (icache_line _ _ _ _ ∷ xs) ys = counted-append xs ys
counted-append (uart_line _ _ ∷ xs) ys = counted-append xs ys
counted-append (blk_line _ _ _ _ ∷ xs) ys = counted-append xs ys

counted-parts :
    (a b c d : List Line)
    → counted (a ++ b ++ c ++ d) ≡ counted a + counted b + counted c + counted d
counted-parts a b c d =
    omega (arith, counted-append (a ++ b ++ c) d, counted-append (a ++ b) c, counted-append a b)

totals_from_lem :
    (left i : ℕ) (s : Stats) (total traps : ℕ)
    → total < 2 ^ 64
    → traps < 2 ^ 32
    → let (total', traps') = totals_from left i s (total, traps) in
      (total' ≡ (total + (sum_from s.exc_cycles left i + sum_from s.irq_cycles left i)) % 2 ^ 64)
      × (traps' ≡ (traps + (sum_from s.exc left i + sum_from s.irq left i)) % 2 ^ 32)
unfolding totals_from sum_from
totals_from_lem zero i s total traps a b = (omega arith, omega arith)
totals_from_lem (suc left) i s total traps a b =
    let t = u64 (total + u64 (get_or s.exc_cycles i 0 + get_or s.irq_cycles i 0)) in
    let n = u32 (traps + u32 (get_or s.exc i 0 + get_or s.irq i 0)) in
    let (x, y) = totals_from_lem left (i + 1) s t n (omega arith) (omega arith) in
    (x ∙ omega arith, y ∙ omega arith)

totals_lem : (s : Stats) → totals_from 48 0 s (0, 0) ≡ (cycles_of s, traps_of s)
unfolding cycles_of traps_of
totals_lem s =
    let (t, n) = totals_from_lem 48 0 s 0 0 (omega arith) (omega arith) in
    ap₂ (λ (a b : ℕ). (a, b)) (t ∙ omega arith) (n ∙ omega arith)

divided : (a b : ℕ) → b ≢ 0 → divide a b ≡ some (a / b)
divided a zero h = absurd (h refl)
divided a (suc n) h = refl

-- The lines of a histogram speak of all its traps.
cause_lines_lem :
    (name : ℕ → Cause) (counts cycles : List ℕ) (left i : ℕ)
    → (lines : List Line) × (cause_lines name counts cycles left i ≡ some lines)
      × (counted lines ≡ sum_from counts left i)
unfolding cause_lines sum_from
cause_lines_lem name counts cycles zero i = ([], refl, refl)
cause_lines_lem name counts cycles (suc left) i =
    let (lines, e, c) = cause_lines_lem name counts cycles left (i + 1) in
    let count = get_or counts i 0 in
    let each = get_or cycles i 0 / count in
    elim (Bool-cases (count == 0)) [
      | inl z ↦ (lines, rw (cause_lines, z) e, ground (arith, z, c))
      | inr z ↦ (
        cause_line (name i) count (u32 each) ∷ lines,
        rw (cause_lines, z, e, divided (get_or cycles i 0) count (ground (arith, z))) refl,
        omega (arith, c),
      )
    ]

icache_lines_lem :
    (total : ℕ) (s : Stats)
    → (lines : List Line) × (icache_lines total s ≡ some lines) × (counted lines ≡ 0)
unfolding icache_lines
icache_lines_lem total s = elim (Bool-cases (s.icache_syncs == 0)) [
  | inl z ↦ ([], rw (icache_lines, z) refl, refl)
  | inr z ↦
      let syncs = s.icache_syncs in
      let scale = if total == 0 then 1 else total in
      let each = s.icache_sync_cycles / syncs in
      let percent = u64 (s.icache_sync_cycles * 100) / scale in
      (
        icache_line syncs (u32 (s.icache_sync_cycles / 1000)) (u32 each) (u32 percent) ∷ [],
        rw
            (
              icache_lines,
              z,
              divided s.icache_sync_cycles syncs (ground (arith, z)),
              divided (u64 (s.icache_sync_cycles * 100)) scale (ground arith),
            )
            refl,
        refl,
      )
]

blk_silent : (blk : Blk) → counted (hyp_virtio_blk_stats blk) ≡ 0
unfolding hyp_virtio_blk_stats
blk_silent blk = elim (Bool-cases (blk.requests == 0)) [
  | inl z ↦ rw (hyp_virtio_blk_stats, z) refl
  | inr z ↦ rw (hyp_virtio_blk_stats, z) refl
]

-- What the report says.
pub data Reported (s : Stats) : Option (List Line) → Type 0 where
  silent : traps_of s ≡ 0 → Reported s (some [])
  reported :
      (rest : List Line)
      → traps_of s ≢ 0
      → counted rest % 2 ^ 32 ≡ traps_of s
      → Reported s (
          some (
            head_line (traps_of s) (u32 (cycles_of s / 1000)) (u32 (cycles_of s / traps_of s))
            ∷ rest))

-- The report always comes: no division in it is by zero, whatever the counters hold. It is empty when
-- no trap was counted. Else its first line has the number of traps and the average of the cycles that
-- were spent on one, and the lines by cause add up to that number of traps.
pub hyp_stats_dump-Reported : (devices : ℕ) (h : Hyp) → Reported h.stats (hyp_stats_dump devices h)
unfolding hyp_stats_dump traps_of
hyp_stats_dump-Reported devices h =
    let s = h.stats in
    let (exc, e, ce) = cause_lines_lem hyp_cause_name s.exc s.exc_cycles 48 0 in
    let (irq, i, ci) = cause_lines_lem irq_name s.irq s.irq_cycles 48 0 in
    let (icache, c, cc) = icache_lines_lem (cycles_of s) s in
    let total : (sum_from s.exc 48 0 + sum_from s.irq 48 0) % 2 ^ 32 ≡ traps_of s = refl in
    elim (Bool-cases (traps_of s == 0)) [
      | inl z ↦ rw (hyp_stats_dump, totals_lem s, z) (silent (ground (arith, z)))
      | inr z ↦
          rw
            (
              hyp_stats_dump,
              totals_lem s,
              z,
              divided (cycles_of s) (traps_of s) (ground (arith, z)),
              e,
              i,
              c,
            )
            (reported _ (ground (arith, z)) (
              ap (λ x. x % 2 ^ 32)
                (counted-parts exc irq _ _ ∙ omega (arith, ce, ci, cc, blk_silent h.devices.blk))
              ∙ total))
    ]
