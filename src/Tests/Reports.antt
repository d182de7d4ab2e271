-- ===== src/Tests/Reports.antt =====
-- The statistics and a panic of a monitor that has seen a few traps.
use esp32_p4_linux_hyperviso.Base.{
  ℕ, ◌-◌, ◌<◌, ◌≡◌, length, get_or, min, ltb, if◌then◌else◌, set, replicate, arith,
}
use esp32_p4_linux_hyperviso.Frame.{Frame, Memory}
use esp32_p4_linux_hyperviso.Decode.{guest_fetch}
use esp32_p4_linux_hyperviso.Monitor.{Hyp}
use esp32_p4_linux_hyperviso.Trace.{no_entry, no_line, dump_line}
use esp32_p4_linux_hyperviso.Trace.Report.{hyp_stats_dump, hyp_panic}
use esp32_p4_linux_hyperviso.Trace.Totals.{Reported, hyp_stats_dump-Reported}
use esp32_p4_linux_hyperviso.Trace.LastWords.{AgreeOnWindow, hyp_panic_lem}
use esp32_p4_linux_hyperviso.Tests.{busy_plic, some_hyp, a_frame}
use esp32_p4_linux_hyperviso.Tests.Recorded.{some_traps, ring_of, ring_of-Holds}

-- Three illegal instructions of 100 cycles, no other trap.
abbrev used_hyp : Hyp
used_hyp = record (some_hyp busy_plic) {
  stats = record ((some_hyp busy_plic).stats) {
    exc = set (replicate 48 0) 2 3;
    exc_cycles = set (replicate 48 0) 2 300;
  };
}

hyp_stats_dump-Reported_example : Reported used_hyp.stats (hyp_stats_dump 4 used_hyp)
hyp_stats_dump-Reported_example = hyp_stats_dump-Reported 4 used_hyp

-- A guest that runs into a trap after five others, and what is in memory below its window.
abbrev trapped_hyp : Hyp
trapped_hyp = record (some_hyp busy_plic) { trace = ring_of (some_traps 5) }

abbrev below : ℕ → Memory
below v = λ a. if ltb a 0x48000000 then v else 0x03

below-AgreeOnWindow : AgreeOnWindow (below 1) (below 2)
unfolding guest_fetch
below-AgreeOnWindow pc low high = ground (arith, low, high)

abbrev last_frame : Frame
last_frame = record (a_frame 2 0) { mepc = 0x48000100 }

hyp_panic_lem_example :
    let history = some_traps 5 in
    let p = hyp_panic (below 1) last_frame trapped_hyp in
    (length p.dumped ≡ min (length history) 16)
    × ((i : ℕ)
        → i < length p.dumped
        → get_or p.dumped i no_line
          ≡ dump_line (below 1) i (get_or history (length p.dumped - 1 - i) no_entry))
    × (hyp_panic (below 2) last_frame trapped_hyp ≡ p)
hyp_panic_lem_example =
    hyp_panic_lem (below 1) (below 2) last_frame trapped_hyp (some_traps 5)
      (ring_of-Holds (some_traps 5) (omega arith)) (omega arith) below-AgreeOnWindow
