-- ===== src/Watch.antt =====
-- main/main.c: the service loop of core 0, which watches the guest.
--
-- One turn is 100 ms. What a turn reads of the guest's state is `Seen`.
pub mod Wedge
use esp32_p4_linux_hyperviso.Base.{
  ℕ, ◌+◌, Bool, true, false, not, ◌&&◌, leb, ◌==◌, u32, if◌then◌else◌, List, [],
}
use esp32_p4_linux_hyperviso.Frame.{Memory}
use esp32_p4_linux_hyperviso.Trace.{Trace, Printed, hyp_trace_dump}

-- `hyp_stats_wanted`, the trace ring with `hyp_trace_total` in it, the guest's memory, `linux_running` and
-- `hyp_in_wfi`.
pub record Seen : Type 0 where
  pub stats_wanted : Bool
  pub trace : Trace
  pub memory : Memory
  pub linux_running : Bool
  pub in_wfi : Bool

-- The loop's variables, the counts of what it has printed, which are wedge reports and statistics, the
-- lines of the last trace it has printed, and `hyp_trace_dumps` as it last left it.
pub record Watch : Type 0 where
  pub last_traps : ℕ
  pub quiet_ticks : ℕ
  pub ticks : ℕ
  pub reported : Bool
  pub wedge_reports : ℕ
  pub stats_dumps : ℕ
  pub dumped : List Printed
  pub trace_dumps : ℕ

unfoldable pub watch_start : Watch
watch_start = record {
  last_traps = 0;
  quiet_ticks = 0;
  ticks = 0;
  reported = false;
  wedge_reports = 0;
  stats_dumps = 0;
  dumped = [];
  trace_dumps = 0;
}

-- The traps since the last second's look.
unfoldable pub watch_traps : Seen → Watch → Watch
watch_traps seen w =
    if seen.trace.total == w.last_traps
    then record w { quiet_ticks = u32 (w.quiet_ticks + 1) }
    else record w { quiet_ticks = 0; reported = false; last_traps = seen.trace.total }

-- What is done once a second.
unfoldable pub watch_second : Seen → Watch → Watch
watch_second seen w =
    let w' = watch_traps seen (record w { ticks = 0 }) in
    let dump = hyp_trace_dump seen.memory (record (seen.trace) { dumps = 0 }) in
    if leb 5 w'.quiet_ticks && not w'.reported && seen.linux_running && not seen.in_wfi
    then record w' {
      reported = true;
      wedge_reports = w'.wedge_reports + 1;
      stats_dumps = w'.stats_dumps + 1;
      dumped = dump.0;
      trace_dumps = dump.1.dumps;
    }
    else w'

-- One turn of the loop.
unfoldable pub watch_turn : Seen → Watch → Watch
watch_turn seen w =
    let dumped = if seen.stats_wanted then record w { stats_dumps = w.stats_dumps + 1 } else w in
    let ticks = u32 (dumped.ticks + 1) in
    if leb 10 ticks then watch_second seen dumped else record dumped { ticks = ticks }
