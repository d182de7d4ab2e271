-- ===== src/Tests/States.antt =====
-- A valid state of the monitor, the traps that lead on from it, and core 0's watch.
use esp32_p4_linux_hyperviso.Base.{◌+◌, ◌≡◌, refl, true, false, [], arith, ltb, if◌then◌else◌}
use esp32_p4_linux_hyperviso.Uart.{uart_line, uart_rx_empty}
use esp32_p4_linux_hyperviso.Uart.Line.{settled}
use esp32_p4_linux_hyperviso.Csr.{Handled}
use esp32_p4_linux_hyperviso.Core.{
  Result, entry_trap, entered, hypervisor_trap, inject_or_refuse, finish, count_exception,
}
use esp32_p4_linux_hyperviso.Core.Faults.{hypervisor_exception}
use esp32_p4_linux_hyperviso.Invariant.{HypIsValid}
use esp32_p4_linux_hyperviso.Invariant.Trap.{Reached, begin, taken, reached-HypIsValid}
use esp32_p4_linux_hyperviso.Watch.{Seen, Watch}
use esp32_p4_linux_hyperviso.Watch.Wedge.{turns, due, watch_turn-wedged}
use esp32_p4_linux_hyperviso.Tests.{quiet_plic, a_trace, code, some_hyp, a_world, a_frame}

calm : HypIsValid (some_hyp quiet_plic)
unfolding uart_line uart_rx_empty
calm = record {
  guest = record {
    bank = record { cfg = refl; addr = refl };
    priv = omega arith;
    no_mtip = refl;
    no_meip = refl;
  };
  devices = record {
    console = record {
      ring = record { storage = refl; head_in = omega arith; tail_in = omega arith };
      line = settled refl;
      sources = refl;
    };
    alarm = record { on_time = λ e. (refl, omega arith) };
  };
  stats = record { exc = refl; irq = refl; exc_cycles = refl; irq_cycles = refl; mmio = refl };
  trace = record { size = refl; place = omega arith };
}

-- An environment call, injected.
abbrev called : Handled
called =
    inject_or_refuse 8 0 (entry_trap (a_frame 8 0)) (entered (a_frame 8 0) (some_hyp quiet_plic))

abbrev after_call : Result
after_call = finish a_world called (count_exception a_world 8 called)

one_call : Reached (some_hyp quiet_plic) after_call.hyp
unfolding hypervisor_trap
one_call =
    taken a_world (a_frame 8 0) (some_hyp quiet_plic) after_call begin
      (hypervisor_exception a_world (a_frame 8 0) (some_hyp quiet_plic) called refl refl refl)

reached-HypIsValid_example : HypIsValid after_call.hyp
reached-HypIsValid_example = reached-HypIsValid (some_hyp quiet_plic) after_call.hyp calm one_call

-- A guest whose seventh trap the loop has not seen yet, three turns before it looks, after a report.
abbrev stopped : Seen
stopped = record {
  stats_wanted = false;
  trace = record a_trace { total = 7 };
  memory = code 0x4100;
  linux_running = true;
  in_wfi = false;
}

abbrev watching : Watch
watching = record {
  last_traps = 6;
  quiet_ticks = 9;
  ticks = 7;
  reported = true;
  wedge_reports = 1;
  stats_dumps = 0;
  dumped = [];
  trace_dumps = 1;
}

watch_turn-wedged_example :
    (turns 60 stopped watching).wedge_reports
    ≡ watching.wedge_reports + (if ltb 60 (due stopped watching) then 0 else 1)
watch_turn-wedged_example =
    watch_turn-wedged 60 stopped watching (omega arith) refl refl (λ e. absurd (ground (arith, e)))
