-- ===== src/Trace/Report.antt =====
-- main/hyp_trace.c: where the time goes, and the last words of a panic. What is printed is a value.
--
-- The counters are taken to stand still while core 0 prints them.
use esp32_p4_linux_hyperviso.Base.{
  ℕ, zero, suc, ◌+◌, ◌*◌, ◌/◌, Option, none, some, List, [], ◌∷◌, ◌++◌, get_or, ◌==◌, u32, u64,
  if◌then◌else◌,
}
use esp32_p4_linux_hyperviso.Frame.{Frame, Memory}
use esp32_p4_linux_hyperviso.Monitor.{Stats, Hyp}
use esp32_p4_linux_hyperviso.VirtioBlk.{Blk}
use esp32_p4_linux_hyperviso.Trace.{Trace, Printed, fetched_at, hyp_trace_dump}

pub data Cause : Type 0 where
  insn_align insn_fault illegal breakpoint load_align load_fault : Cause
  store_align store_fault ecall_u ecall_m other : Cause
  host_timer host_uart host_other : Cause

unfoldable pub hyp_cause_name : ℕ → Cause
hyp_cause_name cause =
    if cause == 0
    then insn_align
    else if cause == 1
    then insn_fault
    else if cause == 2
    then illegal
    else if cause == 3
    then breakpoint
    else if cause == 4
    then load_align
    else if cause == 5
    then load_fault
    else if cause == 6
    then store_align
    else if cause == 7
    then store_fault
    else if cause == 8
    then ecall_u
    else if cause == 11
    then ecall_m
    else other

-- HYP_INUM_TIMER and HYP_INUM_UART over HYP_CLIC_MCAUSE_BASE.
unfoldable pub irq_name : ℕ → Cause
irq_name i = if i == 20 + 16 then host_timer else if i == 21 + 16 then host_uart else host_other

-- A printed line.
pub data Line : Type 0 where
  head_line : (traps kcycles average : ℕ) → Line
  cause_line : Cause → (count each : ℕ) → Line
  mmio_line : List ℕ → Line
  csr_line : (reads writes mrets injections : ℕ) → Line
  code_line : ℕ → Line
  wfi_line : (blocked spun unhandled idle : ℕ) → Line
  icache_line : (calls kcycles each percent : ℕ) → Line
  uart_line : (overruns dropped : ℕ) → Line
  blk_line : (requests reads writes errors : ℕ) → Line

-- A division of C: `none` is a divisor of 0, on which the program has no meaning.
abbrev pub divide : ℕ → ℕ → Option ℕ
divide a zero = none
divide a (suc n) = some (a / suc n)

infixl 5 ◌>>=◌
abbrev pub ◌>>=◌ {ℓ κ} : {A : Type ℓ} {B : Type κ} → Option A → (A → Option B) → Option B
none >>= f = none
some a >>= f = f a

-- The loop of the totals, with `left` causes to go from `i` on: the cycles and the traps.
unfoldable pub totals_from : ℕ → ℕ → Stats → ℕ × ℕ → ℕ × ℕ
totals_from zero i s (total, traps) = (total, traps)
totals_from (suc left) i s (total, traps) = totals_from left (i + 1) s (
  u64 (total + u64 (get_or s.exc_cycles i 0 + get_or s.irq_cycles i 0)),
  u32 (traps + u32 (get_or s.exc i 0 + get_or s.irq i 0)),
)

-- The lines of one histogram: a cause that never came has none.
unfoldable pub cause_lines : (ℕ → Cause) → List ℕ → List ℕ → ℕ → ℕ → Option (List Line)
cause_lines name counts cycles zero i = some []
cause_lines name counts cycles (suc left) i =
    let rest = cause_lines name counts cycles left (i + 1) in
    let count = get_or counts i 0 in
    let line = (do
      each ← divide (get_or cycles i 0) count
      lines ← rest
      some (cause_line (name i) count (u32 each) ∷ lines)) in
    if count == 0 then rest else line

-- One number for each device of the table.
unfoldable pub mmio_counts : ℕ → ℕ → Stats → List ℕ
mmio_counts zero i s = []
mmio_counts (suc left) i s = get_or s.mmio i 0 ∷ mmio_counts left (i + 1) s

unfoldable pub icache_lines : ℕ → Stats → Option (List Line)
icache_lines total s =
    let cycles = s.icache_sync_cycles in
    let line = (do
      each ← divide cycles s.icache_syncs
      percent ← divide (u64 (cycles * 100)) (if total == 0 then 1 else total)
      some (icache_line s.icache_syncs (u32 (cycles / 1000)) (u32 each) (u32 percent) ∷ [])) in
    if s.icache_syncs == 0 then some [] else line

unfoldable pub hyp_virtio_blk_stats : Blk → List Line
hyp_virtio_blk_stats blk =
    if blk.requests == 0 then [] else blk_line blk.requests blk.reads blk.writes blk.errors ∷ []

-- The lines of the whole report, for a device table of `devices` entries.
unfoldable pub hyp_stats_dump : ℕ → Hyp → Option (List Line)
hyp_stats_dump devices h =
    let s = h.stats in
    let (total, traps) = totals_from 48 0 s (0, 0) in
    let report = (do
      average ← divide total traps
      exc ← cause_lines hyp_cause_name s.exc s.exc_cycles 48 0
      irq ← cause_lines irq_name s.irq s.irq_cycles 48 0
      icache ← icache_lines total s
      some (
          (head_line traps (u32 (total / 1000)) (u32 average) ∷ exc)
          ++ irq
          ++ (mmio_line (mmio_counts devices 0 s)
              ∷ csr_line s.csr_read_only s.csr_write s.mrets s.injections
              ∷ code_line s.irq_code_seen
              ∷ wfi_line s.wfi_blocks s.wfi_spins s.unhandled (u32 (s.idle_cycles / 1000))
              ∷ icache)
          ++ (uart_line h.devices.uart.overruns h.devices.uart.tx_dropped
              ∷ hyp_virtio_blk_stats h.devices.blk))) in
    if traps == 0 then some [] else report

-- The line of a panic, and the trace under it.
pub record Panic : Type 0 where
  pub mcause : ℕ
  pub mepc : ℕ
  pub mtval : ℕ
  pub encoding : ℕ
  pub length : ℕ
  pub guest_sp : ℕ
  pub priv : ℕ
  pub dumped : List Printed
  pub trace : Trace

-- The monitor prints and then stands still for ever.
unfoldable pub hyp_panic : Memory → Frame → Hyp → Panic
hyp_panic mem frame h =
    let word = fetched_at mem frame.mepc in
    let (dumped, trace) = hyp_trace_dump mem (record (h.trace) { dumps = 0 }) in
    record {
      mcause = frame.mcause;
      mepc = frame.mepc;
      mtval = frame.mtval;
      encoding = word.0;
      length = word.1;
      guest_sp = frame.x 2;
      priv = h.guest.priv;
      dumped = dumped;
      trace = trace;
    }
