-- ===== src/Trace/LastWords.antt =====
-- A panic prints the trace, and what it reads of memory.
use esp32_p4_linux_hyperviso.Base.{
  ℕ, zero, suc, ◌+◌, ◌-◌, ◌%◌, ◌^◌, ◌≤◌, ◌<◌, ◌≡◌, refl, inl, inr, ◌&&◌, List, length, get_or, min,
  ltb, leb, u32, if◌then◌else◌, arith, Bool-cases,
}
use esp32_p4_linux_hyperviso.Frame.{Frame, Memory}
use esp32_p4_linux_hyperviso.Decode.{guest_fetch}
use esp32_p4_linux_hyperviso.Boot.{linux_base_address, linux_size}
use esp32_p4_linux_hyperviso.Monitor.{Hyp}
use esp32_p4_linux_hyperviso.Trace.{
  Entry, Trace, no_entry, no_line, fetched_at, dump_line, dumped_from, hyp_trace_dump,
}
use esp32_p4_linux_hyperviso.Trace.History.{Holds, hyp_trace_dump_lem}
use esp32_p4_linux_hyperviso.Trace.Report.{hyp_panic}

-- Two memories with the same instruction at each pc of the guest's window.
abbrev pub AgreeOnWindow : Memory → Memory → Type 0
AgreeOnWindow mem mem' =
    (pc : ℕ)
    → linux_base_address ≤ pc
    → pc < linux_base_address + linux_size
    → guest_fetch mem' pc ≡ guest_fetch mem pc

fetched_at_same :
    (mem mem' : Memory) (pc : ℕ) → AgreeOnWindow mem mem' → fetched_at mem' pc ≡ fetched_at mem pc
unfolding fetched_at
fetched_at_same mem mem' pc agree =
    let inside = leb linux_base_address pc && ltb pc (u32 (linux_base_address + linux_size)) in
    elim (Bool-cases inside) [
      | inl z ↦ rw (fetched_at, agree pc (ground (arith, z)) (ground (arith, z))) refl
      | inr z ↦ rw (fetched_at, z) refl
    ]

dumped_from_same :
    (mem mem' : Memory) (left : ℕ) (entries : List Entry) (start n : ℕ)
    → AgreeOnWindow mem mem'
    → dumped_from mem' left entries start n ≡ dumped_from mem left entries start n
unfolding dumped_from dump_line
dumped_from_same mem mem' zero entries start n agree = refl
dumped_from_same mem mem' (suc left) entries start n agree =
    rw
      (
        dumped_from_same mem mem' left entries start (n + 1) agree,
        fetched_at_same mem mem' (get_or entries (u32 (start + n) % 16) no_entry).epc agree,
      )
      refl

hyp_trace_dump_same :
    (mem mem' : Memory) (t : Trace)
    → AgreeOnWindow mem mem'
    → hyp_trace_dump mem' t ≡ hyp_trace_dump mem t
unfolding hyp_trace_dump
hyp_trace_dump_same mem mem' t agree =
    let count = if ltb t.total 16 then t.total else 16 in
    let start = (t.next + 16 + 2 ^ 32 - count) % 2 ^ 32 % 16 in
    rw (hyp_trace_dump, dumped_from_same mem mem' count t.entries start 0 agree) refl

-- With a ring that holds the newest of fewer than 2^32 traps, a panic prints a line for each of the newest traps, sixteen at most and the oldest of them first, even
-- when the budget of dumps is used up. Of memory it reads instructions only, and only at pcs in the
-- guest's window: two memories with the same instruction at each pc of the window give the same last
-- words.
pub hyp_panic_lem :
    (mem mem' : Memory) (frame : Frame) (h : Hyp) (history : List Entry)
    → Holds h.trace history
    → length history < 2 ^ 32
    → AgreeOnWindow mem mem'
    → let p = hyp_panic mem frame h in
      (length p.dumped ≡ min (length history) 16)
      × ((i : ℕ)
          → i < length p.dumped
          → get_or p.dumped i no_line
            ≡ dump_line mem i (get_or history (length p.dumped - 1 - i) no_entry))
      × (hyp_panic mem' frame h ≡ p)
unfolding hyp_panic
hyp_panic_lem mem mem' frame h history holds small agree =
    let fresh = record (h.trace) { dumps = 0 } in
    let held : Holds fresh history = record {
      size = holds.size;
      place = holds.place;
      counted = holds.counted;
      kept = holds.kept;
    } in
    let (n, e, _, _) = hyp_trace_dump_lem mem fresh history held small (omega arith) in
    (
      n,
      e,
      rw
          (
            hyp_panic,
            fetched_at_same mem mem' frame.mepc agree,
            hyp_trace_dump_same mem mem' fresh agree,
          )
          refl,
    )
