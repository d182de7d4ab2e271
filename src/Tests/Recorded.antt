-- ===== src/Tests/Recorded.antt =====
-- Traps in the ring.
use esp32_p4_linux_hyperviso.Base.{ℕ, zero, suc, ◌+◌, ◌*◌, ◌^◌, ◌<◌, List, [], ◌∷◌, length, arith}
use esp32_p4_linux_hyperviso.Trace.{Entry, Trace, hyp_trace_record}
use esp32_p4_linux_hyperviso.Trace.History.{Holds, hyp_trace_record-Holds}
use esp32_p4_linux_hyperviso.Tests.{a_trace, nothing}

-- As many traps as are asked for, each at an instruction of its own, the newest first.
abbrev pub some_traps : ℕ → List Entry
some_traps zero = []
some_traps (suc n) =
    record { cause = 5; epc = 0x48000000 + 4 * n; tval = n; priv = 0 } ∷ some_traps n

-- The ring after them.
abbrev pub ring_of : List Entry → Trace
ring_of [] = a_trace
ring_of (e ∷ older) = hyp_trace_record (ring_of older) e

pub ring_of-Holds :
    (history : List Entry) → length history < 2 ^ 32 → Holds (ring_of history) history
ring_of-Holds [] h = nothing
ring_of-Holds (e ∷ older) h =
    hyp_trace_record-Holds (ring_of older) older e (omega arith) (ring_of-Holds older (omega arith))
