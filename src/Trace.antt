-- ===== src/Trace.antt =====
-- main/hyp_trace.c: the ring of the last sixteen traps, and the dump of it.
pub mod History
pub mod Report
pub mod Totals
pub mod LastWords
use esp32_p4_linux_hyperviso.Base.{
  ℕ, zero, suc, ◌+◌, ◌-◌, ◌%◌, ◌^◌, List, [], ◌∷◌, get_or, set, ltb, leb, u32, if◌then◌else◌, ◌&&◌,
  ◌||◌, ◌==◌, ◌>>◌, bit_and, Bool, false, not, Option, none, some,
}
use esp32_p4_linux_hyperviso.Frame.{Memory}
use esp32_p4_linux_hyperviso.Decode.{guest_fetch}
use esp32_p4_linux_hyperviso.Boot.{linux_base_address, linux_size}

abbrev pub hyp_trace_len : ℕ
hyp_trace_len = 16

abbrev pub hyp_trace_dump_budget : ℕ
hyp_trace_dump_budget = 4

pub record Entry : Type 0 where
  pub cause : ℕ
  pub epc : ℕ
  pub tval : ℕ
  pub priv : ℕ

abbrev pub no_entry : Entry
no_entry = record { cause = 0; epc = 0; tval = 0; priv = 0 }

pub record Trace : Type 0 where
  pub entries : List Entry
  pub next : ℕ
  pub total : ℕ
  pub dumps : ℕ

unfoldable pub hyp_trace_record : Trace → Entry → Trace
hyp_trace_record t e = record t {
  entries = set t.entries t.next e;
  next = u32 (t.next + 1) % hyp_trace_len;
  total = u32 (t.total + 1);
}

-- The instruction at a pc and its length, zeros outside the guest's window and where the fetch fails.
unfoldable pub fetched_at : Memory → ℕ → ℕ × ℕ
fetched_at mem pc =
    let fetched : Option (ℕ × ℕ) =
      if leb linux_base_address pc && ltb pc (u32 (linux_base_address + linux_size))
      then guest_fetch mem pc
      else none in
    elim fetched [ none ↦ (0, 0) | some p ↦ p ]

-- A printed line of the dump: its number, the entry, the instruction at its pc, and whether it is marked
-- as an access fault of something else than a load or store.
pub record Printed : Type 0 where
  pub number : ℕ
  pub entry : Entry
  pub encoding : ℕ
  pub length : ℕ
  pub marked : Bool

abbrev pub no_line : Printed
no_line = record { number = 0; entry = no_entry; encoding = 0; length = 0; marked = false }

-- `mem`: whether the instruction is a load or a store.
unfoldable pub is_load_store : ℕ → ℕ → Bool
is_load_store encoding length =
    let q = bit_and encoding 0x3 in
    let f = bit_and (encoding >> 13) 0x7 in
    if length == 4
    then bit_and encoding 0x5f == 0x03
    else if length == 2
    then q == 0 || q == 2 && (f == 2 || f == 6)
    else false

unfoldable pub dump_line : Memory → ℕ → Entry → Printed
dump_line mem n e =
    let word = fetched_at mem e.epc in
    record {
      number = n;
      entry = e;
      encoding = word.0;
      length = word.1;
      marked = not (is_load_store word.0 word.1) && (e.cause == 5 || e.cause == 7);
    }

-- The lines of the dump's loop: number `n` of them, with `left` to go.
unfoldable pub dumped_from : Memory → ℕ → List Entry → ℕ → ℕ → List Printed
dumped_from mem zero entries start n = []
dumped_from mem (suc left) entries start n =
    dump_line mem n (get_or entries (u32 (start + n) % hyp_trace_len) no_entry)
    ∷ dumped_from mem left entries start (n + 1)

-- The dump: the lines printed, none once the budget is used up, and the ring after it.
unfoldable pub hyp_trace_dump : Memory → Trace → List Printed × Trace
hyp_trace_dump mem t =
    let count = if ltb t.total hyp_trace_len then t.total else hyp_trace_len in
    let start = (t.next + hyp_trace_len + 2 ^ 32 - count) % 2 ^ 32 % hyp_trace_len in
    if leb hyp_trace_dump_budget t.dumps
    then ([], t)
    else (dumped_from mem count t.entries start 0, record t { dumps = u32 (t.dumps + 1) })
