-- ===== src/Trace/History.antt =====
-- The trace ring against the list of all traps recorded.
use esp32_p4_linux_hyperviso.Base.{
  ℕ, zero, suc, ◌+◌, ◌-◌, ◌%◌, ◌^◌, ◌<◌, ◌≡◌, ◌∙◌, refl, sym, ap, List, ◌∷◌, length, get_or, set,
  min, u32, arith, ltb, length-set, get_or-set_self, get_or-set_ne, if◌then◌else◌,
}
use esp32_p4_linux_hyperviso.Trace.{
  Entry, Trace, no_entry, no_line, hyp_trace_record, dump_line, dumped_from, hyp_trace_dump,
}
use esp32_p4_linux_hyperviso.Frame.{Memory}

-- The ring holds the newest sixteen of `history`, the newest first.
pub record Holds (t : Trace) (history : List Entry) : Type 0 where
  pub size : length t.entries ≡ 16
  pub place : t.next ≡ length history % 16
  pub counted : t.total ≡ length history
  pub kept :
      (k : ℕ)
      → k < 16
      → k < length history
      → get_or t.entries ((length history + 15 - k) % 16) no_entry ≡ get_or history k no_entry

-- Recording a trap puts it in front of the history, as long as the 32-bit count does not wrap.
pub hyp_trace_record-Holds :
    (t : Trace) (history : List Entry) (e : Entry)
    → length history + 1 < 2 ^ 32
    → Holds t history
    → Holds (hyp_trace_record t e) (e ∷ history)
unfolding hyp_trace_record
hyp_trace_record-Holds t history e small s = record {
  size = length-set t.entries t.next e ∙ s.size;
  place = omega (arith, s.place);
  counted = omega (arith, s.counted);
  kept = kept;
}
  where
    kept :
        (k : ℕ)
        → k < 16
        → k < suc (length history)
        → get_or (set t.entries t.next e) ((suc (length history) + 15 - k) % 16) no_entry
          ≡ get_or (e ∷ history) k no_entry
    kept zero h l =
        ap (λ i. get_or (set t.entries t.next e) i no_entry) (omega (arith, s.place))
        ∙ get_or-set_self t.entries t.next e no_entry (omega (arith, s.place, s.size))
    kept (suc k) h l =
        get_or-set_ne t.entries t.next ((suc (length history) + 15 - suc k) % 16) e no_entry
          (λ z. omega (arith, s.place))
        ∙ ap (λ i. get_or t.entries i no_entry) (omega arith)
        ∙ s.kept k (omega arith) (omega arith)

dumped_from-length :
    (mem : Memory) (left : ℕ) (entries : List Entry) (start n : ℕ)
    → length (dumped_from mem left entries start n) ≡ left
unfolding dumped_from
dumped_from-length mem zero entries start n = refl
dumped_from-length mem (suc left) entries start n =
    ap suc (dumped_from-length mem left entries start (n + 1))

get_or-dumped_from :
    (mem : Memory) (left : ℕ) (entries : List Entry) (start n i : ℕ)
    → i < left
    → get_or (dumped_from mem left entries start n) i no_line
      ≡ dump_line mem (n + i) (get_or entries (u32 (start + (n + i)) % 16) no_entry)
unfolding dumped_from
get_or-dumped_from mem zero entries start n i h = absurd (omega arith)
get_or-dumped_from mem (suc left) entries start n zero h =
    ap (λ j. dump_line mem j (get_or entries (u32 (start + j) % 16) no_entry)) (omega arith)
get_or-dumped_from mem (suc left) entries start n (suc i) h =
    get_or-dumped_from mem left entries start (n + 1) i (omega arith)
    ∙ ap (λ j. dump_line mem j (get_or entries (u32 (start + j) % 16) no_entry)) (omega arith)

hyp_trace_dump_steps :
    (mem : Memory) (t : Trace)
    → t.dumps < 4
    → let count = if ltb t.total 16 then t.total else 16 in
      hyp_trace_dump mem t ≡ (
        dumped_from mem count t.entries ((t.next + 16 + 2 ^ 32 - count) % 2 ^ 32 % 16) 0,
        record t { dumps = u32 (t.dumps + 1) },
      )
unfolding hyp_trace_dump
hyp_trace_dump_steps mem t h = ground arith

pub hyp_trace_dump_lem :
    (mem : Memory) (t : Trace) (history : List Entry)
    → Holds t history
    → length history < 2 ^ 32
    → t.dumps < 4
    → let (printed, t') = hyp_trace_dump mem t in
      (length printed ≡ min (length history) 16)
      × ((i : ℕ)
          → i < length printed
          → get_or printed i no_line
            ≡ dump_line mem i (get_or history (length printed - 1 - i) no_entry))
      × Holds t' history
      × (t'.dumps ≡ t.dumps + 1)
hyp_trace_dump_lem mem t history s small budget = rw (hyp_trace_dump_steps mem t budget) (
  size ∙ printed_count,
  λ i h. entry i (omega (arith, size)),
  record { size = s.size; place = s.place; counted = s.counted; kept = s.kept },
  omega arith,
)
  where
    count : ℕ
    count = if ltb t.total 16 then t.total else 16

    start : ℕ
    start = (t.next + 16 + 2 ^ 32 - count) % 2 ^ 32 % 16

    size : length (dumped_from mem count t.entries start 0) ≡ count
    size = dumped_from-length mem count t.entries start 0

    printed_count : count ≡ min (length history) 16
    printed_count = ground (arith, s.counted)

    place :
        (i : ℕ) → i < count → u32 (start + i) % 16 ≡ (length history + 15 - (count - 1 - i)) % 16
    place i h = omega (arith, s.place, printed_count)

    entry :
        (i : ℕ)
        → i < count
        → get_or (dumped_from mem count t.entries start 0) i no_line
          ≡ dump_line mem i
              (get_or history (length (dumped_from mem count t.entries start 0) - 1 - i) no_entry)
    entry i h =
        get_or-dumped_from mem count t.entries start 0 i h
        ∙ ap (λ j. dump_line mem j (get_or t.entries (u32 (start + j) % 16) no_entry)) (omega arith)
        ∙ ap (dump_line mem i) (
            ap (λ j. get_or t.entries j no_entry) (place i h)
            ∙ s.kept (count - 1 - i) (omega (arith, printed_count)) (omega (arith, printed_count))
            ∙ ap (λ j. get_or history (j - 1 - i) no_entry) (sym size))
