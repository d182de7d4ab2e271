-- ===== src/Native/Whole.antt =====
-- The page-wise copy is one copy of the whole, or stops at the first page that cannot be mapped.
use esp32_p4_linux_hyperviso.Base.{
  ℕ, zero, suc, ◌+◌, ◌-◌, ◌*◌, ◌/◌, ◌^◌, ◌≤◌, ◌<◌, ◌≡◌, sym, ap, ◌∙◌, inl, inr, true, false, Option,
  some, bit_and, not32, min, ltb, u32, sub32, arith, Bool-cases, ltb→lt, lt→ltb, if◌then◌else◌,
}
use mathlib.Core.Path.{subst}
use native.Mathlib.Decide.{dec_lt}
use esp32_p4_linux_hyperviso.Base.Bits.{bit_and_shifted, bit_and_mask}
use esp32_p4_linux_hyperviso.Frame.{Memory, copy_in}
use esp32_p4_linux_hyperviso.Boot.{EspErr, esp_ok}
use esp32_p4_linux_hyperviso.Boot.Load.{is_ok}
use esp32_p4_linux_hyperviso.Native.{Image, page}
use esp32_p4_linux_hyperviso.Native.Copy.{load_from, load_partition_mmap}

-- Memory as it is with the first `n` bytes of a partition at an address.
abbrev pub Holds : Image → ℕ → ℕ → Memory → Memory → Type 0
Holds part psram_pa n mem mem' =
    (j : ℕ) → j < 2 ^ 32 → mem' j ≡ copy_in mem psram_pa n part.content j

-- The two ways a copy may end.
pub data Loaded (part : Image) (psram_pa size : ℕ) (mem : Memory)
    : Option (EspErr × Memory) → Type 0 where
  whole :
      (mem' : Memory)
      → ((k : ℕ) → k * page < size → is_ok (part.mmap (k * page)) ≡ true)
      → Holds part psram_pa size mem mem'
      → Loaded part psram_pa size mem (some (esp_ok, mem'))
  stopped :
      (mem' : Memory) (k : ℕ)
      → k * page < size
      → ((i : ℕ) → i < k → is_ok (part.mmap (i * page)) ≡ true)
      → is_ok (part.mmap (k * page)) ≡ false
      → Holds part psram_pa (k * page) mem mem'
      → Loaded part psram_pa size mem (some (part.mmap (k * page), mem'))

page_of : (k : ℕ) → k * page < 2 ^ 32 → bit_and (k * page) (not32 (page - 1)) ≡ k * page
page_of k h =
    omega (arith, bit_and_shifted 16 (k * page) 0xffff, bit_and_mask 16 (k * page / 2 ^ 16))

-- A page more.
Holds-more :
    (part : Image) (psram_pa done n : ℕ) (mem m : Memory)
    → psram_pa < 2 ^ 32
    → done + n < 2 ^ 32
    → Holds part psram_pa done mem m
    → Holds part psram_pa
        (done + n)
        mem
        (copy_in m (u32 (psram_pa + done)) n (λ i. part.content (done + i)))
unfolding copy_in
Holds-more part psram_pa done n mem m a b h j l =
    let k = sub32 j psram_pa in
    let k' = sub32 j (u32 (psram_pa + done)) in
    elim (Bool-cases (ltb k' n)) [
      | inl e ↦
          let here : k ≡ done + k' = omega (arith, ltb→lt k' n e) in
          let within : ltb k (done + n) ≡ true =
            lt→ltb k (done + n) (omega (arith, ltb→lt k' n e)) in
          rw (e, within) (ap part.content (sym here))
      | inr e ↦
          let past : n ≤ k' = ground (arith, e) in
          rw e (h j l ∙ ap (λ t. if t then part.content k else mem j) (same past))
    ]
  where
    same :
        n ≤ sub32 j (u32 (psram_pa + done))
        → ltb (sub32 j psram_pa) done ≡ ltb (sub32 j psram_pa) (done + n)
    same past = elim (dec_lt (sub32 j psram_pa) done) [
      | yes p ↦ lt→ltb _ _ p ∙ sym (lt→ltb _ _ (omega arith))
      | no p ↦ let far : done + n ≤ sub32 j psram_pa = omega (arith, p) in ground arith
    ]

load_from-Loaded :
    (fuel k done : ℕ) (part : Image) (psram_pa size : ℕ) (mem m : Memory)
    → psram_pa < 2 ^ 32
    → size < 2 ^ 32
    → done ≡ min (k * page) size
    → size + page ≤ done + fuel * page
    → ((i : ℕ) → i < k → is_ok (part.mmap (i * page)) ≡ true)
    → Holds part psram_pa done mem m
    → Loaded part psram_pa size mem (load_from fuel part psram_pa size done m)
unfolding load_from
load_from-Loaded zero k done part psram_pa size mem m a b d f ok h = absurd (omega arith)
load_from-Loaded (suc fuel) k done part psram_pa size mem m a b d f ok h = elim (dec_lt done size) [
  | no past ↦
      let over : ltb done size ≡ false = ground arith in
      let end : done ≡ size = omega arith in
      rw (load_from, over)
        (whole m (λ i l. ok i (omega arith)) (subst (λ n. Holds part psram_pa n mem m) end h))
  | yes more ↦
      let under : ltb done size ≡ true = ground arith in
      let here : done ≡ k * page = omega arith in
      let place : bit_and done (not32 (page - 1)) ≡ k * page =
        ap (λ x. bit_and x (not32 (page - 1))) here ∙ page_of k (omega arith) in
      let there : k * page + (done - k * page) ≡ done = omega arith in
      let n = min (page - (done - k * page)) (size - done) in
      let next : u32 (done + n) ≡ done + n = omega arith in
      elim (Bool-cases (is_ok (part.mmap (k * page)))) [
        | inr e ↦
            rw (load_from, under, place, e, place)
              (stopped m k (omega arith) ok e (subst (λ n. Holds part psram_pa n mem m) here h))
        | inl e ↦
            rw (load_from, under, place, e, place, there, next)
              (load_from-Loaded fuel (suc k) (done + n) part psram_pa size mem _ a b (omega arith)
                (omega arith) (more_ok e) (Holds-more part psram_pa done n mem m a (omega arith) h))
      ]
]
  where
    more_ok :
        is_ok (part.mmap (k * page)) ≡ true
        → (i : ℕ) → i < suc k
        → is_ok (part.mmap (i * page)) ≡ true
    more_ok e i l = elim (dec_lt i k) [
      | yes p ↦ ok i p
      | no p ↦ let last : i ≡ k = omega arith in ap (λ t. is_ok (part.mmap (t * page))) last ∙ e
    ]

-- The copy ends whatever its size: as one copy of the whole when every page can be mapped, and otherwise
-- with the error of the first page that cannot, the pages before it copied and no other byte changed.
pub load_partition_mmap-Loaded :
    (part : Image) (psram_pa size : ℕ) (mem : Memory)
    → psram_pa < 2 ^ 32
    → size < 2 ^ 32
    → Loaded part psram_pa size mem (load_partition_mmap part psram_pa size mem)
unfolding load_partition_mmap
load_partition_mmap-Loaded part psram_pa size mem a b =
    load_from-Loaded (size / page + 2) 0 0 part psram_pa size mem mem a b (omega arith)
      (omega arith) (λ i l. absurd (omega arith)) (λ j l. nothing j)
  where
    nothing : (j : ℕ) → mem j ≡ copy_in mem psram_pa 0 part.content j
    nothing j = unfold copy_in in ground arith
