-- ===== src/Plic/Peek.antt =====
-- `plic_peek` finds the claimable source of highest priority, the lowest one among equals.
use esp32_p4_linux_hyperviso.Base.{
  ℕ, zero, suc, ◌+◌, ◌≤◌, ◌<◌, ◌≡◌, ◌≢◌, true, false, get_or, bit, arith, Bool-cases, inl, inr,
  if◌then◌else◌, ◌∙◌, sym,
}
use esp32_p4_linux_hyperviso.Base.Bits.{bit-lt}
use mathlib.Core.Path.{subst}
use native.Mathlib.Decide.{dec_lt}
use esp32_p4_linux_hyperviso.Plic.{Plic, is_candidate, peek_from, plic_peek, plic_max_source}
use esp32_p4_linux_hyperviso.Plic.Bit.{has-shift}

abbrev pub priority_of : Plic → ℕ → ℕ
priority_of plic n = get_or plic.priority n 0

-- Source `n` may be claimed: pending, enabled, not in service, and above the threshold.
pub record Claimable (plic : Plic) (n : ℕ) : Type 0 where
  pub source_pos : 1 ≤ n
  pub source_le : n ≤ plic_max_source
  pub pending : bit plic.pending n ≡ 1
  pub enabled : bit plic.enable n ≡ 1
  pub idle : bit plic.claimed n ≡ 0
  pub above : plic.threshold < priority_of plic n

-- What is known once the sources below `n` have been looked at.
record Scanned (plic : Plic) (n best best_priority : ℕ) : Type 0 where
  above : plic.threshold ≤ best_priority
  empty : best ≡ 0 → best_priority ≡ plic.threshold
  found : best ≢ 0 → Claimable plic best
  priority : best ≢ 0 → priority_of plic best ≡ best_priority
  before : best < n
  top :
      (m : ℕ)
      → m < n
      → Claimable plic m
      → (priority_of plic m ≤ best_priority) × (priority_of plic m ≡ best_priority → best ≤ m)

candidate-Claimable :
    (plic : Plic) (n best_priority : ℕ)
    → 1 ≤ n
    → n ≤ plic_max_source
    → plic.threshold ≤ best_priority
    → is_candidate plic n best_priority ≡ true
    → Claimable plic n × (best_priority < priority_of plic n)
candidate-Claimable plic n best_priority l h t c = ground (
  arith,
  has-shift plic.pending n,
  has-shift plic.enable n,
  has-shift plic.claimed n,
  bit-lt plic.claimed n,
)

Claimable-candidate :
    (plic : Plic) (n best_priority : ℕ)
    → is_candidate plic n best_priority ≡ false
    → Claimable plic n
    → priority_of plic n ≤ best_priority
Claimable-candidate plic n best_priority c k =
    ground (arith, has-shift plic.pending n, has-shift plic.enable n, has-shift plic.claimed n)

-- Looking at source `n` keeps what is known, and adds source `n` to it.
Scanned-hit :
    (plic : Plic) (n best best_priority : ℕ)
    → 1 ≤ n
    → n ≤ plic_max_source
    → is_candidate plic n best_priority ≡ true
    → Scanned plic n best best_priority
    → Scanned plic (n + 1) n (priority_of plic n)
Scanned-hit plic n best best_priority l h c s =
    let (claimable, higher) = candidate-Claimable plic n best_priority l h s.above c in
    record {
      above = omega arith;
      empty = λ e. absurd (omega arith);
      found = λ _. claimable;
      priority = λ _. omega arith;
      before = omega arith;
      top = λ m lt k. elim (dec_lt m n) [
        | yes p ↦ ground (arith, s.top m p k)
        | no p ↦ let e : m ≡ n = omega arith in rw e (omega arith, λ _. omega arith)
      ];
    }

Scanned-miss :
    (plic : Plic) (n best best_priority : ℕ)
    → is_candidate plic n best_priority ≡ false
    → Scanned plic n best best_priority
    → Scanned plic (n + 1) best best_priority
Scanned-miss plic n best best_priority c s = record {
  above = s.above;
  empty = s.empty;
  found = s.found;
  priority = s.priority;
  before = omega (arith, s.before);
  top = λ m lt k. elim (dec_lt m n) [
    | yes p ↦ s.top m p k
    | no p ↦
        let e : n ≡ m = omega arith in
        (Claimable-candidate plic m best_priority (rw e at c) k, λ _. omega (arith, s.before))
  ];
}

peek_from-Scanned :
    (plic : Plic) (left n best best_priority : ℕ)
    → 1 ≤ n
    → n + left ≡ 32
    → Scanned plic n best best_priority
    → (bp : ℕ) × Scanned plic 32 (peek_from plic left n best best_priority) bp
unfolding peek_from
peek_from-Scanned plic zero n best best_priority l e s =
    (best_priority, subst (λ (k : ℕ). Scanned plic k best best_priority) (omega arith) s)
peek_from-Scanned plic (suc left) n best best_priority l e s =
    elim (Bool-cases (is_candidate plic n best_priority)) [
      | inl c ↦
          rw (c, if◌then◌else◌)
            (peek_from-Scanned plic left (n + 1) n (priority_of plic n) (omega arith) (omega arith)
              (Scanned-hit plic n best best_priority l (omega arith) c s))
      | inr c ↦
          rw (c, if◌then◌else◌)
            (peek_from-Scanned plic left (n + 1) best best_priority (omega arith) (omega arith)
              (Scanned-miss plic n best best_priority c s))
    ]

plic_peek-Scanned : (plic : Plic) → (bp : ℕ) × Scanned plic 32 (plic_peek plic) bp
unfolding plic_peek
plic_peek-Scanned plic =
    peek_from-Scanned plic 31 1 0 plic.threshold (omega arith) (omega arith) start
  where
    start : Scanned plic 1 0 plic.threshold
    start = record {
      above = omega arith;
      empty = λ e. omega arith;
      found = λ e. absurd (omega arith);
      priority = λ e. absurd (omega arith);
      before = omega arith;
      top = λ m l k. absurd (omega (arith, k.source_pos));
    }

-- `plic_peek` answers a source that may be claimed now whenever there is one, and 0 exactly when
-- there is none. No claimable source has a higher priority than the answer, and none of the same
-- priority has a lower number.
pub plic_peek_lem :
    (plic : Plic)
    → (plic_peek plic ≢ 0 → Claimable plic (plic_peek plic))
      × (plic_peek plic ≡ 0 → (n : ℕ) → ¬ Claimable plic n)
      × ((n : ℕ)
          → Claimable plic n
          → (priority_of plic n ≤ priority_of plic (plic_peek plic))
            × (priority_of plic n ≡ priority_of plic (plic_peek plic) → plic_peek plic ≤ n))
plic_peek_lem plic =
    let (bp, s) = plic_peek-Scanned plic in
    let busy : (n : ℕ) → Claimable plic n → plic_peek plic ≢ 0 =
      λ n k e. absurd (omega (arith, s.top n (omega (arith, k.source_le)) k, s.empty e, k.above)) in
    (
      s.found,
      λ e n k. busy n k e,
      λ n k. (
        omega (arith, s.top n (omega (arith, k.source_le)) k, s.priority (busy n k)),
        λ e. (s.top n (omega (arith, k.source_le)) k).1 (e ∙ s.priority (busy n k)),
      ),
    )

pub plic_peek-lt : (plic : Plic) → plic_peek plic < 32
plic_peek-lt plic = (plic_peek-Scanned plic).1.before

-- A source is what `plic_peek` answers only while it is pending, enabled and not in service.
pub plic_peek-ne : (plic : Plic) (n : ℕ) → n ≢ 0 → bit plic.claimed n ≡ 1 → plic_peek plic ≢ n
plic_peek-ne plic n h c e =
    let k = (plic_peek_lem plic).0 (λ z. h (sym e ∙ z)) in
    let i : bit plic.claimed n ≡ 0 = rw (← e) k.idle in absurd (omega arith)
