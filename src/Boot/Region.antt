-- ===== src/Boot/Region.antt =====
-- The addresses that the PMP entry opens, by the architecture's NAPOT rule.
use esp32_p4_linux_hyperviso.Base.{
  ℕ, zero, suc, ◌+◌, ◌-◌, ◌*◌, ◌/◌, ◌%◌, ◌^◌, ◌≤◌, ◌<◌, ◌≡◌, ◌≢◌, ◌↔◌, inl, inr, refl, sym, ap, ap₂,
  ◌∙◌, Bool, true, false, not, ◌||◌, bit_and, bit_or, ltb, ◌==◌, has, ◌>>◌, sub32, if◌then◌else◌,
  Bool-cases, arith, ==_refl,
}
use native.Mathlib.Nat.{
  pow-suc, one-le-pow, mul_assoc, mul_comm, add-mul, div-eq_of_lt-le, div-mul-le_self,
  lt-div-mul-add, mod-add-div,
}
use native.Mathlib.Decide.{dec_lt, ℕ_discrete}
use esp32_p4_linux_hyperviso.Base.Bits.{pow_mono, bit_and_step, bit_and_mask, bit_or_fields}
use esp32_p4_linux_hyperviso.Boot.{EspErr, esp_ok, esp_fail, invalid_arg, invalid_state}
use esp32_p4_linux_hyperviso.Boot.Pmp.{PmpEntry, pmp_l, pmp_rwx_napot, pmp_set_rwx_region}

-- How many of the low bits are set, of at most `w`.
abbrev pub trailing_ones : ℕ → ℕ → ℕ
trailing_ones zero a = 0
trailing_ones (suc w) a = if a % 2 == 1 then suc (trailing_ones w (a / 2)) else 0

-- A NAPOT register with t trailing ones matches the addresses of its naturally aligned 2 ^ (t + 3)
-- bytes.
abbrev pub matches : ℕ → ℕ → Bool
matches addr x = let t = trailing_ones 32 addr in x / 2 ^ suc (suc (suc t)) == addr / 2 ^ suc t

bit_and_self : (fuel x : ℕ) → x ≤ fuel → bit_and x x ≡ x
bit_and_self zero x h = let z : x ≡ 0 = omega arith in rw z refl
bit_and_self (suc fuel) x h = elim (dec_lt x 1) [
  | yes l ↦ let z : x ≡ 0 = omega arith in rw z refl
  | no g ↦ omega (arith, bit_and_step x x, bit_and_self fuel (x / 2) (omega arith))
]

-- A number that shares no bit with its predecessor is a power of two.
power_of_two : (fuel x : ℕ) → x ≤ fuel → 1 ≤ x → bit_and x (x - 1) ≡ 0 → (n : ℕ) × (x ≡ 2 ^ n)
power_of_two zero x h l e = absurd (omega arith)
power_of_two (suc fuel) x h l e = elim (ℕ_discrete (x % 2) 1) [
  | yes odd ↦
      let same : (x - 1) / 2 ≡ x / 2 = omega arith in
      let halves = bit_and_step x (x - 1) in
      let self = bit_and_self x (x / 2) (omega arith) in
      let none : bit_and (x / 2) ((x - 1) / 2) ≡ 0 = omega (arith, halves, e) in
      let one : x / 2 ≡ 0 = sym self ∙ ap (bit_and (x / 2)) (sym same) ∙ none in (0, omega arith)
  | no even ↦
      let pred : (x - 1) / 2 ≡ x / 2 - 1 = omega arith in
      let halves = bit_and_step x (x - 1) in
      let none : bit_and (x / 2) ((x - 1) / 2) ≡ 0 = omega (arith, halves, e) in
      let (n, p) =
        power_of_two fuel (x / 2) (omega arith) (omega arith)
          (ap (bit_and (x / 2)) (sym pred) ∙ none) in
      (suc n, omega (arith, p, pow-suc 2 n))
]

-- q * 2 ^ (n + 1) as an even multiple.
doubled : (q n : ℕ) → q * 2 ^ suc n ≡ q * 2 ^ n * 2
doubled q n = ap (λ m. q * m) (pow-suc 2 n) ∙ sym (mul_assoc q (2 ^ n) 2)

trailing_lem : (w n q : ℕ) → n < w → trailing_ones w (q * 2 ^ suc n + (2 ^ n - 1)) ≡ n
trailing_lem zero n q h = absurd (omega arith)
trailing_lem (suc w) zero q h = let even : (q * 2 + 0) % 2 ≡ 0 = omega arith in rw even refl
trailing_lem (suc w) (suc n) q h =
    let odd : (q * 2 ^ suc (suc n) + (2 ^ suc n - 1)) % 2 ≡ 1 =
      omega (arith, doubled q (suc n), pow-suc 2 n, one-le-pow n 2 (omega arith)) in
    let half : (q * 2 ^ suc (suc n) + (2 ^ suc n - 1)) / 2 ≡ q * 2 ^ suc n + (2 ^ n - 1) =
      omega (arith, doubled q (suc n), pow-suc 2 n, one-le-pow n 2 (omega arith)) in
    rw (odd, half) (ap suc (trailing_lem w n q (omega arith)))

-- The register that encodes 2 ^ (n + 3) bytes from q times that on.
abbrev pub napot : ℕ → ℕ → ℕ
napot q n = q * 2 ^ suc n + (2 ^ n - 1)

pub matches-napot :
    (q n x : ℕ)
    → n < 32
    → (matches (napot q n) x ≡ true)
      ↔ ((q * 2 ^ suc (suc (suc n)) ≤ x) × (x < q * 2 ^ suc (suc (suc n)) + 2 ^ suc (suc (suc n))))
matches-napot q n x h =
    let t = trailing_lem 32 n q h in
    let pos = one-le-pow n 2 (omega arith) in
    let pos' = one-le-pow (suc (suc (suc n))) 2 (omega arith) in
    let block : napot q n / 2 ^ suc n ≡ q =
      div-eq_of_lt-le (2 ^ suc n) (omega arith)
        (omega (arith, pow-suc 2 n, pos, add-mul q 1 (2 ^ suc n))) in
    rw (t, block)
      (
        λ e.
            let d : x / 2 ^ suc (suc (suc n)) ≡ q = ground (arith, e) in
            let times = ap (λ m. m * 2 ^ suc (suc (suc n))) d in
            let low = div-mul-le_self x (2 ^ suc (suc (suc n))) in
            let high = lt-div-mul-add {a = x} {b = 2 ^ suc (suc (suc n))} pos' in
            (omega (arith, low, times), omega (arith, high, times)),
        λ e.
            let d : x / 2 ^ suc (suc (suc n)) ≡ q =
              div-eq_of_lt-le (2 ^ suc (suc (suc n))) e.0
                (omega (arith, e.1, add-mul q 1 (2 ^ suc (suc (suc n))))) in
            rw d (==_refl q),
      )

encode_lem :
    (q n : ℕ) → bit_or (q * 2 ^ suc (suc (suc n))) ((2 ^ suc (suc (suc n)) - 1) / 2) / 4 ≡ napot q n
encode_lem q n =
    let eight : 2 ^ suc (suc (suc n)) ≡ 2 ^ n * 2 * 2 * 2 =
      omega (arith, pow-suc 2 (suc (suc n)), pow-suc 2 (suc n), pow-suc 2 n) in
    let pos = one-le-pow n 2 (omega arith) in
    let fields =
      bit_or_fields (suc (suc (suc n))) q ((2 ^ suc (suc (suc n)) - 1) / 2) (omega arith) in
    omega (
      arith,
      fields,
      doubled q n,
      doubled q (suc n),
      doubled q (suc (suc n)),
      eight,
      pos,
      pow-suc 2 n,
    )

encoded :
    (base size : ℕ)
    → size < 2 ^ 32
    → 8 ≤ size
    → bit_and size (sub32 size 1) ≡ 0
    → bit_and base (sub32 size 1) ≡ 0
    → (q : ℕ) × (n : ℕ) × (n < 32)
      × (base ≡ q * 2 ^ suc (suc (suc n)))
      × (size ≡ 2 ^ suc (suc (suc n)))
      × (bit_or base (sub32 size 1 >> 1) >> 2 ≡ napot q n)
encoded base size b h p a =
    let less : sub32 size 1 ≡ size - 1 = omega arith in
    let (k, e) =
      power_of_two size size (omega arith) (omega arith) (ap (bit_and size) (sym less) ∙ p) in
    let big : 3 ≤ k = elim (dec_lt k 3) [
      | yes l ↦ absurd (omega (arith, pow_mono k 2 (omega arith), e))
      | no g ↦ omega arith
    ] in
    let n = k - 3 in
    let kn : k ≡ suc (suc (suc n)) = omega arith in
    let sn : size ≡ 2 ^ suc (suc (suc n)) = e ∙ ap (λ m. 2 ^ m) kn in
    let small : n < 32 = elim (dec_lt n 32) [
      | yes l ↦ l
      | no g ↦ absurd (omega (arith, pow_mono 32 (suc (suc (suc n))) (omega arith), sn))
    ] in
    let q = base / 2 ^ suc (suc (suc n)) in
    let mask : sub32 size 1 ≡ 2 ^ suc (suc (suc n)) - 1 = omega arith in
    let aligned : base % 2 ^ suc (suc (suc n)) ≡ 0 =
      sym (bit_and_mask (suc (suc (suc n))) base) ∙ ap (bit_and base) (sym mask) ∙ a in
    let whole : base ≡ q * 2 ^ suc (suc (suc n)) =
      omega (arith, mod-add-div base (2 ^ suc (suc (suc n))), mul_comm (2 ^ suc (suc (suc n))) q) in
    let field : bit_or base (sub32 size 1 >> 1)
        ≡ bit_or (q * 2 ^ suc (suc (suc n))) ((2 ^ suc (suc (suc n)) - 1) / 2) =
      ap₂ bit_or whole (ap (λ m. m / 2) mask) in
    (q, n, small, whole, sn, ap (λ m. m / 4) field ∙ encode_lem q n)

region :
    {base size : ℕ} (q n a : ℕ)
    → n < 32
    → base ≡ q * 2 ^ suc (suc (suc n))
    → size ≡ 2 ^ suc (suc (suc n))
    → a ≡ napot q n
    → (x : ℕ) → (matches a x ≡ true) ↔ ((base ≤ x) × (x < base + size))
region q n a h b s e x = rw (b, s, e) (matches-napot q n x h)

-- What an attempt to open a window leaves, by its result.
pub data Opened (base size : ℕ) (e : PmpEntry) : EspErr × PmpEntry → Type 0 where
  bad_window : Opened base size e (invalid_arg, e)
  locked : has e.cfg pmp_l ≡ true → Opened base size e (invalid_state, e)
  unsettled : (e' : PmpEntry) → e'.cfg ≢ pmp_rwx_napot → Opened base size e (esp_fail, e')
  opened :
      (e' : PmpEntry)
      → has e.cfg pmp_l ≡ false
      → e'.cfg ≡ pmp_rwx_napot
      → ((x : ℕ) → (matches e'.addr x ≡ true) ↔ ((base ≤ x) × (x < base + size)))
      → Opened base size e (esp_ok, e')

-- However the attempt to open a window of the guest's memory ends, its result says what it left. With
-- ESP_OK the entry was not locked, it now reads, writes and executes, and by the architecture's rule
-- it matches the addresses of the window and no others. An invalid argument or a locked entry leaves
-- the entry as it was, and ESP_FAIL an entry without the permissions asked for.
pub pmp_set_rwx_region-Opened :
    (settle : ℕ → ℕ) (base size : ℕ) (e : PmpEntry)
    → size < 2 ^ 32
    → Opened base size e (pmp_set_rwx_region settle base size e)
unfolding pmp_set_rwx_region
pmp_set_rwx_region-Opened settle base size e b =
    let bad =
      ltb size 8
      || not (bit_and size (sub32 size 1) == 0)
      || not (bit_and base (sub32 size 1) == 0) in
    elim (Bool-cases bad) [
      | inl f ↦ rw (pmp_set_rwx_region, f) bad_window
      | inr f ↦ elim (Bool-cases (has e.cfg pmp_l)) [
        | inl l ↦ rw (pmp_set_rwx_region, f, l) (locked l)
        | inr l ↦ elim (Bool-cases (settle 0x1f == 0x1f)) [
          | inr s ↦ rw (pmp_set_rwx_region, f, l, s) (unsettled _ (λ z. ground (arith, s, z)))
          | inl s ↦
              let (q, n, small, whole, power, reg) =
                encoded base size b (ground (arith, f)) (ground (arith, f)) (ground (arith, f)) in
              rw (pmp_set_rwx_region, f, l, s)
                (opened _ l (ground (arith, s)) (region q n _ small whole power reg))
        ]
      ]
    ]
