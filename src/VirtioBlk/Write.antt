-- ===== src/VirtioBlk/Write.antt =====
-- A transfer to the card against one write of the whole range.
use esp32_p4_linux_hyperviso.Base.{
  ℕ, zero, suc, ◌+◌, ◌-◌, ◌*◌, ◌/◌, ◌%◌, ◌^◌, ◌≤◌, ◌<◌, ◌≡◌, ◌∙◌, ◌⊎◌, refl, ap, Bool, true, ◌&&◌,
  Option, some, min, ltb, leb, u32, arith, Bool-cases, inl, inr, if◌then◌else◌,
}
use esp32_p4_linux_hyperviso.VirtioBlk.Ring.{Card, Store}
use esp32_p4_linux_hyperviso.VirtioBlk.Service.{
  hyp_sd_write, transfer_chunk, transfer_on, blk_transfer, chunk_max,
}
use esp32_p4_linux_hyperviso.VirtioBlk.Transfer.{transfer_on_more}

-- The bytes of a card after `n` of them, from `at` on, are replaced by a source's.
abbrev pub overwrite : (ℕ → ℕ) → ℕ → ℕ → (ℕ → ℕ) → ℕ → ℕ
overwrite content at n source i = if leb at i && ltb i (at + n) then source (i - at) else content i

-- A card that takes every write, and keeps what it is given.
pub record Writes {S : Type 0} (sd : Card S) (content : S → ℕ → ℕ) : Type 0 where
  pub takes :
      (s : S) (sector count : ℕ) (source : ℕ → ℕ)
      → (sd.write_sectors s sector count source).0 ≡ true
  pub keeps :
      (s : S) (sector count : ℕ) (source : ℕ → ℕ) (i : ℕ)
      → content (sd.write_sectors s sector count source).1 i
        ≡ overwrite (content s) (512 * sector) (512 * count) source i

module _ {S : Type 0} (sd : Card S) (content : S → ℕ → ℕ) (good : Writes sd content) where
  -- What a transfer of `len` bytes to the card is to leave on it; nothing else changes.
  pub record Kept (sector buf len : ℕ) (st st' : Store S) : Type 0 where
    pub same : st' ≡ record st { card = st'.card }
    pub card :
        (i : ℕ)
        → content st'.card i
          ≡ overwrite (content st.card) (512 * sector) len (λ k. st.memory (u32 (buf + k))) i

  after_chunk : ℕ → ℕ → ℕ → Store S → Store S
  after_chunk sector buf n st = record st {
    card = (sd.write_sectors st.card sector (n / 512) (λ i. st.memory (u32 (buf + i)))).1;
  }

  write_chunk :
      (sector buf n : ℕ) (st : Store S)
      → st.ready ≡ true
      → transfer_chunk sd true sector buf n st ≡ (true, after_chunk sector buf n st)
  unfolding transfer_chunk hyp_sd_write after_chunk
  write_chunk sector buf n st h =
      rw (h, good.takes st.card sector (n / 512) (λ i. st.memory (u32 (buf + i)))) refl

  -- The first chunk and the rest make the whole.
  Kept-chunk :
      (sector buf len n : ℕ) (st st' : Store S)
      → n ≤ len
      → n % 512 ≡ 0
      → len % 512 ≡ 0
      → sector + len / 512 ≤ 2 ^ 32
      → Kept (u32 (sector + n / 512)) (u32 (buf + n)) (len - n) (after_chunk sector buf n st) st'
      → Kept sector buf len st st'
  unfolding after_chunk
  Kept-chunk sector buf len n st st' l d d' s rest = record {
    same = rest.same;
    card = λ i.
        let at = 512 * u32 (sector + n / 512) in
        let whole : 512 * (n / 512) ≡ n = omega arith in
        let source : ℕ → ℕ = λ k. st.memory (u32 (buf + k)) in
        let kept = good.keeps st.card sector (n / 512) source i in
        rest.card i ∙ elim (Bool-cases (leb at i && ltb i (at + (len - n)))) [
          | inl e ↦
              let low : at ≤ i = ground (arith, e) in
              let high : i < at + (len - n) = ground (arith, e) in
              let place : at ≡ 512 * sector + n = omega arith in
              let same : u32 (u32 (buf + n) + (i - at)) ≡ u32 (buf + (i - 512 * sector)) =
                omega arith in
              ground (arith, e, ap st.memory same, low, high, place)
          | inr e ↦
              let out : (len - n ≡ 0) ⊎ (i < at) ⊎ (at + (len - n) ≤ i) = ground (arith, e) in
              let place : (len - n ≡ 0) ⊎ (at ≡ 512 * sector + n) = omega arith in
              ground (arith, e, kept, whole, out, place)
        ];
  }

  Kept-none : (sector buf len : ℕ) (st : Store S) → len ≡ 0 → Kept sector buf len st st
  Kept-none sector buf len st h = record { same = refl; card = λ i. ground (arith, h) }

  transfer_on-Kept :
      (fuel sector buf len : ℕ) (st : Store S)
      → len ≤ fuel * chunk_max
      → st.ready ≡ true
      → len % 512 ≡ 0
      → sector + len / 512 ≤ 2 ^ 32
      → (st' : Store S) × (transfer_on sd fuel true sector buf len st ≡ some (true, st'))
        × Kept sector buf len st st'
  unfolding transfer_on after_chunk
  transfer_on-Kept zero sector buf len st f r d s =
      (st, ground arith, Kept-none sector buf len st (omega arith))
  transfer_on-Kept (suc fuel) sector buf len st f r d s = elim (Bool-cases (ltb 0 len)) [
    | inr e ↦ (st, ground arith, Kept-none sector buf len st (ground (arith, e)))
    | inl e ↦
        let n = min len chunk_max in
        let chunk = write_chunk sector buf n st r in
        let onward : Bool × Store S → Option (Bool × Store S) =
          λ z. transfer_on sd fuel true (u32 (sector + n / 512)) (u32 (buf + n)) (len - n) z.1 in
        let (st', k, m) =
          transfer_on-Kept fuel (u32 (sector + n / 512)) (u32 (buf + n)) (len - n)
            (after_chunk sector buf n st) (omega arith) r (omega arith) (omega arith) in
        (
          st',
          transfer_on_more sd fuel true sector buf len st e (ap (λ z. z.0) chunk)
              ∙ ap onward chunk
              ∙ k,
          Kept-chunk sector buf len n st st' (omega arith) (omega arith) d s m,
        )
  ]

  -- The whole transfer succeeds, and leaves the card as one write of the whole range would.
  pub blk_transfer-Kept :
      (sector buf len : ℕ) (st : Store S)
      → st.ready ≡ true
      → len % 512 ≡ 0
      → sector + len / 512 ≤ 2 ^ 32
      → (st' : Store S) × (blk_transfer sd true sector buf len st ≡ some (true, st'))
        × Kept sector buf len st st'
  unfolding blk_transfer
  blk_transfer-Kept sector buf len st =
      transfer_on-Kept (len / chunk_max + 1) sector buf len st (omega arith)
