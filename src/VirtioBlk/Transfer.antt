-- ===== src/VirtioBlk/Transfer.antt =====
-- The chunked transfer loop of main/hyp_virtio_blk.c against one copy of the whole range.
use esp32_p4_linux_hyperviso.Base.{
  ℕ, zero, suc, ◌+◌, ◌-◌, ◌*◌, ◌/◌, ◌%◌, ◌^◌, ◌≤◌, ◌<◌, ◌≡◌, ◌∙◌, refl, ap, Bool, true, false, some,
  min, ltb, u32, sub32, arith, Bool-cases, inl, inr,
}
use esp32_p4_linux_hyperviso.VirtioBlk.Ring.{Card, Store, copy_in}
use esp32_p4_linux_hyperviso.VirtioBlk.Service.{
  hyp_sd_read, transfer_chunk, transfer_on, blk_transfer, chunk_max,
}

-- A turn that succeeds goes on to the next chunk.
pub transfer_on_more :
    {S : Type 0}
    → (sd : Card S) (fuel : ℕ) (write : Bool) (sector buf len : ℕ) (st : Store S)
    → let n = min len chunk_max in
      let chunk = transfer_chunk sd write sector buf n st in
      ltb 0 len ≡ true
      → chunk.0 ≡ true
      → transfer_on sd (suc fuel) write sector buf len st
        ≡ transfer_on sd fuel write (u32 (sector + n / 512)) (u32 (buf + n)) (len - n) chunk.1
unfolding transfer_on
transfer_on_more sd fuel write sector buf len st e f = ground arith

-- The loop ends on its own within the fuel: one turn for each chunk.
transfer_on_returns :
    {S : Type 0}
    → (sd : Card S) (fuel : ℕ) (write : Bool) (sector buf len : ℕ) (st : Store S)
    → len ≤ fuel * chunk_max
    → (r : Bool × Store S) × (transfer_on sd fuel write sector buf len st ≡ some r)
unfolding transfer_on
transfer_on_returns sd zero write sector buf len st h = ((true, st), ground arith)
transfer_on_returns sd (suc fuel) write sector buf len st h = elim (Bool-cases (ltb 0 len)) [
  | inr e ↦ ((true, st), ground arith)
  | inl e ↦
      let n = min len chunk_max in
      let chunk = transfer_chunk sd write sector buf n st in
      elim (Bool-cases chunk.0) [
        | inr f ↦ ((false, chunk.1), ground arith)
        | inl f ↦
            let (r, k) =
              transfer_on_returns sd fuel write (u32 (sector + n / 512)) (u32 (buf + n)) (len - n)
                chunk.1 (omega arith) in
            (r, transfer_on_more sd fuel write sector buf len st e f ∙ k)
      ]
]

-- A card that is read without errors and whose bytes are `content`.
pub record Reads {S : Type 0} (sd : Card S) (content : S → ℕ → ℕ) : Type 0 where
  pub bytes : S → ℕ → ℕ → ℕ → ℕ
  pub reads :
      (s : S) (sector count : ℕ) → sd.read_sectors s sector count ≡ some (bytes s sector count)
  pub right :
      (s : S) (sector count i : ℕ)
      → i < count * 512
      → bytes s sector count i ≡ content s (512 * sector + i)

module _ {S : Type 0} (sd : Card S) (content : S → ℕ → ℕ) (good : Reads sd content) where
  read_chunk :
      (sector buf n : ℕ) (st : Store S)
      → st.ready ≡ true
      → transfer_chunk sd false sector buf n st ≡ (
        true,
        record st { memory = copy_in st.memory buf n (good.bytes st.card sector (n / 512)) },
      )
  unfolding transfer_chunk hyp_sd_read
  read_chunk sector buf n st h = rw (h, good.reads st.card sector (n / 512)) refl

  -- What a transfer of `len` bytes from the card is to leave in memory.
  abbrev pub Copied : ℕ → ℕ → ℕ → Store S → Store S → Type 0
  Copied sector buf len st st' =
      (j : ℕ)
      → j < 2 ^ 32
      → st'.memory j ≡ copy_in st.memory buf len (λ i. content st.card (512 * sector + i)) j

  -- The first chunk and the rest make the whole.
  Copied-chunk :
      (sector buf len n : ℕ) (st st' : Store S)
      → n ≤ len
      → n % 512 ≡ 0
      → len % 512 ≡ 0
      → buf + len ≤ 2 ^ 32
      → sector + len / 512 ≤ 2 ^ 32
      → Copied
          (u32 (sector + n / 512))
          (u32 (buf + n))
          (len - n)
          (record st { memory = copy_in st.memory buf n (good.bytes st.card sector (n / 512)) })
          st'
      → Copied sector buf len st st'
  unfolding copy_in
  Copied-chunk sector buf len n st st' l d d' b s rest j h =
      let k = sub32 j buf in
      let k' = sub32 j (u32 (buf + n)) in
      let first : k < n → len - n ≤ k' = λ e. omega arith in
      let past : len ≤ k → len - n ≤ k' = λ e. omega arith in
      let inside : n ≤ k → k < len → k' + n ≡ k = λ e f. omega arith in
      let whole : n / 512 * 512 ≡ n = omega arith in
      elim (Bool-cases (ltb k n)) [
        | inl e ↦ rest j h ∙ ground (arith, good.right st.card sector (n / 512) k)
        | inr e ↦ elim (Bool-cases (ltb k len)) [
          | inr f ↦ rest j h ∙ ground arith
          | inl f ↦
              let low : n ≤ k = ground arith in
              let high : k < len = ground arith in
              let same : 512 * u32 (sector + n / 512) + k' ≡ 512 * sector + k =
                omega (arith, inside low high) in
              rest j h ∙ ground (arith, ap (content st.card) same)
        ]
      ]

  transfer_on-Copied :
      (fuel sector buf len : ℕ) (st : Store S)
      → len ≤ fuel * chunk_max
      → st.ready ≡ true
      → len % 512 ≡ 0
      → buf + len ≤ 2 ^ 32
      → sector + len / 512 ≤ 2 ^ 32
      → (st' : Store S) × (transfer_on sd fuel false sector buf len st ≡ some (true, st'))
        × (st'.card ≡ st.card)
        × Copied sector buf len st st'
  unfolding transfer_on copy_in
  transfer_on-Copied zero sector buf len st f r d b s =
      (st, ground arith, refl, λ j h. ground arith)
  transfer_on-Copied (suc fuel) sector buf len st f r d b s = elim (Bool-cases (ltb 0 len)) [
    | inr e ↦ (st, ground arith, refl, λ j h. ground arith)
    | inl e ↦
        let n = min len chunk_max in
        let (st', k, c, m) =
          transfer_on-Copied fuel (u32 (sector + n / 512)) (u32 (buf + n)) (len - n)
            (record st { memory = copy_in st.memory buf n (good.bytes st.card sector (n / 512)) })
            (omega arith) r (omega arith) (omega arith) (omega arith) in
        (
          st',
          transfer_on_more sd fuel false sector buf len st e
                (ap (λ z. z.0) (read_chunk sector buf n st r))
              ∙ ap
                  (λ z.
                    transfer_on sd fuel false (u32 (sector + n / 512)) (u32 (buf + n)) (len - n)
                      z.1)
                  (read_chunk sector buf n st r)
              ∙ k,
          c,
          Copied-chunk sector buf len n st st' (omega arith) (omega arith) d b s m,
        )
  ]

-- A transfer always comes to an end, whatever the card answers.
pub blk_transfer-returns :
    {S : Type 0}
    → (sd : Card S) (write : Bool) (sector buf len : ℕ) (st : Store S)
    → (r : Bool × Store S) × (blk_transfer sd write sector buf len st ≡ some r)
unfolding blk_transfer
blk_transfer-returns sd write sector buf len st =
    transfer_on_returns sd (len / chunk_max + 1) write sector buf len st (omega arith)

-- From a card that is ready and reads without errors, a transfer of a whole number of sectors,
-- within memory and within the card's 32-bit sector numbers, succeeds and leaves memory as one copy
-- of the whole range would: the card's bytes in the buffer, every other byte as it was.
pub blk_transfer_lem :
    {S : Type 0}
    → (sd : Card S) (content : S → ℕ → ℕ) → Reads sd content
    → (sector buf len : ℕ) (st : Store S) → st.ready ≡ true
    → len % 512 ≡ 0
    → buf + len ≤ 2 ^ 32
    → sector + len / 512 ≤ 2 ^ 32
    → (st' : Store S) × (blk_transfer sd false sector buf len st ≡ some (true, st'))
      × (st'.card ≡ st.card)
      × ((j : ℕ)
          → j < 2 ^ 32
          → st'.memory j ≡ copy_in st.memory buf len (λ i. content st.card (512 * sector + i)) j)
unfolding blk_transfer
blk_transfer_lem sd content good sector buf len st =
    transfer_on-Copied sd content good (len / chunk_max + 1) sector buf len st (omega arith)
