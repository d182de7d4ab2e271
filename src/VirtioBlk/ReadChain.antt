-- ===== src/VirtioBlk/ReadChain.antt =====
-- A request to read, on a chain of descriptors that ends and whose buffers are clear of the table.
use esp32_p4_linux_hyperviso.Base.{
  ℕ, zero, suc, ◌+◌, ◌-◌, ◌*◌, ◌/◌, ◌%◌, ◌^◌, ◌≤◌, ◌<◌, ◌≡◌, ◌≢◌, ◌∙◌, refl, ap, ap₂, Bool, true,
  false, some, none, List, [], ◌∷◌, length, has, min, ltb, ◌==◌, u8, u32, sub32, arith, Bool-cases,
  Option-cases, inl, inr, if◌then◌else◌, Ensures, some-Ensures, none-Ensures,
}
use native.Mathlib.Nat.{mod-lt}
use esp32_p4_linux_hyperviso.Frame.{Memory, copy_in, load16, load32}
use esp32_p4_linux_hyperviso.VirtioBlk.{Blk}
use esp32_p4_linux_hyperviso.VirtioBlk.Ring.{Card, Store, VringDesc, descriptor, desc_table}
use esp32_p4_linux_hyperviso.VirtioBlk.Service.{
  Walk, hyp_sd_read, transfer_chunk, transfer_on, blk_transfer, blk_data, walk, count_read,
  put_status, request_end, blk_do_request, chunk_max,
}
use esp32_p4_linux_hyperviso.VirtioBlk.Transfer.{Reads, blk_transfer_lem}
use esp32_p4_linux_hyperviso.VirtioBlk.Chain.{Chain, ends, data_then, sectors, first_sector}

-- Two memories that agree on a table have the same descriptors.
load16-same :
    (mem mem' : Memory) (a : ℕ)
    → mem' a ≡ mem a
    → mem' (u32 (a + 1)) ≡ mem (u32 (a + 1))
    → load16 mem' a ≡ load16 mem a
load16-same mem mem' a e f = ap₂ (λ (x y : ℕ). u8 x + 256 * u8 y) e f

load32-same :
    (mem mem' : Memory) (at a : ℕ)
    → ((b : ℕ) → b < 2 ^ 32 → sub32 b at < 16 → mem' b ≡ mem b)
    → at < 2 ^ 32
    → a < 2 ^ 32
    → sub32 a at ≤ 12
    → load32 mem' a ≡ load32 mem a
load32-same mem mem' at a h l k m =
    ap₂ (λ (x y : ℕ). x + 2 ^ 16 * y)
      (load16-same mem mem' a (h a k (omega arith)) (h (u32 (a + 1)) (omega arith) (omega arith)))
      (load16-same mem mem' (u32 (a + 2)) (h (u32 (a + 2)) (omega arith) (omega arith))
        (h (u32 (u32 (a + 2) + 1)) (omega arith) (omega arith)))

-- An address of the descriptor table.
abbrev pub InTable : Blk → ℕ → Type 0
InTable blk j = sub32 j (desc_table blk) < 16 * blk.queue_num

descriptor-same :
    (mem mem' : Memory) (blk : Blk) (i : ℕ)
    → blk.queue_num ≢ 0
    → blk.queue_num < 2 ^ 16
    → ((j : ℕ) → j < 2 ^ 32 → InTable blk j → mem' j ≡ mem j)
    → descriptor mem' blk i ≡ descriptor mem blk i
unfolding descriptor
descriptor-same mem mem' blk i n s h =
    let table = desc_table blk in
    let at = u32 (table + 16 * (i % blk.queue_num)) in
    let near : (b : ℕ) → b < 2 ^ 32 → sub32 b at < 16 → mem' b ≡ mem b =
      λ b l k. h b l (inside b l k) in
    let table_there : at < 2 ^ 32 = omega arith in
    let word = λ (a : ℕ) (k : a < 2 ^ 32) (m : sub32 a at ≤ 12).
      load32-same mem mem' at a near table_there k m in
    let half = λ (a : ℕ) (k : a < 2 ^ 32) (m : sub32 a at ≤ 14).
      load16-same mem mem' a (near a k (omega arith))
        (near (u32 (a + 1)) (omega arith) (omega arith)) in
    rw
      (
        word at (omega arith) (omega arith),
        word (u32 (at + 8)) (omega arith) (omega arith),
        half (u32 (at + 12)) (omega arith) (omega arith),
        half (u32 (at + 14)) (omega arith) (omega arith),
      )
      refl
  where
    inside :
        (b : ℕ)
        → b < 2 ^ 32
        → sub32 b (u32 (desc_table blk + 16 * (i % blk.queue_num))) < 16
        → sub32 b (desc_table blk) < 16 * blk.queue_num
    inside b l k =
        let m : i % blk.queue_num < blk.queue_num = mod-lt i (omega arith) in omega (arith, m)

-- A read changes nothing of the store but its memory.
MemoryOnly : {S : Type 0} → Store S → Bool × Store S → Type 0
MemoryOnly st r = r.1 ≡ record st { memory = r.1.memory }

transfer_on-MemoryOnly :
    {S : Type 0}
    → (sd : Card S) (fuel sector buf len : ℕ) (st : Store S)
    → Ensures (MemoryOnly st) (transfer_on sd fuel false sector buf len st)
unfolding MemoryOnly transfer_on transfer_chunk
transfer_on-MemoryOnly sd zero sector buf len st = elim (Bool-cases (len == 0)) [
  | inl e ↦ rw (transfer_on, e) (some-Ensures (MemoryOnly st) _ refl)
  | inr e ↦ rw (transfer_on, e) (none-Ensures _)
]
transfer_on-MemoryOnly sd (suc fuel) sector buf len st = elim (Bool-cases (ltb 0 len)) [
  | inr e ↦ rw (transfer_on, e) (some-Ensures (MemoryOnly st) _ refl)
  | inl e ↦
      let n = min len chunk_max in
      elim (Option-cases (hyp_sd_read sd st sector (n / 512))) [
        | inl q ↦ rw (transfer_on, e, q, transfer_chunk, q) (some-Ensures (MemoryOnly st) _ refl)
        | inr (bytes, q) ↦
            let rest =
              transfer_on-MemoryOnly sd fuel (u32 (sector + n / 512)) (u32 (buf + n)) (len - n)
                (record st { memory = copy_in st.memory buf n bytes }) in
            rw (transfer_on, e, q, transfer_chunk, q) (record { law = λ a h. rest.law a h })
      ]
]

-- Every buffer lies within memory and clear of the table.
abbrev pub Clear : Blk → List VringDesc → Type 0
Clear blk [] = Unit {0}
Clear blk (d ∷ ds) =
    (d.addr + d.len ≤ 2 ^ 32)
    × ((j : ℕ) → j < 2 ^ 32 → InTable blk j → d.len ≤ sub32 j d.addr)
    × Clear blk ds

-- Memory once the card's bytes are read into each buffer, one sector run behind the other.
abbrev pub read_through : (ℕ → ℕ) → List VringDesc → ℕ → Memory → Memory
read_through content [] sector mem = mem
read_through content (d ∷ ds) sector mem =
    read_through content ds (sector + d.len / 512)
      (copy_in mem d.addr d.len (λ i. content (512 * sector + i)))

read_through-same :
    (content : ℕ → ℕ) (ds : List VringDesc) (sector : ℕ) (mem mem' : Memory) (j : ℕ)
    → mem' j ≡ mem j
    → read_through content ds sector mem' j ≡ read_through content ds sector mem j
unfolding copy_in
read_through-same content [] sector mem mem' j h = h
read_through-same content (d ∷ ds) sector mem mem' j h =
    read_through-same content ds (sector + d.len / 512) _ _ j (
      ap (λ x. if ltb (sub32 j d.addr) d.len then content (512 * sector + sub32 j d.addr) else x) h)

-- The bytes of the data descriptors.
abbrev pub bytes_of : List VringDesc → ℕ
bytes_of [] = 0
bytes_of (d ∷ ds) = d.len + bytes_of ds

descriptor-count_read :
    (mem : Memory) (blk : Blk) (i : ℕ) → descriptor mem (count_read blk) i ≡ descriptor mem blk i
unfolding descriptor desc_table
descriptor-count_read mem blk i = refl

abbrev count_reads : ℕ → Blk → Blk
count_reads n blk = record blk { reads = u32 (blk.reads + n) }

module _ {S : Type 0} (sd : Card S) (content : S → ℕ → ℕ) (good : Reads sd content)
    (view : ℕ → VringDesc) where
  record Walked (ds : List VringDesc) (status sector : ℕ) (w w' : Walk S) : Type 0 where
    pub card : w'.store.card ≡ w.store.card
    pub ready : w'.store.ready ≡ w.store.ready
    pub blk : w'.store.blk ≡ count_reads (length ds) w.store.blk
    pub fine : w'.ok ≡ true
    pub found : w'.status ≡ some status
    pub written : w'.written ≡ u32 (w.written + bytes_of ds)
    pub memory :
        (j : ℕ)
        → j < 2 ^ 32
        → w'.store.memory j ≡ read_through (content w.store.card) ds sector w.store.memory j

  -- One data descriptor.
  data_step :
      (d : VringDesc) (w : Walk S)
      → w.store.ready ≡ true
      → d.len % 512 ≡ 0
      → d.addr + d.len ≤ 2 ^ 32
      → w.sector + d.len / 512 ≤ 2 ^ 32
      → (mem : Memory) × (blk_data sd 0 d.addr d.len w
          ≡ some (record w {
            ok = true;
            store = record (w.store) { memory = mem; blk = count_read w.store.blk };
            sector = u32 (w.sector + d.len / 512);
            written = u32 (w.written + d.len);
          }))
        × ((j : ℕ)
            → j < 2 ^ 32
            → mem j
              ≡ copy_in w.store.memory d.addr d.len
                  (λ i. content w.store.card (512 * w.sector + i))
                  j)
  unfolding blk_data blk_transfer MemoryOnly
  data_step d w r e a s =
      let (st, k, c, m) = blk_transfer_lem sd content good w.sector d.addr d.len w.store r e a s in
      let whole : (d.len % 512 == 0) ≡ true = ground (arith, e) in
      let only =
        (transfer_on-MemoryOnly sd (d.len / chunk_max + 1) w.sector d.addr d.len w.store).law _ k in
      let next : Store S → Walk S = λ x. record w {
        ok = true;
        store = record x { blk = count_read x.blk };
        sector = u32 (w.sector + d.len / 512);
        written = u32 (w.written + d.len);
      } in
      (st.memory, rw (blk_data, whole, k) (ap (λ x. some (next x)) only), m)

  walk_reads :
      (idx fuel : ℕ) (ds : List VringDesc) (status : ℕ) (w : Walk S)
      → Chain view idx ds status
      → ((i : ℕ) → descriptor w.store.memory w.store.blk i ≡ view i)
      → Clear w.store.blk ds
      → w.store.blk.queue_num ≢ 0
      → w.store.blk.queue_num < 2 ^ 16
      → length ds < fuel
      → w.ok ≡ true
      → w.store.ready ≡ true
      → w.store.blk.reads < 2 ^ 32
      → w.written < 2 ^ 32
      → w.sector + sectors ds < 2 ^ 32
      → (w' : Walk S) × (walk sd fuel 0 idx w ≡ some w') × Walked ds status w.sector w w'
  unfolding walk copy_in desc_table
  walk_reads idx zero ds status w c v a q z f k r n b s = absurd (omega arith)
  walk_reads idx (suc fuel) _ _ w (ends _ last) v a q z f k r n b s = (
    record w { status = some (view idx).addr },
    rw (walk, v idx, last, v idx) refl,
    record {
      card = refl;
      ready = refl;
      blk = ap (λ x. record (w.store.blk) { reads = x }) (omega arith);
      fine = k;
      found = refl;
      written = omega arith;
      memory = λ j l. refl;
    },
  )
  walk_reads idx (suc fuel) _ status w (data_then _ rest _ more whole c) v (within, apart, a) q z f
        k r n b s =
      let d = view idx in
      let (mem, e, m) = data_step d w r whole within (omega arith) in
      let next : Walk S = record w {
        ok = true;
        store = record (w.store) { memory = mem; blk = count_read w.store.blk };
        sector = u32 (w.sector + d.len / 512);
        written = u32 (w.written + d.len);
      } in
      let untouched : (j : ℕ) → j < 2 ^ 32 → InTable w.store.blk j → mem j ≡ w.store.memory j =
        λ j l t. m j l ∙ ground (arith, apart j l t) in
      let unmoved : (i : ℕ) → descriptor next.store.memory next.store.blk i ≡ view i = λ i.
        descriptor-same w.store.memory mem (count_read w.store.blk) i q z untouched
        ∙ descriptor-count_read w.store.memory w.store.blk i
        ∙ v i in
      let (w', l, t) =
        walk_reads d.next fuel rest status next c unmoved a q z (omega arith) refl r (omega arith)
          (omega arith) (omega arith) in
      (
        w',
        rw (walk, v idx, more, v idx, e, unmoved idx) l,
        record {
          card = t.card;
          ready = t.ready;
          blk = t.blk ∙ ap (λ x. record (w.store.blk) { reads = x }) (omega arith);
          fine = t.fine;
          found = t.found;
          written = t.written ∙ omega arith;
          memory = λ j l.
              t.memory j l
              ∙ ap (λ x. read_through (content w.store.card) rest x mem j) (omega arith)
              ∙ read_through-same (content w.store.card) rest (w.sector + d.len / 512) _ mem j
                  (m j l);
        },
      )

-- The end of a walk that found the status byte and no error.
closed : {S : Type 0} → Store S → ℕ → Store S
closed st status = record st {
  memory = copy_in st.memory status 1 (λ i. 0);
  blk = record (st.blk) { requests = u32 (st.blk.requests + 1) };
}

request_end-closed :
    {S : Type 0}
    → (status : ℕ) (w : Walk S) → w.ok ≡ true
    → w.status ≡ some status
    → request_end 0 w ≡ (u32 (w.written + 1), closed w.store status)
unfolding request_end put_status closed
request_end-closed status w k f = rw (request_end, put_status, f, k) refl

-- What a served request to read leaves: memory with the card's bytes in every buffer and the status byte
-- 0, the card as it was, and one request and its reads counted.
pub record ReadServed {S : Type 0} (content : S → ℕ → ℕ) (ds : List VringDesc) (status sector : ℕ)
    (st st' : Store S) : Type 0 where
  pub card : st'.card ≡ st.card
  pub ready : st'.ready ≡ st.ready
  pub memory :
      (j : ℕ)
      → j < 2 ^ 32
      → st'.memory j
        ≡ copy_in (read_through (content st.card) ds sector st.memory) status 1 (λ i. 0) j
  pub blk : st'.blk ≡ record (st.blk) {
    reads = u32 (st.blk.reads + length ds);
    requests = u32 (st.blk.requests + 1);
  }

-- A request to read whose header is whole and whose chain ends, with data descriptors of whole sectors
-- that lie below the card's 2^32nd sector and buffers that lie within memory and clear of the
-- descriptor table, is served to the end once there is more fuel than data descriptors, on a card that
-- is ready and reads without errors. It answers the number of bytes in the buffers and one for the
-- status byte, which is 0; the buffers hold the card's bytes from the first sector on, one behind the
-- other, and the card, the rest of memory and the device are as they were, but for the counters.
pub blk_do_request-ReadServed :
    {S : Type 0}
    → (sd : Card S) (content : S → ℕ → ℕ) → Reads sd content
    → (fuel head status : ℕ) (ds : List VringDesc) (st : Store S) → st.ready ≡ true
    → st.blk.reads < 2 ^ 32
    → st.blk.queue_num ≢ 0
    → st.blk.queue_num < 2 ^ 16
    → 16 ≤ (descriptor st.memory st.blk head).len
    → has (descriptor st.memory st.blk head).flags 1 ≡ true
    → load32 st.memory (descriptor st.memory st.blk head).addr ≡ 0
    → Chain (descriptor st.memory st.blk) (descriptor st.memory st.blk head).next ds status
    → Clear st.blk ds
    → first_sector st head + sectors ds < 2 ^ 32
    → length ds < fuel
    → (st' : Store S) × (blk_do_request sd fuel head st ≡ some (u32 (bytes_of ds + 1), st'))
      × ReadServed content ds status (first_sector st head) st st'
unfolding blk_do_request closed copy_in
blk_do_request-ReadServed {S = S} sd content good fuel head status ds st r b q z l f t c a s n =
    let d = descriptor st.memory st.blk head in
    let start : Walk S = record {
      store = st;
      sector = first_sector st head;
      written = 0;
      ok = true;
      status = none;
    } in
    let (w', e, x) =
      walk_reads sd content good (descriptor st.memory st.blk) d.next fuel ds status start c
        (λ i. refl) a q z n refl r b (omega arith) s in
    let whole : ltb d.len 16 ≡ false = ground (arith, l) in
    let count : u32 (w'.written + 1) ≡ u32 (bytes_of ds + 1) = omega (arith, x.written) in
    (
      closed w'.store status,
      rw (blk_do_request, whole, f, t, e)
          (ap some (
            request_end-closed status w' x.fine x.found
            ∙ ap (λ k. (k, closed w'.store status)) count)),
      record {
        card = x.card;
        ready = x.ready;
        memory = λ j k. ap (λ y. if ltb (sub32 j status) 1 then 0 else y) (x.memory j k);
        blk = ap (λ (y : Blk). record y { requests = u32 (y.requests + 1) }) x.blk;
      },
    )
