-- ===== src/VirtioBlk/Chain.antt =====
-- A request to write, on a chain of descriptors that ends.
use esp32_p4_linux_hyperviso.Base.{
  ℕ, zero, suc, ◌+◌, ◌-◌, ◌*◌, ◌/◌, ◌%◌, ◌^◌, ◌≤◌, ◌<◌, ◌≡◌, ◌∙◌, refl, ap, true, false, ◌&&◌, some,
  none, List, [], ◌∷◌, length, has, ltb, leb, ◌==◌, u32, arith, if◌then◌else◌,
}
use esp32_p4_linux_hyperviso.Frame.{Memory, copy_in, load16, load32}
use esp32_p4_linux_hyperviso.VirtioBlk.{Blk}
use esp32_p4_linux_hyperviso.VirtioBlk.Ring.{Card, Store, VringDesc, descriptor, desc_table}
use esp32_p4_linux_hyperviso.VirtioBlk.Service.{
  Walk, blk_data, walk, count_write, put_status, request_end, blk_do_request,
}
use esp32_p4_linux_hyperviso.VirtioBlk.Write.{Writes, Kept, overwrite, blk_transfer-Kept}

-- A chain from a descriptor on: data descriptors of whole sectors, and the status descriptor, which is
-- the last.
pub data Chain (view : ℕ → VringDesc) : ℕ → List VringDesc → ℕ → Type 0 where
  ends : (idx : ℕ) → has (view idx).flags 1 ≡ false → Chain view idx [] (view idx).addr
  data_then :
      (idx : ℕ) (rest : List VringDesc) (status : ℕ)
      → has (view idx).flags 1 ≡ true
      → (view idx).len % 512 ≡ 0
      → Chain view (view idx).next rest status
      → Chain view idx (view idx ∷ rest) status

-- The sectors of the data descriptors.
abbrev pub sectors : List VringDesc → ℕ
sectors [] = 0
sectors (d ∷ ds) = d.len / 512 + sectors ds

-- The card's bytes once each data descriptor's buffer is written behind the one before.
abbrev pub written_through : Memory → List VringDesc → ℕ → (ℕ → ℕ) → ℕ → ℕ
written_through mem [] sector content = content
written_through mem (d ∷ ds) sector content =
    written_through mem ds (sector + d.len / 512)
      (overwrite content (512 * sector) d.len (λ k. mem (u32 (d.addr + k))))

-- Only the bytes matter.
written_through-ext :
    (mem : Memory) (ds : List VringDesc) (sector : ℕ) (f g : ℕ → ℕ)
    → ((i : ℕ) → f i ≡ g i)
    → (i : ℕ) → written_through mem ds sector f i ≡ written_through mem ds sector g i
written_through-ext mem [] sector f g h i = h i
written_through-ext mem (d ∷ ds) sector f g h i =
    written_through-ext mem ds (sector + d.len / 512) _ _
      (λ k.
        ap
          (λ x.
            if leb (512 * sector) k && ltb k (512 * sector + d.len)
            then mem (u32 (d.addr + (k - 512 * sector)))
            else x)
          (h k))
      i

-- A counter moves no descriptor.
descriptor-count_write :
    (mem : Memory) (blk : Blk) (i : ℕ) → descriptor mem (count_write blk) i ≡ descriptor mem blk i
unfolding descriptor desc_table
descriptor-count_write mem blk i = refl

abbrev count_writes : ℕ → Blk → Blk
count_writes n blk = record blk { writes = u32 (blk.writes + n) }

module _ {S : Type 0} (sd : Card S) (content : S → ℕ → ℕ) (good : Writes sd content)
    (view : ℕ → VringDesc) where
  -- Where the walk ends up.
  record Walked (ds : List VringDesc) (status sector : ℕ) (w w' : Walk S) : Type 0 where
    pub store : w'.store.memory ≡ w.store.memory
    pub blk : w'.store.blk ≡ count_writes (length ds) w.store.blk
    pub ready : w'.store.ready ≡ w.store.ready
    pub fine : w'.ok ≡ true
    pub found : w'.status ≡ some status
    pub written : w'.written ≡ w.written
    pub card :
        (i : ℕ)
        → content w'.store.card i
          ≡ written_through w.store.memory ds sector (content w.store.card) i

  -- One data descriptor.
  data_step :
      (d : VringDesc) (w : Walk S)
      → w.store.ready ≡ true
      → d.len % 512 ≡ 0
      → w.sector + d.len / 512 ≤ 2 ^ 32
      → (st : Store S) × (blk_data sd 1 d.addr d.len w
          ≡ some (record w {
            ok = true;
            store = record st { blk = count_write st.blk };
            sector = u32 (w.sector + d.len / 512);
          }))
        × Kept sd content good w.sector d.addr d.len w.store st
  unfolding blk_data
  data_step d w r e s =
      let (st, k, m) = blk_transfer-Kept sd content good w.sector d.addr d.len w.store r e s in
      let whole : (d.len % 512 == 0) ≡ true = ground (arith, e) in
      (st, rw (blk_data, whole, k) refl, m)

  walk_writes :
      (idx fuel : ℕ) (ds : List VringDesc) (status : ℕ) (w : Walk S)
      → Chain view idx ds status
      → ((i : ℕ) → descriptor w.store.memory w.store.blk i ≡ view i)
      → length ds < fuel
      → w.ok ≡ true
      → w.store.ready ≡ true
      → w.store.blk.writes < 2 ^ 32
      → w.sector + sectors ds < 2 ^ 32
      → (w' : Walk S) × (walk sd fuel 1 idx w ≡ some w') × Walked ds status w.sector w w'
  unfolding walk
  walk_writes idx zero ds status w c v f k r n s = absurd (omega arith)
  walk_writes idx (suc fuel) _ _ w (ends _ last) v f k r n s = (
    record w { status = some (view idx).addr },
    rw (walk, v idx, last, v idx) refl,
    record {
      store = refl;
      blk = ap (λ x. record (w.store.blk) { writes = x }) (omega arith);
      ready = refl;
      fine = k;
      found = refl;
      written = refl;
      card = λ i. refl;
    },
  )
  walk_writes idx (suc fuel) _ status w (data_then _ rest _ more whole c) v f k r n s =
      let d = view idx in
      let (st, e, m) = data_step d w r whole (omega arith) in
      let next : Walk S = record w {
        ok = true;
        store = record st { blk = count_write st.blk };
        sector = u32 (w.sector + d.len / 512);
      } in
      let unmoved : (i : ℕ) → descriptor next.store.memory next.store.blk i ≡ view i = λ i.
        descriptor-count_write st.memory st.blk i
        ∙ ap (λ (x : Store S). descriptor x.memory x.blk i) m.same
        ∙ v i in
      let (w', l, t) =
        walk_writes d.next fuel rest status next c unmoved (omega arith) refl
          (ap (λ (x : Store S). x.ready) m.same ∙ r) (omega arith) (omega arith) in
      (
        w',
        rw (walk, v idx, more, v idx, e, unmoved idx) l,
        record {
          store = t.store ∙ ap (λ (x : Store S). x.memory) m.same;
          blk =
              t.blk
              ∙ ap (λ (x : Store S). count_writes (length rest) (count_write x.blk)) m.same
              ∙ ap (λ x. record (w.store.blk) { writes = x }) (omega arith);
          ready = t.ready ∙ ap (λ (x : Store S). x.ready) m.same;
          fine = t.fine;
          found = t.found;
          written = t.written;
          card = λ i.
              t.card i
              ∙ ap (λ (x : Store S). written_through x.memory rest next.sector (content st.card) i)
                  m.same
              ∙ ap (λ x. written_through w.store.memory rest x (content st.card) i) (omega arith)
              ∙ written_through-ext w.store.memory rest (w.sector + d.len / 512) _ _ m.card i;
        },
      )

-- The end of a walk that found the status byte and no error.
abbrev closed : {S : Type 0} → Store S → ℕ → Store S
closed st status = record st {
  memory = copy_in st.memory status 1 (λ i. 0);
  blk = record (st.blk) { requests = u32 (st.blk.requests + 1) };
}

request_end-closed :
    {S : Type 0}
    → (status : ℕ) (w : Walk S) → w.ok ≡ true
    → w.status ≡ some status
    → w.written ≡ 0
    → request_end 1 w ≡ (1, closed w.store status)
unfolding request_end put_status
request_end-closed status w k f z = rw (request_end, put_status, f, k, z) refl

-- What a served request to write leaves: the card with every buffer written behind the one before, the
-- status byte 0, and one request and its writes counted.
pub record Served {S : Type 0} (content : S → ℕ → ℕ) (ds : List VringDesc) (status sector : ℕ)
    (st st' : Store S) : Type 0 where
  pub card : (i : ℕ) → content st'.card i ≡ written_through st.memory ds sector (content st.card) i
  pub memory : st'.memory ≡ copy_in st.memory status 1 (λ i. 0)
  pub ready : st'.ready ≡ st.ready
  pub blk : st'.blk ≡ record (st.blk) {
    writes = u32 (st.blk.writes + length ds);
    requests = u32 (st.blk.requests + 1);
  }

-- The request's header: the first sector.
abbrev pub first_sector : {S : Type 0} → Store S → ℕ → ℕ
first_sector st head =
    let d = descriptor st.memory st.blk head in
    load16 st.memory (u32 (d.addr + 8)) + 2 ^ 16 * load16 st.memory (u32 (d.addr + 10))

-- A request to write whose header is whole and whose chain ends, with data descriptors of whole sectors
-- that lie below the card's 2^32nd sector, is served to the end once there is more fuel than data
-- descriptors, on a card that is ready and takes writes. It answers one byte written, the status
-- byte, which is 0; the descriptors' buffers are on the card one behind the other from the first
-- sector on, and the rest of the card, of memory and of the device is as it was, but for the
-- counters.
pub blk_do_request-Served :
    {S : Type 0}
    → (sd : Card S) (content : S → ℕ → ℕ) → Writes sd content
    → (fuel head status : ℕ) (ds : List VringDesc) (st : Store S) → st.ready ≡ true
    → st.blk.writes < 2 ^ 32
    → 16 ≤ (descriptor st.memory st.blk head).len
    → has (descriptor st.memory st.blk head).flags 1 ≡ true
    → load32 st.memory (descriptor st.memory st.blk head).addr ≡ 1
    → Chain (descriptor st.memory st.blk) (descriptor st.memory st.blk head).next ds status
    → first_sector st head + sectors ds < 2 ^ 32
    → length ds < fuel
    → (st' : Store S) × (blk_do_request sd fuel head st ≡ some (1, st'))
      × Served content ds status (first_sector st head) st st'
unfolding blk_do_request
blk_do_request-Served {S = S} sd content good fuel head status ds st r b l f t c s n =
    let d = descriptor st.memory st.blk head in
    let start : Walk S = record {
      store = st;
      sector = first_sector st head;
      written = 0;
      ok = true;
      status = none;
    } in
    let (w', e, x) =
      walk_writes sd content good (descriptor st.memory st.blk) d.next fuel ds status start c
        (λ i. refl) n refl r b s in
    let whole : ltb d.len 16 ≡ false = ground (arith, l) in
    (
      closed w'.store status,
      rw (blk_do_request, whole, f, t, e)
          (ap some (request_end-closed status w' x.fine x.found x.written)),
      record {
        card = x.card;
        memory = ap (λ m. copy_in m status 1 (λ i. 0)) x.store;
        ready = x.ready;
        blk = ap (λ (q : Blk). record q { requests = u32 (q.requests + 1) }) x.blk;
      },
    )
