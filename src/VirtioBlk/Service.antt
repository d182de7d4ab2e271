-- ===== src/VirtioBlk/Service.antt =====
-- main/hyp_virtio_blk.c, core 0's half: transfers, requests and the service of the avail ring.
--
-- The guest does not store to memory while a request is served. A loop that the guest's rings do
-- not bound runs on fuel, and answers `none` when the fuel is used up.
use esp32_p4_linux_hyperviso.Base.{
  ℕ, zero, suc, ◌+◌, ◌-◌, ◌*◌, ◌/◌, ◌%◌, ◌^◌, Bool, true, false, not, Option, none, some, List, [],
  ◌∷◌, get_or, min, ltb, ◌==◌, has, u16, u32, if◌then◌else◌,
}
use mathlib.Core.Option
use esp32_p4_linux_hyperviso.Frame.{load16}
use esp32_p4_linux_hyperviso.VirtioBlk.{Blk}
use esp32_p4_linux_hyperviso.VirtioBlk.Ring.{
  Card, Store, copy_in, store16, store32, avail_ring, used_ring, descriptor,
}

abbrev pub chunk_max : ℕ
chunk_max = 64 * 512

-- `hyp_sd_read`.
unfoldable pub hyp_sd_read : {S : Type 0} → Card S → Store S → ℕ → ℕ → Option (ℕ → ℕ)
hyp_sd_read sd st sector count = if not st.ready then none else sd.read_sectors st.card sector count

-- `hyp_sd_write`.
unfoldable pub hyp_sd_write : {S : Type 0} → Card S → Store S → ℕ → ℕ → (ℕ → ℕ) → Bool × Store S
hyp_sd_write sd st sector count source =
    let (ok, card) = sd.write_sectors st.card sector count source in
    if not st.ready then (false, st) else (ok, record st { card = card })

-- One turn of `blk_transfer`'s loop, on `n` bytes.
unfoldable pub transfer_chunk : {S : Type 0} → Card S → Bool → ℕ → ℕ → ℕ → Store S → Bool × Store S
transfer_chunk sd true sector buf n st =
    hyp_sd_write sd st sector (n / 512) (λ i. st.memory (u32 (buf + i)))
transfer_chunk sd false sector buf n st = elim (hyp_sd_read sd st sector (n / 512)) [
  | none ↦ (false, st)
  | some bytes ↦ (true, record st { memory = copy_in st.memory buf n bytes })
]

-- `blk_transfer` on fuel.
unfoldable pub transfer_on :
    {S : Type 0} → Card S → ℕ → Bool → ℕ → ℕ → ℕ → Store S → Option (Bool × Store S)
transfer_on sd zero write sector buf len st = if len == 0 then some (true, st) else none
transfer_on sd (suc fuel) write sector buf len st =
    let n = min len chunk_max in
    elim (ltb 0 len) [
      | false ↦ some (true, st)
      | true ↦
          let (ok, st') = transfer_chunk sd write sector buf n st in
          elim ok [
            | false ↦ some (false, st')
            | true ↦
                transfer_on sd fuel write (u32 (sector + n / 512)) (u32 (buf + n)) (len - n) st'
          ]
    ]

-- One turn of fuel for each chunk.
unfoldable pub blk_transfer :
    {S : Type 0} → Card S → Bool → ℕ → ℕ → ℕ → Store S → Option (Bool × Store S)
blk_transfer sd write sector buf len st =
    transfer_on sd (len / chunk_max + 1) write sector buf len st

-- The variables of `blk_do_request`'s loop; `status` is `status_byte`.
pub record Walk (S : Type 0) : Type 0 where
  pub store : Store S
  pub sector : ℕ
  pub written : ℕ
  pub ok : Bool
  pub status : Option ℕ

-- "esp32p4-sd", with its terminator.
abbrev pub serial : List ℕ
serial = 101 ∷ 115 ∷ 112 ∷ 51 ∷ 50 ∷ 112 ∷ 52 ∷ 45 ∷ 115 ∷ 100 ∷ 0 ∷ []

abbrev pub count_read : Blk → Blk
count_read blk = record blk { reads = u32 (blk.reads + 1) }

abbrev pub count_write : Blk → Blk
count_write blk = record blk { writes = u32 (blk.writes + 1) }

-- The switch on the request's type, for one data descriptor.
unfoldable pub blk_data : {S : Type 0} → Card S → ℕ → ℕ → ℕ → Walk S → Option (Walk S)
blk_data {S = S} sd type buf len w =
    let failed = record w { ok = false } in
    if type == 0
    then if not (len % 512 == 0)
      then some failed
      else Option.map
          (λ (r : Bool × Store S). record w {
            ok = r.0;
            store = record (r.1) { blk = count_read r.1.blk };
            sector = u32 (w.sector + len / 512);
            written = u32 (w.written + len);
          })
          (blk_transfer sd false w.sector buf len w.store)
    else if type == 1
    then if not (len % 512 == 0)
      then some failed
      else Option.map
          (λ (r : Bool × Store S). record w {
            ok = r.0;
            store = record (r.1) { blk = count_write r.1.blk };
            sector = u32 (w.sector + len / 512);
          })
          (blk_transfer sd true w.sector buf len w.store)
    else if type == 8
    then some (record w {
      store = record (w.store) {
        memory =
            copy_in (copy_in w.store.memory buf len (λ i. 0)) buf (if ltb len 11 then len else 11)
              (λ i. get_or serial i 0);
      };
      written = u32 (w.written + len);
    })
    else if type == 4
    then some w
    else some failed

-- The walk along the chain from descriptor `idx`.
unfoldable pub walk : {S : Type 0} → Card S → ℕ → ℕ → ℕ → Walk S → Option (Walk S)
walk sd zero type idx w = none
walk sd (suc fuel) type idx w =
    let d = descriptor w.store.memory w.store.blk idx in
    elim (has d.flags 1) [
      | false ↦ some (record w { status = some d.addr })
      | true ↦ elim (blk_data sd type d.addr d.len w) [
        | none ↦ none
        | some w' ↦ elim w'.ok [
          | false ↦ some w'
          | true ↦ walk sd fuel type (descriptor w'.store.memory w'.store.blk idx).next w'
        ]
      ]
    ]

abbrev count_error : Blk → Blk
count_error blk = record blk { errors = u32 (blk.errors + 1) }

-- The status byte, when the walk has reached it.
unfoldable pub put_status : {S : Type 0} → ℕ → Walk S → Walk S
put_status type w = elim w.status [
  | none ↦ w
  | some at ↦ record w {
    store = record (w.store) {
      memory = copy_in w.store.memory at 1 (λ i. if w.ok then 0 else if ltb 8 type then 2 else 1);
    };
    written = u32 (w.written + 1);
  }
]

-- The end of a request: the status byte and the counters.
unfoldable pub request_end : {S : Type 0} → ℕ → Walk S → ℕ × Store S
request_end type w =
    let w' = put_status type w in
    let blk = if not w'.ok then count_error w'.store.blk else w'.store.blk in
    (w'.written, record (w'.store) { blk = record blk { requests = u32 (blk.requests + 1) } })

unfoldable pub blk_do_request : {S : Type 0} → Card S → ℕ → ℕ → Store S → Option (ℕ × Store S)
blk_do_request {S = S} sd fuel head st =
    let d = descriptor st.memory st.blk head in
    let type = load16 st.memory d.addr + 2 ^ 16 * load16 st.memory (u32 (d.addr + 2)) in
    let sector =
      load16 st.memory (u32 (d.addr + 8)) + 2 ^ 16 * load16 st.memory (u32 (d.addr + 10)) in
    let start : Walk S = record {
      store = st;
      sector = sector;
      written = 0;
      ok = true;
      status = none;
    } in
    if ltb d.len 16
    then some (0, record st { blk = count_error st.blk })
    else if not (has d.flags 1)
    then some (request_end type start)
    else Option.map (request_end type) (walk sd fuel type d.next start)

-- A completed request is put in the used ring, and the two indices move on.
unfoldable pub publish : {S : Type 0} → ℕ → ℕ → Store S → Store S
publish head written st =
    let used = used_ring st.blk in
    let slot = u32 (used + 4 + 8 * (load16 st.memory (u32 (used + 2)) % st.blk.queue_num)) in
    let entry = store32 (store32 st.memory slot head) (u32 (slot + 4)) written in
    record st {
      memory = store16 entry (u32 (used + 2)) (u16 (load16 entry (u32 (used + 2)) + 1));
      blk = record (st.blk) { last_avail = u16 (st.blk.last_avail + 1) };
    }

-- The drain of the avail ring, with `chain` turns of fuel for each chain of descriptors.
unfoldable pub service_on : {S : Type 0} → Card S → ℕ → ℕ → Store S → Option (Store S)
service_on sd chain zero st = none
service_on sd chain (suc fuel) st =
    let avail = avail_ring st.blk in
    elim (st.blk.last_avail == load16 st.memory (u32 (avail + 2))) [
      | true ↦ some st
      | false ↦
          let head =
            load16 st.memory (u32 (avail + 4 + 2 * (st.blk.last_avail % st.blk.queue_num))) in
          elim (blk_do_request sd chain head st) [
            | none ↦ none
            | some (written, st') ↦ service_on sd chain fuel (publish head written st')
          ]
    ]

-- `s_irq` is set when an entry was published, that is when the loop ran at all.
unfoldable pub blk_service : {S : Type 0} → Card S → ℕ → ℕ → Store S → Option (Store S)
blk_service {S = S} sd chain fuel st =
    let published = not (st.blk.last_avail == load16 st.memory (u32 (avail_ring st.blk + 2))) in
    if not st.blk.live
    then some st
    else Option.map
        (λ (st' : Store S).
          if published then record st' { blk = record (st'.blk) { irq = true } } else st')
        (service_on sd chain fuel st)

-- One turn of `blk_task`'s loop.
unfoldable pub blk_task : {S : Type 0} → Card S → ℕ → ℕ → Store S → Option (Store S)
blk_task sd chain fuel st =
    if st.blk.kick
    then blk_service sd chain fuel (record st { blk = record (st.blk) { kick = false } })
    else some st
