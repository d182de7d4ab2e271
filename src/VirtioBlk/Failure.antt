-- ===== src/VirtioBlk/Failure.antt =====
-- What a request of an unknown type comes to in main/hyp_virtio_blk.c.
use esp32_p4_linux_hyperviso.Base.{ℕ, suc, ◌+◌, ◌≤◌, ◌≡◌, ◌≢◌, true, some, has, u32, arith}
use esp32_p4_linux_hyperviso.VirtioBlk.Ring.{Card, Store, descriptor, load32}
use esp32_p4_linux_hyperviso.VirtioBlk.Service.{
  blk_data, walk, put_status, request_end, blk_do_request,
}

-- The type in the header that the first descriptor of the chain points at.
abbrev pub request_type : {S : Type 0} → Store S → ℕ → ℕ
request_type st head = load32 st.memory (descriptor st.memory st.blk head).addr

-- A request whose first descriptor holds a whole header of 16 bytes and is followed by a data
-- descriptor, and whose type is none of 0, 1, 4 and 8, returns at once, is
-- counted as an error and as a request, and reports no byte written. Guest memory is not touched,
-- so the request's status byte keeps the value that the guest left in it.
pub blk_do_request-unsupported :
    {S : Type 0}
    → (sd : Card S) (fuel head : ℕ) (st : Store S) → 16 ≤ (descriptor st.memory st.blk head).len
    → has (descriptor st.memory st.blk head).flags 1 ≡ true
    → has (descriptor st.memory st.blk (descriptor st.memory st.blk head).next).flags 1 ≡ true
    → request_type st head ≢ 0
    → request_type st head ≢ 1
    → request_type st head ≢ 4
    → request_type st head ≢ 8
    → blk_do_request sd (suc fuel) head st
      ≡ some (
        0,
        record st {
          blk = record (st.blk) {
            errors = u32 (st.blk.errors + 1);
            requests = u32 (st.blk.requests + 1);
          };
        },
      )
unfolding blk_do_request walk blk_data request_end put_status
blk_do_request-unsupported sd fuel head st l f g t0 t1 t4 t8 = ground arith
