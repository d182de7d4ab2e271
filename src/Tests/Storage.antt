-- ===== src/Tests/Storage.antt =====
-- CSRs, the block device and the trace.
use esp32_p4_linux_hyperviso.Base.{ℕ, suc, ◌+◌, ◌≡◌, refl, true, Bool, some, arith, u32}
use esp32_p4_linux_hyperviso.VirtioBlk.Ring.{Store, descriptor, desc_table}
use esp32_p4_linux_hyperviso.VirtioBlk.Service.{blk_transfer, blk_do_request}
use esp32_p4_linux_hyperviso.VirtioBlk.Transfer.{blk_transfer-returns}
use esp32_p4_linux_hyperviso.VirtioBlk.Failure.{blk_do_request-unsupported}
use esp32_p4_linux_hyperviso.Tests.{a_card, a_store, odd_store}

blk_transfer-returns_example :
    let sd = a_card in
    let write = true in
    let sector : ℕ = 5 in
    let buf : ℕ = 0x1000 in
    let len : ℕ = 70000 in
    let S = ℕ in
    let st = a_store in (r : Bool × Store S) × (blk_transfer sd write sector buf len st ≡ some r)
blk_transfer-returns_example = blk_transfer-returns a_card true 5 0x1000 70000 a_store

blk_do_request-unsupported_example :
    let S = ℕ in
    let sd = a_card in
    let fuel : ℕ = 7 in
    let head : ℕ = 0 in
    let st = odd_store in
    blk_do_request sd (suc fuel) head st
    ≡ some (
      0,
      record st {
        blk = record (st.blk) {
          errors = u32 (st.blk.errors + 1);
          requests = u32 (st.blk.requests + 1);
        };
      },
    )
unfolding descriptor desc_table
blk_do_request-unsupported_example =
    blk_do_request-unsupported a_card 7 0 odd_store (omega arith) refl refl (omega arith)
      (omega arith) (omega arith) (omega arith)
