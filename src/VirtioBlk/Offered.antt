-- ===== src/VirtioBlk/Offered.antt =====
-- What the guest is offered after core 0 has brought the card up, or has failed to.
use esp32_p4_linux_hyperviso.Base.{ℕ, ◌≡◌, ◌≢◌, Bool, true, false, ◌&&◌, if◌then◌else◌, arith}
use esp32_p4_linux_hyperviso.Boot.Load.{is_ok}
use esp32_p4_linux_hyperviso.VirtioBlk.{Disk, hyp_virtio_blk_write, set_queue_pfn}
use esp32_p4_linux_hyperviso.VirtioBlk.Start.{
  SdAnswers, BlkAnswers, Sd, hyp_sd_ready, hyp_sd_sector_count, hyp_sd_init, hyp_virtio_blk_init,
  bring_up,
}

-- Every step of the card's bring-up has succeeded.
abbrev pub all_ok : SdAnswers → Bool
all_ok a = is_ok a.ldo && is_ok a.host && is_ok a.slot && is_ok a.card

-- The card, once it has been tried: ready exactly when every step has succeeded.
hyp_sd_init_lem :
    (a : SdAnswers) (s : Sd)
    → s.ready ≡ false
    → let (ok, s') = hyp_sd_init a s in
      (ok ≡ all_ok a) × (s'.ready ≡ all_ok a) × (s'.ready ≡ true → s'.capacity ≡ a.capacity)
unfolding hyp_sd_init
hyp_sd_init_lem a s h = ground (arith, h)

-- However the bring-up of the card and of the device ends, the device's queue goes live on a guest's
-- write of a page number exactly when every step of the card's bring-up succeeded, given that the number,
-- the queue's size and the guest's page size are not 0; and the number of sectors is the card's then,
-- and 0 otherwise. Requests are served only if there is also a bounce buffer and a task: without them,
-- the queue goes live all the same, and nothing serves it.
pub bring_up_lem :
    (a : SdAnswers) (b : BlkAnswers) (s : Sd) (d : Disk) (value : ℕ)
    → s.ready ≡ false
    → value ≢ 0
    → d.blk.queue_num ≢ 0
    → d.blk.guest_page_size ≢ 0
    → let (serving, s') = bring_up a b s in
      ((hyp_virtio_blk_write (hyp_sd_ready s') d 0x040 value).blk.live ≡ all_ok a)
      × (hyp_sd_sector_count s' ≡ (if all_ok a then a.capacity else 0))
      × (serving ≡ (all_ok a && b.bounce && b.task))
unfolding bring_up hyp_virtio_blk_init hyp_sd_ready hyp_sd_sector_count hyp_virtio_blk_write
    set_queue_pfn
bring_up_lem a b s d value h v n p =
    let (o, r, c) = hyp_sd_init_lem a s h in ground (arith, o, r, c, v, n, p)
