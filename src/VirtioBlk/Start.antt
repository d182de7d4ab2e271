-- ===== src/VirtioBlk/Start.antt =====
-- main/hyp_sd.c and main/hyp_virtio_blk.c: the card and its service brought up by core 0.
--
-- The calls of ESP-IDF are not under the repository's sources: what they answer is `SdAnswers` and
-- `BlkAnswers`. The calls that are made are logged, the last one first.
use esp32_p4_linux_hyperviso.Base.{ℕ, Bool, true, false, not, List, ◌∷◌, if◌then◌else◌}
use esp32_p4_linux_hyperviso.Boot.{EspErr}
use esp32_p4_linux_hyperviso.Boot.Load.{is_ok}

-- `sd_pwr_ctrl_new_on_chip_ldo`, `host.init`, `sdmmc_host_init_slot` and `sdmmc_card_init`, with the
-- capacity that the last one finds.
pub record SdAnswers : Type 0 where
  pub ldo : EspErr
  pub host : EspErr
  pub slot : EspErr
  pub card : EspErr
  pub capacity : ℕ

pub data SdCall : Type 0 where
  power_on host_init slot_init card_init : SdCall

-- `s_ready` and the capacity in `s_card`.
pub record Sd : Type 0 where
  pub ready : Bool
  pub capacity : ℕ
  pub calls : List SdCall

unfoldable pub hyp_sd_ready : Sd → Bool
hyp_sd_ready s = s.ready

unfoldable pub hyp_sd_sector_count : Sd → ℕ
hyp_sd_sector_count s = if s.ready then s.capacity else 0

abbrev pub called : SdCall → Sd → Sd
called c s = record s { calls = c ∷ s.calls }

unfoldable pub hyp_sd_init : SdAnswers → Sd → Bool × Sd
hyp_sd_init a s =
    let powered = called power_on s in
    let hosted = called host_init powered in
    let slotted = called slot_init hosted in
    let carded = called card_init slotted in
    if not (is_ok a.ldo)
    then (false, powered)
    else if not (is_ok a.host)
    then (false, hosted)
    else if not (is_ok a.slot)
    then (false, slotted)
    else if not (is_ok a.card)
    then (false, carded)
    else (true, record carded { ready = true; capacity = a.capacity })

-- Whether there is memory for the bounce buffer, and whether the task can be created.
pub record BlkAnswers : Type 0 where
  pub bounce : Bool
  pub task : Bool

-- The answer is also whether the service task runs.
unfoldable pub hyp_virtio_blk_init : BlkAnswers → Sd → Bool
hyp_virtio_blk_init a s =
    if not (hyp_sd_ready s)
    then false
    else if not a.bounce
    then false
    else if not a.task
    then false
    else true

-- `app_main`'s start: the card, then the device; whether the service task runs, and the card.
unfoldable pub bring_up : SdAnswers → BlkAnswers → Sd → Bool × Sd
bring_up a b s =
    let (ok, s') = hyp_sd_init a s in if not ok then (false, s') else (hyp_virtio_blk_init b s', s')
