-- ===== src/Boot/Cores.antt =====
-- main/hyp_boot.c and main/main.c: how the two cores start, one atomic step of either at a time.
--
-- FreeRTOS is not under the repository's sources. Of it the model has what main/hyp_boot.c relies on:
-- core 0's scheduler sets core 0's flag, and `app_main` is entered once both cores have set theirs.
use mathlib.Core.Option
use esp32_p4_linux_hyperviso.Base.{
  ℕ, Bool, true, false, not, ◌&&◌, Option, none, some, [], if◌then◌else◌,
}
use esp32_p4_linux_hyperviso.Frame.{Memory}
use esp32_p4_linux_hyperviso.Boot.{linux_base_address, linux_size}
use esp32_p4_linux_hyperviso.Boot.Pmp.{PmpEntry, pmp_set_rwx_region}
use esp32_p4_linux_hyperviso.Boot.Load.{Flash, is_ok, hyp_load_guest}
use esp32_p4_linux_hyperviso.VirtioBlk.Start.{SdAnswers, BlkAnswers, Sd, bring_up}

-- What the card and the block device answer to core 0.
pub record Board : Type 0 where
  pub sd : SdAnswers
  pub blk : BlkAnswers

-- What both cores see, core 1's PMP entry, the card, and whether the block device's task runs.
pub record Shared : Type 0 where
  pub memory : Memory
  pub guest_loaded : Bool
  pub guest_image_ready : Bool
  pub startup_done_0 : Bool
  pub startup_done_1 : Bool
  pub entry : PmpEntry
  pub linux_running : Bool
  pub card : Sd
  pub serving : Bool

-- Where core 0 stands: before `hyp_load_guest`, before the scheduler, in main_task's wait for all
-- cores, at `app_main`, in the service loop, and back from an `app_main` that gave up.
pub data Core0 : Type 0 where
  loading scheduling main_task entering watching parked : Core0

-- Where core 1 stands: before `__wrap_xPortStartScheduler`, on its own stack, in the loop on
-- `guest_image_ready`, before the PMP entry, before the start of Linux, in Linux, and in the loop after
-- an entry that could not be set.
pub data Core1 : Type 0 where
  starting own_stack waiting opening arming guest halted : Core1

-- `app_main` up to its loop: the card is brought up before the guest is released, whether or not there
-- is one.
unfoldable pub app_main_start : Board → Shared → Core0 × Shared
app_main_start board s =
    let (serving, card) = bring_up board.sd board.blk s.card in
    if not s.guest_loaded
    then (parked, s)
    else (watching, record s { card = card; serving = serving; guest_image_ready = true })

-- A step of core 0; `none` is a core that waits or is done.
unfoldable pub core0_step : Flash → ℕ → Board → Core0 → Shared → Option (Core0 × Shared)
core0_step flash limit board loading s =
    Option.map (λ (r : Bool × Memory). (scheduling, record s { guest_loaded = r.0; memory = r.1 }))
      (hyp_load_guest flash limit s.memory)
core0_step flash limit board scheduling s = some (main_task, record s { startup_done_0 = true })
core0_step flash limit board main_task s =
    if s.startup_done_0 && s.startup_done_1 then some (entering, s) else none
core0_step flash limit board entering s = some (app_main_start board s)
core0_step flash limit board watching s = none
core0_step flash limit board parked s = none

-- A step of core 1.
unfoldable pub core1_step : (ℕ → ℕ) → Core1 → Shared → Option (Core1 × Shared)
core1_step settle starting s = some (own_stack, s)
core1_step settle own_stack s = some (waiting, record s { startup_done_1 = true })
core1_step settle waiting s = if s.guest_image_ready then some (opening, s) else none
core1_step settle opening s =
    let (err, e) = pmp_set_rwx_region settle linux_base_address linux_size s.entry in
    some (if is_ok err then arming else halted, record s { entry = e })
core1_step settle arming s = some (guest, record s { linux_running = true })
core1_step settle guest s = none
core1_step settle halted s = none

-- After power on.
abbrev pub powered_on : Memory → PmpEntry → Shared
powered_on mem e = record {
  memory = mem;
  guest_loaded = false;
  guest_image_ready = false;
  startup_done_0 = false;
  startup_done_1 = false;
  entry = e;
  linux_running = false;
  card = record { ready = false; capacity = 0; calls = [] };
  serving = false;
}
