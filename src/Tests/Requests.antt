-- ===== src/Tests/Requests.antt =====
-- A request to write one sector, on a card that is a function; and a card brought up without a task.
use esp32_p4_linux_hyperviso.Base.{
  ℕ, ◌+◌, ◌*◌, ◌^◌, ◌≤◌, ◌<◌, ◌≡◌, sub32, refl, true, false, some, List, [], ◌∷◌, ◌==◌, ◌||◌,
  if◌then◌else◌, arith,
}
use esp32_p4_linux_hyperviso.Frame.{Memory}
use esp32_p4_linux_hyperviso.VirtioBlk.Ring.{Card, Store, VringDesc, descriptor, desc_table}
use esp32_p4_linux_hyperviso.VirtioBlk.Service.{blk_do_request}
use esp32_p4_linux_hyperviso.VirtioBlk.Write.{Writes, overwrite}
use esp32_p4_linux_hyperviso.VirtioBlk.Chain.{
  ends, data_then, Served, first_sector, blk_do_request-Served,
}
use esp32_p4_linux_hyperviso.Boot.{esp_ok}
use esp32_p4_linux_hyperviso.Monitor.{disk}
use esp32_p4_linux_hyperviso.VirtioBlk.{hyp_virtio_blk_write}
use esp32_p4_linux_hyperviso.VirtioBlk.Start.{
  SdAnswers, BlkAnswers, Sd, hyp_sd_ready, hyp_sd_sector_count, bring_up,
}
use esp32_p4_linux_hyperviso.VirtioBlk.Offered.{bring_up_lem}
use esp32_p4_linux_hyperviso.VirtioBlk.Transfer.{Reads}
use esp32_p4_linux_hyperviso.VirtioBlk.ReadChain.{ReadServed, blk_do_request-ReadServed}
use esp32_p4_linux_hyperviso.Tests.{a_blk, some_devices, quiet_plic}

abbrev plain_card : Card (ℕ → ℕ)
plain_card = record {
  read_sectors = λ s sector count. some (λ i. s (512 * sector + i));
  write_sectors = λ s sector count source. (true, overwrite s (512 * sector) (512 * count) source);
}

abbrev plain_content : (ℕ → ℕ) → ℕ → ℕ
plain_content s i = s i

abbrev plain_writes : Writes plain_card plain_content
plain_writes = record {
  takes = λ s sector count source. refl;
  keeps = λ s sector count source i. refl;
}

-- The header is at 0x5000 and names sector 3, the buffer at 0x6000, the status byte at 0x7000.
abbrev ring_bytes : Memory
ring_bytes j =
    if j == 0x1001
    then 0x50
    else if j == 0x1008
    then 16
    else if j == 0x100c || j == 0x100e || j == 0x101c || j == 0x5000
    then 1
    else if j == 0x1011
    then 0x60
    else if j == 0x1019 || j == 0x101e
    then 2
    else if j == 0x1021
    then 0x70
    else if j == 0x5008
    then 3
    else 7 * (if j == 0x6005 then 1 else 0)

abbrev write_store : Store (ℕ → ℕ)
write_store = record { memory = ring_bytes; card = λ i. i; ready = true; blk = a_blk }

abbrev one_buffer : List VringDesc
one_buffer = descriptor ring_bytes a_blk 1 ∷ []

blk_do_request-Served_example :
    (st' : Store (ℕ → ℕ)) × (blk_do_request plain_card 2 0 write_store ≡ some (1, st'))
    × Served plain_content one_buffer 0x7000 (first_sector write_store 0) write_store st'
unfolding descriptor desc_table
blk_do_request-Served_example =
    blk_do_request-Served plain_card plain_content plain_writes 2 0 0x7000 one_buffer write_store
      refl (omega arith) (omega arith) refl refl (data_then 1 [] 0x7000 refl refl (ends 2 refl))
      (omega arith) (omega arith)

-- A card that is there, and no memory for the bounce buffer.
abbrev card_answers : SdAnswers
card_answers = record { ldo = esp_ok; host = esp_ok; slot = esp_ok; card = esp_ok; capacity = 1000 }

abbrev no_memory : BlkAnswers
no_memory = record { bounce = false; task = true }

abbrev untried : Sd
untried = record { ready = false; capacity = 0; calls = [] }

bring_up_lem_example :
    let (serving, s') = bring_up card_answers no_memory untried in
    ((hyp_virtio_blk_write (hyp_sd_ready s') (disk (some_devices quiet_plic)) 0x040 5).blk.live
      ≡ true)
    × (hyp_sd_sector_count s' ≡ 1000)
    × (serving ≡ false)
bring_up_lem_example =
    bring_up_lem card_answers no_memory untried (disk (some_devices quiet_plic)) 5 refl
      (omega arith) (omega arith) (omega arith)

-- The same request as one to read.
abbrev read_bytes : Memory
read_bytes j = if j == 0x5000 then 0 else ring_bytes j

abbrev read_store : Store (ℕ → ℕ)
read_store = record { memory = read_bytes; card = λ i. i; ready = true; blk = a_blk }

abbrev read_buffer : List VringDesc
read_buffer = descriptor read_bytes a_blk 1 ∷ []

abbrev plain_reads : Reads plain_card plain_content
plain_reads = record {
  bytes = λ s sector count i. s (512 * sector + i);
  reads = λ s sector count. refl;
  right = λ s sector count i h. refl;
}

clear_of : (j : ℕ) → j < 2 ^ 32 → sub32 j 0x1000 < 128 → 512 ≤ sub32 j 0x6000
clear_of j l t = omega (arith, l, t)

blk_do_request-ReadServed_example :
    (st' : Store (ℕ → ℕ)) × (blk_do_request plain_card 2 0 read_store ≡ some (513, st'))
    × ReadServed plain_content read_buffer 0x7000 (first_sector read_store 0) read_store st'
unfolding descriptor desc_table
blk_do_request-ReadServed_example =
    blk_do_request-ReadServed plain_card plain_content plain_reads 2 0 0x7000 read_buffer read_store
      refl (omega arith) (omega arith) (omega arith) (omega arith) refl refl
      (data_then 1 [] 0x7000 refl refl (ends 2 refl)) (omega arith, clear_of, tt) (omega arith)
      (omega arith)
