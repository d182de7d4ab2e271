-- ===== src/Invariant/Serial.antt =====
-- The console's part of the invariant: the 16550, the PLIC and what goes between them.
use esp32_p4_linux_hyperviso.Base.{
  ℕ, zero, suc, ◌+◌, ◌*◌, ◌≡◌, ◌∙◌, ◌⊎◌, refl, inl, inr, Bool, true, false, length, length-set, u8,
  u32, ◌>>◌, arith,
}
use esp32_p4_linux_hyperviso.Plic.{Plic, plic_set_pending, plic_claim, plic_read}
use esp32_p4_linux_hyperviso.Plic.Write.{plic_complete, plic_write}
use esp32_p4_linux_hyperviso.Uart.{
  Uart, Console, uart_rx_push, uart_rx_pop, v16550_reeval, uart_transmit, uart_reg_read,
  uart_reg_write, uart_read_from, uart_write_from,
}
use esp32_p4_linux_hyperviso.Uart.Queue.{RingIsValid, uart_rx_push_refines, uart_rx_pop_refines}

-- The ring and the number of priorities, of a console.
pub record Sound (c : Console) : Type 0 where
  pub ring : RingIsValid c.uart
  pub sources : length c.plic.priority ≡ 32

pub sources-plic_set_pending :
    (p : Plic) (n : ℕ) (b : Bool) → length (plic_set_pending p n b).priority ≡ length p.priority
unfolding plic_set_pending
sources-plic_set_pending p n true = refl
sources-plic_set_pending p n false = refl

pub v16550_reeval-Sound : (c : Console) → Sound c → Sound (v16550_reeval c)
unfolding v16550_reeval
v16550_reeval-Sound c s = record {
  ring = s.ring;
  sources = sources-plic_set_pending c.plic 10 _ ∙ s.sources;
}

-- Registers outside the ring do not matter.
same_ring :
    (c : Console) (u : Uart)
    → u.ring ≡ c.uart.ring
    → u.head ≡ c.uart.head
    → u.tail ≡ c.uart.tail
    → Sound c
    → Sound (record c { uart = u })
same_ring c u r h t s = record {
  ring = record {
    storage = rw r s.ring.storage;
    head_in = rw h s.ring.head_in;
    tail_in = rw t s.ring.tail_in;
  };
  sources = s.sources;
}

-- Only a read of RBR changes anything.
uart_reg_read_cases :
    (c : Console) (offset : ℕ)
    → let popped = record c { uart = (uart_rx_pop c.uart).1 } in
      ((uart_reg_read c offset).1 ≡ c) ⊎ ((uart_reg_read c offset).1 ≡ v16550_reeval popped)
unfolding uart_reg_read
uart_reg_read_cases c offset = ground arith

uart_reg_read-Sound : (c : Console) (offset : ℕ) → Sound c → Sound (uart_reg_read c offset).1
uart_reg_read-Sound c offset s = elim (uart_reg_read_cases c offset) [
  | inl same ↦ rw same s
  | inr popped ↦ rw popped (
      v16550_reeval-Sound _
        (record { ring = (uart_rx_pop_refines c.uart s.ring).0; sources = s.sources }))
]

uart_transmit-Sound :
    (tx_room : ℕ) (c : Console) (value : ℕ) → Sound c → Sound (uart_transmit tx_room c value)
unfolding uart_transmit
uart_transmit-Sound tx_room c value s = grind (arith, pushed, s)
  where
    pushed : Sound (record c { uart = uart_rx_push c.uart value })
    pushed = record { ring = (uart_rx_push_refines c.uart value s.ring).0; sources = s.sources }

uart_reg_write-Sound :
    (tx_room : ℕ) (c : Console) (offset value : ℕ)
    → Sound c
    → Sound (uart_reg_write tx_room c offset value)
unfolding uart_reg_write
uart_reg_write-Sound tx_room c offset value s =
    grind (arith, v16550_reeval-Sound, uart_transmit-Sound, same_ring)

pub uart_read_from-Sound :
    (left i offset : ℕ) (c : Console) (value : ℕ)
    → Sound c
    → Sound (uart_read_from left i offset c value).1
unfolding uart_read_from
uart_read_from-Sound zero i offset c value s = s
uart_read_from-Sound (suc left) i offset c value s =
    uart_read_from-Sound left (i + 1) offset _ _ (uart_reg_read-Sound c (u32 (offset + i)) s)

pub uart_write_from-Sound :
    (tx_room left i offset value : ℕ) (c : Console)
    → Sound c
    → Sound (uart_write_from tx_room left i offset value c)
unfolding uart_write_from
uart_write_from-Sound tx_room zero i offset value c s = s
uart_write_from-Sound tx_room (suc left) i offset value c s =
    uart_write_from-Sound tx_room left (i + 1) offset value _
      (uart_reg_write-Sound tx_room c (u32 (offset + i)) (u8 (value >> 8 * i)) s)

pub sources-plic_read :
    (p : Plic) (offset : ℕ) → length (plic_read p offset).1.priority ≡ length p.priority
unfolding plic_read plic_claim
sources-plic_read p offset = ground arith

plic_complete-Sound : (c : Console) (source : ℕ) → Sound c → Sound (plic_complete c source)
unfolding plic_complete
plic_complete-Sound c source s = grind (arith, v16550_reeval-Sound)

pub plic_write-Sound :
    (c : Console) (offset value : ℕ) → Sound c → Sound (plic_write c offset value)
unfolding plic_write
plic_write-Sound c offset value s = grind (arith, plic_complete-Sound, length-set)
