-- ===== src/Uart.antt =====
-- main/hyp_uart.c: the emulated 16550. Its interrupt line is a bit of the PLIC, so the functions
-- that re-evaluate the line work on both devices.
--
-- `tx_room` is the free space that the hardware reports for its transmit FIFO; `sent` collects the
-- bytes that are handed to it.
pub mod Queue
pub mod Line
use esp32_p4_linux_hyperviso.Base.{
  ℕ, zero, suc, ◌+◌, ◌*◌, ◌%◌, Bool, true, false, not, ◌&&◌, ◌||◌, List, [], ◌∷◌, ◌++◌, get_or, set,
  bit_and, bit_or, ltb, ◌==◌, has, ◌<<◌, ◌>>◌, u8, u32, if◌then◌else◌,
}
use esp32_p4_linux_hyperviso.Plic.{Plic, plic_uart_source, plic_set_pending}

abbrev pub uart_rx_ring_size : ℕ
uart_rx_ring_size = 512

pub record Uart : Type 0 where
  pub ier : ℕ
  pub lcr : ℕ
  pub mcr : ℕ
  pub scr : ℕ
  pub fcr : ℕ
  pub dll : ℕ
  pub dlm : ℕ
  pub ring : List ℕ
  pub head : ℕ
  pub tail : ℕ
  pub overruns : ℕ
  pub tx_dropped : ℕ

-- The 16550, the PLIC that its line goes to, and what the wire has been given.
pub record Console : Type 0 where
  pub uart : Uart
  pub plic : Plic
  pub sent : List ℕ

unfoldable pub uart_rx_empty : Uart → Bool
uart_rx_empty u = u.head == u.tail

unfoldable pub uart_rx_push : Uart → ℕ → Uart
uart_rx_push u c =
    let next = u32 (u.head + 1) % uart_rx_ring_size in
    if next == u.tail
    then record u { overruns = u32 (u.overruns + 1) }
    else record u { ring = set u.ring u.head c; head = next }

unfoldable pub uart_rx_pop : Uart → ℕ × Uart
uart_rx_pop u =
    if uart_rx_empty u
    then (0, u)
    else (get_or u.ring u.tail 0, record u { tail = u32 (u.tail + 1) % uart_rx_ring_size })

-- `rx_int || tx_int` of `v16550_reeval`.
unfoldable pub uart_line : Uart → Bool
uart_line u = has u.ier 0x01 && not (uart_rx_empty u) || has u.ier 0x02

unfoldable pub v16550_reeval : Console → Console
v16550_reeval c = record c { plic = plic_set_pending c.plic plic_uart_source (uart_line c.uart) }

abbrev pub dlab : Uart → Bool
dlab u = has u.lcr 0x80

-- IIR: what the driver is told is pending.
unfoldable pub uart_iir : Uart → ℕ
uart_iir u =
    bit_or
      (if has u.ier 0x01 && not (uart_rx_empty u)
        then 0x04
        else if has u.ier 0x02
        then 0x02
        else 0x01)
      (if has u.fcr 0x01 then 0xC0 else 0x00)

unfoldable pub uart_msr : Uart → ℕ
uart_msr u =
    if has u.mcr 0x10
    then u8 (
        bit_or (bit_or (bit_and u.mcr 0x0C << 4) (bit_and u.mcr 0x02 << 3))
          (bit_and u.mcr 0x01 << 5))
    else 0xB0

unfoldable pub uart_reg_read : Console → ℕ → ℕ × Console
uart_reg_read c offset =
    if dlab c.uart && offset == 0
    then (c.uart.dll, c)
    else if dlab c.uart && offset == 1
    then (c.uart.dlm, c)
    else if offset == 0
    then (let (byte, u) = uart_rx_pop c.uart in (byte, v16550_reeval (record c { uart = u })))
    else if offset == 1
    then (c.uart.ier, c)
    else if offset == 2
    then (uart_iir c.uart, c)
    else if offset == 3
    then (c.uart.lcr, c)
    else if offset == 4
    then (c.uart.mcr, c)
    else if offset == 5
    then (bit_or 0x60 (if uart_rx_empty c.uart then 0x00 else 0x01), c)
    else if offset == 6
    then (uart_msr c.uart, c)
    else if offset == 7
    then (c.uart.scr, c)
    else (0, c)

-- THR: a byte goes back to the receive ring in loopback, else to the wire or nowhere.
unfoldable pub uart_transmit : ℕ → Console → ℕ → Console
uart_transmit tx_room c value =
    if has c.uart.mcr 0x10
    then record c { uart = uart_rx_push c.uart value }
    else if ltb 0 tx_room
    then record c { sent = c.sent ++ (value ∷ []) }
    else record c { uart = record (c.uart) { tx_dropped = u32 (c.uart.tx_dropped + 1) } }

unfoldable pub uart_reg_write : ℕ → Console → ℕ → ℕ → Console
uart_reg_write tx_room c offset value =
    if dlab c.uart && offset == 0
    then record c { uart = record (c.uart) { dll = value } }
    else if dlab c.uart && offset == 1
    then record c { uart = record (c.uart) { dlm = value } }
    else if offset == 0
    then v16550_reeval (uart_transmit tx_room c value)
    else if offset == 1
    then v16550_reeval (record c { uart = record (c.uart) { ier = value } })
    else if offset == 2
    then record c { uart = record (c.uart) { fcr = value } }
    else if offset == 3
    then record c { uart = record (c.uart) { lcr = value } }
    else if offset == 4
    then record c { uart = record (c.uart) { mcr = value } }
    else if offset == 7
    then record c { uart = record (c.uart) { scr = value } }
    else c

-- The loops over the bytes of an access: byte `i`, with `left` bytes to go.
unfoldable pub uart_read_from : ℕ → ℕ → ℕ → Console → ℕ → ℕ × Console
uart_read_from zero i offset c value = (value, c)
uart_read_from (suc left) i offset c value =
    let (byte, c') = uart_reg_read c (u32 (offset + i)) in
    uart_read_from left (i + 1) offset c' (bit_or value (byte << 8 * i))

unfoldable pub uart_read : Console → ℕ → ℕ → ℕ × Console
uart_read c offset width = uart_read_from width 0 offset c 0

unfoldable pub uart_write_from : ℕ → ℕ → ℕ → ℕ → ℕ → Console → Console
uart_write_from tx_room zero i offset value c = c
uart_write_from tx_room (suc left) i offset value c =
    uart_write_from tx_room left (i + 1) offset value
      (uart_reg_write tx_room c (u32 (offset + i)) (u8 (value >> 8 * i)))

unfoldable pub uart_write : ℕ → Console → ℕ → ℕ → ℕ → Console
uart_write tx_room c offset value width = uart_write_from tx_room width 0 offset value c
