-- ===== src/Uart/Line.antt =====
-- The UART's interrupt line.
use esp32_p4_linux_hyperviso.Base.{
  ℕ, zero, suc, ◌+◌, ◌*◌, ◌<◌, ◌≡◌, ◌⊎◌, ◌≢◌, inl, inr, refl, ◌∙◌, bit, if◌then◌else◌, arith, u8,
  u32, ◌>>◌, ◌<<◌, bit_and, not32,
}
use native.Mathlib.Decide.{ℕ_discrete}
use esp32_p4_linux_hyperviso.Plic.{Plic, plic_claim, plic_read}
use esp32_p4_linux_hyperviso.Plic.Bit.{bit-lower}
use esp32_p4_linux_hyperviso.Plic.Claim.{bit-plic_set_pending, plic_claim_lem}
use esp32_p4_linux_hyperviso.Plic.Write.{plic_complete, plic_write}
use esp32_p4_linux_hyperviso.Uart.{
  Uart, Console, uart_line, uart_rx_empty, v16550_reeval, uart_reg_read, uart_reg_write,
  uart_read_from, uart_write_from,
}

-- Unless the UART's interrupt is in service, its pending bit is the state of its line.
pub data LineIsKept (c : Console) : Type 0 where
  in_service : bit c.plic.claimed 10 ≡ 1 → LineIsKept c
  settled : bit c.plic.pending 10 ≡ (if uart_line c.uart then 1 else 0) → LineIsKept c

pub v16550_reeval-LineIsKept : (c : Console) → LineIsKept (v16550_reeval c)
unfolding v16550_reeval
v16550_reeval-LineIsKept c =
    settled (bit-plic_set_pending c.plic 10 10 (uart_line c.uart) (omega arith) (omega arith))

-- The line depends on IER and on the ring's two indices alone.
kept_uart :
    (c : Console) (u : Uart)
    → u.ier ≡ c.uart.ier
    → u.head ≡ c.uart.head
    → u.tail ≡ c.uart.tail
    → LineIsKept c
    → LineIsKept (record c { uart = u })
unfolding uart_line uart_rx_empty
kept_uart c u e f g (in_service k) = in_service k
kept_uart c u e f g (settled k) = settled (rw (e, f, g) k)

uart_reg_read-LineIsKept :
    (c : Console) (offset : ℕ) → LineIsKept c → LineIsKept (uart_reg_read c offset).1
unfolding uart_reg_read
uart_reg_read-LineIsKept c offset h = grind (arith, v16550_reeval-LineIsKept)

uart_reg_write-LineIsKept :
    (tx_room : ℕ) (c : Console) (offset value : ℕ)
    → LineIsKept c
    → LineIsKept (uart_reg_write tx_room c offset value)
unfolding uart_reg_write
uart_reg_write-LineIsKept tx_room c offset value h =
    grind (arith, v16550_reeval-LineIsKept, kept_uart)

pub uart_read_from-LineIsKept :
    (left i offset : ℕ) (c : Console) (value : ℕ)
    → LineIsKept c
    → LineIsKept (uart_read_from left i offset c value).1
unfolding uart_read_from
uart_read_from-LineIsKept zero i offset c value h = h
uart_read_from-LineIsKept (suc left) i offset c value h =
    uart_read_from-LineIsKept left (i + 1) offset _ _
      (uart_reg_read-LineIsKept c (u32 (offset + i)) h)

pub uart_write_from-LineIsKept :
    (tx_room left i offset value : ℕ) (c : Console)
    → LineIsKept c
    → LineIsKept (uart_write_from tx_room left i offset value c)
unfolding uart_write_from
uart_write_from-LineIsKept tx_room zero i offset value c h = h
uart_write_from-LineIsKept tx_room (suc left) i offset value c h =
    uart_write_from-LineIsKept tx_room left (i + 1) offset value _
      (uart_reg_write-LineIsKept tx_room c (u32 (offset + i)) (u8 (value >> 8 * i)) h)

kept_by_bits :
    (c : Console) (plic : Plic)
    → (bit c.plic.claimed 10 ≡ 1 → bit plic.claimed 10 ≡ 1)
    → ((bit plic.claimed 10 ≡ 1) ⊎ (bit plic.pending 10 ≡ bit c.plic.pending 10))
    → LineIsKept c
    → LineIsKept (record c { plic = plic })
kept_by_bits c plic keeps same (in_service e) = in_service (keeps e)
kept_by_bits c plic keeps (inl e) (settled l) = in_service e
kept_by_bits c plic keeps (inr e) (settled l) = settled (e ∙ l)

plic_claim-LineIsKept :
    (c : Console) → LineIsKept c → LineIsKept (record c { plic = (plic_claim c.plic).1 })
plic_claim-LineIsKept c h = elim (ℕ_discrete (plic_claim c.plic).0 0) [
  | yes e ↦ rw ((plic_claim_lem c.plic).1 e) h
  | no ne ↦
      let bits = (plic_claim_lem c.plic).2 ne 10 (omega arith) in
      kept_by_bits c (plic_claim c.plic).1 (ground arith) (ground arith) h
]

kept_plic :
    (c : Console) (plic : Plic)
    → plic.claimed ≡ c.plic.claimed
    → plic.pending ≡ c.plic.pending
    → LineIsKept c
    → LineIsKept (record c { plic = plic })
kept_plic c plic e f (in_service k) = in_service (rw e k)
kept_plic c plic e f (settled k) = settled (rw f k)

-- Reading the PLIC changes it at the claim register alone.
plic_read_cases :
    (plic : Plic) (offset : ℕ)
    → ((plic_read plic offset).1 ≡ plic) ⊎ ((plic_read plic offset).1 ≡ (plic_claim plic).1)
unfolding plic_read
plic_read_cases plic offset = ground arith

pub plic_read-LineIsKept :
    (c : Console) (offset : ℕ)
    → LineIsKept c
    → LineIsKept (record c { plic = (plic_read c.plic offset).1 })
plic_read-LineIsKept c offset h = elim (plic_read_cases c.plic offset) [
  | inl same ↦ rw same h
  | inr claimed ↦ rw claimed (plic_claim-LineIsKept c h)
]

-- Completing another source's interrupt leaves the UART's pending and in-service bits alone.
kept_complete :
    (c : Console) (source : ℕ)
    → source < 32
    → source ≢ 10
    → LineIsKept c
    → LineIsKept (record c {
      plic = record (c.plic) { claimed = bit_and c.plic.claimed (not32 (1 << source)) };
    })
kept_complete c source low other h =
    kept_by_bits c (record (c.plic) { claimed = bit_and c.plic.claimed (not32 (1 << source)) })
      (λ e. same ∙ e) (inr refl) h
  where
    same : bit (bit_and c.plic.claimed (not32 (1 << source))) 10 ≡ bit c.plic.claimed 10
    same = ground (arith, bit-lower c.plic.claimed source 10 low (omega arith))

plic_complete-LineIsKept :
    (c : Console) (source : ℕ) → LineIsKept c → LineIsKept (plic_complete c source)
unfolding plic_complete
plic_complete-LineIsKept c source h =
    grind (arith, v16550_reeval-LineIsKept, kept_complete c source)

pub plic_write-LineIsKept :
    (c : Console) (offset value : ℕ) → LineIsKept c → LineIsKept (plic_write c offset value)
unfolding plic_write
plic_write-LineIsKept c offset value h = grind (arith, plic_complete-LineIsKept, kept_plic)
