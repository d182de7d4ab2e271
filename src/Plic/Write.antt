-- ===== src/Plic/Write.antt =====
-- `plic_write` of main/hyp_plic.c. Completing the UART's interrupt re-evaluates the UART.
use esp32_p4_linux_hyperviso.Base.{
  ℕ, ◌/◌, not, ◌&&◌, set, bit_and, ltb, leb, ◌==◌, has, not32, ◌<<◌, if◌then◌else◌,
}
use esp32_p4_linux_hyperviso.Plic.{plic_max_source, plic_uart_source}
use esp32_p4_linux_hyperviso.Uart.{Console, v16550_reeval}

-- The complete register.
unfoldable pub plic_complete : Console → ℕ → Console
plic_complete c source =
    if not (source == 0) && leb source plic_max_source && has c.plic.claimed (1 << source)
    then (let c' = record c {
      plic = record (c.plic) { claimed = bit_and c.plic.claimed (not32 (1 << source)) };
    } in
        if source == plic_uart_source then v16550_reeval c' else c')
    else c

unfoldable pub plic_write : Console → ℕ → ℕ → Console
plic_write c offset value =
    if ltb offset 0x1000
    then if leb (offset / 4) plic_max_source
      then record c { plic = record (c.plic) { priority = set c.plic.priority (offset / 4) value } }
      else c
    else if leb 0x2000 offset && ltb offset 0x200000
    then if offset == 0x2000 then record c { plic = record (c.plic) { enable = value } } else c
    else if leb 0x200000 offset && ltb offset 0x201000
    then if offset == 0x200000
      then record c { plic = record (c.plic) { threshold = value } }
      else if offset == 0x200004
      then plic_complete c value
      else c
    else c
