-- ===== src/Plic.antt =====
-- main/hyp_plic.c: the emulated PLIC, one context, sources 1..31. `plic_write`, which re-evaluates
-- the UART, is in Plic/Write.
pub mod Bit
pub mod Peek
pub mod Claim
pub mod Write
use esp32_p4_linux_hyperviso.Base.{
  ℕ, zero, suc, ◌+◌, ◌/◌, Bool, not, ◌&&◌, List, get_or, bit_and, bit_or, ltb, leb, ◌==◌, has,
  not32, ◌<<◌, if◌then◌else◌,
}

abbrev pub plic_uart_source : ℕ
plic_uart_source = 10

abbrev pub plic_virtio_blk_source : ℕ
plic_virtio_blk_source = 11

abbrev pub plic_max_source : ℕ
plic_max_source = 31

pub record Plic : Type 0 where
  pub priority : List ℕ
  pub enable : ℕ
  pub pending : ℕ
  pub claimed : ℕ
  pub threshold : ℕ

-- The four `continue` tests of `plic_peek`'s loop, all passed.
abbrev pub is_candidate : Plic → ℕ → ℕ → Bool
is_candidate plic n best_priority =
    has plic.pending (1 << n)
    && has plic.enable (1 << n)
    && not (has plic.claimed (1 << n))
    && not (leb (get_or plic.priority n 0) best_priority)

-- The loop from source `n` on, with `left` sources to go.
unfoldable pub peek_from : Plic → ℕ → ℕ → ℕ → ℕ → ℕ
peek_from plic zero n best best_priority = best
peek_from plic (suc left) n best best_priority =
    peek_from plic left (n + 1) (if is_candidate plic n best_priority then n else best)
      (if is_candidate plic n best_priority then get_or plic.priority n 0 else best_priority)

unfoldable pub plic_peek : Plic → ℕ
plic_peek plic = peek_from plic plic_max_source 1 0 plic.threshold

unfoldable pub meip_pending : Plic → Bool
meip_pending plic = not (plic_peek plic == 0)

unfoldable pub plic_set_pending : Plic → ℕ → Bool → Plic
plic_set_pending plic source asserted =
    if asserted
    then record plic { pending = bit_or plic.pending (1 << source) }
    else record plic { pending = bit_and plic.pending (not32 (1 << source)) }

-- The claim register: the source moves from pending to claimed.
unfoldable pub plic_claim : Plic → ℕ × Plic
plic_claim plic =
    let source = plic_peek plic in
    if not (source == 0)
    then (
      source,
      record plic {
        pending = bit_and plic.pending (not32 (1 << source));
        claimed = bit_or plic.claimed (1 << source);
      },
    )
    else (source, plic)

-- A read returns the value and the PLIC after it; `width` is not looked at.
unfoldable pub plic_read : Plic → ℕ → ℕ × Plic
unfolding plic_claim
plic_read plic offset =
    if ltb offset 0x1000
    then (if leb (offset / 4) plic_max_source then get_or plic.priority (offset / 4) 0 else 0, plic)
    else if leb 0x1000 offset && ltb offset 0x2000
    then (if offset == 0x1000 then plic.pending else 0, plic)
    else if leb 0x2000 offset && ltb offset 0x200000
    then (if offset == 0x2000 then plic.enable else 0, plic)
    else if leb 0x200000 offset && ltb offset 0x201000
    then if offset == 0x200000
      then (plic.threshold, plic)
      else if offset == 0x200004
      then plic_claim plic
      else (0, plic)
    else (0, plic)
