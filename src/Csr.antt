-- ===== src/Csr.antt =====
-- main/hyp_csr.c: the shadow CSR bank, and the CSR, mret and wfi instructions that trap as illegal.
pub mod Slots
pub mod Wfi
pub mod Paths
pub mod View
pub mod File
pub mod Access
pub mod Encoded
use esp32_p4_linux_hyperviso.Base.{
  ℕ, ◌+◌, ◌-◌, Bool, true, false, not, ◌&&◌, ◌||◌, Option, none, some, List, [], ◌∷◌, get_or, set,
  bit_and, bit_or, ltb, leb, ◌==◌, has, not32, ◌>>◌, u32, u64, sub32, if◌then◌else◌,
}
use mathlib.Core.Option
use esp32_p4_linux_hyperviso.Frame.{Memory, reg_read, reg_write}
use esp32_p4_linux_hyperviso.Decode.{GuestTrap, TrapResult, unhandled, advance, resume, trap_decode}
use esp32_p4_linux_hyperviso.Plic.{meip_pending}
use esp32_p4_linux_hyperviso.Clint.{mtip_pending, hyp_mtime_max}
use esp32_p4_linux_hyperviso.Monitor.{
  Guest, Hyp, Arrivals, mstatus_mie, mstatus_mpie, mstatus_mpp, mstatus_mpp_s, mip_msip, mip_mtip,
  mip_meip,
}
use esp32_p4_linux_hyperviso.Intr.{shadow_mip_read, hyp_poll_host_devices}

-- A place in the bank, for the pointer that `shadow_slot` returns.
pub data Slot : Type 0 where
  mstatus mie mtvec mscratch mepc mcause mtval : Slot
  pmpcfg : ℕ → Slot
  pmpaddr : ℕ → Slot

unfoldable pub shadow_slot : ℕ → Option Slot
shadow_slot csr =
    if csr == 0x300
    then some Slot.mstatus
    else if csr == 0x304
    then some Slot.mie
    else if csr == 0x305
    then some Slot.mtvec
    else if csr == 0x340
    then some Slot.mscratch
    else if csr == 0x341
    then some Slot.mepc
    else if csr == 0x342
    then some Slot.mcause
    else if csr == 0x343
    then some Slot.mtval
    else if leb 0x3a0 csr && leb csr 0x3a3
    then some (Slot.pmpcfg (csr - 0x3a0))
    else if leb 0x3b0 csr && leb csr 0x3bf
    then some (Slot.pmpaddr (csr - 0x3b0))
    else none

unfoldable pub slot_read : Guest → Slot → ℕ
slot_read g Slot.mstatus = g.shadow.mstatus
slot_read g Slot.mie = g.shadow.mie
slot_read g Slot.mtvec = g.shadow.mtvec
slot_read g Slot.mscratch = g.shadow.mscratch
slot_read g Slot.mepc = g.shadow.mepc
slot_read g Slot.mcause = g.shadow.mcause
slot_read g Slot.mtval = g.shadow.mtval
slot_read g (Slot.pmpcfg i) = get_or g.pmpcfg i 0
slot_read g (Slot.pmpaddr i) = get_or g.pmpaddr i 0

unfoldable pub slot_write : Guest → Slot → ℕ → Guest
slot_write g Slot.mstatus v = record g { shadow = record (g.shadow) { mstatus = v } }
slot_write g Slot.mie v = record g { shadow = record (g.shadow) { mie = v } }
slot_write g Slot.mtvec v = record g { shadow = record (g.shadow) { mtvec = v } }
slot_write g Slot.mscratch v = record g { shadow = record (g.shadow) { mscratch = v } }
slot_write g Slot.mepc v = record g { shadow = record (g.shadow) { mepc = v } }
slot_write g Slot.mcause v = record g { shadow = record (g.shadow) { mcause = v } }
slot_write g Slot.mtval v = record g { shadow = record (g.shadow) { mtval = v } }
slot_write g (Slot.pmpcfg i) v = record g { pmpcfg = set g.pmpcfg i v }
slot_write g (Slot.pmpaddr i) v = record g { pmpaddr = set g.pmpaddr i v }

unfoldable pub csr_read_only_zero : ℕ → Bool
csr_read_only_zero csr =
    csr == 0x001
    || csr == 0x002
    || csr == 0x003
    || csr == 0x301
    || csr == 0xf11
    || csr == 0xf12
    || csr == 0xf13
    || csr == 0xf14

-- How a handler ends: its result, the trap with its frame, and the monitor.
pub record Handled : Type 0 where
  pub outcome : TrapResult
  pub trap : GuestTrap
  pub hyp : Hyp

-- The cycle counter, read twice round a piece of work.
pub record Cycles : Type 0 where
  pub before : ℕ
  pub after : ℕ

unfoldable pub hyp_sync_icache : Cycles → Hyp → Hyp
hyp_sync_icache t h = record h {
  stats = record (h.stats) {
    icache_syncs = u32 (h.stats.icache_syncs + 1);
    icache_sync_cycles = u64 (h.stats.icache_sync_cycles + sub32 t.after t.before);
  };
}

-- mstatus as mret leaves it.
unfoldable pub returned_status : ℕ → ℕ
returned_status status =
    let opened =
      bit_or (bit_and status (not32 mstatus_mie))
        (if has status mstatus_mpie then mstatus_mie else 0) in
    bit_and (bit_or opened mstatus_mpie) (not32 mstatus_mpp)

unfoldable pub hypervisor_mret : Cycles → GuestTrap → Hyp → Handled
hypervisor_mret sync trap h =
    let status = h.guest.shadow.mstatus in
    let h' = record h {
      guest = record (h.guest) {
        priv = bit_and status mstatus_mpp >> mstatus_mpp_s;
        shadow = record (h.guest.shadow) { mstatus = returned_status status };
      };
    } in
    let synced = hyp_sync_icache sync h' in
    if h.guest.shadow.mepc == 0
    then record { outcome = unhandled; trap = trap; hyp = h' }
    else record {
      outcome = resume;
      trap = record trap { frame = record (trap.frame) { mepc = h.guest.shadow.mepc } };
      hyp = record synced {
        stats = record (synced.stats) { mrets = u32 (synced.stats.mrets + 1) };
      };
    }

unfoldable pub hyp_wfi_wake : ℕ → Hyp → Bool
hyp_wfi_wake now h =
    let s = h.guest.shadow in
    if has s.mie mip_meip && meip_pending h.devices.plic
    then true
    else if has s.mie mip_msip && has s.mip mip_msip
    then true
    else if has s.mie mip_mtip && mtip_pending now h.devices.clint
    then true
    else false

-- One turn of the wfi loop: the counter at the wake test, and what the poll after the sleep finds.
pub record Round : Type 0 where
  pub now : ℕ
  pub arrivals : Arrivals

-- The loop over the rounds that the host gives it; `none` is a core still asleep after the last.
unfoldable pub wfi_loop : List Round → Hyp → Option Hyp
wfi_loop [] h = none
wfi_loop (r ∷ rounds) h =
    let rest = wfi_loop rounds (hyp_poll_host_devices r.arrivals h) in
    if hyp_wfi_wake r.now h then some h else rest

unfoldable pub wfi_timer_armed : Hyp → Bool
wfi_timer_armed h = has h.guest.shadow.mie mip_mtip && ltb h.devices.clint.mtimecmp hyp_mtime_max

unfoldable pub wfi_ext_armed : Hyp → Bool
wfi_ext_armed h = has h.guest.shadow.mie mip_meip

-- After the loop: the time asleep is added up.
unfoldable pub wfi_done : Cycles → Hyp → Hyp
wfi_done sleep h =
    let asleep = sub32 sleep.after sleep.before in
    record h {
      in_wfi = false;
      idle_cycles = u32 (h.idle_cycles + asleep);
      stats = record (h.stats) { idle_cycles = u64 (h.stats.idle_cycles + asleep) };
    }

-- The result is always TRAP_ADVANCE.
unfoldable pub hypervisor_wfi : Cycles → List Round → Hyp → Option Hyp
hypervisor_wfi sleep rounds h =
    if not (wfi_timer_armed h) && not (wfi_ext_armed h)
    then some (record h { stats = record (h.stats) { wfi_spins = u32 (h.stats.wfi_spins + 1) } })
    else elim (wfi_loop rounds (record h {
      stats = record (h.stats) { wfi_blocks = u32 (h.stats.wfi_blocks + 1) };
      in_wfi = true;
    })) [ none ↦ none | some h' ↦ some (wfi_done sleep h') ]

-- What a CSR instruction writes, by the low two bits of funct3: swap, set, clear.
unfoldable pub csr_update : ℕ → ℕ → ℕ → ℕ
csr_update funct3 old src =
    let op = bit_and funct3 0x3 in
    if op == 1
    then src
    else if op == 2
    then bit_or old src
    else if op == 3
    then bit_and old (not32 src)
    else old

-- csrrw always writes, csrrs and csrrc unless the rs1 field is 0.
abbrev pub csr_writes : ℕ → ℕ → Bool
csr_writes funct3 rs1 = bit_and funct3 0x3 == 1 || not (rs1 == 0)

-- The CSR's old value and the monitor after the write; `none` for a CSR that is not there.
unfoldable pub csr_access : ℕ → ℕ → ℕ → ℕ → ℕ → Hyp → Option (ℕ × Hyp)
csr_access now csr funct3 rs1 src h =
    if csr == 0x344
    then (let old = shadow_mip_read now h in
        let updated = bit_and (csr_update funct3 old src) (not32 (bit_or mip_mtip mip_meip)) in
        some (
          old,
          if csr_writes funct3 rs1
              then record h {
                guest = record (h.guest) { shadow = record (h.guest.shadow) { mip = updated } };
              }
              else h,
        ))
    else elim (shadow_slot csr) [
      | some slot ↦ some (
        slot_read h.guest slot,
        if csr_writes funct3 rs1
            then record h {
              guest = slot_write h.guest slot (csr_update funct3 (slot_read h.guest slot) src);
            }
            else h,
      )
      | none ↦ if csr_read_only_zero csr then some (0, h) else none
    ]

-- The two counters of CSR accesses.
unfoldable pub csr_count : ℕ → ℕ → Hyp → Hyp
csr_count funct3 rs1 h =
    if csr_writes funct3 rs1
    then record h { stats = record (h.stats) { csr_write = u32 (h.stats.csr_write + 1) } }
    else record h { stats = record (h.stats) { csr_read_only = u32 (h.stats.csr_read_only + 1) } }

-- The six CSR instructions, once decoded.
unfoldable pub csr_instruction : ℕ → GuestTrap → Hyp → Handled
csr_instruction now trap h =
    let instruction = trap.encoding in
    let funct3 = bit_and (instruction >> 12) 0x7 in
    let csr = instruction >> 20 in
    let rd = bit_and (instruction >> 7) 0x1f in
    let rs1 = bit_and (instruction >> 15) 0x1f in
    let src = if has funct3 0x4 then rs1 else reg_read trap.frame rs1 in
    elim (csr_access now csr funct3 rs1 src h) [
      | none ↦ record { outcome = unhandled; trap = trap; hyp = h }
      | some (old, h') ↦ record {
        outcome = advance;
        trap = record trap { frame = reg_write trap.frame rd old };
        hyp = csr_count funct3 rs1 h';
      }
    ]

-- What hardware presents to the handler of one illegal instruction.
pub record CsrHost : Type 0 where
  pub now : ℕ
  pub sync : Cycles
  pub sleep : Cycles
  pub rounds : List Round

-- `none` is a core that is still asleep in wfi after the rounds it was given.
unfoldable pub hypervisor_csr : CsrHost → Memory → GuestTrap → Hyp → Option Handled
hypervisor_csr host mem trap h =
    let (decoded, t) = trap_decode mem trap in
    let refused : Option Handled = some (record { outcome = unhandled; trap = t; hyp = h }) in
    let funct3 = bit_and (t.encoding >> 12) 0x7 in
    if not decoded
    then refused
    else if not (bit_and t.encoding 0x7f == 0x73)
    then refused
    else if funct3 == 0
    then if t.encoding == 0x30200073
      then some (hypervisor_mret host.sync t h)
      else if t.encoding == 0x10500073
      then Option.map (λ (h' : Hyp). record { outcome = advance; trap = t; hyp = h' })
          (hypervisor_wfi host.sleep host.rounds h)
      else refused
    else if funct3 == 4
    then refused
    else some (csr_instruction host.now t h)
