-- ===== src/Csr/Paths.antt =====
-- The ways through `hypervisor_csr` of main/hyp_csr.c.
use esp32_p4_linux_hyperviso.Base.{
  ◌≡◌, inl, inr, true, not, some, bit_and, ◌>>◌, ◌==◌, if_keeps, Bool-cases, Ensures, some-Ensures,
}
use mathlib.Core.Option
use esp32_p4_linux_hyperviso.Frame.{Memory}
use esp32_p4_linux_hyperviso.Decode.{GuestTrap, unhandled, advance, trap_decode}
use esp32_p4_linux_hyperviso.Monitor.{Hyp}
use esp32_p4_linux_hyperviso.Csr.{
  Handled, CsrHost, hypervisor_mret, hypervisor_wfi, csr_instruction, hypervisor_csr,
}

-- What a wfi that comes back leaves.
abbrev pub after_wfi : GuestTrap → Hyp → Handled
after_wfi trap h = record { outcome = advance; trap = trap; hyp = h }

-- What holds of a refusal, of mret, of a wfi that comes back and of a CSR instruction holds of
-- whatever the handler returns.
pub hypervisor_csr-Ensures :
    (P : Handled → Type 0) (host : CsrHost) (mem : Memory) (trap : GuestTrap) (h : Hyp)
    → let (decoded, t) = trap_decode mem trap in
      P (record { outcome = unhandled; trap = t; hyp = h })
      → P (hypervisor_mret host.sync t h)
      → (decoded ≡ true
          → Ensures P (Option.map (after_wfi t) (hypervisor_wfi host.sleep host.rounds h)))
      → (decoded ≡ true → P (csr_instruction host.now t h))
      → Ensures P (hypervisor_csr host mem trap h)
unfolding hypervisor_csr
hypervisor_csr-Ensures P host mem trap h refused mret wfi csr =
    let (decoded, t) = trap_decode mem trap in
    let no : Ensures P (some (record { outcome = unhandled; trap = t; hyp = h })) =
      some-Ensures P _ refused in
    elim (Bool-cases decoded) [
      | inr e ↦ rw (hypervisor_csr, e) no
      | inl e ↦
          rw (hypervisor_csr, e)
            (if_keeps (Ensures P) (not (bit_and t.encoding 0x7f == 0x73)) no (
              if_keeps (Ensures P) (bit_and (t.encoding >> 12) 0x7 == 0)
                (if_keeps (Ensures P) (t.encoding == 0x30200073) (some-Ensures P _ mret)
                  (if_keeps (Ensures P) (t.encoding == 0x10500073) (wfi e) no))
                (if_keeps (Ensures P) (bit_and (t.encoding >> 12) 0x7 == 4) no
                  (some-Ensures P _ (csr e)))))
    ]
