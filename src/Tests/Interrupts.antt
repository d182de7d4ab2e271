-- ===== src/Tests/Interrupts.antt =====
-- Interrupts: what is pending, delivered and waited for.
use esp32_p4_linux_hyperviso.Base.{
  ℕ, ◌+◌, ◌*◌, ◌<◌, ◌≤◌, ◌≡◌, ◌≢◌, ◌↔◌, refl, true, some, none, bit, arith, ◌%◌, ◌^◌, [], ◌∷◌,
}
use esp32_p4_linux_hyperviso.Decode.{resume}
use esp32_p4_linux_hyperviso.Monitor.{Hyp}
use esp32_p4_linux_hyperviso.Clint.{clint_write, mtip_pending}
use esp32_p4_linux_hyperviso.Clint.Timer.{AlarmIsSet}
use esp32_p4_linux_hyperviso.Intr.{hyp_inject, hyp_deliver_pending, hyp_pending_cause}
use esp32_p4_linux_hyperviso.Intr.Pending.{Ready}
use esp32_p4_linux_hyperviso.Csr.{hypervisor_mret, hypervisor_wfi}
use esp32_p4_linux_hyperviso.Csr.Wfi.{here, later, turn, done}
use esp32_p4_linux_hyperviso.Intr.Pending.{hyp_pending_cause_lem}
use esp32_p4_linux_hyperviso.Intr.Inject.{hypervisor_mret-hyp_inject, hyp_inject_masks}
use esp32_p4_linux_hyperviso.Clint.Timer.{clint_write_sequence}
use esp32_p4_linux_hyperviso.Csr.Wfi.{hypervisor_wfi-returns, hypervisor_wfi-sleeps}
use esp32_p4_linux_hyperviso.Tests.{
  busy_plic, quiet_plic, a_clint, some_hyp, some_cycles, a_round, a_frame, a_trap,
}

hyp_pending_cause_lem_example :
    let now : ℕ = 6000 in
    let h = some_hyp busy_plic in
    let found = hyp_pending_cause now h in
    (bit h.guest.shadow.mstatus 3 ≡ 0 → found ≡ none)
    × (bit h.guest.shadow.mstatus 3 ≡ 1
        → ((found ≡ some 11) ↔ Ready now h 11)
          × ((found ≡ some 3) ↔ (Ready now h 3 × ¬ Ready now h 11))
          × ((found ≡ some 7) ↔ (Ready now h 7 × ¬ Ready now h 3 × ¬ Ready now h 11))
          × ((found ≡ none) ↔ (¬ Ready now h 7 × ¬ Ready now h 3 × ¬ Ready now h 11)))
hyp_pending_cause_lem_example = hyp_pending_cause_lem 6000 (some_hyp busy_plic)

hypervisor_mret-hyp_inject_example :
    let sync = some_cycles in
    let trap = a_trap 8 0 in
    let cause : ℕ = 8 in
    let tval : ℕ = 0 in
    let h = some_hyp busy_plic in
    let (frame, h') = hyp_inject trap.frame cause tval h in
    let r = hypervisor_mret sync (record trap { frame = frame }) h' in
    (r.outcome ≡ resume)
    × (r.trap.frame ≡ trap.frame)
    × (r.hyp.guest.priv ≡ h.guest.priv)
    × ((k : ℕ)
        → k < 32
        → k ≢ 7
        → k ≢ 11
        → k ≢ 12
        → bit r.hyp.guest.shadow.mstatus k ≡ bit h.guest.shadow.mstatus k)
hypervisor_mret-hyp_inject_example =
    hypervisor_mret-hyp_inject some_cycles (a_trap 8 0) 8 0 (some_hyp busy_plic) (omega arith)
      (omega arith)

hyp_inject_masks_example :
    let now : ℕ = 6000 in
    let frame = a_frame 8 0 in
    let cause : ℕ = 8 in
    let tval : ℕ = 0 in
    let h = some_hyp busy_plic in
    let (frame', h') = hyp_inject frame cause tval h in
    (hyp_pending_cause now h' ≡ none)
    × (hyp_deliver_pending now frame' h' ≡ (frame', h'))
    × (frame'.mepc % 4 ≡ 0)
hyp_inject_masks_example =
    hyp_inject_masks 6000 (a_frame 8 0) 8 0 (some_hyp busy_plic) (omega arith)

clint_write_sequence_example :
    let c = a_clint in
    let now : ℕ = 6000 in
    let lo : ℕ = 7000 in
    let hi : ℕ = 1 in
    let before = clint_write (clint_write c 0x4000 0xFFFFFFFF) 0x4004 hi in
    let after = clint_write before 0x4000 lo in
    (after.mtimecmp ≡ hi * 2 ^ 32 + lo)
    × AlarmIsSet after
    × (mtip_pending now before ≡ true → hi * 2 ^ 32 + lo ≤ now)
    × ((mtip_pending now after ≡ true) ↔ (hi * 2 ^ 32 + lo ≤ now))
clint_write_sequence_example =
    clint_write_sequence a_clint 6000 7000 1 (omega arith) (omega arith) (omega arith)

hypervisor_wfi-returns_example :
    let sleep = some_cycles in
    let rounds = a_round 4000 ∷ a_round 5001 ∷ [] in
    let h = some_hyp quiet_plic in
    (h' : Hyp) × (hypervisor_wfi sleep rounds h ≡ some h') × (h'.guest ≡ h.guest)
hypervisor_wfi-returns_example =
    hypervisor_wfi-returns some_cycles (a_round 4000 ∷ a_round 5001 ∷ []) (some_hyp quiet_plic) refl
      (omega arith) (later (here (omega arith)))

hypervisor_wfi-sleeps_example :
    let sleep = some_cycles in
    let rounds = a_round 4000 ∷ a_round 4900 ∷ [] in
    let h = some_hyp quiet_plic in hypervisor_wfi sleep rounds h ≡ none
hypervisor_wfi-sleeps_example =
    hypervisor_wfi-sleeps some_cycles (a_round 4000 ∷ a_round 4900 ∷ []) (some_hyp quiet_plic) refl
      refl refl (turn (omega arith) (turn (omega arith) done))
