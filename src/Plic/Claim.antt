-- ===== src/Plic/Claim.antt =====
-- Claiming, completing and the pending bits.
use esp32_p4_linux_hyperviso.Base.{
  ℕ, ◌<◌, ◌≡◌, ◌≢◌, refl, Bool, true, false, bit, bit_and, bit_or, ◌==◌, if◌then◌else◌, arith, ◌<<◌,
  not32,
}
use native.Mathlib.Decide.{ℕ_discrete}
use esp32_p4_linux_hyperviso.Plic.{Plic, plic_peek, plic_set_pending, plic_claim}
use esp32_p4_linux_hyperviso.Plic.Bit.{bit-raise, bit-lower}
use esp32_p4_linux_hyperviso.Plic.Peek.{plic_peek-lt, plic_peek-ne}

-- `plic_set_pending` writes the pending bit of its source and nothing else.
pub bit-plic_set_pending :
    (plic : Plic) (source m : ℕ) (asserted : Bool)
    → source < 32
    → m < 32
    → bit (plic_set_pending plic source asserted).pending m
      ≡ (if source == m then (if asserted then 1 else 0) else bit plic.pending m)
unfolding plic_set_pending
bit-plic_set_pending plic source m true h k = bit-raise plic.pending source m h
bit-plic_set_pending plic source m false h k = bit-lower plic.pending source m h k

pub claimed-plic_set_pending :
    (plic : Plic) (source : ℕ) (asserted : Bool)
    → (plic_set_pending plic source asserted).claimed ≡ plic.claimed
unfolding plic_set_pending
claimed-plic_set_pending plic source true = refl
claimed-plic_set_pending plic source false = refl

plic_claim_none : (plic : Plic) → plic_peek plic ≡ 0 → plic_claim plic ≡ (plic_peek plic, plic)
unfolding plic_claim
plic_claim_none plic e = ground arith

-- The PLIC with `source` moved from pending to in service.
abbrev taken : Plic → ℕ → Plic
taken plic source = record plic {
  pending = bit_and plic.pending (not32 (1 << source));
  claimed = bit_or plic.claimed (1 << source);
}

plic_claim_some :
    (plic : Plic)
    → plic_peek plic ≢ 0
    → plic_claim plic ≡ (plic_peek plic, taken plic (plic_peek plic))
unfolding plic_claim
plic_claim_some plic e = ground arith

-- A claim answers what `plic_peek` finds. A source that it answers, not 0, is no longer pending and is
-- now in service, no other source's pending or in-service bit changes, and it is not
-- found again, whatever pending bits the devices then set, while it is in service. When nothing can
-- be claimed the answer is 0 and nothing changes.
pub plic_claim_lem :
    (plic : Plic)
    → let (source, plic') = plic_claim plic in
      (source ≡ plic_peek plic)
      × (source ≡ 0 → plic' ≡ plic)
      × (source ≢ 0
          → (m : ℕ) → m < 32
          → (bit plic'.pending m ≡ (if source == m then 0 else bit plic.pending m))
            × (bit plic'.claimed m ≡ (if source == m then 1 else bit plic.claimed m)))
      × (source ≢ 0 → (raised : ℕ) → plic_peek (record plic' { pending = raised }) ≢ source)
plic_claim_lem plic = elim (ℕ_discrete (plic_peek plic) 0) [
  | yes e ↦ rw (plic_claim_none plic e) (refl, λ _. refl, λ ne. absurd (ne e), λ ne. absurd (ne e))
  | no ne ↦ rw (plic_claim_some plic ne) (
    refl,
    λ e. absurd (ne e),
    λ _ m h. (
      bit-lower plic.pending (plic_peek plic) m (plic_peek-lt plic) h,
      bit-raise plic.claimed (plic_peek plic) m (plic_peek-lt plic),
    ),
    λ _ raised. plic_peek-ne _ (plic_peek plic) ne in_service,
  )
]
  where
    in_service : bit (bit_or plic.claimed (1 << plic_peek plic)) (plic_peek plic) ≡ 1
    in_service =
        rw (bit-raise plic.claimed (plic_peek plic) (plic_peek plic) (plic_peek-lt plic))
          (ground arith)
