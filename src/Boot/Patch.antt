-- ===== src/Boot/Patch.antt =====
-- What patching the device tree changes, and when.
use esp32_p4_linux_hyperviso.Base.{
  ℕ, zero, suc, ◌+◌, ◌-◌, ◌^◌, ◌≤◌, ◌<◌, ◌≡◌, sym, ap, ◌∙◌, ◌⊎◌, inl, inr, Bool, true, false, ◌||◌,
  List, ◌++◌, ltb, Bool-cases, arith,
}
use native.Mathlib.Decide.{ℕ_discrete}
use esp32_p4_linux_hyperviso.Frame.{Memory}
use esp32_p4_linux_hyperviso.Boot.{dtb_address}
use esp32_p4_linux_hyperviso.Boot.Bytes.{
  memcmp_equal, write_bytes, be_bytes, be32, write_bytes-others, be32-write_bytes,
}
use esp32_p4_linux_hyperviso.Boot.Dtb.{patch_from, patch_dtb_window}

-- The needle stands at an offset of the blob.
abbrev pub at : ℕ → List ℕ → Memory → ℕ → Bool
at base needle mem i = memcmp_equal mem (base + i) needle

-- Of `left` places from `i` on: the needle's first one is patched, or there is none.
pub data Scan (base left i : ℕ) (needle : List ℕ) (address span : ℕ) (mem : Memory)
    : Bool × Memory → Type 0 where
  hit :
      (j : ℕ)
      → i ≤ j
      → j < i + left
      → at base needle mem j ≡ true
      → ((k : ℕ) → i ≤ k → k < j → at base needle mem k ≡ false)
      → Scan base left i needle address span mem
          (true, write_bytes mem (base + j) (be_bytes address ++ be_bytes span))
  miss :
      ((k : ℕ) → i ≤ k → k < i + left → at base needle mem k ≡ false)
      → Scan base left i needle address span mem (false, mem)

pub patch_from-Scan :
    (base left i : ℕ) (needle : List ℕ) (address span : ℕ) (mem : Memory)
    → Scan base left i needle address span mem (patch_from base left i needle address span mem)
unfolding patch_from
patch_from-Scan base zero i needle address span mem = miss (λ k l h. absurd (omega arith))
patch_from-Scan base (suc left) i needle address span mem =
    elim (Bool-cases (at base needle mem i)) [
      | inl e ↦
          rw (patch_from, e) (hit i (omega arith) (omega arith) e (λ k l h. absurd (omega arith)))
      | inr e ↦
          rw (patch_from, e) (later e (patch_from-Scan base left (i + 1) needle address span mem))
    ]
  where
    earlier :
        at base needle mem i ≡ false
        → (k : ℕ) → i ≤ k
        → ((i + 1 ≤ k) → at base needle mem k ≡ false)
        → at base needle mem k ≡ false
    earlier e k l f = elim (ℕ_discrete i k) [
      | yes same ↦ ap (at base needle mem) (sym same) ∙ e
      | no ne ↦ f (omega arith)
    ]

    later :
        {r : Bool × Memory}
        → at base needle mem i ≡ false
        → Scan base left (i + 1) needle address span mem r
        → Scan base (suc left) i needle address span mem r
    later e (hit j l h a f) =
        hit j (omega arith) (omega arith) a (λ k m n. earlier e k m (λ g. f k g n))
    later e (miss f) = miss (λ k m n. earlier e k m (λ g. f k g (omega arith)))

-- What patching leaves.
pub data Patched (needle : List ℕ) (address span total : ℕ) (mem : Memory)
    : Bool × Memory → Type 0 where
  patched :
      (mem' : Memory) (j : ℕ)
      → j + 8 ≤ total
      → at dtb_address needle mem j ≡ true
      → ((k : ℕ) → k < j → at dtb_address needle mem k ≡ false)
      → be32 mem' (dtb_address + j) ≡ address
      → be32 mem' (dtb_address + j + 4) ≡ span
      → ((a : ℕ) → (a < dtb_address + j) ⊎ (dtb_address + j + 8 ≤ a) → mem' a ≡ mem a)
      → Patched needle address span total mem (true, mem')
  bad_size : (total < 8) ⊎ (0x00100000 < total) → Patched needle address span total mem (false, mem)
  absent :
      ((k : ℕ) → k + 8 ≤ total → at dtb_address needle mem k ≡ false)
      → Patched needle address span total mem (false, mem)

-- Patching succeeds exactly when the blob's size is in range and the needle stands somewhere in it.
-- Then its first occurrence, and no other byte of memory, is replaced, and the address and the span
-- are read back there as big-endian words. Otherwise memory is as it was.
pub patch_dtb_window-Patched :
    (needle : List ℕ) (address span : ℕ) (mem : Memory)
    → address < 2 ^ 32
    → span < 2 ^ 32
    → Patched needle address span
        (be32 mem (dtb_address + 4))
        mem
        (patch_dtb_window needle address span mem)
unfolding patch_dtb_window
patch_dtb_window-Patched needle address span mem ha hs =
    let total = be32 mem (dtb_address + 4) in
    elim (Bool-cases (ltb total 8 || ltb 0x00100000 total)) [
      | inl e ↦ rw (patch_dtb_window, e) (bad_size (ground (arith, e)))
      | inr e ↦
          rw (patch_dtb_window, e)
            (scanned (ground (arith, e))
              (patch_from-Scan dtb_address (total - 7) 0 needle address span mem))
    ]
  where
    scanned :
        {r : Bool × Memory}
        → 8 ≤ be32 mem (dtb_address + 4)
        → Scan dtb_address (be32 mem (dtb_address + 4) - 7) 0 needle address span mem r
        → Patched needle address span (be32 mem (dtb_address + 4)) mem r
    scanned l (hit j _ h a f) =
        let (x, y) = be32-write_bytes mem (dtb_address + j) address span ha hs in
        patched _ j (omega arith) a (λ k n. f k (omega arith) n) x y
          (λ b n. write_bytes-others mem (dtb_address + j) (be_bytes address ++ be_bytes span) b n)
    scanned l (miss f) = absent (λ k n. f k (omega arith) (omega arith))
