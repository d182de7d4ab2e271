-- ===== src/Boot/Field.antt =====
-- What rewriting the command line changes.
use esp32_p4_linux_hyperviso.Base.{
  ℕ, zero, suc, ◌+◌, ◌-◌, ◌≤◌, ◌<◌, ◌≡◌, ap, ◌∙◌, ◌⊎◌, inl, inr, Bool, true, false, Option, none,
  some, length, get_or, ltb, Bool-cases, Option-cases, arith,
}
use native.Mathlib.Decide.{dec_lt}
use esp32_p4_linux_hyperviso.Frame.{Memory}
use esp32_p4_linux_hyperviso.Boot.{linux_base_address}
use esp32_p4_linux_hyperviso.Boot.Bytes.{
  memcmp_equal, write_bytes, write_bytes-others, write_bytes-read,
}
use esp32_p4_linux_hyperviso.Boot.Cmdline.{
  needle, replacement, strlen, memset, rewrite_field, cmdline_from, patch_guest_cmdline,
}

-- How a field of `original` bytes at `a` reads when it is rewritten: the new command line, then NULs up to
-- its old end, and no byte of memory outside it has changed.
pub record IsRewritten (mem mem' : Memory) (a original : ℕ) : Type 0 where
  pub fits : length replacement ≤ original
  pub written : (k : ℕ) → k < length replacement → mem' (a + k) ≡ get_or replacement k 0
  pub padded : (k : ℕ) → length replacement ≤ k → k < original → mem' (a + k) ≡ 0
  pub others : (b : ℕ) → (b < a) ⊎ (a + original ≤ b) → mem' b ≡ mem b

write_bytes-IsRewritten :
    (mem : Memory) (a original : ℕ)
    → length replacement ≤ original
    → IsRewritten mem (write_bytes (memset mem a 0 original) a replacement) a original
write_bytes-IsRewritten mem a original h = record {
  fits = h;
  written = write_bytes-read (memset mem a 0 original) a replacement;
  padded = λ k l m.
      write_bytes-others (memset mem a 0 original) a replacement (a + k) (inr (omega arith))
      ∙ ground arith;
  others = λ b n.
      write_bytes-others (memset mem a 0 original) a replacement b (ground arith) ∙ ground arith;
}

-- Where the search stops: the needle stands at `i`, all of it within the span, and nowhere before.
pub record IsFirst (span : ℕ) (mem : Memory) (i : ℕ) : Type 0 where
  pub inside : i + length needle < span
  pub stands : memcmp_equal mem (linux_base_address + i) needle ≡ true
  pub before : (k : ℕ) → k < i → memcmp_equal mem (linux_base_address + k) needle ≡ false

-- What patching the command line leaves.
pub data Rewritten (limit span : ℕ) (mem : Memory) : Option (Bool × Memory) → Type 0 where
  rewritten :
      (mem' : Memory) (i original : ℕ)
      → IsFirst span mem i
      → strlen limit mem (linux_base_address + i) ≡ some original
      → IsRewritten mem mem' (linux_base_address + i) original
      → Rewritten limit span mem (some (true, mem'))
  too_short :
      (i original : ℕ)
      → IsFirst span mem i
      → strlen limit mem (linux_base_address + i) ≡ some original
      → original < length replacement
      → Rewritten limit span mem (some (false, mem))
  unchanged :
      ((i : ℕ)
        → i + length needle < span
        → memcmp_equal mem (linux_base_address + i) needle ≡ false)
      → Rewritten limit span mem (some (false, mem))
  endless :
      (i : ℕ)
      → IsFirst span mem i
      → strlen limit mem (linux_base_address + i) ≡ none
      → Rewritten limit span mem none

cmdline_from-Rewritten :
    (limit left i span : ℕ) (mem : Memory)
    → i + left ≡ span - length needle
    → ((k : ℕ) → k < i → memcmp_equal mem (linux_base_address + k) needle ≡ false)
    → Rewritten limit span mem (cmdline_from limit left i mem)
unfolding cmdline_from rewrite_field
cmdline_from-Rewritten limit zero i span mem e f = unchanged (λ k h. f k (omega arith))
cmdline_from-Rewritten limit (suc left) i span mem e f =
    elim (Bool-cases (memcmp_equal mem (linux_base_address + i) needle)) [
      | inl a ↦ rw (cmdline_from, a) (field a)
      | inr a ↦
          rw (cmdline_from, a)
            (cmdline_from-Rewritten limit left (i + 1) span mem (omega arith) (so_far a))
    ]
  where
    so_far :
        memcmp_equal mem (linux_base_address + i) needle ≡ false
        → (k : ℕ) → k < i + 1
        → memcmp_equal mem (linux_base_address + k) needle ≡ false
    so_far a k h = elim (dec_lt k i) [
      | yes l ↦ f k l
      | no g ↦
          let same : k ≡ i = omega arith in
          ap (λ m. memcmp_equal mem (linux_base_address + m) needle) same ∙ a
    ]

    field :
        memcmp_equal mem (linux_base_address + i) needle ≡ true
        → Rewritten limit span mem (rewrite_field limit (linux_base_address + i) mem)
    field a =
        let first : IsFirst span mem i = record { inside = omega arith; stands = a; before = f } in
        elim (Option-cases (strlen limit mem (linux_base_address + i))) [
          | inl n ↦ rw (rewrite_field, n) (endless i first n)
          | inr (original, s) ↦ elim (Bool-cases (ltb original (length replacement))) [
            | inl l ↦ rw (rewrite_field, s, l) (too_short i original first s (ground (arith, l)))
            | inr l ↦
                rw (rewrite_field, s, l)
                  (rewritten _ i original first s (
                    write_bytes-IsRewritten mem (linux_base_address + i) original
                      (ground (arith, l))))
          ]
        ]

-- However it ends, patching the kernel's command line looks at the first place in the span, its last
-- byte left out, where the needle stands, and changes nothing but the field there. If it reports
-- success, that field held at least as many bytes as the replacement, it now reads as the replacement
-- followed by NULs to its old end, and every byte outside it is as it was. If it reports failure,
-- memory is as it was, and either the field at that place is shorter than the replacement or the
-- needle stands nowhere there. It goes on past its bound only at such a field with no NUL in it.
pub patch_guest_cmdline-Rewritten :
    (limit span : ℕ) (mem : Memory) → Rewritten limit span mem (patch_guest_cmdline limit span mem)
unfolding patch_guest_cmdline
patch_guest_cmdline-Rewritten limit span mem =
    cmdline_from-Rewritten limit (span - length needle) 0 span mem (omega arith)
      (λ k h. absurd (omega arith))
