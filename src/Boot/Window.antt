-- ===== src/Boot/Window.antt =====
-- A guest that is loaded knows where its file system is.
use esp32_p4_linux_hyperviso.Base.{
  ℕ, zero, suc, ◌+◌, ◌^◌, ◌≤◌, ◌<◌, ◌≡◌, refl, sym, ap, ◌∙◌, inl, inr, ◌⊎◌, Bool, true, false, not,
  Option, none, some, List, [], ◌∷◌, if◌then◌else◌, Bool-cases, Option-cases, arith, Ensures,
  none-Ensures, some-Ensures, map-Ensures, ◌==◌, u8,
}
use mathlib.Core.Option.{some-injective}
use mathlib.Core.Option
use mathlib.Core.Path.{subst}
use mathlib.Core.Bool.{false≢true}
use esp32_p4_linux_hyperviso.Frame.{Memory}
use esp32_p4_linux_hyperviso.Boot.{EspErr, esp_ok, dtb_address, linux_base_address}
use esp32_p4_linux_hyperviso.Boot.Bytes.{be32}
use esp32_p4_linux_hyperviso.Boot.Dtb.{patch_dtb_window}
use esp32_p4_linux_hyperviso.Boot.Patch.{
  at, Patched, patched, bad_size, absent, patch_dtb_window-Patched,
}
use esp32_p4_linux_hyperviso.Boot.Cmdline.{patch_guest_cmdline, strlen}
use esp32_p4_linux_hyperviso.Boot.Field.{
  Rewritten, rewritten, too_short, unchanged, endless, patch_guest_cmdline-Rewritten,
}
use esp32_p4_linux_hyperviso.Boot.Load.{
  Flash, GuestWindow, guest_windows, is_ok, kernel, dtb, partition_cp_to_psram, rootfs_window,
  window_map_from_flash, load_windows, hyp_load_guest,
}

abbrev Ended : Type 0
Ended = Option (Bool × Memory)

abbrev ends : Bool → Memory → Ended
ends b mem = some (b, mem)

failed : {mem mem' : Memory} → ends false mem ≡ ends true mem' → ⊥
failed e = false≢true (ap (λ (r : Bool × Memory). r.0) (some-injective _ _ e))

strlen-lt : (limit : ℕ) (mem : Memory) (a : ℕ) → Ensures (λ n. n < limit) (strlen limit mem a)
unfolding strlen
strlen-lt zero mem a = none-Ensures _
strlen-lt (suc limit) mem a = elim (Bool-cases (u8 (mem a) == 0)) [
  | inl e ↦ rw (strlen, e) (some-Ensures _ 0 (omega arith))
  | inr e ↦
      rw (strlen, e)
        (map-Ensures (λ n. n < suc limit) suc (λ n. n < limit) _ (strlen-lt limit mem (a + 1))
          (λ n l. omega arith))
]

-- A guest memory that holds a window's place in its device tree, where `before` has the first
-- placeholder of the blob, and is as `before` in all else from the blob's start on.
pub record IsTold (needle : List ℕ) (before mem : Memory) (mapping span : ℕ) : Type 0 where
  pub offset : ℕ
  pub inside : offset + 8 ≤ be32 before (dtb_address + 4)
  pub stood : at dtb_address needle before offset ≡ true
  pub first : (k : ℕ) → k < offset → at dtb_address needle before k ≡ false
  pub mapping_told : be32 mem (dtb_address + offset) ≡ mapping
  pub span_told : be32 mem (dtb_address + offset + 4) ≡ span
  pub others :
      (a : ℕ)
      → dtb_address ≤ a
      → (a < dtb_address + offset) ⊎ (dtb_address + offset + 8 ≤ a)
      → mem a ≡ before a

patch-IsTold :
    (needle : List ℕ) (mapping span : ℕ) (mem mem' : Memory)
    → mapping < 2 ^ 32
    → span < 2 ^ 32
    → patch_dtb_window needle mapping span mem ≡ (true, mem')
    → IsTold needle mem mem' mapping span
patch-IsTold needle mapping span mem mem' h k e =
    go (patch_dtb_window-Patched needle mapping span mem h k) e
  where
    go :
        {r : Bool × Memory}
        → Patched needle mapping span (be32 mem (dtb_address + 4)) mem r
        → r ≡ (true, mem')
        → IsTold needle mem mem' mapping span
    go (patched m j b n f x y o) e =
        let same : m ≡ mem' = ap (λ (r : Bool × Memory). r.1) e in
        subst (λ m. IsTold needle mem m mapping span) same
          (record {
            offset = j;
            inside = b;
            stood = n;
            first = f;
            mapping_told = x;
            span_told = y;
            others = λ a l. o a;
          })
    go (bad_size _) e = absurd (false≢true (ap (λ (r : Bool × Memory). r.0) e))
    go (absent _) e = absurd (false≢true (ap (λ (r : Bool × Memory). r.0) e))

be32_same :
    (mem mem' : Memory) (a : ℕ) → ((b : ℕ) → a ≤ b → mem' b ≡ mem b) → be32 mem' a ≡ be32 mem a
be32_same mem mem' a h =
    rw
      (h a (omega arith), h (a + 1) (omega arith), h (a + 2) (omega arith), h (a + 3) (omega arith))
      refl

cmdline-IsTold :
    (limit mapping span : ℕ) (needle : List ℕ) (before mem mem' : Memory) (b : Bool)
    → limit ≤ 0x01b00000
    → patch_guest_cmdline limit 0x00400000 mem ≡ some (b, mem')
    → IsTold needle before mem mapping span
    → IsTold needle before mem' mapping span
cmdline-IsTold limit mapping span needle before mem mem' b h e t =
    go (patch_guest_cmdline-Rewritten limit 0x00400000 mem) e
  where
    moved : {m : Memory} → ends false m ≡ ends b mem' → m ≡ mem'
    moved e = ap (λ (r : Bool × Memory). r.1) (some-injective _ _ e)

    go :
        {r : Option (Bool × Memory)}
        → Rewritten limit 0x00400000 mem r
        → r ≡ some (b, mem')
        → IsTold needle before mem' mapping span
    go (rewritten m i original place s r) e =
        let same : m ≡ mem' = ap (λ (r : Bool × Memory). r.1) (some-injective _ _ e) in
        let end = (strlen-lt limit mem (linux_base_address + i)).law original s in
        let bound = place.inside in
        let above : (c : ℕ) → dtb_address ≤ c → m c ≡ mem c =
          λ c past. r.others c (inr (omega (arith, bound))) in
        subst (λ m. IsTold needle before m mapping span) same
          (record {
            offset = t.offset;
            inside = t.inside;
            stood = t.stood;
            first = t.first;
            mapping_told =
                be32_same mem m (dtb_address + t.offset) (λ c past. above c (omega arith))
                ∙ t.mapping_told;
            span_told =
                be32_same mem m (dtb_address + t.offset + 4) (λ c past. above c (omega arith))
                ∙ t.span_told;
            others = λ a past out. above a past ∙ t.others a past out;
          })
    go (too_short _ _ _ _ _) e = subst (λ m. IsTold needle before m mapping span) (moved e) t
    go (unchanged _) e = subst (λ m. IsTold needle before m mapping span) (moved e) t
    go (endless _ _ _) e = absurd (ground (arith, e))

load_one :
    (flash : Flash) (w w' : GuestWindow) (mem : Memory)
    → window_map_from_flash flash w ≡ (esp_ok, w')
    → load_windows flash (w ∷ []) mem ≡ patch_dtb_window w'.placeholder w'.mapping w'.span mem
unfolding load_windows
load_one flash w w' mem e =
    ap step e ∙ same (patch_dtb_window w'.placeholder w'.mapping w'.span mem)
  where
    step : EspErr × GuestWindow → Bool × Memory
    step (result, v) =
        let (done, mem') = patch_dtb_window v.placeholder v.mapping v.span mem in
        elim (is_ok result) [
          | false ↦ (true, mem)
          | true ↦ elim done [ false ↦ (false, mem') | true ↦ (true, mem') ]
        ]

    same :
        (r : Bool × Memory)
        → (elim r.0 as (λ (b : Bool). Bool × Memory) [ false ↦ (false, r.1) | true ↦ (true, r.1) ])
          ≡ r
    same (true, m) = refl
    same (false, m) = refl

-- A boot that succeeds has got through its three steps to the command line.
loaded_lem :
    (limit : ℕ) (copied told : Bool) (m1 m2 mem' : Memory) (p : Bool × Memory)
    → (if not copied
        then ends false m1
        else if not told
        then ends false m2
        else if not p.0
        then ends false p.1
        else Option.map
            (λ (r : Bool × Memory). (true, r.1))
            (patch_guest_cmdline limit 0x00400000 p.1))
      ≡ ends true mem'
    → (p.0 ≡ true) × (b : Bool) × (patch_guest_cmdline limit 0x00400000 p.1 ≡ ends b mem')
loaded_lem limit false told m1 m2 mem' p e = absurd (failed e)
loaded_lem limit true false m1 m2 mem' p e = absurd (failed e)
loaded_lem limit true true m1 m2 mem' (false, m) e = absurd (failed e)
loaded_lem limit true true m1 m2 mem' (true, m) e = go (patch_guest_cmdline limit 0x00400000 m) e
  where
    go :
        (o : Ended)
        → Option.map (λ (r : Bool × Memory). (true, r.1)) o ≡ ends true mem'
        → (true ≡ true) × (b : Bool) × (o ≡ ends b mem')
    go none e = absurd (ground (arith, e))
    go (some (b, m')) e =
        (refl, b, ap (ends b) (ap (λ (r : Bool × Memory). r.1) (some-injective _ _ e)))

-- Mapping a window leaves its placeholder.
window_map-placeholder :
    (flash : Flash) (w : GuestWindow)
    → (window_map_from_flash flash w).1.placeholder ≡ w.placeholder
unfolding window_map_from_flash
window_map-placeholder flash w = elim (Option-cases (flash.find w.label)) [
  | inl e ↦ rw (window_map_from_flash, e) refl
  | inr (p, e) ↦ rw (window_map_from_flash, e) (ground arith)
]

-- A guest that is loaded knows where its file system is. If the boot code reports the guest loaded, the
-- file system's partition is mapped inside the flash window at an address and of a span that fit 32
-- bits, and the search for the end of the command line stops before 0x01b00000 bytes, so short of
-- the device tree, then the placeholder stood in the blob as it was copied, and the guest's memory
-- has the address and the span in its first place there. From the blob's start on nothing else has
-- changed, also after the command line is patched.
pub hyp_load_guest-IsTold :
    (flash : Flash) (limit : ℕ) (mem mem' : Memory) (w : GuestWindow)
    → limit ≤ 0x01b00000
    → w.mapping < 2 ^ 32
    → w.span < 2 ^ 32
    → window_map_from_flash flash rootfs_window ≡ (esp_ok, w)
    → hyp_load_guest flash limit mem ≡ some (true, mem')
    → let mem1 = (partition_cp_to_psram (flash.find kernel) linux_base_address 0 mem).1 in
      let mem2 = (partition_cp_to_psram (flash.find dtb) dtb_address 0 mem1).1 in
      IsTold rootfs_window.placeholder mem2 mem' w.mapping w.span
unfolding hyp_load_guest
hyp_load_guest-IsTold flash limit mem mem' w l h k m e =
    let (copied, mem1) = partition_cp_to_psram (flash.find kernel) linux_base_address 0 mem in
    let (told, mem2) = partition_cp_to_psram (flash.find dtb) dtb_address 0 mem1 in
    let mem3 = (load_windows flash guest_windows mem2).1 in
    let (ok, b, c) =
      loaded_lem limit (is_ok copied) (is_ok told) mem1 mem2 mem'
        (load_windows flash guest_windows mem2) e in
    let one = load_one flash rootfs_window w mem2 m in
    let patched_ok : patch_dtb_window w.placeholder w.mapping w.span mem2 ≡ (true, mem3) =
      sym one ∙ ap (λ (t : Bool). (t, mem3)) ok in
    let same : w.placeholder ≡ rootfs_window.placeholder =
      sym (ap (λ (r : EspErr × GuestWindow). r.1.placeholder) m)
      ∙ window_map-placeholder flash rootfs_window in
    subst (λ needle. IsTold needle mem2 mem' w.mapping w.span) same
      (cmdline-IsTold limit w.mapping w.span w.placeholder mem2 mem3 mem' b l c
        (patch-IsTold w.placeholder w.mapping w.span mem2 mem3 h k patched_ok))
