-- ===== src/Boot/Handshake.antt =====
-- The start of the two cores, in every order of their steps.
use mathlib.Core.Option.{some-injective}
use esp32_p4_linux_hyperviso.Base.{ℕ, ◌≤◌, ◌≡◌, sym, ap, ◌∙◌, Bool, true, false, none, some, arith}
use esp32_p4_linux_hyperviso.Frame.{Memory}
use esp32_p4_linux_hyperviso.Boot.{linux_base_address, linux_size}
use esp32_p4_linux_hyperviso.Boot.Pmp.{PmpEntry, pmp_set_rwx_region}
use esp32_p4_linux_hyperviso.Boot.Load.{Flash, is_ok, hyp_load_guest}
use esp32_p4_linux_hyperviso.Boot.Cores.{
  Board, Shared, Core0, loading, scheduling, main_task, entering, watching, parked, Core1, starting,
  own_stack, waiting, opening, arming, guest, halted, core0_step, core1_step,
}
use esp32_p4_linux_hyperviso.Boot.Steps.{
  Booted, Loaded0, Ready1, stage0-le, stage1-le, Booted-holds, released, running,
}

-- In whatever order the two cores take their steps, they take at most nine; and if Linux runs, the
-- loading succeeded, memory is as the loading left it, and the PMP entry was set without error to what
-- opens the guest's window.
pub Booted-lem :
    (flash : Flash) (limit : ℕ) (board : Board) (settle : ℕ → ℕ) (mem : Memory) (e : PmpEntry)
    → {n : ℕ} {c0 : Core0} {c1 : Core1} {s : Shared}
    → Booted flash limit board settle mem e n c0 c1 s
    → let opened = pmp_set_rwx_region settle linux_base_address linux_size e in
      (n ≤ 9)
      × (s.linux_running ≡ true
          → (hyp_load_guest flash limit mem ≡ some (true, s.memory))
            × (is_ok opened.0 ≡ true)
            × (s.entry ≡ opened.1))
Booted-lem flash limit board settle mem e {c0 = c0} {c1 = c1} {s = s} b =
    let (l, r, k) = Booted-holds flash limit board settle mem e b in
    (
      omega (
        arith,
        k,
        stage0-le flash limit board settle mem e c0,
        stage1-le flash limit board settle mem e c1,
      ),
      λ q.
          let (w, x, o) = running flash limit board settle mem e c1 s r q in
          ((released flash limit board settle mem e c0 s l w).1, o, sym (ap (λ p. p.1) x)),
    )

-- Where the two cores come to rest: Linux runs, its window could not be opened, or there is no guest.
pub data Settled : Bool → Bool → Core0 → Core1 → Type 0 where
  runs : Settled true true watching guest
  no_window : Settled true false watching halted
  no_guest : (ok : Bool) → Settled false ok parked waiting

module _ (flash : Flash) (limit : ℕ) (board : Board) (settle : ℕ → ℕ) (mem : Memory)
    (e : PmpEntry) where
  abbrev AtRest : Core0 → Core1 → Shared → Type 0
  AtRest c0 c1 s =
      (ok : Bool) (mem' : Memory)
      → hyp_load_guest flash limit mem ≡ some (ok, mem')
      → Loaded0 flash limit board settle mem e c0 s
      → Ready1 flash limit board settle mem e c1 s
      → core0_step flash limit board c0 s ≡ none
      → core1_step settle c1 s ≡ none
      → Settled ok (is_ok (pmp_set_rwx_region settle linux_base_address linux_size e).0) c0 c1

  -- Core 1 waits for the image: core 0 has not come to the service loop.
  rest_waiting : (c0 : Core0) (s : Shared) → AtRest c0 waiting s
  unfolding Loaded0 Ready1 core0_step core1_step
  rest_waiting loading s ok mem' h (x, y) r a b =
      absurd (ground (arith, a, ap (hyp_load_guest flash limit) x ∙ h))
  rest_waiting scheduling s ok mem' h l r a b = absurd (ground (arith, a))
  rest_waiting main_task s ok mem' h (x, y, z) (u, v, w) a b = absurd (ground (arith, a, z, w))
  rest_waiting entering s ok mem' h (x, y) r a b = absurd (ground (arith, a))
  rest_waiting watching s ok mem' h (x, y) r a b = absurd (ground (arith, b, y))
  rest_waiting parked s ok mem' h (x, y) r a b =
      let no : ok ≡ false = ap (λ (r : Bool × Memory). r.0) (some-injective _ _ (sym h ∙ x)) in
      rw no (no_guest _)

  rest_there : (c0 : Core0) (c1 : Core1) (s : Shared) → AtRest c0 c1 s
  unfolding Ready1 core1_step
  rest_there c0 starting s ok mem' h l r a b = absurd (ground (arith, b))
  rest_there c0 own_stack s ok mem' h l r a b = absurd (ground (arith, b))
  rest_there c0 waiting s ok mem' h l r a b = rest_waiting c0 s ok mem' h l r a b
  rest_there c0 opening s ok mem' h l r a b = absurd (ground (arith, b))
  rest_there c0 arming s ok mem' h l r a b = absurd (ground (arith, b))
  rest_there c0 guest s ok mem' h l (x, k, z, w) a b =
      let (c, q) = released flash limit board settle mem e c0 s l w in
      let yes_loaded : ok ≡ true =
        ap (λ (r : Bool × Memory). r.0) (some-injective _ _ (sym h ∙ q)) in
      rw (c, yes_loaded, k) runs
  rest_there c0 halted s ok mem' h l (k, y, z, w) a b =
      let (c, q) = released flash limit board settle mem e c0 s l w in
      let yes_loaded : ok ≡ true =
        ap (λ (r : Bool × Memory). r.0) (some-injective _ _ (sym h ∙ q)) in
      rw (c, yes_loaded, k) no_window

-- The two cores never wait for each other for ever. With a load that comes to an end, a state in which
-- neither can take a step is one of three: Linux runs and core 0 watches it; the load succeeded but the
-- window could not be opened, and core 1 stands still; or the load failed, core 0 has left its start and
-- core 1 stays parked.
pub Booted-Settled :
    (flash : Flash) (limit : ℕ) (board : Board) (settle : ℕ → ℕ) (mem mem' : Memory) (e : PmpEntry)
    (ok : Bool)
    → hyp_load_guest flash limit mem ≡ some (ok, mem')
    → {n : ℕ} {c0 : Core0} {c1 : Core1} {s : Shared}
    → Booted flash limit board settle mem e n c0 c1 s
    → core0_step flash limit board c0 s ≡ none
    → core1_step settle c1 s ≡ none
    → Settled ok (is_ok (pmp_set_rwx_region settle linux_base_address linux_size e).0) c0 c1
Booted-Settled flash limit board settle mem mem' e ok h {c0 = c0} {c1 = c1} {s = s} b p q =
    let (l, r, _) = Booted-holds flash limit board settle mem e b in
    rest_there flash limit board settle mem e c0 c1 s ok mem' h l r p q
