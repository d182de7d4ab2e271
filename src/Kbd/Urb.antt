-- ===== src/Kbd/Urb.antt =====
-- The poll thread's use of its urb, and that it never spins.
use esp32_p4_linux_hyperviso.Base.{
  ℕ, suc, ◌+◌, ◌≤◌, ◌≡◌, refl, sym, ap, ◌∙◌, inl, inr, Bool, true, false, not, Option, none, some,
  List, [], ◌∷◌, length, if◌then◌else◌, if_keeps, Bool-cases, arith, ltb,
}
use esp32_p4_linux_hyperviso.Kbd.Report.{Keyboard}
use esp32_p4_linux_hyperviso.Kbd.Thread.{
  UsbResult, fine, gone, failed, Turn, UsbCall, submitted, timed_out, completed, slept, killed,
  Thread, Next, again, leave, reported, turn_wait, thread_turn, thread_end, hyp_kbd_thread,
  thread_start, asleep,
}

-- What becomes of the urb: whether it is armed after the calls, `none` if one was out of place.
abbrev pub urb_armed : List UsbCall → Option Bool
urb_armed [] = some false
urb_armed (submitted ∷ calls) = elim (urb_armed calls) [ some false ↦ some true | _ ↦ none ]
urb_armed (timed_out ∷ calls) = elim (urb_armed calls) [ some true ↦ some true | _ ↦ none ]
urb_armed (completed ∷ calls) = elim (urb_armed calls) [ some true ↦ some false | _ ↦ none ]
urb_armed (slept ∷ calls) = elim (urb_armed calls) [ some false ↦ some false | _ ↦ none ]
urb_armed (killed ∷ calls) = elim (urb_armed calls) [ some true ↦ some false | _ ↦ none ]

-- The flag follows the urb.
abbrev Follows : Thread → Type 0
Follows t = urb_armed t.calls ≡ some t.pending

-- How many calls have blocked: waits and sleeps.
abbrev pub blocked : List UsbCall → ℕ
blocked [] = 0
blocked (submitted ∷ calls) = blocked calls
blocked (timed_out ∷ calls) = suc (blocked calls)
blocked (completed ∷ calls) = suc (blocked calls)
blocked (slept ∷ calls) = suc (blocked calls)
blocked (killed ∷ calls) = blocked calls

-- What holds after a turn, however it ends.
abbrev Turned : Thread → Next → Type 0
Turned t (again t') = Follows t' × (suc (blocked t.calls) ≤ blocked t'.calls)
Turned t (leave t') = Follows t' × (blocked t.calls ≤ blocked t'.calls)

turn_wait-Turned :
    (turn : Turn) (t t0 : Thread)
    → t.pending ≡ true
    → blocked t.calls ≡ blocked t0.calls
    → Follows t
    → Turned t0 (turn_wait turn t)
unfolding turn_wait
turn_wait-Turned turn t t0 p b f =
    let armed : urb_armed t.calls ≡ some true = f ∙ ap some p in
    let done : urb_armed (completed ∷ t.calls) ≡ some false = rw armed refl in
    let rest : urb_armed (slept ∷ completed ∷ t.calls) ≡ some false = rw done refl in
    if_keeps (Turned t0) (not turn.given) (rw armed (ap some (sym p)), omega arith)
      (elim turn.errorcode as (λ (e : UsbResult). Turned t0 (after e)) [
        | gone ↦ (done, omega arith)
        | failed ↦ (rest, omega arith)
        | fine ↦
            if_keeps (Turned t0) (ltb turn.actual_length 3) (rest, omega arith) (done, omega arith)
      ])
  where
    ended : Thread
    ended = record t { pending = false; calls = completed ∷ t.calls }

    after : UsbResult → Next
    after gone = leave ended
    after failed = asleep ended
    after fine =
        if ltb turn.actual_length 3
        then asleep ended
        else again (record ended { keyboard = reported turn.report t.keyboard })

thread_turn-Turned : (turn : Turn) (t : Thread) → Follows t → Turned t (thread_turn turn t)
unfolding thread_turn
thread_turn-Turned turn t f = go t.pending refl
  where
    sent : Thread
    sent = record t { pending = true; calls = submitted ∷ t.calls }

    after : UsbResult → Next
    after gone = leave t
    after failed = asleep t
    after fine = turn_wait turn sent

    go :
        (b : Bool)
        → t.pending ≡ b
        → Turned t (
            if b then turn_wait turn t else elim turn.submit [
              | gone ↦ leave t
              | failed ↦ asleep t
              | fine ↦ turn_wait turn sent
            ])
    go true p = turn_wait-Turned turn t t p refl f
    go false p =
        let idle : urb_armed t.calls ≡ some false = f ∙ ap some p in
        let armed : urb_armed (submitted ∷ t.calls) ≡ some true = rw idle refl in
        let rest : urb_armed (slept ∷ t.calls) ≡ some false = rw idle refl in
        elim turn.submit as (λ (e : UsbResult). Turned t (after e)) [
          | gone ↦ (f, omega arith)
          | failed ↦ (rest ∙ ap some (sym p), omega arith)
          | fine ↦ turn_wait-Turned turn sent t refl refl armed
        ]

thread_end-idle : (t : Thread) → Follows t → urb_armed (thread_end t).calls ≡ some false
unfolding thread_end
thread_end-idle t f = elim (Bool-cases t.pending) [
  | inl p ↦
      let armed : urb_armed t.calls ≡ some true = f ∙ ap some p in
      rw (thread_end, p) (rw armed refl)
  | inr p ↦ rw (thread_end, p) (f ∙ ap some p)
]

-- What holds of the thread after a list of turns.
record Ran (n : ℕ) (b : ℕ) (r : Bool × Thread) : Type 0 where
  running : r.0 ≡ false → Follows r.1 × (n + b ≤ blocked r.1.calls)
  ended : r.0 ≡ true → urb_armed r.1.calls ≡ some false

thread-Ran :
    (turns : List Turn) (t : Thread)
    → Follows t
    → Ran (length turns) (blocked t.calls) (hyp_kbd_thread turns t)
unfolding hyp_kbd_thread
thread-Ran [] t f = record { running = λ e. (f, omega arith); ended = λ e. absurd (ground arith) }
thread-Ran (turn ∷ turns) t f =
    go (thread_turn turn t) (thread_turn-Turned turn t f) (λ t' f'. thread-Ran turns t' f')
  where
    go :
        (next : Next)
        → Turned t next
        → ((t' : Thread)
            → Follows t'
            → Ran (length turns) (blocked t'.calls) (hyp_kbd_thread turns t'))
        → Ran
            (suc (length turns))
            (blocked t.calls)
            (elim next [ again t' ↦ hyp_kbd_thread turns t' | leave t' ↦ (true, thread_end t') ])
    go (again t') (f', b) rest =
        let r = rest t' f' in
        record { running = λ e. let (g, c) = r.running e in (g, omega arith); ended = r.ended }
    go (leave t') (f', b) rest = record {
      running = λ e. absurd (ground arith);
      ended = λ e. thread_end-idle t' f';
    }

-- However the USB stack answers, the thread uses its urb in order: it submits it only when it is not
-- armed, waits on the semaphore and takes a completion only when it is, sleeps only when it is not,
-- and leaves it unarmed when the thread ends. A thread that is still running after n turns has waited
-- or slept at least n times: no turn of the loop spins.
pub hyp_kbd_thread-urb :
    (turns : List Turn) (s : Keyboard)
    → let (ended, t) = hyp_kbd_thread turns (thread_start s) in
      (ended ≡ true → urb_armed t.calls ≡ some false)
      × (ended ≡ false → (urb_armed t.calls ≡ some t.pending) × (length turns ≤ blocked t.calls))
hyp_kbd_thread-urb turns s =
    let r = thread-Ran turns (thread_start s) refl in
    (r.ended, λ e. let (g, c) = r.running e in (g, omega arith))
