-- ===== src/Kbd/Thread.antt =====
-- main/hyp_kbd.c: the thread that polls one keyboard.
--
-- The USB stack is not under the repository's sources: what its calls answer in one turn of the loop
-- is a `Turn`, and the calls the thread makes of it are logged, the newest first.
use esp32_p4_linux_hyperviso.Base.{
  ℕ, ◌+◌, Bool, true, false, not, List, [], ◌∷◌, get_or, ltb, u32, if◌then◌else◌,
}
use esp32_p4_linux_hyperviso.Kbd.Report.{Keyboard, kbd_handle_report, wait_timed_out}

-- A return code: not negative, -USB_ERR_SHUTDOWN or -USB_ERR_NOTCONN, or another negative one.
pub data UsbResult : Type 0 where
  fine gone failed : UsbResult

-- `submit` is `usbh_submit_urb`'s answer, `given` whether the semaphore is given within the wait;
-- then `errorcode` and `actual_length` of the urb, and the report buffer.
pub record Turn : Type 0 where
  pub submit : UsbResult
  pub given : Bool
  pub errorcode : UsbResult
  pub actual_length : ℕ
  pub report : List ℕ

-- A submission that is accepted, a wait that times out, a wait that finds the urb done, a sleep, and
-- the urb killed.
pub data UsbCall : Type 0 where
  submitted timed_out completed slept killed : UsbCall

pub record Thread : Type 0 where
  pub pending : Bool
  pub keyboard : Keyboard
  pub calls : List UsbCall

-- How a turn of the loop ends: at its top again, or out of it.
pub data Next : Type 0 where
  again leave : Thread → Next

abbrev pub report_keys : List ℕ → List ℕ
report_keys r =
    get_or r 2 0 ∷ get_or r 3 0 ∷ get_or r 4 0 ∷ get_or r 5 0 ∷ get_or r 6 0 ∷ get_or r 7 0 ∷ []

-- A report that has come whole.
unfoldable pub reported : List ℕ → Keyboard → Keyboard
reported report s =
    let s' = kbd_handle_report (report_keys report) (get_or report 0 0) s in
    record s' { kbd = record (s'.kbd) { reports = u32 (s'.kbd.reports + 1) } }

abbrev pub asleep : Thread → Next
asleep t = again (record t { calls = slept ∷ t.calls })

-- From the wait on the semaphore on.
unfoldable pub turn_wait : Turn → Thread → Next
turn_wait turn t =
    let done = record t { pending = false; calls = completed ∷ t.calls } in
    if not turn.given
    then again (record t { keyboard = wait_timed_out t.keyboard; calls = timed_out ∷ t.calls })
    else elim turn.errorcode [
      | gone ↦ leave done
      | failed ↦ asleep done
      | fine ↦
          if ltb turn.actual_length 3
          then asleep done
          else again (record done { keyboard = reported turn.report t.keyboard })
    ]

-- One turn of the loop.
unfoldable pub thread_turn : Turn → Thread → Next
thread_turn turn t = if t.pending then turn_wait turn t else elim turn.submit [
  | gone ↦ leave t
  | failed ↦ asleep t
  | fine ↦ turn_wait turn (record t { pending = true; calls = submitted ∷ t.calls })
]

-- After the loop.
unfoldable pub thread_end : Thread → Thread
thread_end t = if t.pending then record t { calls = killed ∷ t.calls } else t

-- The loop over the turns it is given: whether the thread has ended, and its state.
unfoldable pub hyp_kbd_thread : List Turn → Thread → Bool × Thread
hyp_kbd_thread [] t = (false, t)
hyp_kbd_thread (turn ∷ turns) t = elim (thread_turn turn t) [
  | again t' ↦ hyp_kbd_thread turns t'
  | leave t' ↦ (true, thread_end t')
]

-- The thread as it is started.
abbrev pub thread_start : Keyboard → Thread
thread_start s = record { pending = false; keyboard = s; calls = [] }
