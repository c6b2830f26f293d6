-- ===== src/Incoming.antt =====
-- `FEE_await_incoming` and `FEE_release_incoming` of shim_bridge/fee_IVSHMSG.c: the reader's side of
-- the handshake with the interrupt handler.
use emer_gen_z.Base.{ℕ, Bool, false, Option, none, some, if◌then◌else◌, ℤ, nonzero, error, eagain}
use emer_gen_z.Fee.{Adapter, World, update, Run, done, fault, Cmd}

-- `wait_event_interruptible`, which is not in the repository: its result, and what the handler and the
-- other clients have done by then.
abbrev pub WaitEvent : Type 0
WaitEvent = Adapter → World → ℤ × Adapter × World

-- a pointer, or `ERR_PTR` of an error
pub data Awaited : Type 0 where
  slot_ptr : Option ℕ → Awaited
  err_ptr : ℤ → Awaited

-- behind the wait; the pointer is read again, and may be NULL if another reader was faster
abbrev pub after_wait_event : ℤ × Adapter × World → Run Awaited
after_wait_event (ret, a, w) =
    if nonzero ret then done (err_ptr ret) a w else done (slot_ptr a.incoming_slot) a w

unfoldable pub fee_await_incoming : WaitEvent → (nonblocking : Bool) → Cmd Awaited
fee_await_incoming wait nonblocking a w = elim a.incoming_slot [
  | some p ↦ done (slot_ptr (some p)) a w
  | none ↦ if nonblocking then done (err_ptr (error eagain)) a w else after_wait_event (wait a w)
]

-- The lock is taken and given back: it is free afterwards.
unfoldable pub fee_release_incoming : Cmd (Unit {0})
fee_release_incoming a w = elim a.incoming_slot [
  | none ↦ fault
  | some p ↦
      done tt (record a { incoming_slot = none; incoming_slot_locked = false })
        (record w { mem = update w.mem p (record (w.mem p) { buflen = 0 }) })
]
