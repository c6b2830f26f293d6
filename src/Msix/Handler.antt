-- ===== src/Msix/Handler.antt =====
-- `all_msix`: find the sender by the vector, let the link layer have the message, or else put its
-- slot where the reader waits.
use emer_gen_z.Base.{
  ℕ, zero, suc, ◌+◌, ◌-◌, ◌==◌, Bool, true, false, Option, none, some, List, if◌then◌else◌,
  get_elem?,
}
use emer_gen_z.Fee.{
  MsixEntry, fault, Cmd, pure, ◌>>=◌, ◌>>◌, get_adapter, put_adapter, spin_lock, spin_unlock,
}
use emer_gen_z.Mailbox.{calculate_mailslot}
use emer_gen_z.Outgoing.{Env}
use emer_gen_z.Link.{fee_link_request}

-- How the search for a vector ends; `overrun` is a read behind the end of the table.
pub data Search : Type 0 where
  hit : MsixEntry → Search
  miss : Search
  overrun : Search

-- `for (slotnum = 1; slotnum < nEvents; slotnum++)`, with the rounds that are left
unfoldable pub match_vector : List MsixEntry → (vector rounds slotnum : ℕ) → Search
match_vector entries vector zero slotnum = miss
match_vector entries vector (suc rounds) slotnum =
    let rest = match_vector entries vector rounds (slotnum + 1) in
    elim (get_elem? entries slotnum) [
      | none ↦ overrun
      | some e ↦ if e.vector == vector then hit e else rest
    ]

-- behind the link layer: the slot is handed to the reader, over one that it may not have read yet
unfoldable pub hand_over : (p : ℕ) → (handled : Bool) → Cmd Bool
hand_over p true = pure true
hand_over p false = do
  a ← get_adapter
  put_adapter (record a { incoming_slot = some p })
  spin_unlock
  pure true

unfoldable pub serve_sender : Env → Option ℕ → Cmd Bool
serve_sender env none = spin_unlock >> pure true
serve_sender env (some p) = fee_link_request env p >>= hand_over p

unfoldable pub serve_vector : Env → Search → Cmd Bool
serve_vector env miss = spin_unlock >> pure false
serve_vector env overrun = λ _ _. fault
serve_vector env (hit e) =
    get_adapter >>= λ a. serve_sender env (calculate_mailslot a.globals e.entry)

-- with what `adapter->IRQ_private` points at
unfoldable pub search_table : Env → (vector : ℕ) → Option (List MsixEntry) → Cmd Bool
search_table env vector none = λ _ _. fault
search_table env vector (some entries) =
    get_adapter >>= λ a. serve_vector env (match_vector entries vector (a.globals.n_events - 1) 1)

-- `true` is IRQ_HANDLED, `false` is IRQ_NONE.
unfoldable pub all_msix : Env → (vector : ℕ) → Cmd Bool
all_msix env vector = do spin_lock; a ← get_adapter; search_table env vector a.irq_private
