-- ===== src/Mailbox.antt =====
-- Where the mailslots lie: `calculate_mailslot` of shim_bridge/fee_adapter.c.
use emer_gen_z.Base.{
  ℕ, ◌+◌, ◌*◌, ◌%◌, ◌^◌, Bool, not, ◌&&◌, ◌||◌, ◌==◌, Option, none, some, ltb, if◌then◌else◌,
}
use emer_gen_z.Fee.{Globals, Adapter}
pub mod Geometry

-- the address of a slot, in 64-bit arithmetic
unfoldable pub calculate_mailslot : Globals → (slotnum : ℕ) → Option ℕ
calculate_mailslot g slotnum =
    if (ltb slotnum 1 || ltb g.n_clients slotnum) && not (slotnum == g.server_id)
    then none
    else some ((g.base + slotnum * g.slotsize) % 2 ^ 64)
