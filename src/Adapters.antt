-- ===== src/Adapters.antt =====
-- The life of an adapter: `mapBARs`, `unmapBARs`, `FEE_adapter_create` and `FEE_adapter_destroy` of
-- shim_bridge/fee_adapter.c.
pub mod Laws
use emer_gen_z.Base.{
  ℕ, ◌+◌, ◌-◌, ◌/◌, ◌%◌, ◌==◌, Bool, true, false, Option, none, some, List, [], ◌∷◌, ◌++◌, leb,
  if◌then◌else◌, take, replicate, ℤ, pos, is_neg, nonzero, error, enomem, einval, to_u16,
}
use emer_gen_z.Text.{strncpy}
use emer_gen_z.Fee.{Globals, Mailslot, Adapter, World, update}
use emer_gen_z.Mailbox.{calculate_mailslot}
use emer_gen_z.Subsystem.Bus.{hex_digit}
use emer_gen_z.Subsystem.Device.Core.{CoreHeap, genz_core_structure_destroy}
use emer_gen_z.Drivers.{default_cclass}

-- What is held for a PCI device: its regions, the two mappings, the back pointer to the adapter, and
-- memory blocks. `foreign_releases` counts releases of regions that were not held.
pub record PciDev : Type 0 where
  pub regions : Bool
  pub regs_mapped : Bool
  pub globals_mapped : Bool
  pub drvdata : Bool
  pub blocks : ℕ
  pub foreign_releases : ℕ

-- what the kernel answers, and what the device and the host say
pub record CreateEnv : Type 0 where
  pub adapter_alloc : Bool
  pub request_regions : ℤ
  pub iomap_regs : Bool
  pub iomap_globals : Bool
  pub devfn : ℕ
  pub iv_position : ℕ
  pub globals : Globals
  pub utsname : List ℕ

-- `pci_release_regions`
abbrev pub release_regions : PciDev → PciDev
release_regions p = record p {
  regions = false;
  foreign_releases = if p.regions then p.foreign_releases else p.foreign_releases + 1;
}

unfoldable pub unmap_bars : PciDev → PciDev
unmap_bars p = release_regions (record p { regs_mapped = false; globals_mapped = false })

unfoldable pub map_bars : CreateEnv → PciDev → ℤ × PciDev
map_bars env p =
    if is_neg env.request_regions
    then (env.request_regions, p)
    else if env.iomap_regs
    then if env.iomap_globals
      then (pos 0, record p { regions = true; regs_mapped = true; globals_mapped = true })
      else (error enomem, unmap_bars (record p { regions = true; regs_mapped = true }))
    else (error enomem, unmap_bars (record p { regions = true }))

-- a pointer that is freed where it is not NULL
abbrev pub one_if {ℓ} : {A : Type ℓ} → Option A → ℕ
one_if none = 0
one_if (some _) = 1

-- all of `FEE_adapter_destroy` but the core structure; `others` are the table and the buffers
unfoldable pub give_up : (others : ℕ) → PciDev → PciDev
give_up others p =
    let q = unmap_bars p in record q { drvdata = false; blocks = q.blocks - others - 1 }

-- `none` where the core structure was freed before
unfoldable pub fee_adapter_destroy : Adapter → PciDev → CoreHeap → Option (PciDev × CoreHeap)
fee_adapter_destroy a p h = elim (genz_core_structure_destroy a.core h) [
  | none ↦ none
  | some h' ↦ some (give_up (one_if a.irq_private + one_if a.outgoing) p, h')
]

-- how a creation ends
pub data Created : Type 0 where
  created : Adapter → World → PciDev → Created
  not_created : ℤ → PciDev → Created

-- `offsetof(struct FEE_mailslot, buf)`
abbrev pub buf_offset_of : ℕ
buf_offset_of = 128

-- "%s.%02x" with the slot number, cut to 30 bytes
unfoldable pub nodename_text : CreateEnv → List ℕ
nodename_text env =
    let slot = env.devfn / 8 in
    env.utsname ++ b'.' ∷ (hex_digit (slot / 16 % 16) ∷ (hex_digit (slot % 16) ∷ []))

-- the slot after `memset` and the texts
unfoldable pub fresh_slot : CreateEnv → (my_id : ℕ) → Mailslot
fresh_slot env my_id = record {
  nodename = strncpy (replicate 32 0) (take 30 (nodename_text env)) 31;
  cclass = strncpy (replicate 32 0) default_cclass 31;
  buflen = 0;
  peer_id = my_id;
  last_responder = 0;
  peer_sid = 0;
  peer_cid = 0;
  buf = replicate (env.globals.slotsize - buf_offset_of) 0;
}

-- the structure as `kzalloc` gives it, with what creation fills in
unfoldable pub fresh_adapter : CreateEnv → (my_id my_slot : ℕ) → Adapter
fresh_adapter env my_id my_slot = record {
  nr_users = pos 0;
  slot = env.devfn / 8;
  max_buflen = env.globals.slotsize - env.globals.buf_offset;
  my_id = my_id;
  doorbell = [];
  globals = env.globals;
  my_slot = my_slot;
  irq_private = none;
  incoming_slot = none;
  incoming_slot_locked = false;
  outgoing = none;
  core = none;
}

-- with the address of the own slot; the server has left the peer id there
unfoldable pub take_slot : CreateEnv → (my_id : ℕ) → Option ℕ → World → PciDev → Created
take_slot env my_id none w p = not_created (error einval) (give_up 0 p)
take_slot env my_id (some q) w p =
    if my_id == (w.mem q).peer_id
    then created (fresh_adapter env my_id q)
        (record w { mem = update w.mem q (fresh_slot env my_id) }) p
    else not_created (error einval) (give_up 0 p)

-- with the BARs mapped
unfoldable pub check_globals : CreateEnv → World → PciDev → Created
check_globals env w p =
    if buf_offset_of == env.globals.buf_offset
    then if leb env.globals.slotsize env.globals.buf_offset
      then not_created (error einval) (give_up 0 p)
      else take_slot env (to_u16 env.iv_position)
          (calculate_mailslot env.globals (to_u16 env.iv_position)) w p
    else not_created (error einval) (give_up 0 p)

unfoldable pub after_mapping : CreateEnv → World → ℤ × PciDev → Created
after_mapping env w (ret, p) =
    if nonzero ret then not_created ret (give_up 0 p) else check_globals env w p

-- The core structure of an adapter that fails is NULL, so that nothing of it is destroyed.
unfoldable pub fee_adapter_create : CreateEnv → World → PciDev → Created
fee_adapter_create env w p =
    if env.adapter_alloc
    then after_mapping env w (map_bars env (record p { drvdata = true; blocks = p.blocks + 1 }))
    else not_created (error enomem) p
