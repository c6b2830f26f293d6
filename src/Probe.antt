-- ===== src/Probe.antt =====
-- `FEE_init_one` and `FEE_remove_one` of shim_bridge/fee_pci.c: a device is enabled, gets its adapter
-- and its interrupts, is listed, and announces itself to the server; what was done is undone where a
-- later step fails, and by a removal.
pub mod Walk
pub mod Undo
pub mod Laws
pub mod Remove
pub mod History
pub mod Twice
use emer_gen_z.Base.{
  overwrite, ℕ, zero, suc, ◌+◌, ◌==◌, Bool, true, false, not, ◌||◌, Option, none, some, List, [],
  ◌∷◌, ◌++◌, if◌then◌else◌, length, ℤ, pos, negsuc, is_neg, nonzero, error, ealready, enodev, eio,
  int_of_bits,
}
use emer_gen_z.Text.{codes}
use emer_gen_z.Fee.{update, Adapter, World, Run, done, fault, out_of_fuel}
use emer_gen_z.Outgoing.{Env, fee_create_outgoing, genz_fee_sid_cid_is_peer_id}
use emer_gen_z.Link.{link_ctl_peer_attribute}
use emer_gen_z.Msix.Setup.{PciCore, IrqState, fee_isr_setup, fee_isr_teardown}
use emer_gen_z.Subsystem.Device.Core.{CoreHeap}
use emer_gen_z.Drivers.{update_switch}
use emer_gen_z.Adapters.{
  PciDev, CreateEnv, Created, created, not_created, fee_adapter_create, fee_adapter_destroy,
}

-- a device and what it shares: whether it is enabled, what is held for it, its interrupts, and the
-- entries of `FEE_adapter_list`: the place that an adapter's `pdev` gives, or `none` where
-- `FEE_adapter_destroy` has set `pdev` to NULL in an adapter that was still listed
pub record Host : Type 0 where
  pub enabled : Bool
  pub dev : PciDev
  pub irq : IrqState
  pub listed : List (Option ℕ)
  pub world : World
  pub heap : CoreHeap

-- what the kernel and the device answer; the semaphore's result is not looked at
pub record ProbeEnv : Type 0 where
  pub enable_device : ℤ
  pub revision : ℕ
  pub msix_cap : Bool
  pub has_bar1 : Bool
  pub create : CreateEnv
  pub pci : PciCore
  pub place : ℕ
  pub ask_env : Env
  pub dump_env : Env

-- how a probe ends
pub data Probed : Type 0 where
  probed : Adapter → Host → Probed
  not_probed : ℤ → Host → Probed
  probe_fault : Probed

-- `err_pci_disable_device`, with the adapter
unfoldable pub disable_and_destroy : ℤ → Adapter → Host → Probed
disable_and_destroy ret a s = elim (fee_adapter_destroy a s.dev s.heap) [
  | none ↦ probe_fault
  | some (dev, heap) ↦ not_probed ret (record s { enabled = false; dev = dev; heap = heap })
]

-- `err_MSIX_teardown`
unfoldable pub tear_down : ℤ → Adapter → Host → Probed
tear_down ret a s = elim (fee_isr_teardown a s.irq) [
  | none ↦ probe_fault
  | some (a', irq) ↦ disable_and_destroy ret a' (record s { irq = irq })
]

-- `list_for_each_entry` up to the first adapter at the place; `none` where the walk follows a NULL
unfoldable pub is_listed : ℕ → List (Option ℕ) → Option Bool
is_listed place [] = some false
is_listed place (none ∷ es) = none
is_listed place (some p ∷ es) =
    let rest = is_listed place es in if p == place then some true else rest

-- `adapter->pdev = NULL` in the list, when the adapter at the place is destroyed
unfoldable pub forget : ℕ → List (Option ℕ) → List (Option ℕ)
forget place [] = []
forget place (none ∷ es) = none ∷ forget place es
forget place (some p ∷ es) =
    let rest = forget place es in if p == place then none ∷ rest else some p ∷ rest

-- behind `UPDATE_SWITCH`
unfoldable pub finish_probe : Host → Run ℤ → Probed
finish_probe s (done _ a w) = probed a (record s { world = w })
finish_probe s fault = probe_fault
finish_probe s out_of_fuel = probe_fault

-- the answer to sending: the length of the text is success
abbrev pub asked_result : ℤ → ℤ
asked_result (pos n) =
    if n == 0 then pos 0 else if n == length link_ctl_peer_attribute then pos 0 else error eio
asked_result (negsuc n) = negsuc n

-- Where the server could not be asked, the adapter is destroyed, but its entry stays in the list.
unfoldable pub after_asking : ProbeEnv → Host → Run ℤ → Probed
after_asking env s (done ret a w) =
    if nonzero (asked_result ret)
    then tear_down (asked_result ret) a (record s { world = w; listed = forget env.place s.listed })
    else finish_probe s (update_switch env.dump_env a w)
after_asking env s fault = probe_fault
after_asking env s out_of_fuel = probe_fault

-- the request for the server's attributes
unfoldable pub ask_server : ProbeEnv → Adapter → Host → Probed
ask_server env a s = after_asking env s (
    fee_create_outgoing env.ask_env (int_of_bits a.globals.server_id) genz_fee_sid_cid_is_peer_id
      link_ctl_peer_attribute a s.world)

unfoldable pub list_adapter : ProbeEnv → Adapter → Host → Probed
list_adapter env a s = elim (is_listed env.place s.listed) [
  | none ↦ probe_fault
  | some there ↦
      if there
      then tear_down (error ealready) a s
      else ask_server env a (record s { listed = s.listed ++ some env.place ∷ [] })
]

unfoldable pub set_up : ProbeEnv → Host → ℤ × Adapter × IrqState → Probed
set_up env s (ret, a, irq) =
    if nonzero ret
    then disable_and_destroy ret a (record s { irq = irq })
    else list_adapter env a (record s { irq = irq })

-- with what `FEE_adapter_create` returned; a NULL adapter is not destroyed
unfoldable pub with_adapter : ProbeEnv → Host → Created → Probed
with_adapter env s (not_created ret p) = not_probed ret (record s { enabled = false; dev = p })
with_adapter env s (created a w p) =
    set_up env (record s { dev = p; world = w }) (fee_isr_setup env.pci a s.irq)

unfoldable pub fee_init_one : ProbeEnv → Host → Probed
fee_init_one env s =
    if s.dev.drvdata
    then not_probed (error ealready) s
    else if is_neg env.enable_device
    then not_probed env.enable_device s
    else if not (env.revision == 1) || (not env.msix_cap || not env.has_bar1)
    then not_probed (error enodev) (record s { enabled = false })
    else with_adapter env (record s { enabled = true })
        (fee_adapter_create env.create s.world s.dev)

-- how a removal ends
pub data Removed : Type 0 where
  removed : Host → Removed
  remove_fault : Removed

-- `list_del` of every adapter at the place; `none` where the walk follows a NULL
unfoldable pub unlist : ℕ → List (Option ℕ) → Option (List (Option ℕ))
unlist place [] = some []
unlist place (none ∷ es) = none
unlist place (some p ∷ es) = elim (unlist place es) [
  | none ↦ none
  | some es' ↦ some (if p == place then es' else some p ∷ es')
]

-- with the list that is left: the adapter is destroyed
abbrev pub destroy_unlisted : Host → Adapter → IrqState → Option (List (Option ℕ)) → Removed
destroy_unlisted s a irq none = remove_fault
destroy_unlisted s a irq (some listed) = elim (fee_adapter_destroy a s.dev s.heap) [
  | none ↦ remove_fault
  | some (dev, heap) ↦
      removed (record s { enabled = false; dev = dev; irq = irq; heap = heap; listed = listed })
]

-- behind the teardown of the interrupts
unfoldable pub release_adapter : (place : ℕ) → Host → Option (Adapter × IrqState) → Removed
release_adapter place s none = remove_fault
release_adapter place s (some (a, irq)) = destroy_unlisted s a irq (unlist place s.listed)

-- behind `UPDATE_SWITCH`
unfoldable pub after_dump : (place : ℕ) → Host → Run ℤ → Removed
after_dump place s (done _ a w) =
    release_adapter place (record s { world = w }) (fee_isr_teardown a s.irq)
after_dump place s fault = remove_fault
after_dump place s out_of_fuel = remove_fault

-- the class of a slot that no driver serves, by `strcpy`
abbrev pub put_driverless : Adapter → World → World
put_driverless a w =
    let text = codes "Driverless QEMU" ++ 0 ∷ [] in
    record w {
      mem =
          update w.mem a.my_slot
            (record (w.mem a.my_slot) { cclass = overwrite text (w.mem a.my_slot).cclass });
    }

-- `pdev->slot` is followed without a test for NULL.
unfoldable pub fee_remove_one : (has_slot : Bool) → (place : ℕ) → Env → Adapter → Host → Removed
fee_remove_one has_slot place env a s =
    if s.dev.drvdata
    then if has_slot
      then after_dump place s (update_switch env a (put_driverless a s.world))
      else remove_fault
    else removed s
