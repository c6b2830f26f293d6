-- ===== src/Probe/History.antt =====
-- `FEE_init` and `FEE_exit`, and the list of adapters of shim_bridge/fee_pci.c over the probes and
-- removals that the PCI core makes.
pub mod Adds
pub mod Places
pub mod Drops
pub mod Laws
pub mod Stale
use emer_gen_z.Base.{
  ℕ, ◌≡◌, refl, Bool, true, false, ◌||◌, ◌==◌, ◌⊎◌, inl, inr, List, [], ◌∷◌, ◌++◌, ℤ, is_neg,
  nonzero, not, Option, none, some, error, ealready, ◌∙◌, ap, sym, if-elim, if◌then◌else◌,
}
use emer_gen_z.Fee.{Adapter, World, Run, done, fault, out_of_fuel, update}
use emer_gen_z.Outgoing.{Env}
use emer_gen_z.Msix.Setup.{IrqState, fee_isr_teardown}
use emer_gen_z.Subsystem.Device.Core.{CoreHeap}
use emer_gen_z.Adapters.{
  PciDev, Created, created, not_created, fee_adapter_create, fee_adapter_destroy,
}
use emer_gen_z.Drivers.{update_switch}
use emer_gen_z.Probe.{
  Host, ProbeEnv, Probed, probed, not_probed, probe_fault, disable_and_destroy, tear_down,
  is_listed, finish_probe, asked_result, after_asking, ask_server, list_adapter, set_up,
  with_adapter, fee_init_one, Removed, removed, remove_fault, unlist, release_adapter, after_dump,
  fee_remove_one,
}

-- what is one device's own: whether it is enabled and bound to the driver, what is held for it, and its
-- interrupts
pub record Card : Type 0 where
  pub enabled : Bool
  pub bound : Bool
  pub dev : PciDev
  pub irq : IrqState

-- the devices by their places, and what they share
pub record Cards : Type 0 where
  pub card : ℕ → Card
  pub listed : List (Option ℕ)
  pub world : World
  pub heap : CoreHeap

abbrev pub host_at : ℕ → Cards → Host
host_at place s = record {
  enabled = (s.card place).enabled;
  dev = (s.card place).dev;
  irq = (s.card place).irq;
  listed = s.listed;
  world = s.world;
  heap = s.heap;
}

-- behind a callback for the device at the place
abbrev pub put_host : ℕ → (bound : Bool) → Host → Cards → Cards
put_host place bound h s = record {
  card =
      update s.card place (record { enabled = h.enabled; bound = bound; dev = h.dev; irq = h.irq });
  listed = h.listed;
  world = h.world;
  heap = h.heap;
}

-- The PCI core probes a device that is not bound, and removes one that is, with its adapter as the
-- drivers have left it.
pub data PciStep (s t : Cards) : Type 0 where
  probes :
      (env : ProbeEnv) (a : Adapter) (h : Host)
      → (s.card env.place).bound ≡ false
      → fee_init_one env (host_at env.place s) ≡ probed a h
      → t ≡ put_host env.place true h s
      → PciStep s t
  refuses :
      (env : ProbeEnv) (ret : ℤ) (h : Host)
      → (s.card env.place).bound ≡ false
      → fee_init_one env (host_at env.place s) ≡ not_probed ret h
      → t ≡ put_host env.place false h s
      → PciStep s t
  removes :
      (place : ℕ) (env : Env) (a : Adapter) (h : Host) (has_slot : Bool)
      → (s.card place).bound ≡ true
      → fee_remove_one has_slot place env a (host_at place s) ≡ removed h
      → t ≡ put_host place false h s
      → PciStep s t

pub data PciReach (s : Cards) : Cards → Type 0 where
  begin : PciReach s s
  then_step : {t u : Cards} → PciReach s t → PciStep t u → PciReach s u

-- `pci_register_driver` and `pci_unregister_driver`, which probe and remove devices before they return
pub record PciDriverCore : Type 0 where
  pub register : Cards → ℤ × Cards
  pub unregister : Cards → Cards

unfoldable pub fee_init : PciDriverCore → Cards → ℤ × Cards
fee_init core s = core.register s

unfoldable pub fee_exit : PciDriverCore → Cards → Cards
fee_exit core s = core.unregister s

-- The PCI core changes what the driver keeps by its callbacks only.
pub record OnlyCalls (core : PciDriverCore) : Type 0 where
  pub registering : (s : Cards) → PciReach s (core.register s).1
  pub unregistering : (s : Cards) → PciReach s (core.unregister s)
