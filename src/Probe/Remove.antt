-- ===== src/Probe/Remove.antt =====
-- What a removal gives back.
use emer_gen_z.Base.{
  ℕ, ◌+◌, ◌≡◌, ◌≢◌, refl, Bool, true, false, Option, none, some, List, All, if◌then◌else◌, ◌∙◌, ap,
  sym, int_of_bits,
}
use mathlib.Core.Path.{subst}
use emer_gen_z.Text.{codes}
use emer_gen_z.Fee.{Adapter}
use emer_gen_z.Outgoing.{Env, genz_fee_sid_cid_is_peer_id}
use emer_gen_z.Outgoing.Wait.{Ticks}
use emer_gen_z.Outgoing.Deliver.{fee_create_outgoing-total}
use emer_gen_z.Outgoing.Frame.{fee_create_outgoing-Kept}
use emer_gen_z.Msix.Setup.{PciCore, IrqState}
use emer_gen_z.Msix.Setup.AllOrNothing.{Installed}
use emer_gen_z.Msix.Setup.Teardown.{teardown-Installed, Installed-doorbell}
use emer_gen_z.Subsystem.Device.Core.{CoreHeap, genz_core_structure_destroy}
use emer_gen_z.Drivers.{update_switch}
use emer_gen_z.Adapters.{PciDev, give_up, unmap_bars, fee_adapter_destroy}
use emer_gen_z.Adapters.Laws.{IsBare}
use emer_gen_z.Probe.Walk.{IsWhole, unlist-ends}
use emer_gen_z.Probe.{
  Host, removed, remove_fault, unlist, destroy_unlisted, release_adapter, after_dump,
  put_driverless, fee_remove_one,
}

-- no adapter of the list is at the place
abbrev pub IsUnlisted : ℕ → List (Option ℕ) → Type 0
IsUnlisted place es = All (λ (e : Option ℕ). e ≢ some place) es

-- behind a removal: disabled, nothing held, the interrupts `q` of before setup, and not in the list
pub record IsRemoved (place : ℕ) (q : IrqState) (heap : CoreHeap) (s : Host) : Type 0 where
  pub disabled : s.enabled ≡ false
  pub bare : IsBare s.dev
  pub tables : s.irq.tables ≡ q.tables
  pub no_vectors : s.irq.allocated ≡ false
  pub handlers : (v : ℕ) → s.irq.handlers v ≡ q.handlers v
  pub heap_after : s.heap ≡ heap
  pub unlisted : IsUnlisted place s.listed

fee_adapter_destroy-run :
    (a : Adapter) (dev : PciDev) (h heap : CoreHeap)
    → genz_core_structure_destroy a.core h ≡ some heap
    → a.irq_private ≡ none
    → a.outgoing ≡ none
    → fee_adapter_destroy a dev h ≡ some (give_up 0 dev, heap)
unfolding fee_adapter_destroy
fee_adapter_destroy-run a dev h heap gone table buffers =
    rw (gone, fee_adapter_destroy) (rw table (rw buffers refl))

release_adapter-run :
    (place : ℕ) (s : Host) (a : Adapter) (irq : IrqState) (heap : CoreHeap) (es : List (Option ℕ))
    → unlist place s.listed ≡ some es
    → genz_core_structure_destroy a.core s.heap ≡ some heap
    → a.irq_private ≡ none
    → a.outgoing ≡ none
    → release_adapter place s (some (a, irq))
      ≡ removed
          (record s { enabled = false; dev = give_up 0 s.dev; irq = irq; heap = heap; listed = es })
unfolding release_adapter
release_adapter-run place s a irq heap es walk gone table buffers =
    rw (walk, release_adapter)
      (rw (fee_adapter_destroy-run a s.dev s.heap heap gone table buffers, destroy_unlisted) refl)

pub removal-run :
    (place : ℕ) (env : Env) (a : Adapter) (s : Host)
    → s.dev.drvdata ≡ true
    → fee_remove_one true place env a s
      ≡ after_dump place s (update_switch env a (put_driverless a s.world))
unfolding fee_remove_one
removal-run place env a s there =
    ap
      (λ (b : Bool).
        if b
        then after_dump place s (update_switch env a (put_driverless a s.world))
        else removed s)
      there

-- The removal of a device in a hotplug slot, whose adapter has its interrupts and no buffers of a
-- user, with a core structure that can be destroyed, on a clock that ticks, with two events more
-- than clients and a list without entries of destroyed adapters, ends without a fault: with the
-- device disabled, nothing held for it, the vectors and handlers of its interrupts as before their
-- setup, the core structure destroyed and no adapter of its place in the list.
pub fee_remove_one-IsRemoved :
    (k : PciCore) (place : ℕ) (env : Env) (a0 a : Adapter) (q : IrqState) (s : Host)
    (heap : CoreHeap)
    → Ticks env
    → IsWhole s.listed
    → s.dev.drvdata ≡ true
    → Installed k a0 q a s.irq
    → a0.globals.n_events ≡ a0.globals.n_clients + 2
    → a0.outgoing ≡ none
    → genz_core_structure_destroy a0.core s.heap ≡ some heap
    → (s' : Host) × (fee_remove_one true place env a s ≡ removed s') × IsRemoved place q heap s'
unfolding fee_remove_one after_dump update_switch give_up unmap_bars
fee_remove_one-IsRemoved k place env a0 a q s heap ticks whole there i events buffers gone =
    let (ret, a', w', run) =
      fee_create_outgoing-total env (int_of_bits a.globals.server_id) genz_fee_sid_cid_is_peer_id
        (codes "dump") a (put_driverless a s.world) ticks in
    let kept =
      (fee_create_outgoing-Kept env (int_of_bits a.globals.server_id) genz_fee_sid_cid_is_peer_id
        (codes "dump") a (put_driverless a s.world) ret a' w' run).adapter_kept in
    let i' =
      subst (λ (x : Adapter). Installed k (record a0 { doorbell = a'.doorbell }) q x s.irq)
        (sym kept) (Installed-doorbell k a0 q a s.irq a'.doorbell i) in
    let (a2, q2, down, u) =
      teardown-Installed k (record a0 { doorbell = a'.doorbell }) q a' s.irq i' events in
    let s1 : Host = record s { world = w' } in
    let (es, walk, unlisted) = unlist-ends place s.listed whole in
    (
      record s1 { enabled = false; dev = give_up 0 s.dev; irq = q2; heap = heap; listed = es },
      removal-run place env a s there
          ∙ (ap (after_dump place s) run
              ∙ (ap (release_adapter place s1) down
                  ∙ release_adapter-run place s1 a2 q2 heap es walk
                      (ap (λ (x : Adapter). genz_core_structure_destroy x.core s.heap) u.pointer
                        ∙ gone)
                      (ap (λ (x : Adapter). x.irq_private) u.pointer)
                      (ap (λ (x : Adapter). x.outgoing) u.pointer ∙ buffers))),
      record {
        disabled = refl;
        bare = record { no_regions = refl; no_regs = refl; no_globals = refl; no_drvdata = refl };
        tables = u.tables_back;
        no_vectors = u.freed;
        handlers = u.handlers_back;
        heap_after = refl;
        unlisted = unlisted;
      },
    )

-- A device that is in no hotplug slot cannot be removed: its NULL slot is followed.
pub fee_remove_one-fault :
    (place : ℕ) (env : Env) (a : Adapter) (s : Host)
    → s.dev.drvdata ≡ true
    → fee_remove_one false place env a s ≡ remove_fault
unfolding fee_remove_one
fee_remove_one-fault place env a s there = rw there refl
