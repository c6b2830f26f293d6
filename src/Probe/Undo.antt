-- ===== src/Probe/Undo.antt =====
-- The end of a probe that fails: what its two labels undo.
use emer_gen_z.Base.{
  ℕ, ◌+◌, ◌≡◌, refl, ◌⊎◌, true, false, none, some, [], ◌∷◌, ◌++◌, ℤ, pos, negsuc, nonzero, is_neg,
  arith, ◌∙◌, ap, sym,
}
use mathlib.Core.Path.{subst}
use emer_gen_z.Fee.{Adapter}
use emer_gen_z.Msix.Setup.{IrqState}
use emer_gen_z.Msix.Setup.AllOrNothing.{Installed}
use emer_gen_z.Msix.Setup.Teardown.{teardown-Installed}
use emer_gen_z.Subsystem.Device.Core.{CoreHeap, genz_core_structure_destroy}
use emer_gen_z.Adapters.{PciDev, give_up, unmap_bars, fee_adapter_destroy}
use emer_gen_z.Adapters.Laws.{IsBare}
use emer_gen_z.Probe.{
  Host, ProbeEnv, Probed, probed, not_probed, probe_fault, disable_and_destroy, tear_down,
}

-- after a failure: the device is disabled, nothing is held for it, no memory is lost, its interrupts
-- and the core structures are as before; the list is as before, or has an entry without a
-- device at its end
pub record IsUndone (s s' : Host) : Type 0 where
  pub disabled : s'.enabled ≡ false
  pub bare : IsBare s'.dev
  pub no_leak : s'.dev.blocks ≡ s.dev.blocks
  pub tables : s'.irq.tables ≡ s.irq.tables
  pub no_vectors : s'.irq.allocated ≡ false
  pub handlers : (v : ℕ) → s'.irq.handlers v ≡ s.irq.handlers v
  pub same_heap : s'.heap ≡ s.heap
  pub list : (s'.listed ≡ s.listed) ⊎ (s'.listed ≡ s.listed ++ none ∷ [])

-- A probe ends with an enabled device that is listed, or undone; it never ends in a fault.
abbrev pub IsProbe : ProbeEnv → Host → Probed → Type 0
IsProbe env s (probed a s') =
    (s'.enabled ≡ true) × (s'.irq.allocated ≡ true) × (s'.listed ≡ s.listed ++ some env.place ∷ [])
IsProbe env s (not_probed ret s') = (nonzero ret ≡ true) × IsUndone s s'
IsProbe env s probe_fault = ⊥

pub negative-nonzero : (z : ℤ) → is_neg z ≡ true → nonzero z ≡ true
negative-nonzero (pos n) h = ground arith
negative-nonzero (negsuc n) h = refl

-- an adapter with neither core structure, nor table, nor buffers
destroyed :
    (a : Adapter) (p : PciDev) (h : CoreHeap)
    → a.core ≡ none
    → a.irq_private ≡ none
    → a.outgoing ≡ none
    → fee_adapter_destroy a p h ≡ some (give_up 0 p, h)
unfolding fee_adapter_destroy genz_core_structure_destroy
destroyed a p h core table buffers = rw core (rw table (rw buffers refl))

module _ (env : ProbeEnv) (s : Host) where
  -- what is left to undo before the device is disabled
  pub record IsBehind (s1 : Host) : Type 0 where
    pub blocks : s1.dev.blocks ≡ s.dev.blocks + 1
    pub heap_kept : s1.heap ≡ s.heap
    pub list : (s1.listed ≡ s.listed) ⊎ (s1.listed ≡ s.listed ++ none ∷ [])

  -- the interrupts are as before
  pub record IsQuiet (q : IrqState) : Type 0 where
    pub tables : q.tables ≡ s.irq.tables
    pub no_vectors : q.allocated ≡ false
    pub handlers : (v : ℕ) → q.handlers v ≡ s.irq.handlers v

  disable_run :
      (ret : ℤ) (a : Adapter) (s1 : Host)
      → a.core ≡ none
      → a.irq_private ≡ none
      → a.outgoing ≡ none
      → disable_and_destroy ret a s1
        ≡ not_probed ret (record s1 { enabled = false; dev = give_up 0 s1.dev })
  unfolding disable_and_destroy
  disable_run ret a s1 core table buffers =
      rw (destroyed a s1.dev s1.heap core table buffers, disable_and_destroy) refl

  pub disable-IsProbe :
      (ret : ℤ) (a : Adapter) (s1 : Host)
      → nonzero ret ≡ true
      → a.core ≡ none
      → a.irq_private ≡ none
      → a.outgoing ≡ none
      → IsQuiet s1.irq
      → IsBehind s1
      → IsProbe env s (disable_and_destroy ret a s1)
  unfolding give_up unmap_bars
  disable-IsProbe ret a s1 bad core table buffers quiet behind =
      subst (IsProbe env s) (sym (disable_run ret a s1 core table buffers)) (
        bad,
        record {
          disabled = refl;
          bare = record { no_regions = refl; no_regs = refl; no_globals = refl; no_drvdata = refl };
          no_leak = omega (arith, behind.blocks);
          tables = quiet.tables;
          no_vectors = quiet.no_vectors;
          handlers = quiet.handlers;
          same_heap = behind.heap_kept;
          list = behind.list;
        },
      )

  pub tear_down-IsProbe :
      (ret : ℤ) (a0 a : Adapter) (s1 : Host)
      → nonzero ret ≡ true
      → Installed env.pci a0 s.irq a s1.irq
      → a0.core ≡ none
      → a0.outgoing ≡ none
      → a0.globals.n_events ≡ a0.globals.n_clients + 2
      → IsBehind s1
      → IsProbe env s (tear_down ret a s1)
  unfolding tear_down
  tear_down-IsProbe ret a0 a s1 bad i core buffers events behind =
      let (a2, q2, run, u) = teardown-Installed env.pci a0 s.irq a s1.irq i events in
      rw (run, tear_down)
        (disable-IsProbe ret a2 (record s1 { irq = q2 }) bad
          (ap (λ (x : Adapter). x.core) u.pointer ∙ core)
          (ap (λ (x : Adapter). x.irq_private) u.pointer)
          (ap (λ (x : Adapter). x.outgoing) u.pointer ∙ buffers)
          (record { tables = u.tables_back; no_vectors = u.freed; handlers = u.handlers_back })
          (record { blocks = behind.blocks; heap_kept = behind.heap_kept; list = behind.list }))
