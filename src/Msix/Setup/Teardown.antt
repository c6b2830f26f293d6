-- ===== src/Msix/Setup/Teardown.antt =====
-- Teardown gives back what setup took.
use emer_gen_z.Base.{ap, ℕ, ◌+◌, ◌-◌, ◌≡◌, refl, nonzero, false, none, some, List, arith}
use emer_gen_z.Fee.{MsixEntry, Adapter}
use emer_gen_z.Msix.Setup.{PciCore, IrqState, free_irqs, fee_isr_setup, fee_isr_teardown}
use emer_gen_z.Msix.Setup.Rollback.{free_irqs-occurrences}
use emer_gen_z.Msix.Setup.AllOrNothing.{Undone, Installed, fee_isr_setup-AllOrNothing}

teardown_run :
    (a : Adapter) (q : IrqState) {es : List MsixEntry} {f : ℕ → ℕ}
    → a.irq_private ≡ some es
    → free_irqs (a.globals.n_clients + 2) es q.handlers ≡ some f
    → fee_isr_teardown a q
      ≡ some (
        record a { irq_private = none },
        record q { tables = q.tables - 1; allocated = false; handlers = f },
      )
unfolding fee_isr_teardown
teardown_run a q e freed = ground arith

module _ (k : PciCore) (a : Adapter) (q : IrqState) where
  pub teardown-Installed :
      (a' : Adapter) (q' : IrqState)
      → Installed k a q a' q'
      → a.globals.n_events ≡ a.globals.n_clients + 2
      → (a'' : Adapter) × (q'' : IrqState) × (fee_isr_teardown a' q' ≡ some (a'', q''))
        × Undone a q a'' q''
  teardown-Installed a' q' i vectors =
      let (f, freed, back) =
        free_irqs-occurrences (a.globals.n_clients + 2) i.table q'.handlers q.handlers
          (omega (arith, i.size)) (rw vectors at i.handlers_added) in
      (
        record a { irq_private = none },
        record q' { tables = q'.tables - 1; allocated = false; handlers = f },
        rw i.pointer
            (teardown_run (record a { irq_private = some i.table }) q' {es = i.table} refl freed),
        record {
          pointer = refl;
          tables_back = omega (arith, i.one_table);
          freed = refl;
          handlers_back = back;
        },
      )

  -- Where the server announces two events more than clients, teardown after a successful setup of
  -- an idle device leaves no table, no vectors and the handlers of before.
  pub fee_isr_teardown-undoes :
      q.allocated ≡ false
      → a.irq_private ≡ none
      → a.globals.n_events ≡ a.globals.n_clients + 2
      → nonzero (fee_isr_setup k a q).0 ≡ false
      → (a'' : Adapter) × (q'' : IrqState) × (fee_isr_teardown
            (fee_isr_setup k a q).1
            (fee_isr_setup k a q).2
          ≡ some (a'', q''))
        × Undone a q a'' q''
  fee_isr_teardown-undoes idle fresh vectors worked =
      teardown-Installed (fee_isr_setup k a q).1 (fee_isr_setup k a q).2
        ((fee_isr_setup-AllOrNothing k a q idle fresh).1 worked) vectors

-- An installation does not depend on what was rung.
pub Installed-doorbell :
    (k : PciCore) (a : Adapter) (q : IrqState) (a' : Adapter) (q' : IrqState) (rung : List ℕ)
    → Installed k a q a' q'
    → Installed k (record a { doorbell = rung }) q (record a' { doorbell = rung }) q'
Installed-doorbell k a q a' q' rung i = record {
  table = i.table;
  pointer = ap (λ (x : Adapter). record x { doorbell = rung }) i.pointer;
  size = i.size;
  entries = i.entries;
  one_table = i.one_table;
  held = i.held;
  handlers_added = i.handlers_added;
}
