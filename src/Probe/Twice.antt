-- ===== src/Probe/Twice.antt =====
-- Two adapters that one driver is bound to share its core structure, and each removal destroys it.
use emer_gen_z.Base.{
  ℕ, ◌+◌, ◌≡◌, refl, true, Option, none, some, ℤ, arith, ◌∙◌, ap, sym, int_of_bits, Option-cases,
  inl, inr,
}
use mathlib.Core.Path.{subst}
use emer_gen_z.Text.{codes}
use emer_gen_z.Fee.{Adapter, World, Run, done, fault, out_of_fuel}
use emer_gen_z.Outgoing.{Env, genz_fee_sid_cid_is_peer_id}
use emer_gen_z.Outgoing.Frame.{fee_create_outgoing-Kept}
use emer_gen_z.Msix.Setup.{IrqState, fee_isr_teardown, free_irqs}
use emer_gen_z.Subsystem.Device.Core.{CoreHeap, genz_core_structure_destroy}
use emer_gen_z.Subsystem.Device.Core.Laws.{genz_core_structure_destroy-twice}
use emer_gen_z.Drivers.{update_switch}
use emer_gen_z.Adapters.{PciDev, fee_adapter_destroy}
use emer_gen_z.Probe.{
  Host, Removed, removed, remove_fault, release_adapter, after_dump, put_driverless, fee_remove_one,
  unlist, destroy_unlisted,
}
use emer_gen_z.Probe.Remove.{removal-run}

teardown-core :
    (a : Adapter) (q : IrqState) (a' : Adapter) (q' : IrqState)
    → fee_isr_teardown a q ≡ some (a', q')
    → a'.core ≡ a.core
unfolding fee_isr_teardown
teardown-core a q a' q' e = elim (Option-cases a.irq_private) [
  | inl idle ↦ let e' = rw (idle, fee_isr_teardown) at e in ground (arith, e')
  | inr (es, held) ↦ elim (Option-cases (free_irqs (a.globals.n_clients + 2) es q.handlers)) [
    | inl bad ↦ absurd (let e' = rw (held, bad, fee_isr_teardown) at e in ground (arith, e'))
    | inr (f, freed) ↦ let e' = rw (held, freed, fee_isr_teardown) at e in ground (arith, e')
  ]
]

update_switch-core :
    (env : Env) (a : Adapter) (w : World) (ret : ℤ) (a' : Adapter) (w' : World)
    → update_switch env a w ≡ done ret a' w'
    → a'.core ≡ a.core
unfolding update_switch
update_switch-core env a w ret a' w' run =
    ap (λ (x : Adapter). x.core)
      (fee_create_outgoing-Kept env (int_of_bits a.globals.server_id) genz_fee_sid_cid_is_peer_id
        (codes "dump") a w ret a' w' run).adapter_kept

destroys-core :
    (a : Adapter) (dev dev' : PciDev) (h h' : CoreHeap)
    → fee_adapter_destroy a dev h ≡ some (dev', h')
    → genz_core_structure_destroy a.core h ≡ some h'
unfolding fee_adapter_destroy
destroys-core a dev dev' h h' e = elim (Option-cases (genz_core_structure_destroy a.core h)) [
  | inl bad ↦ absurd (let e' = rw (bad, fee_adapter_destroy) at e in ground (arith, e'))
  | inr (h2, gone) ↦
      let e' = rw (gone, fee_adapter_destroy) at e in
      let same : h2 ≡ h' = ground (arith, e') in gone ∙ ap some same
]

-- A removal that ends has destroyed the core structure that its adapter pointed to.
release_adapter-destroys :
    (place : ℕ) (s h : Host) (o : Option ℕ) (x : Option (Adapter × IrqState))
    → ((a : Adapter) (irq : IrqState) → x ≡ some (a, irq) → a.core ≡ o)
    → release_adapter place s x ≡ removed h
    → genz_core_structure_destroy o s.heap ≡ some h.heap
unfolding release_adapter
release_adapter-destroys place s h o none points e = absurd (ground arith)
release_adapter-destroys place s h o (some (a, irq)) points e =
    elim (Option-cases (unlist place s.listed)) [
      | inl stale ↦ absurd (let e' = rw (stale, release_adapter) at e in ground (arith, e'))
      | inr (es, walk) ↦ elim (Option-cases (fee_adapter_destroy a s.dev s.heap)) [
        | inl bad ↦ absurd (
            let e' = rw (bad, destroy_unlisted) at (rw (walk, release_adapter) at e) in
            ground (arith, e'))
        | inr ((dev, heap), gone) ↦
            let e' = rw (gone, destroy_unlisted) at (rw (walk, release_adapter) at e) in
            let same : heap ≡ h.heap = ap heap_of e' in
            subst (λ x. genz_core_structure_destroy x s.heap ≡ some h.heap) (points a irq refl)
              (destroys-core a s.dev dev s.heap heap gone ∙ ap some same)
      ]
    ]
  where
    heap_of : Removed → CoreHeap
    heap_of (removed x) = x.heap
    heap_of remove_fault = h.heap

after_dump-destroys :
    (place : ℕ) (s h : Host) (o : Option ℕ) (run : Run ℤ)
    → ((ret : ℤ) (a : Adapter) (w : World) → run ≡ done ret a w → a.core ≡ o)
    → after_dump place s run ≡ removed h
    → genz_core_structure_destroy o s.heap ≡ some h.heap
unfolding after_dump
after_dump-destroys place s h o (done ret a w) points e =
    release_adapter-destroys place (record s { world = w }) h o (fee_isr_teardown a s.irq)
      (λ a' irq down. teardown-core a s.irq a' irq down ∙ points ret a w refl) e
after_dump-destroys place s h o fault points e = absurd (ground arith)
after_dump-destroys place s h o out_of_fuel points e = absurd (ground arith)

-- A removal whose core structure cannot be destroyed ends in a fault.
after_dump-fault :
    (place : ℕ) (s : Host) (o : Option ℕ) (run : Run ℤ)
    → ((ret : ℤ) (a : Adapter) (w : World) → run ≡ done ret a w → a.core ≡ o)
    → genz_core_structure_destroy o s.heap ≡ none
    → after_dump place s run ≡ remove_fault
unfolding after_dump release_adapter fee_adapter_destroy
after_dump-fault place s o fault points gone = refl
after_dump-fault place s o out_of_fuel points gone = refl
after_dump-fault place s o (done ret a w) points gone =
    elim (Option-cases (fee_isr_teardown a s.irq)) [
      | inl bad ↦ rw (bad, release_adapter) refl
      | inr ((a', irq), down) ↦
          let bad : genz_core_structure_destroy a'.core s.heap ≡ none =
            ap (λ x. genz_core_structure_destroy x s.heap)
              (teardown-core a s.irq a' irq down ∙ points ret a w refl)
            ∙ gone in
          elim (Option-cases (unlist place s.listed)) [
            | inl stale ↦ rw (down, release_adapter) (rw stale refl)
            | inr (es, walk) ↦
                rw (down, release_adapter)
                  (rw walk (rw (bad, fee_adapter_destroy, destroy_unlisted) refl))
          ]
    ]

-- After the removal of a device whose adapter points to a core structure, a further removal, by way of
-- another adapter that points to the same one, with no other change to the heap in between, ends in a
-- fault: it follows a freed pointer, unless a fault or an endless wait comes before that.
pub fee_remove_one-twice :
    (place place' : ℕ) (env env' : Env) (a a' : Adapter) (s s' h : Host) (q : ℕ)
    → s.dev.drvdata ≡ true
    → a.core ≡ some q
    → fee_remove_one true place env a s ≡ removed h
    → s'.dev.drvdata ≡ true
    → a'.core ≡ some q
    → s'.heap ≡ h.heap
    → fee_remove_one true place' env' a' s' ≡ remove_fault
fee_remove_one-twice place place' env env' a a' s s' h q there points run there' points' same =
    let gone =
      after_dump-destroys place s h (some q) (update_switch env a (put_driverless a s.world))
        (λ ret a1 w1 sent.
          update_switch-core env a (put_driverless a s.world) ret a1 w1 sent ∙ points)
        (sym (removal-run place env a s there) ∙ run) in
    removal-run place' env' a' s' there'
    ∙ after_dump-fault place' s' (some q) (update_switch env' a' (put_driverless a' s'.world))
        (λ ret a1 w1 sent.
          update_switch-core env' a' (put_driverless a' s'.world) ret a1 w1 sent ∙ points')
        (ap (genz_core_structure_destroy (some q)) same
          ∙ genz_core_structure_destroy-twice s.heap h.heap q gone)
