-- ===== src/Probe/Laws.antt =====
-- What a probe leaves.
use emer_gen_z.Base.{
  true≢false, ℕ, ◌+◌, ◌≡◌, refl, inl, inr, ◌==◌, Bool, true, false, not, ◌||◌, Option, none, some,
  Bool-cases, List, [], ◌∷◌, ◌++◌, if-elim, ℤ, nonzero, is_neg, error, ealready, ◌∙◌, ap, sym,
  int_of_bits,
}
use mathlib.Core.Path.{subst}
use emer_gen_z.Text.{codes}
use emer_gen_z.Fee.{Globals, Adapter, World}
use emer_gen_z.Outgoing.{genz_fee_sid_cid_is_peer_id}
use emer_gen_z.Outgoing.Wait.{Ticks}
use emer_gen_z.Outgoing.Deliver.{fee_create_outgoing-total}
use emer_gen_z.Outgoing.Frame.{fee_create_outgoing-Kept}
use emer_gen_z.Link.{link_ctl_peer_attribute}
use emer_gen_z.Msix.Setup.{IrqState, fee_isr_setup}
use emer_gen_z.Msix.Setup.AllOrNothing.{Installed, AllOrNothing, fee_isr_setup-AllOrNothing}
use emer_gen_z.Msix.Setup.Teardown.{Installed-doorbell}
use emer_gen_z.Drivers.{update_switch}
use emer_gen_z.Adapters.{PciDev, Created, created, not_created, fee_adapter_create}
use emer_gen_z.Adapters.Laws.{IsBare, IsCreation, fee_adapter_create-IsCreation}
use emer_gen_z.Probe.{
  Host, ProbeEnv, is_listed, forget, finish_probe, asked_result, after_asking, ask_server,
  list_adapter, set_up, with_adapter, fee_init_one,
}
use emer_gen_z.Probe.Walk.{IsWhole, is_listed-ends, forget-added}
use emer_gen_z.Probe.Undo.{IsUndone, IsProbe, disable-IsProbe, tear_down-IsProbe, negative-nonzero}

module _ (env : ProbeEnv) (s : Host) (asks : Ticks env.ask_env) (dumps : Ticks env.dump_env)
    (whole : IsWhole s.listed) where
  finish_probe-IsProbe :
      (a : Adapter) (w : World) (s1 : Host)
      → s1.enabled ≡ true
      → s1.irq.allocated ≡ true
      → s1.listed ≡ s.listed ++ some env.place ∷ []
      → IsProbe env s (finish_probe s1 (update_switch env.dump_env a w))
  unfolding finish_probe update_switch
  finish_probe-IsProbe a w s1 on held listed =
      let (ret, a', w', run) =
        fee_create_outgoing-total env.dump_env (int_of_bits a.globals.server_id)
          genz_fee_sid_cid_is_peer_id (codes "dump") a w dumps in
      rw (run, finish_probe) (on, held, listed)

  ask_server-IsProbe :
      (a0 a : Adapter) (s1 : Host)
      → s1.enabled ≡ true
      → s1.listed ≡ s.listed ++ some env.place ∷ []
      → Installed env.pci a0 s.irq a s1.irq
      → a0.core ≡ none
      → a0.outgoing ≡ none
      → a0.globals.n_events ≡ a0.globals.n_clients + 2
      → s1.dev.blocks ≡ s.dev.blocks + 1
      → s1.heap ≡ s.heap
      → forget env.place s1.listed ≡ s.listed ++ none ∷ []
      → IsProbe env s (ask_server env a s1)
  unfolding ask_server after_asking
  ask_server-IsProbe a0 a s1 on listed i core buffers events blocks heap_kept forgotten =
      let (ret, a', w', run) =
        fee_create_outgoing-total env.ask_env (int_of_bits a.globals.server_id)
          genz_fee_sid_cid_is_peer_id link_ctl_peer_attribute a s1.world asks in
      let kept =
        (fee_create_outgoing-Kept env.ask_env (int_of_bits a.globals.server_id)
          genz_fee_sid_cid_is_peer_id link_ctl_peer_attribute a s1.world ret a' w'
          run).adapter_kept in
      rw run (
        if-elim (IsProbe env s) (nonzero (asked_result ret))
          (λ bad.
            tear_down-IsProbe env s (asked_result ret) (record a0 { doorbell = a'.doorbell }) a'
              (record s1 { world = w'; listed = forget env.place s1.listed }) bad
              (subst
                (λ (x : Adapter).
                  Installed env.pci (record a0 { doorbell = a'.doorbell }) s.irq x s1.irq)
                (sym kept) (Installed-doorbell env.pci a0 s.irq a s1.irq a'.doorbell i))
              core buffers events
              (record { blocks = blocks; heap_kept = heap_kept; list = inr forgotten }))
          (λ good. finish_probe-IsProbe a' w' s1 on i.held listed))

  -- an error before anything was done
  untouched-IsUndone :
      (on : Bool)
      → on ≡ false
      → IsBare s.dev
      → s.irq.allocated ≡ false
      → IsUndone s (record s { enabled = on })
  untouched-IsUndone on off bare idle = record {
    disabled = off;
    bare = bare;
    no_leak = refl;
    tables = refl;
    no_vectors = idle;
    handlers = λ v. refl;
    same_heap = refl;
    list = inl refl;
  }

  list_adapter-IsProbe :
      (a0 a : Adapter) (s1 : Host)
      → s1.enabled ≡ true
      → s1.listed ≡ s.listed
      → Installed env.pci a0 s.irq a s1.irq
      → a0.core ≡ none
      → a0.outgoing ≡ none
      → a0.globals.n_events ≡ a0.globals.n_clients + 2
      → s1.dev.blocks ≡ s.dev.blocks + 1
      → s1.heap ≡ s.heap
      → IsProbe env s (list_adapter env a s1)
  unfolding list_adapter
  list_adapter-IsProbe a0 a s1 on listed i core buffers events blocks heap_kept =
      let (there, walk) = is_listed-ends env.place s.listed whole in
      elim (Bool-cases there) [
        | inl old ↦
            let found = ap (is_listed env.place) listed ∙ (walk ∙ ap some old) in
            rw (found, list_adapter)
              (tear_down-IsProbe env s (error ealready) a0 a s1 refl i core buffers events
                (record { blocks = blocks; heap_kept = heap_kept; list = inl listed }))
        | inr new ↦
            let found = ap (is_listed env.place) listed ∙ (walk ∙ ap some new) in
            let added : s1.listed ++ some env.place ∷ [] ≡ s.listed ++ some env.place ∷ [] =
              ap (λ (l : List (Option ℕ)). l ++ some env.place ∷ []) listed in
            rw (found, list_adapter)
              (ask_server-IsProbe a0 a (record s1 { listed = s1.listed ++ some env.place ∷ [] }) on
                added i core buffers events blocks heap_kept
                (ap (forget env.place) added
                  ∙ forget-added env.place s.listed (walk ∙ ap some new)))
      ]

  set_up-IsProbe :
      (a0 : Adapter) (s1 : Host) (x : ℤ × Adapter × IrqState)
      → s1.enabled ≡ true
      → s1.listed ≡ s.listed
      → AllOrNothing env.pci a0 s.irq x
      → a0.core ≡ none
      → a0.outgoing ≡ none
      → a0.globals.n_events ≡ a0.globals.n_clients + 2
      → s1.dev.blocks ≡ s.dev.blocks + 1
      → s1.heap ≡ s.heap
      → IsProbe env s (set_up env s1 x)
  unfolding set_up
  set_up-IsProbe a0 s1 x on listed all core buffers events blocks heap_kept =
      if-elim (IsProbe env s) (nonzero x.0)
        (λ bad.
          let u = all.0 bad in
          disable-IsProbe env s x.0 x.1 (record s1 { irq = x.2 }) bad
            (ap (λ (y : Adapter). y.core) u.pointer ∙ core)
            (ap (λ (y : Adapter). y.irq_private) u.pointer)
            (ap (λ (y : Adapter). y.outgoing) u.pointer ∙ buffers)
            (record { tables = u.tables_back; no_vectors = u.freed; handlers = u.handlers_back })
            (record { blocks = blocks; heap_kept = heap_kept; list = inl listed }))
        (λ good.
          list_adapter-IsProbe a0 x.1 (record s1 { irq = x.2 }) on listed (all.1 good) core buffers
            events blocks heap_kept)

  with_adapter-IsProbe :
      IsBare s.dev
      → s.irq.allocated ≡ false
      → env.create.globals.n_events ≡ env.create.globals.n_clients + 2
      → (c : Created) → IsCreation env.create s.world s.dev c
      → IsProbe env s (with_adapter env (record s { enabled = true }) c)
  unfolding with_adapter
  with_adapter-IsProbe bare idle events (created a w p) (ready, same) =
      set_up-IsProbe a (record s { enabled = true; dev = p; world = w })
        (fee_isr_setup env.pci a s.irq) refl refl
        (fee_isr_setup-AllOrNothing env.pci a s.irq idle ready.no_table) ready.no_core
        ready.closed.no_buffers
        (ap (λ (g : Globals). g.n_events) ready.announced
          ∙ events
          ∙ ap (λ (g : Globals). g.n_clients + 2) (sym ready.announced))
        (ap (λ (d : PciDev). d.blocks) same) refl
  with_adapter-IsProbe bare idle events (not_created ret p) (bad, p_bare, no_leak) = (
    bad,
    record {
      disabled = refl;
      bare = p_bare;
      no_leak = no_leak;
      tables = refl;
      no_vectors = idle;
      handlers = λ v. refl;
      same_heap = refl;
      list = inl refl;
    },
  )

  -- A probe of a disabled device of which nothing is held and whose interrupts are idle, on clocks
  -- that tick, with two events more than clients and a list without entries of destroyed adapters,
  -- ends without a fault: with the device enabled, its interrupts held and its place in the list,
  -- or with a result that is not 0, the device disabled, nothing held for it, no memory lost, its
  -- interrupts and the core structures as before, and the list as before or with an entry of the
  -- destroyed adapter, without a device, at its end.
  pub fee_init_one-IsProbe :
      IsBare s.dev
      → s.enabled ≡ false
      → s.irq.allocated ≡ false
      → env.create.globals.n_events ≡ env.create.globals.n_clients + 2
      → IsProbe env s (fee_init_one env s)
  unfolding fee_init_one
  fee_init_one-IsProbe bare off idle events =
      if-elim (IsProbe env s) s.dev.drvdata
        (λ there. absurd (true≢false (sym there ∙ bare.no_drvdata)))
        (λ fresh.
          if-elim (IsProbe env s) (is_neg env.enable_device)
            (λ refused. (
              negative-nonzero env.enable_device refused,
              untouched-IsUndone s.enabled off bare idle,
            ))
            (λ enabled.
              if-elim (IsProbe env s)
                (not (env.revision == 1) || (not env.msix_cap || not env.has_bar1))
                (λ unfit. (refl, untouched-IsUndone false refl bare idle))
                (λ fit.
                  with_adapter-IsProbe bare idle events
                    (fee_adapter_create env.create s.world s.dev)
                    (fee_adapter_create-IsCreation env.create s.world s.dev bare))))
