-- ===== src/Bridge/Module/Laws.antt =====
-- What loading the bridge driver leaves.
use emer_gen_z.Base.{
  ℕ, zero, suc, ◌+◌, ◌≡◌, refl, true, false, some, List, [], ◌∷◌, arith, All, ℤ, pos, negsuc,
  is_neg, error, enodev, ◌∙◌, ap, sym,
}
use mathlib.Core.Path.{subst}
use emer_gen_z.Fee.{Core, update, update_self}
use emer_gen_z.Subsystem.Class.{genz_cce_discrete_bridge}
use emer_gen_z.Subsystem.Device.Core.{
  CoreHeap, zeroed_core, put_core, put_table, is_bridge, genz_core_structure_create,
}
use emer_gen_z.Drivers.{
  Bound, System, made, failed, skips, bind_one, bind_all, Bindings, ended, crashed_bindings,
  put_front, fee_register,
}
use emer_gen_z.Drivers.Laws.{IsBoundTo, ComesTo, bind_one-ComesTo, AreBound, fee_register-AreBound}
use emer_gen_z.Bridge.Module.{
  GfBridge, ModuleEnv, returned, heap_of, put_heap, enlarged, count_bindings, bind_bridges,
  gf_bridge_init,
}

-- a bridge's core structure as it is made, with its table at `t`
abbrev pub fresh_core : (t : ℕ) → Core
fresh_core t = record zeroed_core { cce = genz_cce_discrete_bridge; comp_dest_table = t }

-- the core structure of a bridge as the module has made it, with its table at `t`
abbrev pub bridge_core_at : (t : ℕ) → Core
bridge_core_at t = enlarged (fresh_core t)

-- the state in which the driver is registered
abbrev pub with_core : (p t : ℕ) → GfBridge → GfBridge
with_core p t m =
    let h = put_core p (some (fresh_core t)) (put_table t true (heap_of m)) in
    put_heap (put_core p (some (bridge_core_at t)) h) m

bridges_run :
    (env : ModuleEnv) (fops : ℕ) (only_slot : ℤ) (p : ℕ) (m : GfBridge) (c : Core)
    → m.system.world.cores p ≡ some c
    → bind_bridges env fops only_slot p m ≡ (
        let m' : GfBridge =
          put_heap
            (record {
              cores = update m.system.world.cores p (some (enlarged c));
              tables = m.tables;
            })
            m in
        count_bindings m' (fee_register env.bind env.down p fops only_slot m'.adapters m'.system))
unfolding bind_bridges
bridges_run env fops only_slot p m c there = rw (there, bind_bridges) refl

module _ (env : ModuleEnv) (fops : ℕ) (only_slot : ℤ) (m : GfBridge) (p t : ℕ)
    (core_there : env.core_alloc ≡ some p) (table_there : env.table_alloc ≡ some t) where
  -- With memory at hand a start is a registration with the new core structure.
  init_run :
      gf_bridge_init env fops only_slot m
      ≡ count_bindings
          (with_core p t m)
          (fee_register env.bind env.down p fops only_slot m.adapters (with_core p t m).system)
  unfolding gf_bridge_init genz_core_structure_create is_bridge
  init_run =
      let c : Core = fresh_core t in
      let h : CoreHeap = put_core p (some c) (put_table t true (heap_of m)) in
      rw core_there (
        rw table_there (
          bridges_run env fops only_slot p (put_heap h m) c
            (update_self m.system.world.cores p (some c))))

  -- A start that returns 0 is a registration that binds at least one adapter.
  pub init-registered :
      (m' : GfBridge)
      → env.down ≡ pos 0
      → gf_bridge_init env fops only_slot m ≡ returned (pos 0) m'
      → (n : ℕ) × (m'.nbindings ≡ pos (suc n))
        × (fee_register env.bind (pos 0) p fops only_slot m.adapters (with_core p t m).system
            ≡ ended (pos (suc n)) m'.adapters m'.system)
  init-registered m' at_hand run =
      go (fee_register env.bind env.down p fops only_slot m.adapters (with_core p t m).system) refl
        (sym init_run ∙ run)
    where
      go :
          (x : Bindings)
          → fee_register env.bind env.down p fops only_slot m.adapters (with_core p t m).system ≡ x
          → count_bindings (with_core p t m) x ≡ returned (pos 0) m'
          → (n : ℕ) × (m'.nbindings ≡ pos (suc n))
            × (fee_register env.bind (pos 0) p fops only_slot m.adapters (with_core p t m).system
                ≡ ended (pos (suc n)) m'.adapters m'.system)
      go crashed_bindings e r = absurd (ground arith)
      go (ended (negsuc k) bs s) e r = absurd (ground arith)
      go (ended (pos zero) bs s) e r = absurd (ground arith)
      go (ended (pos (suc n)) bs s) e r =
          let same : bs ≡ m'.adapters = ground arith in
          let same_system : s ≡ m'.system = ground arith in
          let count : m'.nbindings ≡ pos (suc n) = ground arith in
          (
            n,
            count,
            ap (λ d. fee_register env.bind d p fops only_slot m.adapters (with_core p t m).system)
                  (sym at_hand)
                ∙ e
                ∙ ap (λ bs. ended (pos (suc n)) bs s) same
                ∙ ap (ended (pos (suc n)) m'.adapters) same_system,
          )

  -- A start that returns 0, with memory and the semaphore at hand, has bound the driver to at least one
  -- adapter, as many as it counts: those that the choice of a slot leaves, each with the new core structure and a
  -- device with the driver's operations; the other adapters are as before.
  pub gf_bridge_init-AreBound :
      (m' : GfBridge)
      → env.down ≡ pos 0
      → gf_bridge_init env fops only_slot m ≡ returned (pos 0) m'
      → (n : ℕ) × (m'.nbindings ≡ pos (suc n))
        × AreBound p fops only_slot (suc n) m.adapters m'.adapters
  gf_bridge_init-AreBound m' at_hand run =
      let (n, count, done) = init-registered m' at_hand run in
      (
        n,
        count,
        fee_register-AreBound env.bind p fops only_slot m.adapters (with_core p t m).system (suc n)
            m'.adapters m'.system done,
      )

  skipped_run :
      (k n : ℕ) (bs : List Bound) (s : System)
      → All (λ (b : Bound). skips only_slot b ≡ true) bs
      → bind_all env.bind p fops only_slot k n bs s ≡ ended (pos n) bs s
  unfolding bind_all
  skipped_run k n [] s all = refl
  skipped_run k n (b ∷ bs) s all = rw all.0 (ap (put_front b) (skipped_run (k + 1) n bs s all.1))

  -- Where the choice of a slot leaves no adapter, a start with memory and the semaphore at hand returns
  -- -ENODEV, so that the module is not loaded, and nothing is bound; but its core structure and the table
  -- stay on the heap.
  pub gf_bridge_init-leaks :
      env.down ≡ pos 0
      → All (λ (b : Bound). skips only_slot b ≡ true) m.adapters
      → (m' : GfBridge) × (gf_bridge_init env fops only_slot m ≡ returned (error enodev) m')
        × (m'.adapters ≡ m.adapters)
        × (m'.system.world.cores p ≡ some (bridge_core_at t))
        × (m'.tables t ≡ true)
  unfolding fee_register
  gf_bridge_init-leaks at_hand all = (
    record (with_core p t m) { nbindings = pos 0 },
    init_run
        ∙ (rw at_hand (
            ap (count_bindings (with_core p t m))
              (skipped_run 0 0 m.adapters (with_core p t m).system all))),
    refl,
    update_self (update m.system.world.cores p (some (fresh_core t))) p (some (bridge_core_at t)),
    update_self m.tables t true,
  )

  -- With memory and the semaphore at hand, where the first adapter is bound and the second is refused,
  -- neither passed over, the start returns that error, so that the module is not loaded, but the first
  -- adapter stays bound to the driver's operations.
  pub gf_bridge_init-stays_bound :
      (b1 b1' b2 b2' : Bound) (bs : List Bound) (s1 s2 : System) (ret : ℤ)
      → env.down ≡ pos 0
      → m.adapters ≡ b1 ∷ b2 ∷ bs
      → skips only_slot b1 ≡ false
      → skips only_slot b2 ≡ false
      → bind_one env.bind 0 p fops b1 (with_core p t m).system ≡ made b1' s1
      → bind_one env.bind 1 p fops b2 s1 ≡ failed ret b2' s2
      → (m' : GfBridge) × (gf_bridge_init env fops only_slot m ≡ returned ret m')
        × (is_neg ret ≡ true)
        × (m'.adapters ≡ b1' ∷ b2' ∷ bs)
        × IsBoundTo p fops b1 b1'
  unfolding fee_register bind_all
  gf_bridge_init-stays_bound b1 b1' b2 b2' bs s1 s2 ret at_hand list chosen chosen' bound refused =
      let negative : is_neg ret ≡ true =
        (subst (ComesTo p fops b2) refused (bind_one-ComesTo env.bind 1 p fops b2 s1)).0 in
      (
        record (with_core p t m) { adapters = b1' ∷ b2' ∷ bs; system = s2; nbindings = pos 0 },
        init_run
            ∙ rw at_hand
                (rw list (rw chosen (rw bound (rw chosen' (rw refused (rw negative refl)))))),
        negative,
        refl,
        subst (ComesTo p fops b1) bound
            (bind_one-ComesTo env.bind 0 p fops b1 (with_core p t m).system),
      )
