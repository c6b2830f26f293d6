-- ===== src/Bridge/Module/RoundTrip.antt =====
-- Loading the bridge driver and unloading it.
use emer_gen_z.Base.{ℕ, suc, ◌≡◌, some, All, ℤ, pos, ◌∙◌, ap, sym}
use emer_gen_z.Fee.{update, update_self}
use emer_gen_z.Outgoing.Wait.{Ticks}
use emer_gen_z.Drivers.{BindEnv, fee_unregister, ended, crashed_bindings, Bindings}
use emer_gen_z.Drivers.RoundTrip.{IsAlive, IsFree, AreFreed, fee_unregister-undoes}
use emer_gen_z.Bridge.Module.{
  GfBridge, ModuleEnv, Called, returned, call_crash, gf_bridge_init, gf_bridge_exit,
}
use emer_gen_z.Bridge.Module.Laws.{fresh_core, with_core, bridge_core_at, init-registered}

exit_run :
    (env : BindEnv) (fops : ℕ) (m : GfBridge) (x : Bindings)
    → fee_unregister env (pos 0) fops m.adapters m.system ≡ x
    → gf_bridge_exit env (pos 0) fops m ≡ elim x [
      | ended ret bs s ↦ returned ret (record m { adapters = bs; system = s })
      | crashed_bindings ↦ call_crash
    ]
unfolding gf_bridge_exit
exit_run env fops m x e =
    ap
      (λ (y : Bindings). elim y as (λ _. Called) [
        | ended ret bs s ↦ returned ret (record m { adapters = bs; system = s })
        | crashed_bindings ↦ call_crash
      ])
      e

-- Where no adapter has a device, and memory and the semaphore are at hand, a start that returns 0 is
-- undone by the end of the module with the semaphore at hand, on clocks that tick: it releases as many
-- bindings as were made, and no adapter has a device, each where it was, with its slots and what waits
-- there.
pub gf_bridge_exit-undoes :
    (env : ModuleEnv) (env' : BindEnv) (fops : ℕ) (only_slot : ℤ) (m m' : GfBridge) (p t : ℕ)
    → env.core_alloc ≡ some p
    → env.table_alloc ≡ some t
    → env.down ≡ pos 0
    → All IsFree m.adapters
    → ((i : ℕ) → Ticks (env'.send_env i))
    → gf_bridge_init env fops only_slot m ≡ returned (pos 0) m'
    → (m'' : GfBridge) × (gf_bridge_exit env' (pos 0) fops m' ≡ returned m'.nbindings m'')
      × AreFreed m.adapters m''.adapters
gf_bridge_exit-undoes env env' fops only_slot m m' p t core table at_hand free ticks run =
    let (n, count, bound) = init-registered env fops only_slot m p t core table m' at_hand run in
    let alive : IsAlive p (with_core p t m).system.world = (
      bridge_core_at t,
      update_self (update m.system.world.cores p (some (fresh_core t))) p (some (bridge_core_at t)),
    ) in
    let (bs, s, gone, all_freed) =
      fee_unregister-undoes env.bind env' p fops only_slot m.adapters m'.adapters
        (with_core p t m).system m'.system (suc n) alive free ticks bound in
    let m'' : GfBridge = record m' { adapters = bs; system = s } in
    (
      m'',
      exit_run env' fops m' (ended (pos (suc n)) bs s) gone ∙ ap (λ x. returned x m'') (sym count),
      all_freed,
    )
