-- ===== src/Examples/Modules.antt =====
-- The theorems on the start and the end of the bridge module.
use emer_gen_z.Base.{
  ℕ, suc, ◌≡◌, refl, true, false, some, List, [], ◌∷◌, pos, is_neg, error, enodev, enomem,
  if◌then◌else◌, ◌==◌,
}
use emer_gen_z.Outgoing.{
  fee_create_outgoing, refuse_outgoing, peer_of, await_my_slot, time_before, post_outgoing, ringer,
}
use emer_gen_z.Subsystem.Class.{genz_class_getter, maxindex}
use emer_gen_z.Subsystem.Bus.{find_bus, add_bus, find_or_add_bus, genz_find_bus_by_pci_slotnum}
use emer_gen_z.Subsystem.Device.Core.{is_bridge, genz_core_structure_create}
use emer_gen_z.Subsystem.Device.Register.{
  genz_register_char_device, alloc_and_register, alloc_names, locked_steps, claim_minor,
  claim_region, find_first_zero_bit, find_parent, fill_in, add_cdev, create_device,
  create_core_file, create_interfaces, create_iface_files,
}
use emer_gen_z.Drivers.{
  Bound, System, Binding, made, failed, crash, ended, update_switch, announce, bind_with, bind_one,
  bind_all, fee_register, fee_unregister,
}
use emer_gen_z.Drivers.Laws.{AreBound, IsBoundTo}
use emer_gen_z.Drivers.Release.{CanPass, of_this, AreReleased, fee_unregister-AreReleased}
use emer_gen_z.Bridge.Module.{
  GfBridge, ModuleEnv, Called, returned, call_crash, bind_bridges, gf_bridge_init, gf_bridge_exit,
}
use emer_gen_z.Bridge.Module.Laws.{
  bridge_core_at, with_core, gf_bridge_init-AreBound, gf_bridge_init-leaks,
  gf_bridge_init-stays_bound,
}
use emer_gen_z.Drivers.RoundTrip.{AreFreed}
use emer_gen_z.Bridge.Module.RoundTrip.{gf_bridge_exit-undoes}
use emer_gen_z.Examples.{adapter, env-Ticks}
use emer_gen_z.Examples.Devices.{granting, first_device}
use emer_gen_z.Examples.Drivers.{unbound, system, bind_env, bound, bound_system}

abbrev gf_bridge : GfBridge
gf_bridge = record {
  adapters = unbound ∷ [];
  system = system;
  tables = λ p. false;
  nbindings = pos 0;
}

abbrev module_env : ModuleEnv
module_env = record {
  core_alloc = some 131072;
  table_alloc = some 8192;
  down = pos 0;
  bind = bind_env;
}

abbrev state_of : Called → GfBridge
state_of (returned _ m) = m
state_of call_crash = gf_bridge

abbrev loaded : GfBridge
loaded = state_of (gf_bridge_init module_env 500 (pos 0) gf_bridge)

loaded_run : gf_bridge_init module_env 500 (pos 0) gf_bridge ≡ returned (pos 0) loaded
unfolding gf_bridge_init genz_core_structure_create bind_bridges fee_register bind_all bind_one
    bind_with announce update_switch fee_create_outgoing refuse_outgoing peer_of await_my_slot
    time_before post_outgoing ringer genz_register_char_device alloc_and_register alloc_names
    locked_steps claim_minor claim_region find_first_zero_bit find_parent fill_in add_cdev
    create_device create_core_file create_interfaces create_iface_files genz_find_bus_by_pci_slotnum
    find_or_add_bus find_bus add_bus genz_class_getter is_bridge maxindex
loaded_run = refl

loaded_example :
    (n : ℕ) × (loaded.nbindings ≡ pos (suc n))
    × AreBound 131072 500 (pos 0) (suc n) gf_bridge.adapters loaded.adapters
loaded_example =
    gf_bridge_init-AreBound module_env 500 (pos 0) gf_bridge 131072 8192 refl refl loaded refl
      loaded_run

-- the only adapter is in slot 3
leaks_example :
    (m' : GfBridge) × (gf_bridge_init module_env 500 (pos 7) gf_bridge ≡ returned (error enodev) m')
    × (m'.adapters ≡ gf_bridge.adapters)
    × (m'.system.world.cores 131072 ≡ some (bridge_core_at 8192))
    × (m'.tables 8192 ≡ true)
leaks_example =
    gf_bridge_init-leaks module_env 500 (pos 7) gf_bridge 131072 8192 refl refl refl (refl, tt)

-- a second adapter, whose device cannot be had
abbrev second : Bound
second = record unbound { address = 78; adapter = record adapter { slot = 4 } }

abbrev two_bridges : GfBridge
two_bridges = record gf_bridge { adapters = unbound ∷ second ∷ [] }

abbrev short_of_one : ModuleEnv
short_of_one = record module_env {
  bind = record bind_env {
    register_env = λ k. if k == 0 then granting else record granting { chrdev_alloc = false };
  };
}

abbrev binding_bound : Binding → Bound
binding_bound (made b s) = b
binding_bound (failed _ b s) = b
binding_bound crash = unbound

abbrev binding_system : Binding → System
binding_system (made b s) = s
binding_system (failed _ b s) = s
binding_system crash = system

abbrev first_binding : Binding
first_binding =
    bind_one short_of_one.bind 0 131072 500 unbound (with_core 131072 8192 two_bridges).system

abbrev second_binding : Binding
second_binding = bind_one short_of_one.bind 1 131072 500 second (binding_system first_binding)

first_made : first_binding ≡ made (binding_bound first_binding) (binding_system first_binding)
unfolding bind_one bind_with announce update_switch fee_create_outgoing refuse_outgoing peer_of
    await_my_slot time_before post_outgoing ringer genz_register_char_device alloc_and_register
    alloc_names locked_steps claim_minor claim_region find_first_zero_bit find_parent fill_in
    add_cdev create_device create_core_file create_interfaces create_iface_files
    genz_find_bus_by_pci_slotnum find_or_add_bus find_bus add_bus genz_class_getter is_bridge
    maxindex
first_made = refl

second_failed :
    second_binding
    ≡ failed (error enomem) (binding_bound second_binding) (binding_system second_binding)
unfolding bind_one bind_with announce update_switch fee_create_outgoing refuse_outgoing peer_of
    await_my_slot time_before post_outgoing ringer genz_register_char_device alloc_and_register
    alloc_names locked_steps claim_minor claim_region find_first_zero_bit find_parent fill_in
    add_cdev create_device create_core_file create_interfaces create_iface_files
    genz_find_bus_by_pci_slotnum find_or_add_bus find_bus add_bus genz_class_getter is_bridge
    maxindex
second_failed = refl

stays_bound_example :
    (m' : GfBridge) × (gf_bridge_init short_of_one 500 (pos 0) two_bridges
      ≡ returned (error enomem) m')
    × (is_neg (error enomem) ≡ true)
    × (m'.adapters ≡ binding_bound first_binding ∷ binding_bound second_binding ∷ [])
    × IsBoundTo 131072 500 unbound (binding_bound first_binding)
stays_bound_example =
    gf_bridge_init-stays_bound short_of_one 500 (pos 0) two_bridges 131072 8192 refl refl unbound
      (binding_bound first_binding) second (binding_bound second_binding) []
      (binding_system first_binding) (binding_system second_binding) (error enomem) refl refl refl
      refl first_made second_failed

bound-CanPass : CanPass 500 bound_system.world bound
bound-CanPass = of_this first_device refl (λ ret e. cc) (65536, _, refl, refl)

released_example :
    (n : ℕ) × (bs' : List Bound) × (s' : System) × (fee_unregister bind_env
        (pos 0)
        500
        (bound ∷ [])
        bound_system
      ≡ ended (pos n) bs' s')
    × AreReleased 500 n (bound ∷ []) bs'
released_example =
    fee_unregister-AreReleased bind_env 500 (bound ∷ []) bound_system (λ i. env-Ticks)
      (bound-CanPass, tt)

unload_example :
    (m'' : GfBridge) × (gf_bridge_exit bind_env (pos 0) 500 loaded ≡ returned loaded.nbindings m'')
    × AreFreed gf_bridge.adapters m''.adapters
unload_example =
    gf_bridge_exit-undoes module_env bind_env 500 (pos 0) gf_bridge loaded 131072 8192 refl refl
      refl (refl, tt) (λ i. env-Ticks) loaded_run
