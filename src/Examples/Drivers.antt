-- ===== src/Examples/Drivers.antt =====
-- The theorems on the binding of drivers, at one adapter in slot 3.
use emer_gen_z.Base.{◌+◌, ◌*◌, ◌≡◌, refl, false, some, [], ◌∷◌, pos, error, enomem}
use emer_gen_z.Text.{codes}
use emer_gen_z.Fee.{World, update}
use emer_gen_z.Outgoing.{
  fee_create_outgoing, refuse_outgoing, peer_of, await_my_slot, time_before, post_outgoing, ringer,
  fill_slot,
}
use emer_gen_z.Subsystem.Class.{genz_class_getter, maxindex}
use emer_gen_z.Subsystem.Bus.{find_bus, add_bus, find_or_add_bus, genz_find_bus_by_pci_slotnum}
use emer_gen_z.Subsystem.Device.Core.{is_bridge}
use emer_gen_z.Subsystem.Device.Register.{
  genz_register_char_device, alloc_and_register, alloc_names, locked_steps, claim_minor,
  claim_region, find_first_zero_bit, find_parent, fill_in, add_cdev, create_device,
  create_core_file, create_interfaces, create_iface_files,
}
use emer_gen_z.Drivers.{
  no_chrdev, chrdev, err_chrdev, Bound, System, BindEnv, update_switch, put_cclass, failed,
  announce, bind_with, bind_one, ended, crashed_bindings, bind_all, fee_register, fee_unregister,
}
use emer_gen_z.Drivers.Laws.{AreBound, fee_register-AreBound, fee_unregister-crashes}
use emer_gen_z.Examples.{adapter, bridge_core, world_with, env}
use emer_gen_z.Examples.Devices.{granting, empty_registry, first_device, after_first}

abbrev pub unbound : Bound
unbound = record { address = 77; adapter = adapter; genz_chrdev = no_chrdev }

abbrev pub system : System
system = record { world = world_with [] 0; registry = empty_registry }

abbrev pub bind_env : BindEnv
bind_env = record { register_env = λ k. granting; send_env = λ k. env }

-- after the binding the adapter has the core structure, the device, and asked the server for a dump
abbrev pub bound : Bound
bound = record {
  address = 77;
  adapter = record adapter { core = some 65536; doorbell = (5 * 65536 + 2) ∷ [] };
  genz_chrdev = chrdev first_device 500;
}

abbrev pub named : World
named =
    put_cclass (codes "DiscreteBridge") 65536 bridge_core (record adapter { core = some 65536 })
      (world_with [] 0)

abbrev pub bound_system : System
bound_system = record {
  world = record named {
    mem = update named.mem 4608 (fill_slot (codes "dump") 5 (named.mem 4608));
    longest = 105;
  };
  registry = after_first;
}

register_run :
    fee_register bind_env (pos 0) 65536 500 (pos 0) (unbound ∷ []) system
    ≡ ended (pos 1) (bound ∷ []) bound_system
unfolding fee_register bind_all bind_one bind_with announce update_switch fee_create_outgoing
    refuse_outgoing peer_of await_my_slot time_before post_outgoing ringer genz_register_char_device
    alloc_and_register alloc_names locked_steps claim_minor claim_region find_first_zero_bit
    find_parent fill_in add_cdev create_device create_core_file create_interfaces create_iface_files
    genz_find_bus_by_pci_slotnum find_or_add_bus find_bus add_bus genz_class_getter is_bridge
    maxindex
register_run = refl

register_example : AreBound 65536 500 (pos 0) 1 (unbound ∷ []) (bound ∷ [])
register_example =
    fee_register-AreBound bind_env 65536 500 (pos 0) (unbound ∷ []) system 1 (bound ∷ [])
      bound_system register_run

-- the device's memory cannot be had
abbrev pub short : BindEnv
short = record { register_env = λ k. record granting { chrdev_alloc = false }; send_env = λ k. env }

abbrev unusable : Bound
unusable = record unbound { genz_chrdev = err_chrdev (error enomem) }

short_run : bind_one short 0 65536 500 unbound system ≡ failed (error enomem) unusable system
unfolding bind_one bind_with genz_register_char_device alloc_and_register is_bridge
short_run = refl

crashes_example : fee_unregister bind_env (pos 0) 600 (unusable ∷ []) system ≡ crashed_bindings
crashes_example =
    fee_unregister-crashes short bind_env 0 65536 500 600 unbound unusable [] system system system
      (error enomem) short_run
