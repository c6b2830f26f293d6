-- ===== src/Examples/Devices.antt =====
-- The theorems on the subsystem, at one bridge in slot 3.
use emer_gen_z.Base.{
  ◌⊎◌, nonzero, ◌<◌, ◌≡◌, refl, true, false, none, some, [], ◌∷◌, arith, pos, if◌then◌else◌, ◌==◌,
}
use emer_gen_z.Text.{codes}
use emer_gen_z.Fee.{update}
use emer_gen_z.Subsystem.Class.{genz_class_getter, maxindex}
use emer_gen_z.Subsystem.Bus.{
  BusInstance, BusEnv, bus_name, find_bus, add_bus, find_or_add_bus, genz_find_bus_by_pci_slotnum,
  Devices,
}
use emer_gen_z.Subsystem.Bus.Laws.{AreBuses, genz_find_bus_by_pci_slotnum-AreBuses}
use emer_gen_z.Subsystem.Init.{InitEnv, root, err_root, genz_subsystem_init}
use emer_gen_z.Subsystem.Init.Laws.{stopped, IsStart, genz_subsystem_init-undoes}
use emer_gen_z.Subsystem.Device.Core.{
  CoreHeap, valid, is_bridge, genz_core_structure_create, genz_core_structure_destroy,
}
use emer_gen_z.Subsystem.Device.Core.Laws.{SameHeap, genz_core_structure_destroy-undoes}
use emer_gen_z.Subsystem.Device.Chrdev.{device, Chrdev, Registry}
use emer_gen_z.Subsystem.Device.Register.{
  RegisterEnv, registered, genz_register_char_device, alloc_and_register, alloc_names, locked_steps,
  claim_minor, claim_region, find_first_zero_bit, find_parent, fill_in, add_cdev, create_device,
  create_core_file, create_interfaces, create_iface_files,
}
use emer_gen_z.Subsystem.Device.Register.Minors.{genz_register_char_device-minor}
use emer_gen_z.Subsystem.Device.Register.History.{
  start, succeeded, AreNumbered, History-AreNumbered,
}
use emer_gen_z.Examples.{bridge_core}

abbrev bus_env : BusEnv
bus_env = record { kzalloc = some 12288; device_add = pos 0 }

abbrev old_bus : BusInstance
old_bus = record { address = 8192; id = 7; initname = bus_name 7 }

buses_example : AreBuses (genz_find_bus_by_pci_slotnum bus_env (pos 3) (old_bus ∷ [])).1
buses_example =
    genz_find_bus_by_pci_slotnum-AreBuses bus_env (pos 3) (old_bus ∷ [])
      ((omega arith, refl), tt, tt)

abbrev no_device : Devices
no_device = record { the_one = none; allocated = [] }

abbrev init_env : InitEnv
init_env = record {
  class_register = λ i. pos 0;
  root_device_register = root;
  bus_register = pos 0;
  kset_create_and_add = true;
}

undoes_example :
    IsStart (genz_subsystem_init init_env stopped)
    ⊎ ((genz_subsystem_init init_env stopped ≡ none)
        × (nonzero (init_env.class_register 0) ≡ false)
        × (init_env.root_device_register ≡ err_root)
        × ((nonzero init_env.bus_register ≡ true) ⊎ (init_env.kset_create_and_add ≡ false)))
undoes_example = genz_subsystem_init-undoes init_env

abbrev empty_heap : CoreHeap
empty_heap = record { cores = λ p. none; tables = λ p. false }

core_example :
    (h1 h2 : CoreHeap) × (genz_core_structure_create (some 65536) (some 8192) 0x14 empty_heap
      ≡ some (valid 65536, h1))
    × (genz_core_structure_destroy (some 65536) h1 ≡ some h2)
    × SameHeap h2 empty_heap
unfolding is_bridge
core_example =
    genz_core_structure_destroy-undoes 0x14 empty_heap 65536 refl 8192 refl
      (λ e. absurd (omega arith)) refl

abbrev one_core : CoreHeap
one_core = record {
  cores = λ p. if p == 65536 then some bridge_core else none;
  tables = λ p. p == 8192;
}

abbrev core_gone : CoreHeap
core_gone = record {
  cores = update one_core.cores 65536 none;
  tables = update one_core.tables 8192 false;
}

-- a kernel that grants all
abbrev pub granting : RegisterEnv
granting = record {
  chrdev_alloc = true;
  iface_attrs_alloc = true;
  name_alloc = λ i. true;
  register_chrdev_region = λ major minor. pos 0;
  alloc_chrdev_region = λ minor. (pos 0, 240);
  bus = bus_env;
  kobject_set_name = pos 0;
  cdev_add = pos 0;
  device_create = device 16384;
  device_create_bin_file = pos 0;
  kobject_create_and_add = true;
  sysfs_create_bin_file = λ i. pos 0;
}

abbrev pub empty_registry : Registry
empty_registry = record {
  bridge_minor_bitmap = λ m. false;
  bridge_major = 0;
  buses = [];
  live_minors = [];
  blocks = 0;
}

abbrev pub first_device : Chrdev
first_device = record {
  instance_ = pos 3;
  cclass = some (codes "DiscreteBridge");
  file_private_data = 77;
  genz_class = some 20;
  major = 240;
  minor = 0;
  mode = 0x1b6;
  parent = some 12288;
  this_device = device 16384;
  core_file = true;
  interfaces = some 2;
}

abbrev pub after_first : Registry
after_first = record {
  bridge_minor_bitmap = update (λ m. false) 0 true;
  bridge_major = 240;
  buses = (record { address = 12288; id = 3; initname = bus_name 3 }) ∷ [];
  live_minors = 0 ∷ [];
  blocks = 4;
}

first_run :
    genz_register_char_device granting bridge_core 77 (pos 3) empty_registry
    ≡ registered first_device after_first
unfolding genz_register_char_device alloc_and_register alloc_names locked_steps claim_minor
    claim_region find_first_zero_bit find_parent fill_in add_cdev create_device create_core_file
    create_interfaces create_iface_files genz_find_bus_by_pci_slotnum find_or_add_bus find_bus
    add_bus genz_class_getter is_bridge maxindex
first_run = refl

minor_example :
    (0 < 14)
    × (false ≡ false)
    × (after_first.bridge_minor_bitmap ≡ update empty_registry.bridge_minor_bitmap 0 true)
minor_example =
    genz_register_char_device-minor granting bridge_core 77 (pos 3) empty_registry first_device
      after_first first_run

history_example : AreNumbered (first_device ∷ []) after_first
history_example = History-AreNumbered (first_device ∷ []) after_first (
    succeeded granting bridge_core 77 (pos 3) first_device after_first (start empty_registry)
      first_run)
