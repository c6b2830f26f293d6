-- ===== src/Subsystem/Device/Chrdev.antt =====
-- The data of `genz_register_char_device`, and `genz_unregister_char_device`.
use emer_gen_z.Base.{ℕ, ◌+◌, ◌-◌, Bool, Option, none, some, List, [], ◌∷◌, ℤ}
use emer_gen_z.Text.{codes}
use emer_gen_z.Subsystem.Bus.{BusInstance}

-- `genz_component_class_str`, without the NULL
abbrev pub genz_component_class_str : List (List ℕ)
genz_component_class_str =
    codes "BAD HACKER. BAD!"
    ∷ codes "MemoryP2PCore"
    ∷ codes "MemoryExplicitOpClass"
    ∷ codes "IntegratedSwitch"
    ∷ codes "EnclosureExpansionSwitch"
    ∷ codes "FabricSwitch"
    ∷ codes "Processor"
    ∷ codes "Processor_NB"
    ∷ codes "Accelerator_NB_NC"
    ∷ codes "Accelerator_NB"
    ∷ codes "Accelerator_NC"
    ∷ codes "Accelerator"
    ∷ codes "IO_NB_NC"
    ∷ codes "IO_NB"
    ∷ codes "IO_NC"
    ∷ codes "IO"
    ∷ codes "BlockStorage"
    ∷ codes "BlockStorage_NB"
    ∷ codes "TransparentRouter"
    ∷ codes "MultiClass"
    ∷ codes "DiscreteBridge"
    ∷ codes "IntegratedBridge"
    ∷ codes "ComplianceTestBoard"
    ∷ codes "LPH"
    ∷ []

-- `this_device`: NULL, a device that `device_create` made, or its `ERR_PTR`
pub data DevicePtr : Type 0 where
  null : DevicePtr
  device : ℕ → DevicePtr
  err_device : ℤ → DevicePtr

-- `struct genz_char_device`. The attributes of the files hold no state here: `core_file` tells
-- whether the file "core" exists, `interfaces` how many files the directory has.
pub record Chrdev : Type 0 where
  pub instance_ : ℤ
  pub cclass : Option (List ℕ)
  pub file_private_data : ℕ
  pub genz_class : Option ℕ
  pub major : ℕ
  pub minor : ℕ
  pub mode : ℕ
  pub parent : Option ℕ
  pub this_device : DevicePtr
  pub core_file : Bool
  pub interfaces : Option ℕ

-- The bitmap of the minor numbers, the major number (0 before the first registration), the buses, the
-- minor numbers that `cdev_add` made live, and the number of memory blocks that registrations hold.
pub record Registry : Type 0 where
  pub bridge_minor_bitmap : ℕ → Bool
  pub bridge_major : ℕ
  pub buses : List BusInstance
  pub live_minors : List ℕ
  pub blocks : ℕ

-- `kfree` of `n` blocks
abbrev pub kfree : ℕ → Registry → Registry
kfree n r = record r { blocks = r.blocks - n }

-- the names of the interface files and their attributes, where the directory was made
unfoldable pub remove_interfaces : (max_interface : ℕ) → Chrdev → Registry → Registry
remove_interfaces max_interface d r = elim d.interfaces [
  | none ↦ r
  | some _ ↦ kfree (max_interface + 1) r
]

-- `none` where an `ERR_PTR` is followed, by `device_remove_bin_file`; a NULL it passes over
unfoldable pub genz_unregister_char_device :
    (max_interface : ℕ) → Chrdev → Registry → Option Registry
genz_unregister_char_device max_interface d r = elim d.this_device [
  | err_device _ ↦ none
  | null ↦ some (kfree 1 (remove_interfaces max_interface d r))
  | device _ ↦ some (kfree 1 (remove_interfaces max_interface d r))
]
