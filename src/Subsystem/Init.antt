-- ===== src/Subsystem/Init.antt =====
-- genz_bus.c: the start of the subsystem, which undoes its steps where a later one fails, and its end.
pub mod Laws
use emer_gen_z.Base.{
  ℕ, zero, suc, ◌+◌, ◌-◌, Bool, true, false, Option, none, some, List, [], ◌∷◌, if◌then◌else◌, ℤ,
  pos, negsuc, nonzero, error, enomem,
}
use emer_gen_z.Subsystem.Class.{Classes, genz_classes_init, genz_classes_destroy}
use emer_gen_z.Subsystem.Bus.{BusInstance}

-- `genz_root_device`: NULL, a device, or the `ERR_PTR` with which `root_device_register` fails
pub data RootPtr : Type 0 where
  no_root : RootPtr
  root : RootPtr
  err_root : RootPtr

-- What the subsystem holds of the kernel: the classes, the root device, and whether the bus type and
-- the fabrics directory are there; and the buses.
pub record Subsystem : Type 0 where
  pub classes : Classes
  pub root_device : RootPtr
  pub bus_type : Bool
  pub fabrics_kset : Bool
  pub buses : List BusInstance

-- what the kernel answers on the way
pub record InitEnv : Type 0 where
  pub class_register : ℕ → ℤ
  pub root_device_register : RootPtr
  pub bus_register : ℤ
  pub kset_create_and_add : Bool

abbrev pub with_classes : Classes → Subsystem → Subsystem
with_classes cs s = record s { classes = cs }

abbrev pub classes_destroy : Subsystem → Subsystem
classes_destroy s = record s { classes = genz_classes_destroy s.classes }

-- `root_device_unregister`, which follows its argument; `none` is a crash
abbrev pub root_device_unregister : Subsystem → Option Subsystem
root_device_unregister s = elim s.root_device [
  | no_root ↦ none
  | err_root ↦ none
  | root ↦ some (record s { root_device = no_root })
]

-- the end of a ladder: the root device and the classes go, and `ret` is returned
abbrev pub undo_root : ℤ → Subsystem → Option (ℤ × Subsystem)
undo_root ret s = elim (root_device_unregister s) [
  | none ↦ none
  | some s' ↦ some (ret, classes_destroy s')
]

unfoldable pub add_fabrics : InitEnv → Subsystem → Option (ℤ × Subsystem)
add_fabrics env s =
    if env.kset_create_and_add
    then some (pos 0, record s { fabrics_kset = true })
    else undo_root (error enomem) (record s { bus_type = false })

unfoldable pub add_bus_type : InitEnv → Subsystem → Option (ℤ × Subsystem)
add_bus_type env s =
    if nonzero env.bus_register
    then undo_root env.bus_register s
    else add_fabrics env (record s { bus_type = true })

-- The test is for NULL only, and where it holds `ret` is still the 0 of `genz_classes_init`.
unfoldable pub add_root_device : InitEnv → Subsystem → Option (ℤ × Subsystem)
add_root_device env s = elim env.root_device_register [
  | no_root ↦ some (pos 0, classes_destroy s)
  | root ↦ add_bus_type env (record s { root_device = root })
  | err_root ↦ add_bus_type env (record s { root_device = err_root })
]

unfoldable pub genz_subsystem_init : InitEnv → Subsystem → Option (ℤ × Subsystem)
genz_subsystem_init env s =
    let (ret, cs) = genz_classes_init env.class_register s.classes in
    if nonzero ret then some (ret, with_classes cs s) else add_root_device env (with_classes cs s)

-- The buses are deleted and freed, and then the rest goes.
unfoldable pub genz_subsystem_exit : Subsystem → Option Subsystem
genz_subsystem_exit s =
    elim (root_device_unregister (record s { buses = []; fabrics_kset = false })) [
      | none ↦ none
      | some s' ↦ some (classes_destroy (record s' { bus_type = false }))
    ]
