-- ===== src/Subsystem/Device/Register.antt =====
-- `genz_register_char_device`: the checks, the memory, and the steps under the mutex.
pub mod Steps
pub mod Existing
pub mod Minors
pub mod History
use Prim.Native.Nat.{bit_and}
use emer_gen_z.Base.{
  ℕ, zero, suc, ◌+◌, ◌-◌, ◌==◌, Bool, true, false, ◌||◌, Option, none, some, List, [], ◌∷◌, ltb,
  leb, if◌then◌else◌, get_elem?, ℤ, pos, nonzero, error, enomem, enodev, einval, edom, ebadf,
}
use emer_gen_z.Fee.{Core, update}
use emer_gen_z.Subsystem.Class.{genz_class_getter}
use emer_gen_z.Subsystem.Bus.{BusEnv, genz_find_bus_by_pci_slotnum}
use emer_gen_z.Subsystem.Device.Core.{is_bridge}
use emer_gen_z.Subsystem.Device.Chrdev.{
  genz_component_class_str, DevicePtr, null, device, err_device, Chrdev, Registry, kfree,
  genz_unregister_char_device,
}

-- What the kernel answers on the way. `alloc_chrdev_region` returns an error, or 0 and a major number.
pub record RegisterEnv : Type 0 where
  pub chrdev_alloc : Bool
  pub iface_attrs_alloc : Bool
  pub name_alloc : ℕ → Bool
  pub register_chrdev_region : (major minor : ℕ) → ℤ
  pub alloc_chrdev_region : (minor : ℕ) → ℤ × ℕ
  pub bus : BusEnv
  pub kobject_set_name : ℤ
  pub cdev_add : ℤ
  pub device_create : DevicePtr
  pub device_create_bin_file : ℤ
  pub kobject_create_and_add : Bool
  pub sysfs_create_bin_file : ℕ → ℤ

-- a registered device, a refusal, or a crash
pub data Registered : Type 0 where
  registered : Chrdev → Registry → Registered
  refused : ℤ → Registry → Registered
  crashed : Registered

abbrev pub genz_minorbits : ℕ
genz_minorbits = 14

abbrev pub kzalloc : Registry → Registry
kzalloc r = record r { blocks = r.blocks + 1 }

-- the names of the interface files; where one cannot be had, those before it are given back
unfoldable pub alloc_names : (name_alloc : ℕ → Bool) → (left i : ℕ) → Registry → Bool × Registry
alloc_names name_alloc zero i r = (true, r)
alloc_names name_alloc (suc left) i r =
    let rest = alloc_names name_alloc left (i + 1) (kzalloc r) in
    if name_alloc i then rest else (false, kfree i r)

-- `find_first_zero_bit` among the next `left` bits
unfoldable pub find_first_zero_bit : (bitmap : ℕ → Bool) → (left i : ℕ) → ℕ
find_first_zero_bit bitmap zero i = i
find_first_zero_bit bitmap (suc left) i =
    let rest = find_first_zero_bit bitmap left (i + 1) in if bitmap i then rest else i

-- the steps up to `up_and_out`: one goes on, or it ends them with an error
pub data Step : Type 0 where
  next : Chrdev → Registry → Step
  up_and_out : ℤ → Chrdev → Registry → Step

abbrev pub then_do : Step → (Chrdev → Registry → Step) → Step
then_do (next d r) k = k d r
then_do (up_and_out ret d r) k = up_and_out ret d r

-- `if (ret) goto up_and_out;`
abbrev pub check : ℤ → Chrdev → Registry → Step
check ret d r = if nonzero ret then up_and_out ret d r else next d r

-- the region of the device number, and with the first one the major number
unfoldable pub claim_region : RegisterEnv → (minor : ℕ) → Chrdev → Registry → Step
claim_region env minor d r =
    if r.bridge_major == 0
    then (let (ret, major) = env.alloc_chrdev_region minor in
        if nonzero ret then up_and_out ret d r else next d (record r { bridge_major = major }))
    else check (env.register_chrdev_region r.bridge_major minor) d r

unfoldable pub claim_minor : RegisterEnv → Chrdev → Registry → Step
claim_minor env d r =
    let minor = find_first_zero_bit r.bridge_minor_bitmap genz_minorbits 0 in
    if leb genz_minorbits minor
    then up_and_out (error edom) d r
    else then_do (claim_region env minor d r) (λ d r.
      next (record d { major = r.bridge_major; minor = minor })
        (record r { bridge_minor_bitmap = update r.bridge_minor_bitmap minor true }))

unfoldable pub find_parent : RegisterEnv → (slot : ℤ) → Chrdev → Registry → Step
find_parent env slot d r =
    let (parent, buses) = genz_find_bus_by_pci_slotnum env.bus slot r.buses in
    elim parent [
      | none ↦ up_and_out (error enodev) d (record r { buses = buses })
      | some p ↦ next (record d { parent = some p }) (record r { buses = buses })
    ]

unfoldable pub fill_in : (cce file_private_data : ℕ) → (slot : ℤ) → Chrdev → Registry → Step
fill_in cce file_private_data slot d r =
    next
      (record d {
        file_private_data = file_private_data;
        genz_class = genz_class_getter cce;
        cclass = get_elem? genz_component_class_str cce;
        mode = 0x1b6;
        instance_ = slot;
      })
      r

unfoldable pub add_cdev : RegisterEnv → Chrdev → Registry → Step
add_cdev env d r = then_do (check env.kobject_set_name d r) (λ d r.
    if nonzero env.cdev_add
    then up_and_out env.cdev_add d r
    else next d (record r { live_minors = d.minor ∷ r.live_minors }))

unfoldable pub create_device : RegisterEnv → Chrdev → Registry → Step
create_device env d r =
    let d' : Chrdev = record d { this_device = env.device_create } in
    elim env.device_create [
      | err_device ret ↦ up_and_out ret d' r
      | null ↦ next d' r
      | device _ ↦ next d' r
    ]

unfoldable pub create_core_file : RegisterEnv → Chrdev → Registry → Step
create_core_file env d r =
    if nonzero env.device_create_bin_file
    then up_and_out env.device_create_bin_file d r
    else next (record d { core_file = true }) r

-- the files of the interfaces from `i` on
unfoldable pub create_iface_files : RegisterEnv → (left i : ℕ) → Chrdev → Registry → Step
create_iface_files env zero i d r = next d r
create_iface_files env (suc left) i d r =
    let rest = create_iface_files env left (i + 1) (record d { interfaces = some (i + 1) }) r in
    if nonzero (env.sysfs_create_bin_file i)
    then up_and_out (env.sysfs_create_bin_file i) d r
    else rest

unfoldable pub create_interfaces : RegisterEnv → (max_interface : ℕ) → Chrdev → Registry → Step
create_interfaces env max_interface d r =
    if env.kobject_create_and_add
    then create_iface_files env max_interface 0 (record d { interfaces = some 0 }) r
    else up_and_out (error ebadf) d r

-- between `mutex_lock` and `mutex_unlock`
unfoldable pub locked_steps :
    RegisterEnv → Core → (file_private_data : ℕ) → (slot : ℤ) → Chrdev → Registry → Step
locked_steps env core file_private_data slot d r =
    let step = then_do (claim_minor env d r) (find_parent env slot) in
    let step = then_do step (fill_in core.cce file_private_data slot) in
    let step = then_do step (add_cdev env) in
    let step = then_do step (create_device env) in
    let step = then_do step (create_core_file env) in
    then_do step (create_interfaces env core.max_interface)

-- a structure as `kzalloc` gives it
abbrev pub zeroed_chrdev : Chrdev
zeroed_chrdev = record {
  instance_ = pos 0;
  cclass = none;
  file_private_data = 0;
  genz_class = none;
  major = 0;
  minor = 0;
  mode = 0;
  parent = none;
  this_device = null;
  core_file = false;
  interfaces = none;
}

-- behind `mutex_unlock`
abbrev pub finish : (max_interface : ℕ) → Step → Registered
finish max_interface (next d r) = registered d r
finish max_interface (up_and_out ret d r) = elim (genz_unregister_char_device max_interface d r) [
  | none ↦ crashed
  | some r' ↦ refused ret r'
]

unfoldable pub alloc_and_register :
    RegisterEnv → Core → (file_private_data : ℕ) → (slot : ℤ) → Registry → Registered
alloc_and_register env core file_private_data slot r =
    if env.chrdev_alloc
    then if env.iface_attrs_alloc
      then (let (ok, r') = alloc_names env.name_alloc core.max_interface 0 (kzalloc (kzalloc r)) in
          if ok
          then finish core.max_interface
              (locked_steps env core file_private_data slot zeroed_chrdev r')
          else refused (error enomem) r')
      else refused (error enomem) (kzalloc r)
    else refused (error enomem) r

unfoldable pub genz_register_char_device :
    RegisterEnv → Core → (file_private_data : ℕ) → (slot : ℤ) → Registry → Registered
genz_register_char_device env core file_private_data slot r =
    if is_bridge core.cce
    then if (core.max_interface == 0) || ltb 1024 core.max_interface
      then refused (error einval) r
      else if ltb core.max_ctl 8192
      then refused (error einval) r
      else alloc_and_register env core file_private_data slot r
    else refused (error edom) r
