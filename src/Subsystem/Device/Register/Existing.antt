-- ===== src/Subsystem/Device/Register/Existing.antt =====
-- A device that was registered is not the error of `device_create`.
use emer_gen_z.Base.{
  ℕ, zero, suc, ◌+◌, ◌==◌, ◌||◌, ◌≢◌, inl, inr, none, some, ltb, ℤ, nonzero, arith, if-elim,
}
use emer_gen_z.Fee.{Core}
use emer_gen_z.Subsystem.Device.Core.{is_bridge}
use emer_gen_z.Subsystem.Device.Chrdev.{err_device, Chrdev, Registry, genz_unregister_char_device}
use emer_gen_z.Subsystem.Device.Register.{
  RegisterEnv, Step, next, up_and_out, then_do, create_device, create_core_file, create_iface_files,
  create_interfaces, locked_steps, zeroed_chrdev, Registered, registered, refused, crashed, finish,
  kzalloc, alloc_names, alloc_and_register, genz_register_char_device,
}
use emer_gen_z.Subsystem.Device.Register.Steps.{DevicePtr-cases}

abbrev pub Exists : Chrdev → Type 0
Exists d = (ret : ℤ) → d.this_device ≢ err_device ret

-- the device where the steps go on
abbrev GoesOn : Step → Type 0
GoesOn (next d r) = Exists d
GoesOn (up_and_out ret d r) = Unit

then_do-GoesOn :
    (s : Step) (k : Chrdev → Registry → Step)
    → GoesOn s
    → ((d : Chrdev) (r : Registry) → Exists d → GoesOn (k d r))
    → GoesOn (then_do s k)
then_do-GoesOn (next d r) k there step = step d r there
then_do-GoesOn (up_and_out ret d r) k there step = tt

-- whatever the step before made
create-GoesOn :
    (s : Step) (k : Chrdev → Registry → Step)
    → ((d : Chrdev) (r : Registry) → GoesOn (k d r))
    → GoesOn (then_do s k)
create-GoesOn (next d r) k step = step d r
create-GoesOn (up_and_out ret d r) k step = tt

create_device-GoesOn :
    (env : RegisterEnv) (d : Chrdev) (r : Registry) → GoesOn (create_device env d r)
unfolding create_device
create_device-GoesOn env d r = elim (DevicePtr-cases env.device_create) [
  | inl (ret, failed) ↦ rw failed tt
  | inr (inl nothing) ↦ rw nothing (λ ret e. ground (arith, e, nothing))
  | inr (inr (p, made)) ↦ rw made (λ ret e. ground (arith, e, made))
]

create_core_file-GoesOn :
    (env : RegisterEnv) (d : Chrdev) (r : Registry) → Exists d → GoesOn (create_core_file env d r)
unfolding create_core_file
create_core_file-GoesOn env d r there =
    if-elim GoesOn (nonzero env.device_create_bin_file) (λ failed. tt) (λ worked. there)

create_iface_files-GoesOn :
    (env : RegisterEnv) (left i : ℕ) (d : Chrdev) (r : Registry)
    → Exists d
    → GoesOn (create_iface_files env left i d r)
unfolding create_iface_files
create_iface_files-GoesOn env zero i d r there = there
create_iface_files-GoesOn env (suc left) i d r there =
    if-elim GoesOn (nonzero (env.sysfs_create_bin_file i)) (λ failed. tt)
      (λ worked.
        create_iface_files-GoesOn env left (i + 1) (record d { interfaces = some (i + 1) }) r there)

create_interfaces-GoesOn :
    (env : RegisterEnv) (n : ℕ) (d : Chrdev) (r : Registry)
    → Exists d
    → GoesOn (create_interfaces env n d r)
unfolding create_interfaces
create_interfaces-GoesOn env n d r there =
    if-elim GoesOn env.kobject_create_and_add
      (λ made. create_iface_files-GoesOn env n 0 (record d { interfaces = some 0 }) r there)
      (λ failed. tt)

locked_steps-GoesOn :
    (env : RegisterEnv) (core : Core) (f : ℕ) (slot : ℤ) (d : Chrdev) (r : Registry)
    → GoesOn (locked_steps env core f slot d r)
unfolding locked_steps
locked_steps-GoesOn env core f slot d r =
    then_do-GoesOn _ (create_interfaces env core.max_interface)
      (then_do-GoesOn _ (create_core_file env)
        (create-GoesOn _ (create_device env) (create_device-GoesOn env))
        (create_core_file-GoesOn env))
      (create_interfaces-GoesOn env core.max_interface)

-- the device where the registration succeeds
abbrev pub IsExisting : Registered → Type 0
IsExisting (registered d r) = Exists d
IsExisting (refused ret r) = Unit
IsExisting crashed = Unit

finish-IsExisting : (n : ℕ) (s : Step) → GoesOn s → IsExisting (finish n s)
finish-IsExisting n (next d r) there = there
finish-IsExisting n (up_and_out ret d r) there =
    elim (genz_unregister_char_device n d r)
      as (λ x. IsExisting (elim x [ none ↦ crashed | some r' ↦ refused ret r' ])) [
        | none ↦ tt
        | some r' ↦ tt
      ]

alloc_and_register-IsExisting :
    (env : RegisterEnv) (core : Core) (f : ℕ) (slot : ℤ) (r : Registry)
    → IsExisting (alloc_and_register env core f slot r)
unfolding alloc_and_register
alloc_and_register-IsExisting env core f slot r =
    let names = alloc_names env.name_alloc core.max_interface 0 (kzalloc (kzalloc r)) in
    if-elim IsExisting env.chrdev_alloc
      (λ _.
        if-elim IsExisting env.iface_attrs_alloc
          (λ _.
            if-elim IsExisting names.0
              (λ _.
                finish-IsExisting core.max_interface _
                  (locked_steps-GoesOn env core f slot zeroed_chrdev names.1))
              (λ _. tt))
          (λ _. tt))
      (λ _. tt)

-- A device whose registration succeeds is not the error of `device_create`.
pub genz_register_char_device-IsExisting :
    (env : RegisterEnv) (core : Core) (f : ℕ) (slot : ℤ) (r : Registry)
    → IsExisting (genz_register_char_device env core f slot r)
unfolding genz_register_char_device
genz_register_char_device-IsExisting env core f slot r =
    if-elim IsExisting (is_bridge core.cce)
      (λ _.
        if-elim IsExisting ((core.max_interface == 0) || ltb 1024 core.max_interface) (λ _. tt)
          (λ _.
            if-elim IsExisting (ltb core.max_ctl 8192) (λ _. tt)
              (λ _. alloc_and_register-IsExisting env core f slot r)))
      (λ _. tt)
