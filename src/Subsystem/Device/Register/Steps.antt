-- ===== src/Subsystem/Device/Register/Steps.antt =====
-- What the steps of a registration do to the minor numbers.
use emer_gen_z.Base.{
  ℕ, zero, suc, ◌+◌, ◌<◌, ◌≡◌, refl, ◌⊎◌, inl, inr, ◌==◌, Bool, true, false, some, leb, ℤ, nonzero,
  error, edom, arith, Bool-cases, Option-cases, ap,
}
use emer_gen_z.Fee.{update}
use emer_gen_z.Subsystem.Bus.{genz_find_bus_by_pci_slotnum}
use emer_gen_z.Subsystem.Device.Chrdev.{DevicePtr, null, device, err_device, Chrdev, Registry}
use emer_gen_z.Subsystem.Device.Register.{
  RegisterEnv, genz_minorbits, find_first_zero_bit, Step, next, up_and_out, then_do, claim_region,
  claim_minor, find_parent, add_cdev, create_device, create_core_file, create_iface_files,
  create_interfaces,
}

-- the minor number and the bitmap after a step
abbrev pub Keeps : ℕ → (ℕ → Bool) → Step → Type 0
Keeps m b (next d r) = (d.minor ≡ m) × (r.bridge_minor_bitmap ≡ b)
Keeps m b (up_and_out ret d r) = r.bridge_minor_bitmap ≡ b

pub then_do-Keeps :
    (m : ℕ) (b : ℕ → Bool) (s : Step) (k : Chrdev → Registry → Step)
    → Keeps m b s
    → ((d : Chrdev) (r : Registry) → d.minor ≡ m → r.bridge_minor_bitmap ≡ b → Keeps m b (k d r))
    → Keeps m b (then_do s k)
then_do-Keeps m b (next d r) k h step = step d r h.0 h.1
then_do-Keeps m b (up_and_out ret d r) k h step = h

pub DevicePtr-cases :
    (p : DevicePtr) → ((ret : ℤ) × (p ≡ err_device ret)) ⊎ ((p ≡ null) ⊎ ((q : ℕ) × (p ≡ device q)))
DevicePtr-cases null = inr (inl refl)
DevicePtr-cases (device q) = inr (inr (q, refl))
DevicePtr-cases (err_device ret) = inl (ret, refl)

module _ (m : ℕ) (b : ℕ → Bool) (env : RegisterEnv) (d : Chrdev) (r : Registry) (same : d.minor ≡ m)
    (kept : r.bridge_minor_bitmap ≡ b) where
  pub find_parent-Keeps : (slot : ℤ) → Keeps m b (find_parent env slot d r)
  unfolding find_parent
  find_parent-Keeps slot =
      elim (Option-cases (genz_find_bus_by_pci_slotnum env.bus slot r.buses).0) [
        | inl no_bus ↦ rw (no_bus, Keeps) kept
        | inr (p, bus) ↦ rw (bus, Keeps) (same, kept)
      ]

  pub add_cdev-Keeps : Keeps m b (add_cdev env d r)
  unfolding add_cdev
  add_cdev-Keeps = elim (Bool-cases (nonzero env.kobject_set_name)) [
    | inl failed ↦ rw failed kept
    | inr named ↦ rw named (elim (Bool-cases (nonzero env.cdev_add)) [
      | inl failed ↦ rw failed kept
      | inr worked ↦ rw worked (same, kept)
    ])
  ]

  pub create_device-Keeps : Keeps m b (create_device env d r)
  unfolding create_device
  create_device-Keeps = elim (DevicePtr-cases env.device_create) [
    | inl (ret, failed) ↦ rw failed kept
    | inr (inl nothing) ↦ rw nothing (same, kept)
    | inr (inr (p, made)) ↦ rw made (same, kept)
  ]

  pub create_core_file-Keeps : Keeps m b (create_core_file env d r)
  unfolding create_core_file
  create_core_file-Keeps = elim (Bool-cases (nonzero env.device_create_bin_file)) [
    | inl failed ↦ rw failed kept
    | inr worked ↦ rw worked (same, kept)
  ]

create_iface_files-Keeps :
    (m : ℕ) (b : ℕ → Bool) (env : RegisterEnv) (left i : ℕ) (d : Chrdev) (r : Registry)
    → d.minor ≡ m
    → r.bridge_minor_bitmap ≡ b
    → Keeps m b (create_iface_files env left i d r)
unfolding create_iface_files
create_iface_files-Keeps m b env zero i d r same kept = (same, kept)
create_iface_files-Keeps m b env (suc left) i d r same kept =
    elim (Bool-cases (nonzero (env.sysfs_create_bin_file i))) [
      | inl failed ↦ rw failed kept
      | inr worked ↦ rw worked (
          create_iface_files-Keeps m b env left (i + 1) (record d { interfaces = some (i + 1) }) r
            same kept)
    ]

pub create_interfaces-Keeps :
    (m : ℕ) (b : ℕ → Bool) (env : RegisterEnv) (n : ℕ) (d : Chrdev) (r : Registry)
    → d.minor ≡ m
    → r.bridge_minor_bitmap ≡ b
    → Keeps m b (create_interfaces env n d r)
unfolding create_interfaces create_iface_files
create_interfaces-Keeps m b env n d r same kept = elim (Bool-cases env.kobject_create_and_add) [
  | inl made ↦
      rw made (create_iface_files-Keeps m b env n 0 (record d { interfaces = some 0 }) r same kept)
  | inr failed ↦ rw failed kept
]

-- The search finds a clear bit, or there is none.
find_first_zero_bit-clear :
    (bitmap : ℕ → Bool) (left i : ℕ)
    → find_first_zero_bit bitmap left i < i + left
    → bitmap (find_first_zero_bit bitmap left i) ≡ false
unfolding find_first_zero_bit
find_first_zero_bit-clear bitmap zero i h = absurd (omega arith)
find_first_zero_bit-clear bitmap (suc left) i h = elim (Bool-cases (bitmap i)) [
  | inl used ↦
      rw used (find_first_zero_bit-clear bitmap left (i + 1) (let h' = rw used at h in omega arith))
  | inr clear ↦ rw clear clear
]

-- the device number of `claim_minor`: a clear bit, which it sets, or an error with the bitmap as it was
pub data Claim (r : Registry) (s : Step) : Type 0 where
  claimed :
      (d : Chrdev) (r' : Registry)
      → d.minor < genz_minorbits
      → r.bridge_minor_bitmap d.minor ≡ false
      → r'.bridge_minor_bitmap ≡ update r.bridge_minor_bitmap d.minor true
      → s ≡ next d r'
      → Claim r s
  exhausted :
      (ret : ℤ) (d : Chrdev) (r' : Registry)
      → r'.bridge_minor_bitmap ≡ r.bridge_minor_bitmap
      → s ≡ up_and_out ret d r'
      → Claim r s

claim_region-cases :
    (env : RegisterEnv) (m : ℕ) (d : Chrdev) (r : Registry)
    → ((ret : ℤ) × (claim_region env m d r ≡ up_and_out ret d r))
      ⊎ ((r' : Registry) × (r'.bridge_minor_bitmap ≡ r.bridge_minor_bitmap)
          × (claim_region env m d r ≡ next d r'))
unfolding claim_region
claim_region-cases env m d r = elim (Bool-cases (r.bridge_major == 0)) [
  | inl first ↦ elim (Bool-cases (nonzero (env.alloc_chrdev_region m).0)) [
    | inl failed ↦ inl ((env.alloc_chrdev_region m).0, rw first (rw failed refl))
    | inr worked ↦
        inr (
          record r { bridge_major = (env.alloc_chrdev_region m).1 },
          refl,
          rw first (rw worked refl),
        )
  ]
  | inr later ↦ elim (Bool-cases (nonzero (env.register_chrdev_region r.bridge_major m))) [
    | inl failed ↦ inl (env.register_chrdev_region r.bridge_major m, rw later (rw failed refl))
    | inr worked ↦ inr (r, refl, rw later (rw worked refl))
  ]
]

pub claim_minor-Claim :
    (env : RegisterEnv) (d : Chrdev) (r : Registry) → Claim r (claim_minor env d r)
unfolding claim_minor
claim_minor-Claim env d r =
    let m = find_first_zero_bit r.bridge_minor_bitmap genz_minorbits 0 in
    elim (Bool-cases (leb genz_minorbits m)) [
      | inl full ↦ exhausted (error edom) d r refl (rw full refl)
      | inr room ↦ elim (claim_region-cases env m d r) [
        | inl (ret, failed) ↦ exhausted ret d r refl (rw room (rw failed refl))
        | inr (r', kept, worked) ↦
            claimed (record d { major = r'.bridge_major; minor = m })
              (record r' { bridge_minor_bitmap = update r'.bridge_minor_bitmap m true })
              (ground arith)
              (find_first_zero_bit-clear r.bridge_minor_bitmap genz_minorbits 0 (ground arith))
              (ap (λ (b : ℕ → Bool). update b m true) kept) (rw room (rw worked refl))
      ]
    ]
