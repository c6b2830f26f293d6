-- ===== src/Subsystem/Bus.antt =====
-- genz_bus.c: the buses, one for each PCI slot that asked for one, and the one device.
pub mod Laws
use emer_gen_z.Base.{
  ℕ, zero, suc, ◌+◌, ◌-◌, ◌/◌, ◌%◌, ◌==◌, Bool, true, false, ◌&&◌, Option, none, some, List, [],
  ◌∷◌, ◌++◌, ltb, leb, if◌then◌else◌, ℤ, pos, negsuc, nonzero, error, enomem, ealready,
}
use emer_gen_z.Text.{codes}

-- `struct genz_bus_instance`, with its address and the name of its `bus_dev`
pub record BusInstance : Type 0 where
  pub address : ℕ
  pub id : ℕ
  pub initname : List ℕ

abbrev pub maxbuses : ℕ
maxbuses = 254

abbrev pub potpourrid : ℕ
potpourrid = maxbuses + 1

abbrev pub hex_digit : ℕ → ℕ
hex_digit n = if ltb n 10 then b'0' + n else b'a' + (n - 10)

-- "genz%02x"; an id has at most two digits
unfoldable pub bus_name : ℕ → List ℕ
bus_name id = codes "genz" ++ (hex_digit (id / 16 % 16) ∷ hex_digit (id % 16) ∷ [])

-- `list_for_each_entry` up to the first bus with the id
unfoldable pub find_bus : ℕ → List BusInstance → Option BusInstance
find_bus desired [] = none
find_bus desired (b ∷ bs) =
    let rest = find_bus desired bs in if desired == b.id then some b else rest

-- what the kernel does on the way: the address from `kzalloc`, and the result of `device_add`
pub record BusEnv : Type 0 where
  pub kzalloc : Option ℕ
  pub device_add : ℤ

unfoldable pub add_bus : BusEnv → (desired : ℕ) → List BusInstance → Option ℕ × List BusInstance
add_bus env desired buses = elim env.kzalloc [
  | none ↦ (none, buses)
  | some p ↦ if nonzero env.device_add then (none, buses) else (
    some p,
    buses ++ (record { address = p; id = desired; initname = bus_name desired }) ∷ [],
  )
]

unfoldable pub find_or_add_bus :
    BusEnv → (desired : ℕ) → List BusInstance → Option ℕ × List BusInstance
find_or_add_bus env desired buses = elim (find_bus desired buses) [
  | some b ↦ (some b.address, buses)
  | none ↦ add_bus env desired buses
]

-- The result is the bus whose `bus_dev` it is.
unfoldable pub genz_find_bus_by_pci_slotnum :
    BusEnv → ℤ → List BusInstance → Option ℕ × List BusInstance
genz_find_bus_by_pci_slotnum env (pos desired) buses =
    if ltb maxbuses desired then (none, buses) else find_or_add_bus env desired buses
genz_find_bus_by_pci_slotnum env (negsuc _) buses = find_or_add_bus env potpourrid buses

-- `the_one`, and the devices that `alloc_genzdev` has made; devices are addresses
pub record Devices : Type 0 where
  pub the_one : Option ℕ
  pub allocated : List ℕ

unfoldable pub register_genzdev : ℕ → Devices → ℤ × Devices
register_genzdev dev s = elim s.the_one [
  | some _ ↦ (error ealready, s)
  | none ↦ (pos 0, record s { the_one = some dev })
]

unfoldable pub unregister_genzdev : ℕ → Devices → Devices
unregister_genzdev dev s = elim s.the_one [
  | none ↦ s
  | some one ↦ if one == dev then record s { the_one = none } else s
]

-- `alloc_genzdev` with `genz_device_customize`, which does nothing
unfoldable pub alloc_genzdev : (kzalloc : Option ℕ) → Devices → Option ℕ × Devices
alloc_genzdev none s = (none, s)
alloc_genzdev (some p) s = (some p, record s { allocated = p ∷ s.allocated })

unfoldable pub genz_init_one : (kzalloc : Option ℕ) → Devices → ℤ × Devices
genz_init_one kzalloc s =
    let (dev, s') = alloc_genzdev kzalloc s in
    elim dev [ none ↦ (error enomem, s') | some p ↦ register_genzdev p s' ]
