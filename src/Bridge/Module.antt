-- ===== src/Bridge/Module.antt =====
-- `gf_bridge_init` and `gf_bridge_exit`: the module makes one core structure, binds its operations to the
-- adapters of the list, and unbinds them at its end.
pub mod Laws
pub mod RoundTrip
use emer_gen_z.Base.{
  ℕ, Bool, true, false, Option, none, some, List, if◌then◌else◌, ℤ, pos, nonzero, is_neg, error,
  enomem, enodev,
}
use emer_gen_z.Fee.{Core, update}
use emer_gen_z.Subsystem.Class.{genz_cce_discrete_bridge}
use emer_gen_z.Subsystem.Device.Core.{CoreHeap, CorePtr, valid, err_ptr, genz_core_structure_create}
use emer_gen_z.Drivers.{
  Bound, System, BindEnv, Bindings, ended, crashed_bindings, fee_register, fee_unregister,
}

-- `FEE_adapter_list`, what its adapters share, the destination tables on the heap, and `_nbindings`
pub record GfBridge : Type 0 where
  pub adapters : List Bound
  pub system : System
  pub tables : ℕ → Bool
  pub nbindings : ℤ

-- what the kernel answers: the two allocations, the semaphore, and what the bindings meet
pub record ModuleEnv : Type 0 where
  pub core_alloc : Option ℕ
  pub table_alloc : Option ℕ
  pub down : ℤ
  pub bind : BindEnv

-- how a call of the module ends
pub data Called : Type 0 where
  returned : ℤ → GfBridge → Called
  call_crash : Called

abbrev pub heap_of : GfBridge → CoreHeap
heap_of m = record { cores = m.system.world.cores; tables = m.tables }

abbrev pub put_heap : CoreHeap → GfBridge → GfBridge
put_heap h m = record m {
  system = record m.system { world = record m.system.world { cores = h.cores } };
  tables = h.tables;
}

-- `core->MaxInterface = 2; core->MaxCTL = 8192;`
abbrev pub enlarged : Core → Core
enlarged c = record c { max_interface = 2; max_ctl = 8192 }

-- behind `FEE_register`
abbrev pub count_bindings : GfBridge → Bindings → Called
count_bindings m (ended ret bs s) =
    if is_neg ret
    then returned ret (record m { adapters = bs; system = s; nbindings = pos 0 })
    else returned (if nonzero ret then pos 0 else error enodev)
        (record m { adapters = bs; system = s; nbindings = ret })
count_bindings m crashed_bindings = call_crash

-- with the core structure at `p`
unfoldable pub bind_bridges : ModuleEnv → (fops : ℕ) → (only_slot : ℤ) → (p : ℕ) → GfBridge → Called
bind_bridges env fops only_slot p m = elim (m.system.world.cores p) [
  | none ↦ call_crash
  | some c ↦
      let m' : GfBridge =
        put_heap
          (record { cores = update m.system.world.cores p (some (enlarged c)); tables = m.tables })
          m in
      count_bindings m' (fee_register env.bind env.down p fops only_slot m'.adapters m'.system)
]

unfoldable pub gf_bridge_init : ModuleEnv → (fops : ℕ) → (only_slot : ℤ) → GfBridge → Called
gf_bridge_init env fops only_slot m =
    elim (genz_core_structure_create env.core_alloc env.table_alloc genz_cce_discrete_bridge
      (heap_of m)) [
        | none ↦ call_crash
        | some (err_ptr _, h) ↦ returned (error enomem) (put_heap h m)
        | some (valid p, h) ↦ bind_bridges env fops only_slot p (put_heap h m)
      ]

-- The result of `FEE_unregister` is only logged, and the core structure stays.
unfoldable pub gf_bridge_exit : BindEnv → (down : ℤ) → (fops : ℕ) → GfBridge → Called
gf_bridge_exit env down fops m = elim (fee_unregister env down fops m.adapters m.system) [
  | ended ret bs s ↦ returned ret (record m { adapters = bs; system = s })
  | crashed_bindings ↦ call_crash
]
