-- ===== src/Subsystem/Init/Laws.antt =====
-- What a start of the subsystem leaves, and what an end takes away.
use emer_gen_z.Base.{
  ◌≡◌, ◌≢◌, refl, ◌⊎◌, inl, inr, true, false, Option, none, some, List, [], ◌∷◌, ℤ, pos, nonzero,
  arith, error, enomem, Bool-cases,
}
use emer_gen_z.Subsystem.Bus.{BusInstance}
use emer_gen_z.Subsystem.Class.{
  register_classes, unregister_below, destroy_classes, class_unregister, genz_classes_init,
  genz_classes_destroy,
}
use emer_gen_z.Subsystem.Init.{
  RootPtr, no_root, root, err_root, Subsystem, InitEnv, add_fabrics, add_bus_type, add_root_device,
  genz_subsystem_init, genz_subsystem_exit,
}

-- before the start: no class is registered, and nothing else is there
abbrev pub stopped : Subsystem
stopped = record {
  classes = [];
  root_device = no_root;
  bus_type = false;
  fabrics_kset = false;
  buses = [];
}

-- after it: the fabric class and all else but buses
abbrev pub running : Subsystem
running = record {
  classes = 0 ∷ [];
  root_device = root;
  bus_type = true;
  fabrics_kset = true;
  buses = [];
}

RootPtr-cases : (x : RootPtr) → (x ≡ no_root) ⊎ ((x ≡ root) ⊎ (x ≡ err_root))
RootPtr-cases no_root = inl refl
RootPtr-cases root = inr (inl refl)
RootPtr-cases err_root = inr (inr refl)

-- how a start of the stopped subsystem ends without a crash
pub record IsStart (r : Option (ℤ × Subsystem)) : Type 0 where
  pub ret : ℤ
  pub after : Subsystem
  pub ended : r ≡ some (ret, after)
  pub undone : ret ≢ pos 0 → after ≡ stopped

-- A start of the stopped subsystem, with any answers of the kernel, ends, and leaves it stopped where
-- the result is not 0; or it crashes, and then the class was registered, the root device was not, and
-- the bus type or the fabrics directory could not be made either.
pub genz_subsystem_init-undoes :
    (env : InitEnv)
    → IsStart (genz_subsystem_init env stopped)
      ⊎ ((genz_subsystem_init env stopped ≡ none)
          × (nonzero (env.class_register 0) ≡ false)
          × (env.root_device_register ≡ err_root)
          × ((nonzero env.bus_register ≡ true) ⊎ (env.kset_create_and_add ≡ false)))
unfolding genz_subsystem_init add_root_device add_bus_type add_fabrics genz_classes_init
    register_classes unregister_below genz_classes_destroy destroy_classes class_unregister
genz_subsystem_init-undoes env = elim (Bool-cases (nonzero (env.class_register 0))) [
  | inl no_class ↦ inl (record {
    ret = env.class_register 0;
    after = stopped;
    ended = ground (arith, no_class);
    undone = λ bad. refl;
  })
  | inr with_class ↦ elim (RootPtr-cases env.root_device_register) [
    | inl none_made ↦ inl (record {
      ret = pos 0;
      after = stopped;
      ended = rw with_class (rw none_made refl);
      undone = λ bad. refl;
    })
    | inr (inl made) ↦ elim (Bool-cases (nonzero env.bus_register)) [
      | inl no_bus ↦ inl (record {
        ret = env.bus_register;
        after = stopped;
        ended = rw with_class (rw made (rw no_bus refl));
        undone = λ bad. refl;
      })
      | inr bus ↦ elim (Bool-cases env.kset_create_and_add) [
        | inl directory ↦ inl (record {
          ret = pos 0;
          after = running;
          ended = rw with_class (rw made (rw bus (rw directory refl)));
          undone = λ bad. absurd (bad refl);
        })
        | inr no_directory ↦ inl (record {
          ret = error enomem;
          after = stopped;
          ended = rw with_class (rw made (rw bus (rw no_directory refl)));
          undone = λ bad. refl;
        })
      ]
    ]
    | inr (inr failed) ↦ elim (Bool-cases (nonzero env.bus_register)) [
      | inl no_bus ↦
          inr (rw with_class (rw failed (rw no_bus refl)), with_class, failed, inl no_bus)
      | inr bus ↦ elim (Bool-cases env.kset_create_and_add) [
        | inl directory ↦ inl (record {
          ret = pos 0;
          after = record running { root_device = err_root };
          ended = rw with_class (rw failed (rw bus (rw directory refl)));
          undone = λ bad. absurd (bad refl);
        })
        | inr no_directory ↦ inr (
          rw with_class (rw failed (rw bus (rw no_directory refl))),
          with_class,
          failed,
          inr no_directory,
        )
      ]
    ]
  ]
]

-- Where the root device can be made, a start with result 0 has everything running.
pub genz_subsystem_init-starts :
    (env : InitEnv) (s : Subsystem)
    → env.root_device_register ≡ root
    → genz_subsystem_init env stopped ≡ some (pos 0, s)
    → s ≡ running
unfolding genz_subsystem_init add_root_device add_bus_type add_fabrics genz_classes_init
    register_classes unregister_below genz_classes_destroy destroy_classes class_unregister
genz_subsystem_init-starts env s there e = ground (arith, there, e)

-- Where `root_device_register` gives NULL, the start reports success with nothing running.
pub genz_subsystem_init-silent :
    (env : InitEnv)
    → nonzero (env.class_register 0) ≡ false
    → env.root_device_register ≡ no_root
    → genz_subsystem_init env stopped ≡ some (pos 0, stopped)
unfolding genz_subsystem_init add_root_device add_bus_type add_fabrics genz_classes_init
    register_classes unregister_below genz_classes_destroy destroy_classes class_unregister
genz_subsystem_init-silent env c r = rw (c) (rw r refl)

-- The end of a subsystem that runs, with any buses, leaves nothing of it.
pub genz_subsystem_exit-stops :
    (bs : List BusInstance) → genz_subsystem_exit (record running { buses = bs }) ≡ some stopped
unfolding genz_subsystem_exit genz_classes_destroy destroy_classes class_unregister
genz_subsystem_exit-stops bs = refl
