-- ===== src/Examples/Adapters.antt =====
-- The theorems on the creation of adapters, for client 2.
use emer_gen_z.Base.{refl, true, false, [], pos}
use emer_gen_z.Text.{codes}
use emer_gen_z.Fee.{World}
use emer_gen_z.Adapters.{PciDev, CreateEnv, fee_adapter_create}
use emer_gen_z.Adapters.Laws.{IsBare, IsCreation, fee_adapter_create-IsCreation}
use emer_gen_z.Examples.{globals, world_with}

abbrev pub device : PciDev
device = record {
  regions = false;
  regs_mapped = false;
  globals_mapped = false;
  drvdata = false;
  blocks = 0;
  foreign_releases = 0;
}

abbrev pub create_env : CreateEnv
create_env = record {
  adapter_alloc = true;
  request_regions = pos 0;
  iomap_regs = true;
  iomap_globals = true;
  devfn = 24;
  iv_position = 2;
  globals = globals;
  utsname = codes "node";
}

pub device-IsBare : IsBare device
device-IsBare = record { no_regions = refl; no_regs = refl; no_globals = refl; no_drvdata = refl }

abbrev pub shared : World
shared = world_with [] 0

create_example : IsCreation create_env shared device (fee_adapter_create create_env shared device)
create_example = fee_adapter_create-IsCreation create_env shared device device-IsBare
