-- ===== src/Examples/Probe.antt =====
-- The theorems on the probe and the removal of a device, for client 2 in a machine that grants all.
use emer_gen_z.Base.{◌≡◌, true, false, none, some, [], ◌∷◌, pos, refl, arith}
use emer_gen_z.Fee.{Adapter, update}
use emer_gen_z.Subsystem.Device.Core.{CoreHeap, genz_core_structure_destroy, put_core, put_table}
use emer_gen_z.Msix.Setup.{
  fee_isr_setup, alloc_vectors, name_vectors, attach_handlers, assign_vectors, request_irqs,
  make_table,
}
use emer_gen_z.Msix.Setup.AllOrNothing.{fee_isr_setup-AllOrNothing}
use emer_gen_z.Probe.{Host, ProbeEnv, removed, fee_init_one, fee_remove_one}
use emer_gen_z.Probe.Remove.{IsRemoved, fee_remove_one-IsRemoved}
use emer_gen_z.Probe.Walk.{IsWhole}
use emer_gen_z.Probe.Undo.{IsProbe}
use emer_gen_z.Probe.Laws.{fee_init_one-IsProbe}
use emer_gen_z.Examples.{env, env-Ticks, adapter, bridge_core}
use emer_gen_z.Examples.Interrupts.{granting, idle}
use emer_gen_z.Examples.Adapters.{create_env, device, device-IsBare, shared}

abbrev pub host : Host
host = record {
  enabled = false;
  dev = device;
  irq = idle;
  listed = [];
  world = shared;
  heap = record { cores = λ p. none; tables = λ p. false };
}

abbrev pub probe_env : ProbeEnv
probe_env = record {
  enable_device = pos 0;
  revision = 1;
  msix_cap = true;
  has_bar1 = true;
  create = create_env;
  pci = granting;
  place = 3;
  ask_env = env;
  dump_env = env;
}

init_one_example : IsProbe probe_env host (fee_init_one probe_env host)
init_one_example =
    fee_init_one-IsProbe probe_env host env-Ticks env-Ticks tt device-IsBare refl refl refl

-- an adapter with a core structure, before and behind the setup of its interrupts
abbrev pub before_setup : Adapter
before_setup = record adapter { core = some 65536 }

abbrev pub served : Adapter
served = (fee_isr_setup granting before_setup idle).1

abbrev pub heap_of_one : CoreHeap
heap_of_one = record {
  cores = update (λ p. none) 65536 (some bridge_core);
  tables = update (λ p. false) 8192 true;
}

abbrev pub serving : Host
serving = record {
  enabled = true;
  dev = record device { regions = true; regs_mapped = true; globals_mapped = true; drvdata = true };
  irq = (fee_isr_setup granting before_setup idle).2;
  listed = some 3 ∷ some 5 ∷ [];
  world = shared;
  heap = heap_of_one;
}

pub serving-IsWhole : IsWhole serving.listed
serving-IsWhole = ((λ e. ground (arith, e)), ((λ e. ground (arith, e)), tt))

remove_one_example :
    (s' : Host) × (fee_remove_one true 3 env served serving ≡ removed s')
    × IsRemoved 3 idle (put_core 65536 none (put_table 8192 false heap_of_one)) s'
unfolding genz_core_structure_destroy fee_isr_setup alloc_vectors name_vectors attach_handlers
    assign_vectors request_irqs make_table
remove_one_example =
    fee_remove_one-IsRemoved granting 3 env before_setup served idle serving
      (put_core 65536 none (put_table 8192 false heap_of_one)) env-Ticks serving-IsWhole refl
      ((fee_isr_setup-AllOrNothing granting before_setup idle refl refl).1 refl) refl refl refl
