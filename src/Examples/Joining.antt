-- ===== src/Examples/Joining.antt =====
-- Two clients join a server, and the first sends to the second.
use emer_gen_z.Base.{ℕ, ◌+◌, ◌-◌, ◌/◌, ◌*◌, refl, true, [], ◌∷◌, arith, pos, negsuc}
use emer_gen_z.Text.{codes}
use emer_gen_z.Fee.{Adapter, World, update}
use emer_gen_z.Outgoing.{peer_of, refuse_outgoing, post_outgoing, fill_slot, ringer}
use emer_gen_z.Adapters.{PciDev, CreateEnv, fresh_slot, fresh_adapter}
use emer_gen_z.Fabric.{Fabric, world_of, after, Step, posts}
use emer_gen_z.Examples.{adapter, slot_with}
use emer_gen_z.Examples.Adapters.{device, create_env}

abbrev env_of : ℕ → CreateEnv
env_of i = record create_env { iv_position = i }

abbrev held : PciDev
held = record device {
  regions = true;
  regs_mapped = true;
  globals_mapped = true;
  drvdata = true;
  blocks = 1;
}

-- the region as the server has made it
abbrev unjoined : Fabric
unjoined = record { mem = λ p. slot_with ((p - 4096) / 256) [] 0; node = λ i. adapter; bells = [] }

abbrev first_world : World
first_world = record (world_of unjoined) {
  mem = update unjoined.mem 4352 (fresh_slot (env_of 1) 1);
}

abbrev one_joined : Fabric
one_joined = after unjoined 1 (fresh_adapter (env_of 1) 1 4352) first_world []

abbrev second_world : World
second_world = record (world_of one_joined) {
  mem = update one_joined.mem 4608 (fresh_slot (env_of 2) 2);
}

abbrev two_joined : Fabric
two_joined = after one_joined 2 (fresh_adapter (env_of 2) 2 4608) second_world []

-- client 1 has sent "hello" to client 2
abbrev greeter : Adapter
greeter = record (fresh_adapter (env_of 1) 1 4352) { doorbell = (2 * 65536 + 1) ∷ [] }

abbrev greeted_world : World
greeted_world = record (world_of two_joined) {
  mem = update two_joined.mem 4352 (fill_slot (codes "hello") 2 (two_joined.mem 4352));
}

abbrev greeted : Fabric
greeted = after two_joined 1 greeter greeted_world ((2, 1) ∷ [])

unfoldable greeting : Step 2 two_joined greeted
unfolding refuse_outgoing peer_of post_outgoing ringer fresh_adapter fresh_slot
greeting =
    posts 1 (pos 2) (negsuc 41) (codes "hello") (pos 5) greeter greeted_world (omega arith) refl
      refl refl
