-- ===== src/Examples.antt =====
-- A small machine: four clients, slots of 256 bytes, and messages in them.
pub mod Messages
pub mod Interrupts
pub mod Bridge
pub mod Devices
pub mod Drivers
pub mod Adapters
pub mod Probe
pub mod Cards
pub mod Exchange
pub mod Fabric
pub mod Joining
pub mod Modules
pub mod Netlink
pub mod Waiting
use emer_gen_z.Base.{
  ℕ, ◌+◌, ◌*◌, ◌≡◌, refl, ◌==◌, Bool, true, false, Option, none, some, List, [], ◌∷◌, ◌++◌, arith,
  if◌then◌else◌, replicate, ℤ, pos, negsuc,
}
use emer_gen_z.Text.{codes}
use emer_gen_z.Fee.{Globals, Mailslot, MsixEntry, Core, BridgeBuffers, Adapter, World}
use emer_gen_z.Outgoing.{Env}
use emer_gen_z.Outgoing.Wait.{Ticks}

abbrev pub globals : Globals
globals = record {
  base = 4096;
  slotsize = 256;
  buf_offset = 128;
  n_clients = 4;
  n_events = 6;
  server_id = 5;
}

-- the slot of a client, with a text of a length in it
abbrev pub slot_with : (peer_id : ℕ) → List ℕ → (buflen : ℕ) → Mailslot
slot_with peer_id text buflen = record {
  nodename = codes "node";
  cclass = codes "FEEadapter";
  buflen = buflen;
  peer_id = peer_id;
  last_responder = 0;
  peer_sid = 27;
  peer_cid = peer_id * 100;
  buf = text ++ replicate 128 0;
}

abbrev pub buffers : BridgeBuffers
buffers = record { wbuf = replicate 128 0; wbuf_locked = false }

-- client 2, whose slot is at 4096 + 2 * 256
abbrev pub adapter : Adapter
adapter = record {
  nr_users = pos 0;
  slot = 3;
  max_buflen = 128;
  my_id = 2;
  doorbell = [];
  globals = globals;
  my_slot = 4608;
  irq_private = none;
  incoming_slot = none;
  incoming_slot_locked = false;
  outgoing = none;
  core = none;
}

-- its user has the device open
abbrev pub open_adapter : Adapter
open_adapter = record adapter { nr_users = pos 1; outgoing = some buffers }

abbrev pub bridge_core : Core
bridge_core = record {
  cce = 0x14;
  base_c_class_str = codes "DiscreteBridge";
  max_interface = 2;
  max_data = 4096;
  max_ctl = 8192;
  cid0 = pos 0;
  sid0 = pos 0;
  pmcid = pos 0;
  pfmcid = pos 0;
  pfmsid = pos 0;
  sfmcid = pos 0;
  sfmsid = pos 0;
  comp_dest_table = 8192;
}

-- every slot holds the text, but the one at 4608, which is free
abbrev pub world_with : List ℕ → (buflen : ℕ) → World
world_with text buflen = record {
  mem = λ p.
      if p == 4608
      then record (slot_with 2 [] 0) { buf = replicate 128 0 }
      else slot_with 3 text buflen;
  cores = λ p. if p == 65536 then some bridge_core else none;
  longest = 0;
}

-- 100 jiffies after the start, with one jiffy in each second, and peers that keep still
abbrev pub env : Env
env = record {
  hz = 1;
  in_interrupt = false;
  jiffies = 100;
  nap = λ k irq d. 101 + k;
  peers = λ k m. m;
}

pub env-Ticks : Ticks env
env-Ticks = record {
  advances = λ k d h. omega arith;
  below = λ k d h. omega (arith, h);
  timeout_below = omega arith;
}
