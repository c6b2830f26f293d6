-- ===== src/Examples/Fabric.antt =====
-- Three clients of one server.
use emer_gen_z.Base.{
  ℕ, ◌+◌, ◌-◌, ◌*◌, ◌/◌, ◌≡◌, refl, Bool, true, false, none, some, List, [], ◌∷◌, ◌++◌, arith,
  replicate, error, erestartsys, ◌==◌, if◌then◌else◌,
}
use emer_gen_z.Text.{codes, streq, streq_n}
use emer_gen_z.Text.Format.{sscanf}
use emer_gen_z.Fee.{Adapter, Mem, World, done, update}
use emer_gen_z.Mailbox.{calculate_mailslot}
use emer_gen_z.Outgoing.{post_outgoing}
use emer_gen_z.Link.{stamp_peer, is_ping, is_peer_attribute, ctl_write_of}
use emer_gen_z.Msix.Handler.{all_msix, match_vector}
use emer_gen_z.Msix.Deliver.{IsOrdinary, all_msix-delivers}
use emer_gen_z.Exchange.Receive.{Hears}
use emer_gen_z.Fabric.{Fabric, world_of, after, here}
use emer_gen_z.Fabric.Sound.{IsSound}
use emer_gen_z.Fabric.Refine.{boxes}
use emer_gen_z.Fabric.Stranded.{stomped-IsStranded}
use emer_gen_z.Examples.{globals, adapter, env, slot_with}
use emer_gen_z.Examples.Interrupts.{event, events}

-- the clients, of which the third waits for a slot or for none
abbrev client_node : (waits : ℕ → Bool) → ℕ → Adapter
client_node waits i = record adapter {
  my_id = i;
  my_slot = 4096 + i * 256;
  irq_private = some events;
  incoming_slot = if waits i then some 4608 else none;
}

abbrev slots : List ℕ → (buflen : ℕ) → Mem
slots text buflen p = record (slot_with ((p - 4096) / 256) [] buflen) {
  buf = text ++ replicate 123 0;
}

-- every slot holds "hello", client 3 has been told of client 2's, and client 1's interrupt is due
abbrev crowded : Fabric
crowded = record {
  mem = slots (codes "hello") 5;
  node = client_node (λ i. i == 3);
  bells = (3, 1) ∷ [];
}

crowded-IsSound : IsSound 3 globals crowded
unfolding calculate_mailslot
crowded-IsSound = record {
  laid_out = record { sized = omega arith; server_last = omega arith; in_space = omega arith };
  few = omega arith;
  narrow = omega arith;
  layout_of = λ i c. refl;
  id_of = λ i c. refl;
  slot_of = λ i c. ground arith;
  sized = λ i c. refl;
  waits_for = λ j p c e. (2, (omega arith), ground arith);
}

three-Hears : Hears (crowded.node 3) 1 41
three-Hears = record {
  table = events;
  event = event 1;
  pointer = refl;
  room = omega arith;
  low = omega arith;
  high = omega arith;
  at = refl;
  vector_of = refl;
  entry_of = refl;
  first = λ l d lo hi at. absurd (omega arith);
}

slot_of_one-IsOrdinary : IsOrdinary (stamp_peer (crowded.mem 4352))
unfolding stamp_peer is_ping is_peer_attribute ctl_write_of streq streq_n sscanf
slot_of_one-IsOrdinary = record { no_ping = refl; no_attribute = refl; no_write = refl }

abbrev told : Adapter
told = record (crowded.node 3) { incoming_slot = some 4352; incoming_slot_locked = false }

abbrev stamped : World
stamped = record (world_of crowded) {
  mem = update crowded.mem 4352 (stamp_peer (crowded.mem 4352));
}

called_away : all_msix env 41 (crowded.node 3) (world_of crowded) ≡ done true told stamped
unfolding match_vector calculate_mailslot
called_away =
    all_msix-delivers env 41 (crowded.node 3) (world_of crowded) events (event 1) 4352 refl refl
      refl slot_of_one-IsOrdinary

stranded_example :
    (boxes (after crowded 3 told stamped []) 2 ≡ boxes crowded 2)
    × (post_outgoing
          (codes "again")
          3
          ((after crowded 3 told stamped []).node 2)
          (world_of (after crowded 3 told stamped []))
        ≡ done
            (error erestartsys)
            ((after crowded 3 told stamped []).node 2)
            (world_of (after crowded 3 told stamped [])))
stranded_example =
    stomped-IsStranded 2 3 1 crowded (after crowded 3 told stamped []) [] [] env 41 true told
      stamped (codes "again") 3 crowded-IsSound (omega arith) (omega arith) (omega arith)
      (λ e. absurd (omega arith)) (omega arith) ((λ e. absurd (omega arith)), tt)
      (λ l c ne e. ne (ground arith)) refl three-Hears slot_of_one-IsOrdinary called_away here
