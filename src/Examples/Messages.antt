-- ===== src/Examples/Messages.antt =====
-- The theorems on outgoing messages, mailslots, formats and the link layer, at concrete messages.
use emer_gen_z.Base.{
  ◌*◌, ◌+◌, ℕ, ◌≤◌, ◌<◌, ◌≡◌, refl, ◌⊎◌, inl, true, false, some, List, [], ◌∷◌, arith, length, take,
  ℤ, pos, negsuc, error, erestartsys, replicate,
}
use emer_gen_z.Text.{streq_n, codes}
use emer_gen_z.Fee.{update, Adapter, Mem, World, done}
use emer_gen_z.Outgoing.{
  refuse_outgoing, await_my_slot, time_before, post_outgoing, ringer, fill_slot,
  fee_create_outgoing, peer_of,
}
use emer_gen_z.Outgoing.{post_outgoing_amid}
use emer_gen_z.Outgoing.Amid.{post_outgoing_amid-overwrites}
use emer_gen_z.Outgoing.Wait.{Waited, awake, slept}
use emer_gen_z.Outgoing.Deliver.{
  Acceptable, IsRefusal, Sent, fee_create_outgoing-total, fee_create_outgoing-refuses,
  fee_create_outgoing-sends,
}
use emer_gen_z.Mailbox.{calculate_mailslot}
use emer_gen_z.Mailbox.Geometry.{IsLaidOut, calculate_mailslot_disjoint}
use emer_gen_z.Link.{
  stamp_peer, dispatch_link, is_ping, answer_ping, reply, CtlWrite, fee_link_request,
}
use emer_gen_z.Link.Frame.{LinkKept, fee_link_request-LinkKept}
use emer_gen_z.Link.Write.{AreInts, ctl_write_text}
use emer_gen_z.Link.{acknowledgment_text}
use emer_gen_z.Link.Acknowledge.{fee_link_request-acknowledges}
use emer_gen_z.Exchange.Send.{Spares, Posted, ringing}
use emer_gen_z.Examples.{globals, adapter, bridge_core, world_with, env, env-Ticks}

abbrev hello : List ℕ
hello = codes "hello"

abbrev quiet : World
quiet = world_with [] 0

hello-Acceptable : Acceptable (pos 300) (pos 27) hello adapter
unfolding peer_of
hello-Acceptable = record {
  routed = inl refl;
  lowest = omega arith;
  highest = omega arith;
  fits = omega arith;
  nonempty = omega arith;
}

-- nobody writes into the slot while the sender sleeps
quiet-sized : (m : Mem) → Waited env quiet.mem m → length (m 4608).buf ≡ 128
quiet-sized m awake = refl
quiet-sized m (slept k w) = quiet-sized _ w

sends_example :
    (ret : ℤ) × (a' : Adapter) × (w' : World) × (fee_create_outgoing env
        (pos 300)
        (pos 27)
        hello
        adapter
        quiet
      ≡ done ret a' w')
    × (((ret ≡ error erestartsys)
          × (a' ≡ adapter)
          × (0 < (w'.mem 4608).buflen)
          × Waited env quiet.mem w'.mem)
        ⊎ Sent env (peer_of (pos 300) (pos 27)) hello adapter quiet ret a' w')
sends_example =
    fee_create_outgoing-sends env (pos 300) (pos 27) hello adapter quiet env-Ticks hello-Acceptable
      quiet-sized

total_example :
    (ret : ℤ) × (a' : Adapter) × (w' : World) × (fee_create_outgoing env
        (pos 300)
        (pos 27)
        hello
        adapter
        quiet
      ≡ done ret a' w')
total_example = fee_create_outgoing-total env (pos 300) (pos 27) hello adapter quiet env-Ticks

refuses_example :
    (e : ℕ) × IsRefusal e
    × (fee_create_outgoing env (pos 900) (pos 27) hello adapter quiet
        ≡ done (error e) adapter quiet)
unfolding peer_of
refuses_example =
    fee_create_outgoing-refuses env (pos 900) (pos 27) hello adapter quiet
      (λ ok. absurd (omega (arith, ok.highest)))

-- what the message leaves: the doorbell of client 3 with vector 2, and the text in the own slot
abbrev rung : Adapter
rung = record adapter { doorbell = (3 * 65536 + 2) ∷ [] }

abbrev sent : World
sent = record quiet {
  mem = update quiet.mem 4608 (fill_slot hello 3 (quiet.mem 4608));
  longest = 105;
}

hello_run : fee_create_outgoing env (pos 300) (pos 27) hello adapter quiet ≡ done (pos 5) rung sent
unfolding fee_create_outgoing refuse_outgoing peer_of await_my_slot time_before post_outgoing ringer
hello_run = refl

laid : IsLaidOut globals
laid = record { sized = omega arith; server_last = omega arith; in_space = omega arith }

disjoint_example : 5120 ≤ 5376
unfolding calculate_mailslot
disjoint_example = calculate_mailslot_disjoint globals laid 3 5 4864 5376 (omega arith) refl refl

-- the fabric manager 100,27 makes the receiver 200,27, with tag 7
abbrev assignment : CtlWrite
assignment = record { pfmcid = pos 100; pfmsid = pos 27; cid = pos 200; sid = pos 27; tag = pos 7 }

assignment-AreInts : AreInts assignment
assignment-AreInts = record {
  pfmcid = omega arith;
  pfmsid = omega arith;
  cid = omega arith;
  sid = omega arith;
  tag = omega arith;
}

overwrites_example :
    (a1 : Adapter) × (w1 : World) × (a2 : Adapter) × (w2 : World) × (post_outgoing
        (codes "Link CTL ACK")
        1
        adapter
        quiet
      ≡ done (pos 12) a1 w1)
    × (post_outgoing_amid (post_outgoing (codes "Link CTL ACK") 1) (codes "hello") 3 adapter quiet
        ≡ done (pos 5) a2 w2)
    × (a2.doorbell ≡ ringer 3 2 ∷ ringer 1 2 ∷ [])
    × ((w2.mem 4608).buflen ≡ 5)
    × ((w2.mem 4608).last_responder ≡ 3)
    × (take 5 (w2.mem 4608).buf ≡ codes "hello")
overwrites_example =
    post_outgoing_amid-overwrites (codes "hello") (codes "Link CTL ACK") 3 1 adapter quiet refl
      (omega arith)

-- the message is in every slot but the own one
abbrev asked : World
asked = world_with (ctl_write_text assignment) 60

abbrev zeros : List ℕ
zeros = replicate 128 0

-- the adapter with the core structure
abbrev registered_adapter : Adapter
registered_adapter = record adapter { core = some 65536 }

env-Spares : Spares env registered_adapter.my_slot
env-Spares = record { size_kept = λ k m. refl; owner_kept = λ k m. refl }

acknowledges_example :
    (a' : Adapter) × (w' : World) × (fee_link_request env 4864 registered_adapter asked
      ≡ done true a' w')
    × (a' ≡ record registered_adapter {
      incoming_slot_locked = false;
      doorbell = ringing registered_adapter (asked.mem 4864).peer_id;
    })
    × (w'.cores 65536
        ≡ some (record bridge_core {
          pfmcid = pos 100;
          pfmsid = pos 27;
          cid0 = pos 200;
          sid0 = pos 27;
          pmcid = negsuc 0;
        }))
    × Posted w'.mem registered_adapter.my_slot
        (asked.mem 4864).peer_id
        (acknowledgment_text assignment)
acknowledges_example =
    fee_link_request-acknowledges env 4864 registered_adapter asked assignment zeros
      assignment-AreInts (refl, refl) refl 65536 bridge_core refl refl env-Ticks (omega arith)
      env-Spares (λ e. omega (arith, e)) refl refl (omega arith) (omega arith) (omega arith)
      (omega arith)

-- client 3 asks for a sign of life
abbrev pinged : World
pinged = world_with (codes "ping") 4

abbrev answered_mem : Mem
answered_mem =
    update (update pinged.mem 4864 (stamp_peer (pinged.mem 4864))) 4864
      (record (stamp_peer (pinged.mem 4864)) { buflen = 0 })

abbrev answered : World
answered = record pinged {
  mem = update answered_mem 4608 (fill_slot (codes "pong") 3 (answered_mem 4608));
  longest = 105;
}

abbrev ponged : Adapter
ponged = record adapter { doorbell = (3 * 65536 + 2) ∷ []; incoming_slot_locked = false }

abbrev pinged_adapter : Adapter
pinged_adapter = record adapter { incoming_slot_locked = true }

ping_run : fee_link_request env 4864 pinged_adapter pinged ≡ done true ponged answered
unfolding fee_link_request stamp_peer dispatch_link is_ping streq_n answer_ping reply
    fee_create_outgoing refuse_outgoing peer_of await_my_slot time_before post_outgoing ringer
ping_run = refl

link_kept_example : LinkKept pinged_adapter true ponged
link_kept_example =
    fee_link_request-LinkKept env 4864 pinged_adapter pinged true ponged answered ping_run
