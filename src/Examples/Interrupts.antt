-- ===== src/Examples/Interrupts.antt =====
-- The theorems on interrupts, at a machine with six events.
use emer_gen_z.Base.{
  ℕ, zero, suc, ◌≤◌, ◌<◌, ◌≢◌, arith, get_elem?, take, ℕ, ◌+◌, ◌≡◌, refl, true, false, none, some,
  List, [], ◌∷◌, pos,
}
use emer_gen_z.Text.{codes, streq, streq_n}
use emer_gen_z.Fee.{MsixEntry, Adapter, World, done, update}
use emer_gen_z.Mailbox.{calculate_mailslot}
use emer_gen_z.Link.{stamp_peer, is_ping, is_peer_attribute, ctl_write_of}
use emer_gen_z.Text.Format.{sscanf}
use emer_gen_z.Msix.Handler.{match_vector, all_msix}
use emer_gen_z.Msix.Deliver.{IsOrdinary, all_msix-unlocked, all_msix-delivers}
use emer_gen_z.Msix.Setup.{
  PciCore, IrqState, fee_isr_setup, fee_isr_teardown, alloc_vectors, name_vectors, attach_handlers,
  assign_vectors, request_irqs, make_table,
}
use emer_gen_z.Msix.Setup.AllOrNothing.{Undone, AllOrNothing, fee_isr_setup-AllOrNothing}
use emer_gen_z.Msix.Setup.Teardown.{fee_isr_teardown-undoes}
use emer_gen_z.Exchange.Receive.{Hears, Arrived, all_msix-announces}
use emer_gen_z.Exchange.Ordinary.{IsOrdinaryText-first}
use emer_gen_z.Exchange.Amid.{gf_bridge_read_amid-frees_other}
use emer_gen_z.Bridge.Read.{copy_out, gf_bridge_read_amid}
use emer_gen_z.Examples.{adapter, env, world_with}
use emer_gen_z.Examples.Bridge.{read_env}

abbrev pub event : ℕ → MsixEntry
event i = record { vector = 40 + i; entry = i }

abbrev pub events : List MsixEntry
events = event 0 ∷ event 1 ∷ event 2 ∷ event 3 ∷ event 4 ∷ event 5 ∷ []

abbrev listening : Adapter
listening = record adapter { irq_private = some events }

abbrev mail : World
mail = world_with (codes "hello") 5

hello-IsOrdinary : IsOrdinary (stamp_peer (mail.mem 4864))
unfolding stamp_peer is_ping is_peer_attribute ctl_write_of streq streq_n sscanf
hello-IsOrdinary = record { no_ping = refl; no_attribute = refl; no_write = refl }

listening-Hears : Hears listening 3 43
listening-Hears = record {
  table = events;
  event = event 3;
  pointer = refl;
  room = omega arith;
  low = omega arith;
  high = omega arith;
  at = refl;
  vector_of = refl;
  entry_of = refl;
  first = none_before;
}
  where
    none_before :
        (l : ℕ) (d : MsixEntry) → 1 ≤ l → l < 3 → get_elem? events l ≡ some d → d.vector ≢ 43
    none_before zero d lo hi at e = absurd (omega arith)
    none_before (suc zero) d lo hi at e = ground arith
    none_before (suc (suc zero)) d lo hi at e = ground arith
    none_before (suc (suc (suc l))) d lo hi at e = absurd (omega arith)

hello-Arrived : Arrived listening mail 3 43 4864 (codes "hello")
unfolding calculate_mailslot
hello-Arrived = record {
  hears = listening-Hears;
  place = refl;
  peer = (mail.mem 4864).last_responder;
  posted = record { buflen_set = refl; responder_set = refl; payload = refl; terminated = refl };
  owned = refl;
  small = omega arith;
  ordinary = IsOrdinaryText-first b'h' (codes "ello") (omega arith) (omega arith) (omega arith);
}

announces_example :
    (a' : Adapter) × (w' : World) × (all_msix env 43 listening mail ≡ done true a' w')
    × (a' ≡ record listening { incoming_slot = some 4864; incoming_slot_locked = false })
    × (w'.mem 4864 ≡ record (mail.mem 4864) { peer_sid = 27; peer_cid = 300 })
    × (take (w'.mem 4864).buflen (w'.mem 4864).buf ≡ codes "hello")
    × ((q : ℕ) → q ≢ 4864 → w'.mem q ≡ mail.mem q)
    × (w'.cores ≡ mail.cores)
announces_example = all_msix-announces hello-Arrived env

-- a client that reads the message of client 2, when that of client 3 arrives
abbrev reading : Adapter
reading = record listening { incoming_slot = some 4608 }

reading-Hears : Hears reading 3 43
reading-Hears = record {
  table = listening-Hears.table;
  event = listening-Hears.event;
  pointer = listening-Hears.pointer;
  room = listening-Hears.room;
  low = listening-Hears.low;
  high = listening-Hears.high;
  at = listening-Hears.at;
  vector_of = listening-Hears.vector_of;
  entry_of = listening-Hears.entry_of;
  first = listening-Hears.first;
}

reading-Arrived : Arrived reading mail 3 43 4864 (codes "hello")
reading-Arrived = record {
  hears = reading-Hears;
  place = hello-Arrived.place;
  peer = hello-Arrived.peer;
  posted = hello-Arrived.posted;
  owned = hello-Arrived.owned;
  small = hello-Arrived.small;
  ordinary = hello-Arrived.ordinary;
}

frees_other_example :
    (a' : Adapter) × (w' : World) × (gf_bridge_read_amid (all_msix env 43) read_env 64 reading mail
      ≡ done (copy_out read_env 64 (mail.mem 4608)) a' w')
    × (a'.incoming_slot ≡ none)
    × ((w'.mem 4864).buflen ≡ 0)
    × (w'.mem 4608 ≡ mail.mem 4608)
    × ((k : ℕ) → k ≢ 4864 → w'.mem k ≡ mail.mem k)
frees_other_example =
    gf_bridge_read_amid-frees_other read_env env 64 4608 4864 3 43 (codes "hello") reading mail refl
      (λ e. ground (arith, e)) reading-Arrived

abbrev told : Adapter
told = record listening { incoming_slot = some 4864; incoming_slot_locked = false }

abbrev stamped : World
stamped = record mail { mem = update mail.mem 4864 (stamp_peer (mail.mem 4864)) }

hello_delivered : all_msix env 43 listening mail ≡ done true told stamped
unfolding match_vector calculate_mailslot
hello_delivered =
    all_msix-delivers env 43 listening mail events (event 3) 4864 refl refl refl hello-IsOrdinary

unlocked_example : told.incoming_slot_locked ≡ false
unlocked_example = all_msix-unlocked env 43 listening mail true told stamped hello_delivered

-- a PCI core that grants all
abbrev pub granting : PciCore
granting = record {
  msix_vec_count = pos 16;
  kzalloc_succeeds = true;
  alloc_irq_vectors = λ n. pos n;
  irq_vector = λ i. pos (40 + i);
  request_irq = λ i v. pos 0;
}

abbrev pub idle : IrqState
idle = record { tables = 0; allocated = false; handlers = λ v. 0 }

setup_example : AllOrNothing granting adapter idle (fee_isr_setup granting adapter idle)
setup_example = fee_isr_setup-AllOrNothing granting adapter idle refl refl

teardown_example :
    (a'' : Adapter) × (q'' : IrqState) × (fee_isr_teardown
        (fee_isr_setup granting adapter idle).1
        (fee_isr_setup granting adapter idle).2
      ≡ some (a'', q''))
    × Undone adapter idle a'' q''
unfolding fee_isr_setup alloc_vectors name_vectors attach_handlers assign_vectors request_irqs
    make_table
teardown_example = fee_isr_teardown-undoes granting adapter idle refl refl refl refl
