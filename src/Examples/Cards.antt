-- ===== src/Examples/Cards.antt =====
-- The theorems on the list of adapters over probes and removals.
use emer_gen_z.Base.{
  ◌==◌, ◌||◌, arith, error, ebadslt, eio, ◌≡◌, true, false, none, [], ◌∷◌, refl, sym, ◌∙◌,
}
use emer_gen_z.Subsystem.Device.Core.{genz_core_structure_destroy, put_core, put_table}
use emer_gen_z.Msix.Setup.{
  fee_isr_setup, alloc_vectors, name_vectors, attach_handlers, assign_vectors, request_irqs,
  make_table, fee_isr_teardown, free_irqs,
}
use emer_gen_z.Msix.Setup.AllOrNothing.{fee_isr_setup-AllOrNothing}
use emer_gen_z.Text.{strncpy}
use emer_gen_z.Mailbox.{calculate_mailslot}
use emer_gen_z.Outgoing.{fee_create_outgoing, refuse_outgoing, peer_of}
use emer_gen_z.Adapters.{
  fee_adapter_create, map_bars, unmap_bars, check_globals, take_slot, give_up, fresh_slot,
  nodename_text, after_mapping, fresh_adapter, fee_adapter_destroy,
}
use emer_gen_z.Probe.{
  Host, ProbeEnv, is_listed, forget, Probed, probed, not_probed, probe_fault, removed, remove_fault,
  with_adapter, set_up, list_adapter, ask_server, after_asking, tear_down, disable_and_destroy,
  finish_probe, fee_init_one, fee_remove_one,
}
use emer_gen_z.Probe.Twice.{fee_remove_one-twice}
use emer_gen_z.Probe.Remove.{IsRemoved, fee_remove_one-IsRemoved}
use emer_gen_z.Probe.History.{Cards, put_host, removes, refuses, begin, then_step}
use emer_gen_z.Probe.History.Places.{lists, IsDistinct}
use emer_gen_z.Probe.History.Laws.{IsConsistent, PciReach-IsConsistent}
use emer_gen_z.Probe.History.Stale.{IsStuck, fee_init_one-IsStuck}
use emer_gen_z.Examples.{env, env-Ticks}
use emer_gen_z.Examples.Interrupts.{granting, idle}
use emer_gen_z.Examples.Adapters.{create_env, shared}
use emer_gen_z.Examples.Probe.{
  host, probe_env, before_setup, served, heap_of_one, serving, serving-IsWhole,
}

abbrev host_of : Probed → Host
host_of (probed a h) = h
host_of (not_probed ret h) = h
host_of probe_fault = host

-- two devices at the places 3 and 5, each as above
abbrev cards : Cards
cards = record {
  card = λ place. record {
    enabled = true;
    bound = (place == 3) || (place == 5);
    dev = serving.dev;
    irq = serving.irq;
  };
  listed = serving.listed;
  world = shared;
  heap = heap_of_one;
}

cards-IsConsistent : IsConsistent cards
unfolding lists IsDistinct
cards-IsConsistent = record {
  distinct = (refl, (refl, tt));
  bound_listed = λ p bound. ground (arith, bound);
}

removal :
    (s' : Host) × (fee_remove_one true 3 env served serving ≡ removed s')
    × IsRemoved 3 idle (put_core 65536 none (put_table 8192 false heap_of_one)) s'
unfolding genz_core_structure_destroy fee_isr_setup alloc_vectors name_vectors attach_handlers
    assign_vectors request_irqs make_table
removal =
    fee_remove_one-IsRemoved granting 3 env before_setup served idle serving
      (put_core 65536 none (put_table 8192 false heap_of_one)) env-Ticks serving-IsWhole refl
      ((fee_isr_setup-AllOrNothing granting before_setup idle refl refl).1 refl) refl refl refl

removal_history_example : IsConsistent (put_host 3 false removal.0 cards)
removal_history_example =
    PciReach-IsConsistent cards (put_host 3 false removal.0 cards) cards-IsConsistent
      (then_step begin (removes 3 env served removal.0 true refl removal.1 refl))

-- the server's number cannot be sent to
abbrev unanswering : ProbeEnv
unanswering = record probe_env {
  create = record create_env { globals = record create_env.globals { server_id = 0 } };
}

abbrev no_cards : Cards
no_cards = put_host 3 false host (record cards { listed = [] })

abbrev refused_host : Host
refused_host = host_of (fee_init_one unanswering host)

unanswered :
    (fee_init_one unanswering host ≡ not_probed (error ebadslt) refused_host)
    × (refused_host.listed ≡ none ∷ [])
unfolding fee_init_one with_adapter set_up list_adapter ask_server after_asking tear_down
    disable_and_destroy finish_probe is_listed forget fee_adapter_create map_bars unmap_bars
    check_globals take_slot give_up fresh_slot nodename_text fee_adapter_destroy fee_isr_setup
    fee_isr_teardown alloc_vectors name_vectors attach_handlers assign_vectors request_irqs
    free_irqs make_table fee_create_outgoing refuse_outgoing peer_of genz_core_structure_destroy
    strncpy after_mapping calculate_mailslot fresh_adapter
unanswered = (refl, refl)

-- a second try for the same device, which cannot be enabled any more
abbrev retrying : ProbeEnv
retrying = record unanswering { enable_device = error eio }

abbrev refused_cards : Cards
refused_cards = put_host 3 false refused_host no_cards

retried : fee_init_one retrying refused_host ≡ not_probed (error eio) refused_host
unfolding fee_init_one with_adapter set_up list_adapter ask_server after_asking tear_down
    disable_and_destroy finish_probe is_listed forget fee_adapter_create map_bars unmap_bars
    check_globals take_slot give_up fresh_slot nodename_text fee_adapter_destroy fee_isr_setup
    fee_isr_teardown alloc_vectors name_vectors attach_handlers assign_vectors request_irqs
    free_irqs make_table fee_create_outgoing refuse_outgoing peer_of genz_core_structure_destroy
    strncpy after_mapping calculate_mailslot fresh_adapter
retried = refl

null_entry_example : IsStuck refused_cards (put_host 3 false refused_host refused_cards)
null_entry_example =
    fee_init_one-IsStuck unanswering (error ebadslt) refused_host no_cards
      (put_host 3 false refused_host refused_cards) unanswered.0
      (λ e. let e' = sym unanswered.1 ∙ e in ground (arith, e'))
      (then_step begin (refuses retrying (error eio) refused_host refl retried refl))

-- another device, whose adapter has the same core structure
abbrev shared_core : Host
shared_core = record serving { heap = removal.0.heap }

twice_example : fee_remove_one true 5 env served shared_core ≡ remove_fault
unfolding fee_isr_setup alloc_vectors name_vectors attach_handlers assign_vectors request_irqs
    make_table
twice_example =
    fee_remove_one-twice 3 5 env env served served serving shared_core removal.0 65536 refl refl
      removal.1 refl refl refl
