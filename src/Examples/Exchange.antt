-- ===== src/Examples/Exchange.antt =====
-- A message from client 2 to client 3, which map the region at different addresses.
use emer_gen_z.Base.{
  ℕ, zero, suc, ◌+◌, ◌*◌, ◌^◌, ◌≤◌, ◌<◌, ◌≡◌, refl, ◌≢◌, ◌⊎◌, inl, inr, some, [], ◌∷◌, ◌++◌, arith,
  get_elem?, ℤ, pos, negsuc, error, etimedout,
}
use emer_gen_z.Text.{codes, streq}
use emer_gen_z.Text.Decimal.{decimal, digits}
use emer_gen_z.Fee.{MsixEntry, Adapter, World, done}
use emer_gen_z.Mailbox.{calculate_mailslot}
use emer_gen_z.Outgoing.{peer_of}
use emer_gen_z.Outgoing.Deliver.{Acceptable}
use emer_gen_z.Bridge.Write.{
  WriteEnv, destination, is_server_name, strchr, one_number, gf_bridge_write,
}
use emer_gen_z.Exchange.Send.{Spares}
use emer_gen_z.Exchange.Ordinary.{IsOrdinaryText-first}
use emer_gen_z.Exchange.Receive.{Hears}
use emer_gen_z.Exchange.Path.{Linked, Reaches, arriving, exchange}
use emer_gen_z.Examples.{globals, open_adapter, buffers, adapter, world_with, env, env-Ticks}
use emer_gen_z.Examples.Interrupts.{event, events}
use emer_gen_z.Examples.Bridge.{read_env}

abbrev quiet : World
quiet = world_with [] 0

-- client 3 maps the region at 65536
abbrev receiver : Adapter
receiver = record adapter {
  my_id = 3;
  globals = record globals { base = 65536 };
  my_slot = 66304;
  irq_private = some events;
}

abbrev to_three : WriteEnv
to_three = record { copy_from_user = pos 0; kstrtoint = λ s. (pos 0, pos 3); try_env = λ k. env }

env-Spares : Spares env 4608
env-Spares = record { size_kept = λ k m. refl; owner_kept = λ k m. refl }

receiver-Hears : Hears receiver 2 42
receiver-Hears = record {
  table = events;
  event = event 2;
  pointer = refl;
  room = omega arith;
  low = omega arith;
  high = omega arith;
  at = refl;
  vector_of = refl;
  entry_of = refl;
  first = none_before;
}
  where
    none_before :
        (l : ℕ) (d : MsixEntry) → 1 ≤ l → l < 2 → get_elem? events l ≡ some d → d.vector ≢ 42
    none_before zero d lo hi at e = absurd (omega arith)
    none_before (suc zero) d lo hi at e = ground arith
    none_before (suc (suc l)) d lo hi at e = absurd (omega arith)

linked : Linked open_adapter receiver 42
unfolding calculate_mailslot
linked = record {
  laid_out = record { sized = omega arith; server_last = omega arith; in_space = omega arith };
  laid_out' = record { sized = omega arith; server_last = omega arith; in_space = omega arith };
  same_size = refl;
  own = refl;
  known = inl (omega arith, omega arith);
  small = omega arith;
  near = omega arith;
  hears = receiver-Hears;
}

to_three-Acceptable : Acceptable (pos 3) (negsuc 41) (codes "hello") open_adapter
unfolding peer_of
to_three-Acceptable = record {
  routed = inr refl;
  lowest = omega arith;
  highest = omega arith;
  fits = omega arith;
  nonempty = omega arith;
}

exchange_run :
    (ret : ℤ) × (a' : Adapter) × (w' : World) × (gf_bridge_write to_three
        (codes "3" ++ b':' ∷ codes "hello")
        open_adapter
        quiet
      ≡ done ret a' w')
    × (((ret ≡ error etimedout) × (a'.doorbell ≡ []) × (0 < (w'.mem 4608).buflen))
        ⊎ ((ret ≡ pos 7)
            × (a'.doorbell ≡ (3 * 2 ^ 16 + 2) ∷ [])
            × Reaches env read_env open_adapter receiver 42
                (codes "hello")
                64
                (arriving open_adapter receiver w' quiet)))
unfolding destination is_server_name streq strchr one_number decimal digits peer_of
exchange_run =
    exchange to_three env read_env open_adapter receiver quiet quiet buffers (codes "3")
      (codes "hello") (pos 3) (negsuc 41) 42 64 linked (λ k. env-Ticks) (λ k. env-Spares) refl refl
      refl refl (omega arith) refl ((λ e. absurd (omega arith)), ((λ e. absurd (omega arith)), tt))
      (omega arith) refl to_three-Acceptable refl
      (IsOrdinaryText-first b'h' (codes "ello") (omega arith) (omega arith) (omega arith))
      (omega arith) (omega arith) refl refl
