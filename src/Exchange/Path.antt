-- ===== src/Exchange/Path.antt =====
-- Sender and receiver together. Each maps the shared region at an address of its own.
use emer_gen_z.Base.{
  ℕ, ◌+◌, ◌-◌, ◌*◌, ◌^◌, ◌≤◌, ◌<◌, ◌≡◌, refl, ◌⊎◌, inl, inr, true, none, some, List, [], ◌∷◌, ◌++◌,
  arith, length, take, get_elem?, ℤ, pos, error, etimedout, ◌∙◌, ap,
}
use emer_gen_z.Fee.{BridgeBuffers, Mailslot, Adapter, Mem, World, done, update_self}
use emer_gen_z.Mailbox.{calculate_mailslot}
use emer_gen_z.Mailbox.Geometry.{IsLaidOut, IsSlot, calculate_mailslot-exact, exact_address}
use emer_gen_z.Outgoing.{Env, peer_of}
use emer_gen_z.Outgoing.Wait.{Ticks}
use emer_gen_z.Outgoing.Deliver.{Acceptable}
use emer_gen_z.Msix.Handler.{all_msix}
use emer_gen_z.Bridge.Read.{ReadEnv, gf_bridge_read}
use emer_gen_z.Bridge.Write.{WriteEnv, to, destination, gf_bridge_write}
use emer_gen_z.Bridge.Write.Laws.{IsPlain}
use emer_gen_z.Exchange.Send.{Spares, Posted}
use emer_gen_z.Exchange.Write.{gf_bridge_write-WriteEnd}
use emer_gen_z.Exchange.Ordinary.{IsOrdinaryText}
use emer_gen_z.Exchange.Receive.{
  Hears, Arrived, address_text, told, stamped, relieved, freed, interrupt_run, read_run,
}

-- the region that one client maps at `here`, as one that maps it at `there` addresses it
abbrev pub seen : (here there : ℕ) → Mem → Mem
seen here there m q = m (q + here - there)

-- the receiver's world with the sender's region in it
abbrev pub arriving : (a r : Adapter) → (sent own : World) → World
arriving a r sent own = record own { mem = seen a.globals.base r.globals.base sent.mem }

-- a sender in its own slot, and a receiver with the same layout
pub record Linked (a r : Adapter) (vector : ℕ) : Type 0 where
  pub laid_out : IsLaidOut a.globals
  pub laid_out' : IsLaidOut r.globals
  pub same_size : r.globals.slotsize ≡ a.globals.slotsize
  pub own : calculate_mailslot a.globals a.my_id ≡ some a.my_slot
  pub known : IsSlot r.globals a.my_id
  pub small : a.my_id < 2 ^ 16
  pub near : r.my_id < 2 ^ 16
  pub hears : Hears r a.my_id vector

-- where the receiver finds the sender's slot
abbrev pub peer_slot : (a r : Adapter) → ℕ
peer_slot a r = r.globals.base + a.my_id * r.globals.slotsize

seen-slot :
    {a r : Adapter} {vector : ℕ}
    → Linked a r vector
    → (m : Mem) → seen a.globals.base r.globals.base m (peer_slot a r) ≡ m a.my_slot
seen-slot {a} {r} l m =
    let at : a.my_slot ≡ a.globals.base + a.my_id * a.globals.slotsize =
      (exact_address a.globals l.laid_out a.my_id a.my_slot l.own).1 in
    ap m (rw l.same_size (omega (arith, at)))

-- the text reaches the reader, with the sender's address before it, and the sender's slot is free
pub record Reaches (env : Env) (read_env : ReadEnv) (a r : Adapter) (vector : ℕ) (body : List ℕ)
    (buflen : ℕ) (w : World) : Type 0 where
  pub told_adapter : Adapter
  pub told_world : World
  pub interrupted : all_msix env vector r w ≡ done true told_adapter told_world
  pub read_adapter : Adapter
  pub read_world : World
  pub read :
      gf_bridge_read read_env buflen told_adapter told_world
      ≡ done
          (record {
            ret = pos (length body + length (address_text a.my_id));
            copies = (0, address_text a.my_id) ∷ (length (address_text a.my_id), body) ∷ [];
            rewinds = true;
          })
          read_adapter
          read_world
  pub slot_free : (read_world.mem (peer_slot a r)).buflen ≡ 0
  pub reader_free : read_adapter.incoming_slot ≡ none

arrives :
    (env : Env) (read_env : ReadEnv) (a r : Adapter) (vector peer : ℕ) (body : List ℕ) (buflen : ℕ)
    (sent own : World)
    → Linked a r vector
    → Posted sent.mem a.my_slot peer body
    → (sent.mem a.my_slot).peer_id ≡ a.my_id
    → IsOrdinaryText body
    → length body + length (address_text a.my_id) ≤ buflen
    → buflen + 1 < 2 ^ 31
    → read_env.first_copy ≡ pos 0
    → read_env.second_copy ≡ pos 0
    → Reaches env read_env a r vector body buflen (arriving a r sent own)
arrives env read_env a r vector peer body buflen sent own l posted owned ordinary room narrow first
      second =
    let w = arriving a r sent own in
    let p = peer_slot a r in
    let at : w.mem p ≡ sent.mem a.my_slot = seen-slot l sent.mem in
    let mail : Arrived r w a.my_id vector p body = record {
      hears = l.hears;
      place = calculate_mailslot-exact r.globals l.laid_out' a.my_id l.known;
      peer = peer;
      posted = record {
        buflen_set = ap (λ (s : Mailslot). s.buflen) at ∙ posted.buflen_set;
        responder_set = ap (λ (s : Mailslot). s.last_responder) at ∙ posted.responder_set;
        payload = ap (λ (s : Mailslot). take (length body) s.buf) at ∙ posted.payload;
        terminated = ap (λ (s : Mailslot). get_elem? s.buf (length body)) at ∙ posted.terminated;
      };
      owned = ap (λ (s : Mailslot). s.peer_id) at ∙ owned;
      small = l.small;
      ordinary = ordinary;
    } in
    record {
      told_adapter = told r w p;
      told_world = stamped r w p;
      interrupted = interrupt_run mail env;
      read_adapter = relieved r w p;
      read_world = freed r w p;
      read = read_run mail read_env buflen room narrow first second;
      slot_free =
          ap (λ (s : Mailslot). s.buflen)
            (update_self (stamped r w p).mem p (record ((stamped r w p).mem p) { buflen = 0 }));
      reader_free = refl;
    }

-- A text written on one client, "head:body", under the conditions of a write, where the head names the
-- receiver, the body is no text of the link layer, and the receiver shares the layout, waits for
-- messages in its table of events and finds the sender by the vector: the write either reports a timeout
-- with the sender's slot busy, or returns its length and rings the receiver once, with the sender's
-- number; and then the interrupt and a read with enough room and two copies that succeed, nothing else
-- happening meanwhile, on the receiver's own mapping of the region, give the reader the sender's address
-- and exactly the bytes of the body, and leave the sender's slot free.
pub exchange :
    (write_env : WriteEnv) (env : Env) (read_env : ReadEnv) (a r : Adapter) (w own : World)
    (b : BridgeBuffers) (head body : List ℕ) (cid sid : ℤ) (vector buflen : ℕ)
    → Linked a r vector
    → ((k : ℕ) → Ticks (write_env.try_env k))
    → ((k : ℕ) → Spares (write_env.try_env k) a.my_slot)
    → a.outgoing ≡ some b
    → length b.wbuf ≡ a.max_buflen
    → length (w.mem a.my_slot).buf ≡ a.max_buflen
    → (w.mem a.my_slot).peer_id ≡ a.my_id
    → a.max_buflen < 2 ^ 31
    → write_env.copy_from_user ≡ pos 0
    → IsPlain head
    → length head + length body + 2 < a.max_buflen
    → destination write_env a head ≡ to cid sid
    → Acceptable cid sid body a
    → peer_of cid sid ≡ r.my_id
    → IsOrdinaryText body
    → length body + length (address_text a.my_id) ≤ buflen
    → buflen + 1 < 2 ^ 31
    → read_env.first_copy ≡ pos 0
    → read_env.second_copy ≡ pos 0
    → (ret : ℤ) × (a' : Adapter) × (w' : World) × (gf_bridge_write write_env
          (head ++ b':' ∷ body)
          a
          w
        ≡ done ret a' w')
      × (((ret ≡ error etimedout) × (a'.doorbell ≡ a.doorbell) × (0 < (w'.mem a.my_slot).buflen))
          ⊎ ((ret ≡ pos (length (head ++ b':' ∷ body)))
              × (a'.doorbell ≡ (r.my_id * 2 ^ 16 + a.my_id) ∷ a.doorbell)
              × Reaches env read_env a r vector body buflen (arriving a r w' own)))
exchange write_env env read_env a r w own b head body cid sid vector buflen l ticks spares opened
      sized slot_sized owner narrow copied plain fits goes ok named ordinary room small first
      second =
    let (ret, a', w', run, end) =
      gf_bridge_write-WriteEnd write_env a w b head body cid sid ticks spares opened sized
        slot_sized narrow copied plain fits goes ok in
    (
      ret,
      a',
      w',
      run,
      elim end.outcome [
        | inl timeout ↦ inl timeout
        | inr (sent, rang, posted, kept) ↦ inr (
          sent,
          rang
              ∙ ap (λ x. x ∷ a.doorbell)
                  (let sender = l.small in let receiver = l.near in omega (arith, named)),
          arrives env read_env a r vector (peer_of cid sid) body buflen w' own l posted
              (kept ∙ owner) ordinary room small first second,
        )
      ],
    )
