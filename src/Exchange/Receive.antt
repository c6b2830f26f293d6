-- ===== src/Exchange/Receive.antt =====
-- The receiver's half: the sender's interrupt and a read give the message, and free the slot.
use emer_gen_z.Base.{
  ℕ, ◌+◌, ◌-◌, ◌*◌, ◌%◌, ◌^◌, ◌≤◌, ◌<◌, ◌≡◌, refl, ◌≢◌, true, false, none, some, List, [], ◌∷◌,
  ◌++◌, arith, length, take, get_elem?, length-append, pos, ◌∙◌, ap, sym,
}
use mathlib.Core.Path.{subst}
use emer_gen_z.Text.{codes}
use emer_gen_z.Text.Decimal.{decimal, decimal_int, length-decimal_int}
use emer_gen_z.Fee.{MsixEntry, Mailslot, Adapter, World, done, update, update_self, update_other}
use emer_gen_z.Mailbox.{calculate_mailslot}
use emer_gen_z.Outgoing.{Env}
use emer_gen_z.Link.{stamp_peer}
use emer_gen_z.Msix.Handler.{match_vector, hit, all_msix}
use emer_gen_z.Msix.Deliver.{match_vector-finds, all_msix-delivers}
use emer_gen_z.Bridge.Read.{ReadEnv, sidcid_text, gf_bridge_read}
use emer_gen_z.Bridge.Read.Laws.{gf_bridge_read-fits}
use emer_gen_z.Exchange.Send.{Posted}
use emer_gen_z.Exchange.Ordinary.{IsOrdinaryText, IsOrdinaryText-stamped}

-- the table of an adapter has the client's event, and no earlier event has its vector
pub record Hears (r : Adapter) (client vector : ℕ) : Type 0 where
  pub table : List MsixEntry
  pub event : MsixEntry
  pub pointer : r.irq_private ≡ some table
  pub room : r.globals.n_events ≤ length table
  pub low : 1 ≤ client
  pub high : client < r.globals.n_events
  pub at : get_elem? table client ≡ some event
  pub vector_of : event.vector ≡ vector
  pub entry_of : event.entry ≡ client
  pub first :
      (l : ℕ) (d : MsixEntry) → 1 ≤ l → l < client → get_elem? table l ≡ some d → d.vector ≢ vector

pub Hears-match :
    {r : Adapter} {client vector : ℕ} (h : Hears r client vector)
    → match_vector h.table vector (r.globals.n_events - 1) 1 ≡ hit h.event
Hears-match {r} {client} {vector} h =
    let high : client < r.globals.n_events = h.high in
    match_vector-finds h.table vector (r.globals.n_events - 1) 1 client h.event h.low
      (omega (arith, high)) h.at h.vector_of (omega (arith, high, h.room)) h.first

-- "CID,SID:" of a client
abbrev pub address_text : ℕ → List ℕ
address_text client = decimal (client * 100) ++ codes ",27:"

stamped_text :
    (s : Mailslot) (client : ℕ)
    → client < 2 ^ 16
    → s.peer_id ≡ client
    → sidcid_text (stamp_peer s) ≡ address_text client
unfolding sidcid_text stamp_peer decimal
stamped_text s client small e =
    let m : s.peer_id * 100 % 2 ^ 64 ≡ client * 100 = omega arith in rw m refl

address_text_bound : (client : ℕ) → client < 2 ^ 16 → length (address_text client) ≤ 30
unfolding decimal_int
address_text_bound client small = omega (
  arith,
  length-append (decimal (client * 100)) (codes ",27:"),
  length-decimal_int (pos (client * 100)) (omega arith),
)

-- a text of the client waits in slot `p` for the adapter's interrupt
pub record Arrived (r : Adapter) (w : World) (client vector p : ℕ) (body : List ℕ) : Type 0 where
  pub hears : Hears r client vector
  pub place : calculate_mailslot r.globals client ≡ some p
  pub peer : ℕ
  pub posted : Posted w.mem p peer body
  pub owned : (w.mem p).peer_id ≡ client
  pub small : client < 2 ^ 16
  pub ordinary : IsOrdinaryText body

module _ (r : Adapter) (w : World) (p : ℕ) where
  -- what the interrupt leaves
  abbrev pub told : Adapter
  told = record r { incoming_slot = some p; incoming_slot_locked = false }

  abbrev pub stamped : World
  stamped = record w { mem = update w.mem p (stamp_peer (w.mem p)) }

  -- what the read leaves
  abbrev pub relieved : Adapter
  relieved = record r { incoming_slot = none; incoming_slot_locked = false }

  abbrev pub freed : World
  freed = record w { mem = update stamped.mem p (record (stamped.mem p) { buflen = 0 }) }

module _ {r : Adapter} {w : World} {client vector p : ℕ} {body : List ℕ}
    (mail : Arrived r w client vector p body) where
  pub interrupt_run : (env : Env) → all_msix env vector r w ≡ done true (told r w p) (stamped r w p)
  interrupt_run env =
      all_msix-delivers env vector r w mail.hears.table mail.hears.event p mail.hears.pointer
        (Hears-match mail.hears)
        (ap (calculate_mailslot r.globals) mail.hears.entry_of ∙ mail.place)
        (IsOrdinaryText-stamped body (w.mem p) mail.ordinary mail.posted.buflen_set
          mail.posted.payload mail.posted.terminated)

  -- A text of a client that is no text of the link layer, in the client's slot, and an interrupt whose
  -- vector is that of the client's event and of no earlier one: the handler handles it, hands the slot
  -- to the reader with the lock released and nothing else of the adapter changed, and leaves the text,
  -- its length and its sender in the slot, the sender's ids added, and all other slots and the core
  -- structures as they were.
  pub all_msix-announces :
      (env : Env)
      → (a' : Adapter) × (w' : World) × (all_msix env vector r w ≡ done true a' w')
        × (a' ≡ record r { incoming_slot = some p; incoming_slot_locked = false })
        × (w'.mem p ≡ record (w.mem p) { peer_sid = 27; peer_cid = client * 100 })
        × (take (w'.mem p).buflen (w'.mem p).buf ≡ body)
        × ((q : ℕ) → q ≢ p → w'.mem q ≡ w.mem q)
        × (w'.cores ≡ w.cores)
  unfolding stamp_peer
  all_msix-announces env =
      let at : (stamped r w p).mem p ≡ stamp_peer (w.mem p) =
        update_self w.mem p (stamp_peer (w.mem p)) in
      let cid : (w.mem p).peer_id * 100 % 2 ^ 64 ≡ client * 100 =
        let small = mail.small in let owned = mail.owned in omega (arith, small, owned) in
      let is : (stamped r w p).mem p ≡ record (w.mem p) { peer_sid = 27; peer_cid = client * 100 } =
        at ∙ ap (λ n. record (w.mem p) { peer_sid = 27; peer_cid = n }) cid in
      (
        told r w p,
        stamped r w p,
        interrupt_run env,
        refl,
        is,
        ap (λ (s : Mailslot). take s.buflen s.buf) is
            ∙ (ap (λ n. take n (w.mem p).buf) mail.posted.buflen_set ∙ mail.posted.payload),
        (λ q ne. update_other w.mem p q (stamp_peer (w.mem p)) ne),
        refl,
      )

  stamped_slot : (stamped r w p).mem p ≡ stamp_peer (w.mem p)
  stamped_slot = update_self w.mem p (stamp_peer (w.mem p))

  ids : sidcid_text ((stamped r w p).mem p) ≡ address_text client
  ids = ap sidcid_text stamped_slot ∙ stamped_text (w.mem p) client mail.small mail.owned

  size : ((stamped r w p).mem p).buflen ≡ length body
  unfolding stamp_peer
  size = ap (λ (s : Mailslot). s.buflen) stamped_slot ∙ mail.posted.buflen_set

  bytes : take ((stamped r w p).mem p).buflen ((stamped r w p).mem p).buf ≡ body
  unfolding stamp_peer
  bytes =
      ap (λ (n : ℕ). take n ((stamped r w p).mem p).buf) size
      ∙ (ap (λ (s : Mailslot). take (length body) s.buf) stamped_slot ∙ mail.posted.payload)

  -- what the reader gets
  abbrev pub address : List ℕ
  address = address_text client

  pub read_run :
      (read_env : ReadEnv) (buflen : ℕ)
      → length body + length address ≤ buflen
      → buflen + 1 < 2 ^ 31
      → read_env.first_copy ≡ pos 0
      → read_env.second_copy ≡ pos 0
      → gf_bridge_read read_env buflen (told r w p) (stamped r w p)
        ≡ done
            (record {
              ret = pos (length body + length address);
              copies = (0, address) ∷ (length address, body) ∷ [];
              rewinds = true;
            })
            (relieved r w p)
            (freed r w p)
  read_run read_env buflen room narrow first second =
      gf_bridge_read-fits read_env (told r w p) (stamped r w p) p refl buflen
        (subst (λ (t : List ℕ). length t ≤ 30) (sym ids) (address_text_bound client mail.small))
        (subst (λ (t : List ℕ). ((stamped r w p).mem p).buflen + length t ≤ buflen) (sym ids)
          (subst (λ (n : ℕ). n + length address ≤ buflen) (sym size) room))
        narrow first second
      ∙ ap
          (λ (x : (List ℕ) × ℕ × (List ℕ)).
            done
              (record {
                ret = pos (x.1 + length x.0);
                copies = (0, x.0) ∷ (length x.0, x.2) ∷ [];
                rewinds = true;
              })
              (relieved r w p) (freed r w p))
          same
    where
      same :
          ◌≡◌ {A = (List ℕ) × ℕ × (List ℕ)}
            (
              sidcid_text ((stamped r w p).mem p),
              ((stamped r w p).mem p).buflen,
              take ((stamped r w p).mem p).buflen ((stamped r w p).mem p).buf,
            )
            (address, length body, body)
      same = λ i. (ids i, size i, bytes i)
