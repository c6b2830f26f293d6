-- ===== src/Link/Acknowledge.antt =====
-- The acknowledgment of a CTL-Write, from the sender's text to the own slot.
use emer_gen_z.Base.{
  ℕ, ◌*◌, ◌%◌, ◌<◌, ◌≤◌, ◌^◌, ◌≡◌, ◌≢◌, refl, List, ◌++◌, arith, Option, some, true, false, negsuc,
  ==-refl, sym, inr, length, ◌∙◌, ap, int_of_bits,
}
use emer_gen_z.Text.Format.{sprintf}
use emer_gen_z.Text.Format.RoundTrip.{Ends}
use emer_gen_z.Fee.{Mailslot, Core, Adapter, World, done, update, update_other}
use emer_gen_z.Outgoing.{Env, peer_of, genz_fee_sid_cid_is_peer_id}
use emer_gen_z.Outgoing.Wait.{Ticks}
use emer_gen_z.Outgoing.Deliver.{Acceptable}
use emer_gen_z.Outgoing.Frame.{fee_create_outgoing-Kept}
use emer_gen_z.Outgoing.Liveness.{fee_create_outgoing-gets_out}
use emer_gen_z.Exchange.Send.{Spares, Waited-size, Posted, ringing}
use emer_gen_z.Link.{CtlWrite, fee_link_request, reply, write_core, acknowledgment_text}
use emer_gen_z.Link.Replies.{acknowledgment_text_fits}
use emer_gen_z.Link.Write.{AreInts, ctl_write_text, fee_link_request-reply}

peer_of-peer_id : (n : ℕ) → n < 2 ^ 31 → peer_of (int_of_bits n) genz_fee_sid_cid_is_peer_id ≡ n
unfolding peer_of
peer_of-peer_id n h = ground arith

acknowledgment_text-nonempty : (m : CtlWrite) → 0 < length (acknowledgment_text m)
unfolding acknowledgment_text sprintf
acknowledgment_text-nonempty m = omega arith

module _ (env : Env) (p : ℕ) (a : Adapter) (w : World) (m : CtlWrite) (r : List ℕ)
    (ints : AreInts m) (ends : Ends r) (message : (w.mem p).buf ≡ ctl_write_text m ++ r) (q : ℕ)
    (c : Core) (points : a.core ≡ some q) (alive : w.cores q ≡ some c) where
  -- A CTL-Write text of 32-bit values in the slot of a client, for an adapter with a live core structure
  -- whose own slot is free, as large as announced and left in its size by the others, and with room for
  -- any answer, on a clock that ticks: the handler returns with the message handled, the lock released,
  -- the ids in the core structure, and the tag's acknowledgment, NUL-terminated and addressed to the
  -- sender, in the own slot, with the sender's doorbell rung once.
  pub fee_link_request-acknowledges :
      Ticks env
      → 0 < env.hz
      → Spares env a.my_slot
      → p ≢ a.my_slot
      → (w.mem a.my_slot).buflen ≡ 0
      → length (w.mem a.my_slot).buf ≡ a.max_buflen
      → 128 ≤ a.max_buflen
      → 1 ≤ (w.mem p).peer_id
      → (w.mem p).peer_id ≤ a.globals.server_id
      → a.globals.server_id < 2 ^ 31
      → (a' : Adapter) × (w' : World) × (fee_link_request env p a w ≡ done true a' w')
        × (a' ≡ record a { incoming_slot_locked = false; doorbell = ringing a (w.mem p).peer_id })
        × (w'.cores q
            ≡ some (record c {
              pfmcid = m.pfmcid;
              pfmsid = m.pfmsid;
              cid0 = m.cid;
              sid0 = m.sid;
              pmcid = negsuc 0;
            }))
        × Posted w'.mem a.my_slot (w.mem p).peer_id (acknowledgment_text m)
  fee_link_request-acknowledges ticks running spares ne free sized room lowest highest narrow =
      let s : Mailslot = record (w.mem p) {
        peer_sid = 27;
        peer_cid = (w.mem p).peer_id * 100 % 2 ^ 64;
      } in
      let u : Adapter = record a { incoming_slot_locked = false } in
      let v : World = record w {
        mem = update (update w.mem p s) p (record s { buflen = 0 });
        cores = update w.cores q (some (write_core m c));
      } in
      let own : v.mem a.my_slot ≡ w.mem a.my_slot =
        update_other (update w.mem p s) p a.my_slot (record s { buflen = 0 }) (λ e. ne (sym e))
        ∙ update_other w.mem p a.my_slot s (λ e. ne (sym e)) in
      let peer : peer_of (int_of_bits s.peer_id) genz_fee_sid_cid_is_peer_id ≡ (w.mem p).peer_id =
        peer_of-peer_id (w.mem p).peer_id (omega arith) in
      let short = acknowledgment_text_fits m ints.tag in
      let ok : Acceptable (int_of_bits s.peer_id) genz_fee_sid_cid_is_peer_id
          (acknowledgment_text m) u =
        record {
          routed = inr refl;
          lowest = omega (arith, peer);
          highest = omega (arith, peer);
          fits = omega (arith, short);
          nonempty = acknowledgment_text-nonempty m;
        } in
      let (ret, a', w', run, sent) =
        fee_create_outgoing-gets_out env (int_of_bits s.peer_id) genz_fee_sid_cid_is_peer_id
          (acknowledgment_text m) u v 0 ticks
          (record { running = running; in_time = λ k d below. absurd (omega arith) }) (omega arith)
          (omega (arith, short)) ok
          (λ m' waited.
            Waited-size spares waited ∙ (ap (λ (x : Mailslot). length x.buf) own ∙ sized))
          (ap (λ (x : Mailslot). x.buflen) own ∙ free) in
      let kept =
        fee_create_outgoing-Kept env (int_of_bits s.peer_id) genz_fee_sid_cid_is_peer_id
          (acknowledgment_text m) u v ret a' w' run in
      (
        a',
        w',
        fee_link_request-reply env p a w m r ints ends message q c points alive
            ∙ (unfold reply in rw run),
        sent.rang ∙ ap (λ n. record u { doorbell = ringing a n }) peer,
        ap (λ (f : ℕ → Option Core). f q) kept.cores_kept ∙ (unfold write_core in rw ==-refl),
        record {
          buflen_set = sent.buflen_set;
          responder_set = sent.responder_set ∙ peer;
          payload = sent.payload;
          terminated = sent.terminated;
        },
      )
