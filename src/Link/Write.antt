-- ===== src/Link/Write.antt =====
-- A CTL-Write message, from its text to the core structure.
use emer_gen_z.Base.{
  ℕ, ◌*◌, ◌%◌, ◌<◌, ◌^◌, ◌≡◌, refl, List, [], ◌∷◌, ◌++◌, arith, ℤ, pos, negsuc, IsInt, to_int_self,
  Option, none, some, true, false, ◌∙◌, ap, int_of_bits, ==-refl,
}
use emer_gen_z.Text.{streq_n}
use emer_gen_z.Text.Format.{sprintf, sscanf, int}
use emer_gen_z.Text.Format.RoundTrip.{sscanf-sprintf, Ends}
use emer_gen_z.Text.Decimal.{magnitude}
use emer_gen_z.Fee.{
  Mailslot, Core, Adapter, World, done, fault, update, load_core-run, store_core-run,
}
use emer_gen_z.Link.{
  CtlWrite, ctl_write_0_cid_sid, ctl_write_of, is_ping, is_peer_attribute, fee_link_request,
  answer_ctl_write, dispatch_link, stamp_peer, write_core, reply, acknowledgment_text,
}
use emer_gen_z.Outgoing.{Env, genz_fee_sid_cid_is_peer_id}
use emer_gen_z.Outgoing.Wait.{Ticks}
use emer_gen_z.Outgoing.Deliver.{fee_create_outgoing-total}
use emer_gen_z.Outgoing.Frame.{fee_create_outgoing-Kept}

-- the text of a message that carries the values
abbrev pub ctl_write_text : CtlWrite → List ℕ
ctl_write_text m =
    sprintf ctl_write_0_cid_sid
      (int m.pfmcid ∷ int m.pfmsid ∷ int m.cid ∷ int m.sid ∷ int m.tag ∷ [])

-- every value is a 32-bit `int`
pub record AreInts (m : CtlWrite) : Type 0 where
  pub pfmcid : IsInt m.pfmcid
  pub pfmsid : IsInt m.pfmsid
  pub cid : IsInt m.cid
  pub sid : IsInt m.sid
  pub tag : IsInt m.tag

magnitude-IsInt : (z : ℤ) → IsInt z → magnitude z < 10 ^ 20
magnitude-IsInt (pos n) h = omega arith
magnitude-IsInt (negsuc n) h = omega arith

scanned :
    (m : CtlWrite) (r : List ℕ)
    → AreInts m
    → Ends r
    → sscanf (ctl_write_text m ++ r) ctl_write_0_cid_sid
      ≡ m.pfmcid ∷ m.pfmsid ∷ m.cid ∷ m.sid ∷ m.tag ∷ []
scanned m r ints ends =
    sscanf-sprintf r ends ctl_write_0_cid_sid (m.pfmcid ∷ m.pfmsid ∷ m.cid ∷ m.sid ∷ m.tag ∷ [])
      (ground arith) refl
      (
        magnitude-IsInt m.pfmcid ints.pfmcid,
        (
          magnitude-IsInt m.pfmsid ints.pfmsid,
          (
            magnitude-IsInt m.cid ints.cid,
            (magnitude-IsInt m.sid ints.sid, (magnitude-IsInt m.tag ints.tag, tt)),
          ),
        ),
      )

-- `sscanf` gets every value of a CTL-Write back, whatever follows its end.
pub ctl_write_of-text :
    (m : CtlWrite) (s : Mailslot) (r : List ℕ)
    → AreInts m
    → Ends r
    → s.buf ≡ ctl_write_text m ++ r
    → ctl_write_of s ≡ some m
unfolding ctl_write_of
ctl_write_of-text m s r ints ends e =
    rw (e, scanned m r ints ends)
      (cc (
        to_int_self m.pfmcid ints.pfmcid,
        to_int_self m.pfmsid ints.pfmsid,
        to_int_self m.cid ints.cid,
        to_int_self m.sid ints.sid,
        to_int_self m.tag ints.tag,
      ))

not_ping :
    (m : CtlWrite) (s : Mailslot) (r : List ℕ)
    → s.buf ≡ ctl_write_text m ++ r
    → (is_ping s ≡ false) × (is_peer_attribute s ≡ false)
unfolding is_ping is_peer_attribute streq_n sprintf
not_ping m s r e = (rw e (ground arith), rw e refl)

module _ (env : Env) (p : ℕ) (a : Adapter) (w : World) (m : CtlWrite) (r : List ℕ)
    (ints : AreInts m) (ends : Ends r) (message : (w.mem p).buf ≡ ctl_write_text m ++ r) where
  -- the sender's slot with the ids in it
  abbrev pub stamped : Mailslot
  stamped = record (w.mem p) { peer_sid = 27; peer_cid = (w.mem p).peer_id * 100 % 2 ^ 64 }

  dispatched :
      fee_link_request env p a w
      ≡ answer_ctl_write env p stamped m a (record w { mem = update w.mem p stamped })
  unfolding fee_link_request dispatch_link stamp_peer
  dispatched = rw (
    (not_ping m stamped r message).0,
    (not_ping m stamped r message).1,
    ctl_write_of-text m stamped r ints ends message,
  )

  -- With no core structure behind the adapter the message ends in a NULL pointer.
  pub fee_link_request-fault : a.core ≡ none → fee_link_request env p a w ≡ fault
  fee_link_request-fault e = dispatched ∙ (unfold answer_ctl_write in rw e)

  module _ (q : ℕ) (c : Core) (points : a.core ≡ some q) (alive : w.cores q ≡ some c) where
    -- what the acknowledgment is sent from
    abbrev pub unlocked : Adapter
    unlocked = record a { incoming_slot_locked = false }

    abbrev received : World
    received = record w { mem = update (update w.mem p stamped) p (record stamped { buflen = 0 }) }

    abbrev pub written : World
    written = record w {
      mem = update (update w.mem p stamped) p (record stamped { buflen = 0 });
      cores = update w.cores q (some (write_core m c));
    }

    -- The sender's slot is free again, the values are in the core structure, the lock is released,
    -- and the tag is acknowledged.
    pub fee_link_request-reply :
        fee_link_request env p a w ≡ reply env stamped (acknowledgment_text m) unlocked written
    fee_link_request-reply =
        dispatched
        ∙ (unfold answer_ctl_write in
            rw (
              load_core-run unlocked received points alive,
              store_core-run (write_core m c) unlocked received points alive,
            ))

    -- The handler returns with the message handled, the lock released and the ids assigned.
    pub fee_link_request-assigns :
        Ticks env
        → (a' : Adapter) × (w' : World) × (fee_link_request env p a w ≡ done true a' w')
          × (a'.incoming_slot_locked ≡ false)
          × (w'.cores q
              ≡ some (record c {
                pfmcid = m.pfmcid;
                pfmsid = m.pfmsid;
                cid0 = m.cid;
                sid0 = m.sid;
                pmcid = negsuc 0;
              }))
    fee_link_request-assigns ticks =
        let (ret, a', w', run) =
          fee_create_outgoing-total env (int_of_bits stamped.peer_id) genz_fee_sid_cid_is_peer_id
            (acknowledgment_text m) unlocked written ticks in
        let kept =
          fee_create_outgoing-Kept env (int_of_bits stamped.peer_id) genz_fee_sid_cid_is_peer_id
            (acknowledgment_text m) unlocked written ret a' w' run in
        (
          a',
          w',
          fee_link_request-reply ∙ (unfold reply in rw run),
          ap (λ (b : Adapter). b.incoming_slot_locked) kept.adapter_kept,
          ap (λ (f : ℕ → Option Core). f q) kept.cores_kept ∙ (unfold write_core in rw ==-refl),
        )
