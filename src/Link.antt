-- ===== src/Link.antt =====
-- `FEE_link_request` of shim_bridge/fee_link.c: link-level messages, answered in the interrupt.
-- It is entered with the incoming-slot lock held.
pub mod Frame
pub mod Replies
pub mod Write
pub mod Acknowledge
use emer_gen_z.Base.{
  ℕ, ◌*◌, ◌%◌, ◌^◌, ◌==◌, Bool, true, false, ◌&&◌, Option, none, some, List, [], ◌∷◌, if◌then◌else◌,
  ℤ, pos, negsuc, to_int, int_of_bits, length,
}
use emer_gen_z.Text.{codes, c_string, streq_n}
use emer_gen_z.Text.Format.{Directive, lits, blank, dec, str, Arg, int, text, sprintf, sscanf}
use emer_gen_z.Fee.{
  Mailslot, Core, Adapter, World, Cmd, pure, ◌>>=◌, ◌>>◌, load_slot, store_slot, load_core,
  store_core, spin_unlock,
}
use emer_gen_z.Outgoing.{Env, fee_create_outgoing, genz_fee_sid_cid_is_peer_id}

abbrev pub link_ctl_peer_attribute : List ℕ
link_ctl_peer_attribute = codes "Link CTL Peer-Attribute"

-- "Link CTL ACK C-Class=%s,CID0=%d,SID0=%d"
abbrev pub link_ctl_ack : List Directive
link_ctl_ack = lits (codes "Link") (
    blank
    ∷ lits (codes "CTL") (
        blank
        ∷ lits (codes "ACK") (
            blank
            ∷ lits (codes "C-Class=")
                (str ∷ lits (codes ",CID0=") (dec ∷ lits (codes ",SID0=") (dec ∷ []))))))

-- "CTL-Write Space=0,PFMCID=%d,PFMSID=%d,CID=%d,SID=%d,Tag=%d"
abbrev pub ctl_write_0_cid_sid : List Directive
ctl_write_0_cid_sid = lits (codes "CTL-Write") (
    blank
    ∷ lits (codes "Space=0,PFMCID=") (
        dec
        ∷ lits (codes ",PFMSID=") (
            dec
            ∷ lits (codes ",CID=")
                (dec ∷ lits (codes ",SID=") (dec ∷ lits (codes ",Tag=") (dec ∷ []))))))

-- "Standalone Acknowledgment Tag=%d,Reason=OK"
abbrev pub standalone_acknowledgment : List Directive
standalone_acknowledgment = lits (codes "Standalone") (
    blank
    ∷ lits (codes "Acknowledgment")
        (blank ∷ lits (codes "Tag=") (dec ∷ lits (codes ",Reason=OK") [])))

-- the fixed ids that every message is stamped with
unfoldable pub stamp_peer : Mailslot → Mailslot
stamp_peer s = record s { peer_sid = 27; peer_cid = s.peer_id * 100 % 2 ^ 64 }

unfoldable pub is_ping : Mailslot → Bool
is_ping s = s.buflen == 4 && streq_n s.buf (codes "ping") 4

unfoldable pub is_peer_attribute : Mailslot → Bool
is_peer_attribute s = streq_n s.buf link_ctl_peer_attribute (length link_ctl_peer_attribute)

-- what a CTL-Write carries: all five values, or the message is none
pub record CtlWrite : Type 0 where
  pub pfmcid : ℤ
  pub pfmsid : ℤ
  pub cid : ℤ
  pub sid : ℤ
  pub tag : ℤ

abbrev pub five : List ℤ → Option CtlWrite
five (p ∷ q ∷ c ∷ s ∷ t ∷ []) = some (record {
  pfmcid = to_int p;
  pfmsid = to_int q;
  cid = to_int c;
  sid = to_int s;
  tag = to_int t;
})
five _ = none

unfoldable pub ctl_write_of : Mailslot → Option CtlWrite
ctl_write_of s = five (sscanf s.buf ctl_write_0_cid_sid)

unfoldable pub write_core : CtlWrite → Core → Core
write_core m c = record c {
  pfmcid = m.pfmcid;
  pfmsid = m.pfmsid;
  cid0 = m.cid;
  sid0 = m.sid;
  pmcid = negsuc 0;
}

unfoldable pub ack_text : Core → List ℕ
ack_text c =
    sprintf link_ctl_ack (text (c_string c.base_c_class_str) ∷ int c.cid0 ∷ int c.sid0 ∷ [])

unfoldable pub acknowledgment_text : CtlWrite → List ℕ
acknowledgment_text m = sprintf standalone_acknowledgment (int m.tag ∷ [])

-- `buflen = 0` in the sender's slot, and the lock goes
abbrev pub receive : (p : ℕ) → Mailslot → Cmd (Unit {0})
receive p s = store_slot p (record s { buflen = 0 }) >> spin_unlock

-- an answer to the sender; the result of sending is not looked at
unfoldable pub reply : Env → Mailslot → List ℕ → Cmd Bool
reply env s buf =
    fee_create_outgoing env (int_of_bits s.peer_id) genz_fee_sid_cid_is_peer_id buf >>= λ _.
    pure true

unfoldable pub answer_ping : Env → (p : ℕ) → Mailslot → Cmd Bool
answer_ping env p s = receive p s >> reply env s (codes "pong")

unfoldable pub answer_peer_attribute : Env → (p : ℕ) → Mailslot → Cmd Bool
answer_peer_attribute env p s = receive p s >> (load_core >>= λ c. reply env s (ack_text c))

unfoldable pub answer_ctl_write : Env → (p : ℕ) → Mailslot → CtlWrite → Cmd Bool
answer_ctl_write env p s m =
    receive p s
    >> (load_core >>= λ c. store_core (write_core m c) >> reply env s (acknowledgment_text m))

-- `true` is IRQ_HANDLED, `false` is IRQ_NONE.
unfoldable pub dispatch_link : Env → (p : ℕ) → Mailslot → Cmd Bool
dispatch_link env p s =
    if is_ping s
    then answer_ping env p s
    else if is_peer_attribute s
    then answer_peer_attribute env p s
    else elim (ctl_write_of s) [ none ↦ pure false | some m ↦ answer_ctl_write env p s m ]

unfoldable pub fee_link_request : Env → (p : ℕ) → Cmd Bool
fee_link_request env p = do
  s ← load_slot p
  store_slot p (stamp_peer s)
  dispatch_link env p (stamp_peer s)
