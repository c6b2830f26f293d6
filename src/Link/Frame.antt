-- ===== src/Link/Frame.antt =====
-- The lock and the reader's slot under `FEE_link_request`.
use emer_gen_z.Base.{
  ℕ, ◌≡◌, inl, inr, Bool, true, false, List, arith, if◌then◌else◌, Bool-cases, Option-cases, ◌∙◌,
  int_of_bits,
}
use emer_gen_z.Fee.{
  Mailslot, Adapter, World, done, update, and_then-done, load_core, store_core, load_core-done,
  store_core-done,
}
use emer_gen_z.Text.{codes}
use emer_gen_z.Outgoing.{Env, fee_create_outgoing, genz_fee_sid_cid_is_peer_id}
use emer_gen_z.Outgoing.Frame.{fee_create_outgoing-Kept}
use emer_gen_z.Link.{
  fee_link_request, dispatch_link, answer_ping, answer_peer_attribute, answer_ctl_write, reply,
  is_ping, is_peer_attribute, ctl_write_of, CtlWrite, stamp_peer, ack_text, acknowledgment_text,
  write_core,
}

-- Only the doorbell and the lock of the adapter change, and the lock is released exactly when the
-- message was handled.
abbrev pub LinkKept : Adapter → Bool → Adapter → Type 0
LinkKept a handled a' = a' ≡ record a {
  doorbell = a'.doorbell;
  incoming_slot_locked = if handled then false else a.incoming_slot_locked;
}

reply-LinkKept :
    (env : Env) (s : Mailslot) (buf : List ℕ) (a : Adapter) (w : World)
    → (h : Bool) (a' : Adapter) (w' : World)
    → reply env s buf (record a { incoming_slot_locked = false }) w ≡ done h a' w'
    → LinkKept a true a' × (h ≡ true) × (w'.cores ≡ w.cores)
unfolding reply
reply-LinkKept env s buf a w h a' w' e =
    let (ret, b, v, run, last) =
      and_then-done
        (fee_create_outgoing env (int_of_bits s.peer_id) genz_fee_sid_cid_is_peer_id buf
          (record a { incoming_slot_locked = false }) w)
        _ e in
    let k =
      fee_create_outgoing-Kept env (int_of_bits s.peer_id) genz_fee_sid_cid_is_peer_id buf
        (record a { incoming_slot_locked = false }) w ret b v run in
    let eh : h ≡ true = ground arith in
    let ea : a' ≡ b = ground arith in
    let ew : w' ≡ v = ground arith in (rw ea k.adapter_kept, eh, rw ew k.cores_kept)

-- behind a handled message
handled : (a a' : Adapter) (h : Bool) → LinkKept a true a' × (h ≡ true) → LinkKept a h a'
handled a a' h (k, e) = rw e k

answer_peer_attribute-LinkKept :
    (env : Env) (p : ℕ) (s : Mailslot) (a : Adapter) (w : World)
    → (h : Bool) (a' : Adapter) (w' : World) → answer_peer_attribute env p s a w ≡ done h a' w'
    → LinkKept a h a'
unfolding answer_peer_attribute
answer_peer_attribute-LinkKept env p s a w h a' w' e =
    let b = record a { incoming_slot_locked = false } in
    let v = record w { mem = update w.mem p (record s { buflen = 0 }) } in
    let (c, b', v', got, rest) = and_then-done (load_core b v) _ e in
    let r =
      reply-LinkKept env s (ack_text c) a v' h a' w' (rw (load_core-done b v got).0 at rest) in
    handled a a' h (r.0, r.1)

answer_ctl_write-LinkKept :
    (env : Env) (p : ℕ) (s : Mailslot) (m : CtlWrite) (a : Adapter) (w : World)
    → (h : Bool) (a' : Adapter) (w' : World) → answer_ctl_write env p s m a w ≡ done h a' w'
    → LinkKept a h a'
unfolding answer_ctl_write
answer_ctl_write-LinkKept env p s m a w h a' w' e =
    let b = record a { incoming_slot_locked = false } in
    let v = record w { mem = update w.mem p (record s { buflen = 0 }) } in
    let (c, b', v', got, rest) = and_then-done (load_core b v) _ e in
    let (_, b'', v'', put, last) = and_then-done (store_core (write_core m c) b' v') _ rest in
    let eb : b'' ≡ b =
      (store_core-done (write_core m c) b' v' put).0 ∙ (load_core-done b v got).0 in
    let r = reply-LinkKept env s (acknowledgment_text m) a v'' h a' w' (rw eb at last) in
    handled a a' h (r.0, r.1)

dispatch_link-LinkKept :
    (env : Env) (p : ℕ) (s : Mailslot) (a : Adapter) (w : World)
    → (h : Bool) (a' : Adapter) (w' : World) → dispatch_link env p s a w ≡ done h a' w'
    → LinkKept a h a'
unfolding dispatch_link answer_ping
dispatch_link-LinkKept env p s a w h a' w' e = elim (Bool-cases (is_ping s)) [
  | inl ping ↦
      let r = reply-LinkKept env s (codes "pong") a _ h a' w' (rw ping at e) in
      handled a a' h (r.0, r.1)
  | inr other ↦ elim (Bool-cases (is_peer_attribute s)) [
    | inl attribute ↦
        answer_peer_attribute-LinkKept env p s a w h a' w' (rw (other, attribute) at e)
    | inr other' ↦ elim (Option-cases (ctl_write_of s)) [
      | inl ordinary ↦ let e' = rw (other, other', ordinary) at e in ground arith
      | inr (m, write) ↦
          answer_ctl_write-LinkKept env p s m a w h a' w' (rw (other, other', write) at e)
    ]
  ]
]

-- When the link layer returns, the lock is released exactly if the message was handled, and of the
-- adapter nothing but the lock and the doorbell has changed.
pub fee_link_request-LinkKept :
    (env : Env) (p : ℕ) (a : Adapter) (w : World)
    → (h : Bool) (a' : Adapter) (w' : World) → fee_link_request env p a w ≡ done h a' w'
    → LinkKept a h a'
unfolding fee_link_request
fee_link_request-LinkKept env p a w h a' w' e =
    dispatch_link-LinkKept env p (stamp_peer (w.mem p)) a _ h a' w' e
