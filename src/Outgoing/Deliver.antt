-- ===== src/Outgoing/Deliver.antt =====
-- What `FEE_create_outgoing` does with a message: it is refused, or it waits, and then the own slot
-- is still busy or the message is in it and the peer's doorbell has rung once.
use emer_gen_z.Base.{
  ℕ, ◌+◌, ◌*◌, ◌%◌, ◌^◌, ◌≤◌, ◌<◌, ◌≡◌, refl, ◌≢◌, ◌⊎◌, inl, inr, none, some, List, ◌∷◌, arith, ltb,
  length, take, get_elem?, set, ℤ, pos, negsuc, error, int_of_bits, enetunreach, ebadslt, e2big,
  enodata, erestartsys, length-set, get_elem?-set_self, take-overwrite, get_elem?-overwrite_after,
  Bool-cases, Option-cases, ◌∙◌,
}
use mathlib.Core.Path.{subst}
use emer_gen_z.Fee.{Mailslot, Adapter, Mem, World, done, update}
use emer_gen_z.Outgoing.{
  Env, peer_of, refuse_outgoing, await_my_slot, post_outgoing, fill_slot, ringer, hw_timeout_of,
  wait_fuel, raise_longest, fee_create_outgoing,
}
use emer_gen_z.Outgoing.Wait.{Ticks, await_my_slot-total, Waited, awake, await_my_slot-Waited}

-- a message that can go out: a known subnet, a mailslot of a client or of the server, and a length
-- between 1 and what a slot holds beside the NUL
pub record Acceptable (cid sid : ℤ) (buf : List ℕ) (a : Adapter) : Type 0 where
  pub routed : (sid ≡ pos 27) ⊎ (sid ≡ negsuc 41)
  pub lowest : 1 ≤ peer_of cid sid
  pub highest : peer_of cid sid ≤ a.globals.server_id
  pub fits : length buf < a.max_buflen
  pub nonempty : 0 < length buf

-- the four ways to be refused
abbrev pub IsRefusal : ℕ → Type 0
IsRefusal e = (e ≡ enetunreach) ⊎ (e ≡ ebadslt) ⊎ (e ≡ e2big) ⊎ (e ≡ enodata)

-- what is left behind by a message that went out
pub record Sent (env : Env) (peer : ℕ) (buf : List ℕ) (a : Adapter) (w : World) (ret : ℤ)
    (a' : Adapter) (w' : World) : Type 0 where
  pub before : Mem
  pub waited : Waited env w.mem before
  pub was_free : (before a.my_slot).buflen ≡ 0
  pub returned : ret ≡ int_of_bits (length buf)
  pub buflen_set : (w'.mem a.my_slot).buflen ≡ length buf
  pub responder_set : (w'.mem a.my_slot).last_responder ≡ peer
  pub payload : take (length buf) (w'.mem a.my_slot).buf ≡ buf
  pub terminated : get_elem? (w'.mem a.my_slot).buf (length buf) ≡ some 0
  pub owner_kept : (w'.mem a.my_slot).peer_id ≡ (before a.my_slot).peer_id
  pub others_kept : (p : ℕ) → p ≢ a.my_slot → w'.mem p ≡ before p
  pub rang : a' ≡ record a { doorbell = (peer % 2 ^ 16 * 2 ^ 16 + a.my_id % 2 ^ 16) ∷ a.doorbell }

refuse_outgoing-Acceptable :
    (cid sid : ℤ) (buf : List ℕ) (a : Adapter)
    → Acceptable cid sid buf a
    → refuse_outgoing cid sid (length buf) a ≡ none
unfolding refuse_outgoing
refuse_outgoing-Acceptable cid sid buf a ok = ground arith

pub refuse_outgoing-none :
    (cid sid : ℤ) (buf : List ℕ) (a : Adapter)
    → refuse_outgoing cid sid (length buf) a ≡ none
    → Acceptable cid sid buf a
unfolding refuse_outgoing
refuse_outgoing-none cid sid buf a e = record {
  routed = ground arith;
  lowest = ground arith;
  highest = ground arith;
  fits = ground arith;
  nonempty = ground arith;
}

refuse_outgoing-IsRefusal :
    (cid sid : ℤ) (n : ℕ) (a : Adapter) (e : ℕ) → refuse_outgoing cid sid n a ≡ some e → IsRefusal e
unfolding refuse_outgoing
refuse_outgoing-IsRefusal cid sid n a e h = ground arith

-- the run behind the guards, at the time and the memory where the wait ends
pub after_wait :
    (env : Env) (cid sid : ℤ) (buf : List ℕ) (a : Adapter) (w : World) (t : ℕ) (m : Mem)
    → Acceptable cid sid buf a
    → await_my_slot env a.my_slot (hw_timeout_of env) (wait_fuel env) 0 1 0 w.mem ≡ some (t, m)
    → fee_create_outgoing env cid sid buf a w
      ≡ post_outgoing buf
          (peer_of cid sid)
          a
          (record w { mem = m; longest = raise_longest (hw_timeout_of env) t w.longest })
unfolding fee_create_outgoing
after_wait env cid sid buf a w t m ok e =
    rw (refuse_outgoing-Acceptable cid sid buf a ok, fee_create_outgoing, e)

refused_run :
    (env : Env) (cid sid : ℤ) (buf : List ℕ) (a : Adapter) (w : World) (e : ℕ)
    → refuse_outgoing cid sid (length buf) a ≡ some e
    → fee_create_outgoing env cid sid buf a w ≡ done (error e) a w
unfolding fee_create_outgoing
refused_run env cid sid buf a w e h = rw (h, fee_create_outgoing)

pub post_outgoing-total :
    (buf : List ℕ) (peer : ℕ) (a : Adapter) (w : World)
    → (ret : ℤ) × (a' : Adapter) × (w' : World) × (post_outgoing buf peer a w ≡ done ret a' w')
unfolding post_outgoing
post_outgoing-total buf peer a w = elim (Bool-cases (ltb 0 (w.mem a.my_slot).buflen)) [
  | inl busy ↦ (error erestartsys, a, w, rw busy refl)
  | inr free ↦ (
    int_of_bits (length buf),
    record a { doorbell = ringer peer a.my_id ∷ a.doorbell },
    record w { mem = update w.mem a.my_slot (fill_slot buf peer (w.mem a.my_slot)) },
    rw free refl,
  )
]

-- On a clock that ticks a call to send ends with a result, whatever the other clients do to the
-- shared slots meanwhile.
pub fee_create_outgoing-total :
    (env : Env) (cid sid : ℤ) (buf : List ℕ) (a : Adapter) (w : World)
    → Ticks env
    → (ret : ℤ) × (a' : Adapter) × (w' : World) × (fee_create_outgoing env cid sid buf a w
        ≡ done ret a' w')
fee_create_outgoing-total env cid sid buf a w ticks =
    elim (Option-cases (refuse_outgoing cid sid (length buf) a)) [
      | inl accepted ↦
          let (t, m, e) = await_my_slot-total env ticks a.my_slot w.mem in
          let (ret, a', w', sent) =
            post_outgoing-total buf (peer_of cid sid) a
              (record w { mem = m; longest = raise_longest (hw_timeout_of env) t w.longest }) in
          (
            ret,
            a',
            w',
            after_wait env cid sid buf a w t m (refuse_outgoing-none cid sid buf a accepted) e
                ∙ sent,
          )
      | inr (e, refused) ↦ (error e, a, w, refused_run env cid sid buf a w e refused)
    ]

-- A message that is not acceptable is refused with one of four errors, and neither the adapter nor
-- the world changes.
pub fee_create_outgoing-refuses :
    (env : Env) (cid sid : ℤ) (buf : List ℕ) (a : Adapter) (w : World)
    → ¬ (Acceptable cid sid buf a)
    → (e : ℕ) × IsRefusal e × (fee_create_outgoing env cid sid buf a w ≡ done (error e) a w)
fee_create_outgoing-refuses env cid sid buf a w bad =
    elim (Option-cases (refuse_outgoing cid sid (length buf) a)) [
      | inl accepted ↦ absurd (bad (refuse_outgoing-none cid sid buf a accepted))
      | inr (e, refused) ↦ (
        e,
        refuse_outgoing-IsRefusal cid sid (length buf) a e refused,
        refused_run env cid sid buf a w e refused,
      )
    ]

-- the slot after `post_outgoing`
module _ (buf : List ℕ) (peer : ℕ) (s : Mailslot) (fits : length buf < length s.buf) where
  fill_slot-payload : take (length buf) (fill_slot buf peer s).buf ≡ buf
  unfolding fill_slot
  fill_slot-payload =
      take-overwrite buf (set s.buf (length buf) 0) (omega (arith, length-set s.buf (length buf) 0))

  fill_slot-terminated : get_elem? (fill_slot buf peer s).buf (length buf) ≡ some 0
  unfolding fill_slot
  fill_slot-terminated =
      get_elem?-overwrite_after buf (set s.buf (length buf) 0) (length buf) (omega arith)
      ∙ get_elem?-set_self s.buf (length buf) 0 fits

-- what `post_outgoing` leaves, once the slot is free
pub post_outgoing-Sent :
    (env : Env) (buf : List ℕ) (peer : ℕ) (a : Adapter) (w : World) (m : Mem) (n : ℕ)
    → length buf < length (m a.my_slot).buf
    → Waited env w.mem m
    → (ret : ℤ) (a' : Adapter) (w' : World)
    → post_outgoing buf peer a (record w { mem = m; longest = n }) ≡ done ret a' w'
    → ((ret ≡ error erestartsys)
        × (a' ≡ a)
        × (0 < (w'.mem a.my_slot).buflen)
        × Waited env w.mem w'.mem)
      ⊎ Sent env peer buf a w ret a' w'
unfolding post_outgoing
post_outgoing-Sent env buf peer a w m n fits waited ret a' w' e =
    elim (Bool-cases (ltb 0 (m a.my_slot).buflen)) [
      | inl busy ↦
          let at : (ret ≡ error erestartsys)
              × (a' ≡ a)
              × (m ≡ w'.mem)
              × (0 < (m a.my_slot).buflen) =
            ground arith in
          inl (at.0, at.1, rw at.2 at at.3, subst (Waited env w.mem) at.2 waited)
      | inr free ↦
          let at : (w'.mem a.my_slot ≡ fill_slot buf peer (m a.my_slot))
              × (ret ≡ int_of_bits (length buf))
              × (a' ≡ record a { doorbell = ringer peer a.my_id ∷ a.doorbell }) =
            ground arith in
          inr (record {
            before = m;
            waited = waited;
            was_free = ground arith;
            returned = at.1;
            buflen_set = rw at.0 (unfold fill_slot in refl);
            responder_set = rw at.0 (unfold fill_slot in refl);
            payload = rw at.0 (fill_slot-payload buf peer (m a.my_slot) fits);
            terminated = rw at.0 (fill_slot-terminated buf peer (m a.my_slot) fits);
            owner_kept = rw at.0 (unfold fill_slot in refl);
            others_kept = λ p ne. ground arith;
            rang = unfold ringer in at.2;
          })
    ]

-- An acceptable message, on a clock that ticks and with a slot as large as announced, either finds
-- the own slot still busy when the wait is over, which returns -ERESTARTSYS with the adapter as it
-- was, or lies NUL-terminated in the own slot with its length and its receiver, every other slot as
-- the wait left it, and the receiver's doorbell has been rung once with the sender's vector.
pub fee_create_outgoing-sends :
    (env : Env) (cid sid : ℤ) (buf : List ℕ) (a : Adapter) (w : World)
    → Ticks env
    → Acceptable cid sid buf a
    → ((m : Mem) → Waited env w.mem m → length (m a.my_slot).buf ≡ a.max_buflen)
    → (ret : ℤ) × (a' : Adapter) × (w' : World) × (fee_create_outgoing env cid sid buf a w
        ≡ done ret a' w')
      × (((ret ≡ error erestartsys)
            × (a' ≡ a)
            × (0 < (w'.mem a.my_slot).buflen)
            × Waited env w.mem w'.mem)
          ⊎ Sent env (peer_of cid sid) buf a w ret a' w')
fee_create_outgoing-sends env cid sid buf a w ticks ok sized =
    let (t, m, e) = await_my_slot-total env ticks a.my_slot w.mem in
    let waited : Waited env w.mem m =
      await_my_slot-Waited env a.my_slot (hw_timeout_of env) (wait_fuel env) 0 1 0 w.mem w.mem awake
        e in
    let n = raise_longest (hw_timeout_of env) t w.longest in
    let (ret, a', w', run) =
      post_outgoing-total buf (peer_of cid sid) a (record w { mem = m; longest = n }) in
    (
      ret,
      a',
      w',
      after_wait env cid sid buf a w t m ok e ∙ run,
      post_outgoing-Sent env buf (peer_of cid sid) a w m n (omega (arith, sized m waited, ok.fits))
          waited ret a' w' run,
    )
