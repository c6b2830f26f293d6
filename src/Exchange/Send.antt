-- ===== src/Exchange/Send.antt =====
-- The sender's half: a write either finds its slot busy through all tries, or its message lies there.
use emer_gen_z.Base.{
  ℕ, zero, suc, ◌+◌, ◌*◌, ◌%◌, ◌^◌, ◌<◌, ◌≡◌, refl, ◌⊎◌, inl, inr, false, some, List, ◌∷◌, arith,
  length, take, get_elem?, ℤ, pos, eq_ℤ, int_of_bits, int_of_bits-small, error, erestartsys,
  etimedout, ◌∙◌, ap, sym,
}
use mathlib.Core.Path.{subst}
use emer_gen_z.Fee.{Adapter, Mem, World, done}
use emer_gen_z.Outgoing.{Env, peer_of, fee_create_outgoing}
use emer_gen_z.Outgoing.Wait.{Ticks, Waited, awake, slept}
use emer_gen_z.Outgoing.Deliver.{Acceptable, Sent, fee_create_outgoing-sends}
use emer_gen_z.Bridge.Write.{WriteEnv, conclude, send_restarting}

-- What other clients do to a slot that is not theirs while its owner sleeps: they may free it, but
-- neither its size nor its owner's number changes.
pub record Spares (env : Env) (p : ℕ) : Type 0 where
  pub size_kept : (k : ℕ) (m : Mem) → length (env.peers k m p).buf ≡ length (m p).buf
  pub owner_kept : (k : ℕ) (m : Mem) → (env.peers k m p).peer_id ≡ (m p).peer_id

pub Waited-size :
    {env : Env} {p : ℕ} {mem m : Mem}
    → Spares env p
    → Waited env mem m
    → length (m p).buf ≡ length (mem p).buf
Waited-size spares awake = refl
Waited-size spares (slept {m} k w) = spares.size_kept k m ∙ Waited-size spares w

pub Waited-owner :
    {env : Env} {p : ℕ} {mem m : Mem}
    → Spares env p
    → Waited env mem m
    → (m p).peer_id ≡ (mem p).peer_id
Waited-owner spares awake = refl
Waited-owner spares (slept {m} k w) = spares.owner_kept k m ∙ Waited-owner spares w

-- a message for `peer` in slot `p`
pub record Posted (m : Mem) (p peer : ℕ) (buf : List ℕ) : Type 0 where
  pub buflen_set : (m p).buflen ≡ length buf
  pub responder_set : (m p).last_responder ≡ peer
  pub payload : take (length buf) (m p).buf ≡ buf
  pub terminated : get_elem? (m p).buf (length buf) ≡ some 0

-- the doorbell's register after a message to `peer`
abbrev pub ringing : Adapter → (peer : ℕ) → List ℕ
ringing a peer = (peer % 2 ^ 16 * 2 ^ 16 + a.my_id % 2 ^ 16) ∷ a.doorbell

-- how sending ends: no try found the slot free, or the message is out
abbrev pub SendEnd :
    (peer : ℕ) → List ℕ → (successlen : ℕ) → Adapter → World → ℤ → Adapter → World → Type 0
SendEnd peer buf successlen a w ret a' w' =
    ((ret ≡ error etimedout) × (a' ≡ a) × (0 < (w'.mem a.my_slot).buflen))
    ⊎ ((ret ≡ pos successlen)
        × (a' ≡ record a { doorbell = ringing a peer })
        × Posted w'.mem a.my_slot peer buf
        × ((w'.mem a.my_slot).peer_id ≡ (w.mem a.my_slot).peer_id))

Sent-SendEnd :
    (env : Env) (peer : ℕ) (buf : List ℕ) (successlen : ℕ) (a : Adapter) (w : World) (ret : ℤ)
    (a' : Adapter) (w' : World)
    → Spares env a.my_slot
    → length buf < 2 ^ 31
    → successlen < 2 ^ 31
    → Sent env peer buf a w ret a' w'
    → (eq_ℤ ret (error erestartsys) ≡ false)
      × SendEnd peer buf successlen a w (conclude ret (length buf) successlen) a' w'
unfolding conclude
Sent-SendEnd env peer buf successlen a w ret a' w' spares small small' sent =
    let n : ret ≡ pos (length buf) = sent.returned ∙ int_of_bits-small (length buf) small in
    let s : int_of_bits successlen ≡ pos successlen = int_of_bits-small successlen small' in
    (
      ground arith,
      inr (
        ground arith,
        sent.rang,
        record {
          buflen_set = sent.buflen_set;
          responder_set = sent.responder_set;
          payload = sent.payload;
          terminated = sent.terminated;
        },
        sent.owner_kept ∙ Waited-owner spares sent.waited,
      ),
    )

module _ (env : WriteEnv) (p : ℕ) (ticks : (k : ℕ) → Ticks (env.try_env k))
    (spares : (k : ℕ) → Spares (env.try_env k) p) where
  one_try :
      (k : ℕ) (cid sid : ℤ) (buf : List ℕ) (a : Adapter) (w : World)
      → a.my_slot ≡ p
      → Acceptable cid sid buf a
      → length (w.mem p).buf ≡ a.max_buflen
      → (ret : ℤ) × (a' : Adapter) × (w' : World) × (fee_create_outgoing
            (env.try_env k)
            cid
            sid
            buf
            a
            w
          ≡ done ret a' w')
        × (((ret ≡ error erestartsys)
              × (a' ≡ a)
              × (0 < (w'.mem a.my_slot).buflen)
              × Waited (env.try_env k) w.mem w'.mem)
            ⊎ Sent (env.try_env k) (peer_of cid sid) buf a w ret a' w')
  one_try k cid sid buf a w own ok size =
      fee_create_outgoing-sends (env.try_env k) cid sid buf a w (ticks k) ok
        (λ m waited. ap (λ q. length (m q).buf) own ∙ (Waited-size (spares k) waited ∙ size))

  -- A try that sends is the end.
  try_end :
      (tried : ℕ) (cid sid : ℤ) (buf : List ℕ) (successlen : ℕ) (a : Adapter) (w : World)
      → a.my_slot ≡ p
      → length buf < 2 ^ 31
      → successlen < 2 ^ 31
      → (ret : ℤ) (a' : Adapter) (w' : World)
      → Sent (env.try_env tried) (peer_of cid sid) buf a w ret a' w'
      → (eq_ℤ ret (error erestartsys) ≡ false)
        × SendEnd (peer_of cid sid) buf successlen a w (conclude ret (length buf) successlen) a' w'
  try_end tried cid sid buf successlen a w own small small' ret a' w' sent =
      Sent-SendEnd (env.try_env tried) (peer_of cid sid) buf successlen a w ret a' w'
        (subst (Spares (env.try_env tried)) (sym own) (spares tried)) small small' sent

  -- the last try
  last_end :
      (tried : ℕ) (cid sid : ℤ) (buf : List ℕ) (successlen : ℕ) (a : Adapter) (w : World)
      → a.my_slot ≡ p
      → Acceptable cid sid buf a
      → length (w.mem p).buf ≡ a.max_buflen
      → length buf < 2 ^ 31
      → successlen < 2 ^ 31
      → (ret : ℤ) × (a' : Adapter) × (w' : World) × (send_restarting env zero tried cid sid buf
            successlen a w
          ≡ done ret a' w')
        × SendEnd (peer_of cid sid) buf successlen a w ret a' w'
  unfolding send_restarting
  last_end tried cid sid buf successlen a w own ok size small small' =
      let (ret, a1, w1, run, outcome) = one_try tried cid sid buf a w own ok size in
      elim outcome [
        | inl (again, same, busy, waited) ↦
            (error etimedout, a1, w1, rw run (rw again refl), inl (refl, same, busy))
        | inr sent ↦
            let (last, end) =
              try_end tried cid sid buf successlen a w own small small' ret a1 w1 sent in
            (conclude ret (length buf) successlen, a1, w1, rw run (rw last refl), end)
      ]

  -- Every try that is repeated leaves the sender as it was, and its slot's size and owner.
  pub send_restarting-SendEnd :
      (left tried : ℕ) (cid sid : ℤ) (buf : List ℕ) (successlen : ℕ) (a : Adapter) (w : World)
      → a.my_slot ≡ p
      → Acceptable cid sid buf a
      → length (w.mem p).buf ≡ a.max_buflen
      → length buf < 2 ^ 31
      → successlen < 2 ^ 31
      → (ret : ℤ) × (a' : Adapter) × (w' : World) × (send_restarting env left tried cid sid buf
            successlen a w
          ≡ done ret a' w')
        × SendEnd (peer_of cid sid) buf successlen a w ret a' w'
  unfolding send_restarting
  send_restarting-SendEnd zero tried cid sid buf successlen a w own ok size small small' =
      last_end tried cid sid buf successlen a w own ok size small small'
  send_restarting-SendEnd (suc left) tried cid sid buf successlen a w own ok size small small' =
      let (ret, a1, w1, run, outcome) = one_try tried cid sid buf a w own ok size in
      elim outcome [
        | inl (again, same, busy, waited) ↦
            let (ret', a', w', run', end) =
              send_restarting-SendEnd left (tried + 1) cid sid buf successlen a w1 own ok
                (Waited-size (spares tried) waited ∙ size) small small' in
            (
              ret',
              a',
              w',
              rw run (rw again (rw same run')),
              owner_before a w w1 ret' a' w' (peer_of cid sid) buf successlen
                  (ap (λ q. (w1.mem q).peer_id) own
                    ∙ (Waited-owner (spares tried) waited ∙ ap (λ q. (w.mem q).peer_id) (sym own)))
                  end,
            )
        | inr sent ↦
            let (last, end) =
              try_end tried cid sid buf successlen a w own small small' ret a1 w1 sent in
            (conclude ret (length buf) successlen, a1, w1, rw run (rw last refl), end)
      ]
    where
      owner_before :
          (a : Adapter) (w w1 : World) (ret : ℤ) (a' : Adapter) (w' : World) (peer : ℕ)
          (buf : List ℕ) (successlen : ℕ)
          → (w1.mem a.my_slot).peer_id ≡ (w.mem a.my_slot).peer_id
          → SendEnd peer buf successlen a w1 ret a' w'
          → SendEnd peer buf successlen a w ret a' w'
      owner_before a w w1 ret a' w' peer buf successlen e (inl busy) = inl busy
      owner_before a w w1 ret a' w' peer buf successlen e (inr (r, s, posted, owner)) =
          inr (r, s, posted, owner ∙ e)
