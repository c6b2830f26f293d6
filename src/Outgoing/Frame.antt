-- ===== src/Outgoing/Frame.antt =====
-- What a call of `FEE_create_outgoing` leaves alone: all of the adapter but the doorbell, and the
-- core structures.
use emer_gen_z.Base.{ℕ, ◌≡◌, inl, inr, List, arith, length, ℤ, Option-cases}
use emer_gen_z.Fee.{Adapter, World, done}
use emer_gen_z.Outgoing.{
  Env, peer_of, refuse_outgoing, await_my_slot, post_outgoing, hw_timeout_of, wait_fuel,
  raise_longest, fee_create_outgoing,
}

pub record Kept (a : Adapter) (w : World) (a' : Adapter) (w' : World) : Type 0 where
  pub adapter_kept : a' ≡ record a { doorbell = a'.doorbell }
  pub cores_kept : w'.cores ≡ w.cores

post_outgoing-Kept :
    (buf : List ℕ) (peer : ℕ) (a : Adapter) (w : World) (ret : ℤ) (a' : Adapter) (w' : World)
    → post_outgoing buf peer a w ≡ done ret a' w'
    → Kept a w a' w'
unfolding post_outgoing
post_outgoing-Kept buf peer a w ret a' w' e = record {
  adapter_kept = ground arith;
  cores_kept = ground arith;
}

-- A call that ends leaves the adapter but for its doorbell as it was, and the core structures.
pub fee_create_outgoing-Kept :
    (env : Env) (cid sid : ℤ) (buf : List ℕ) (a : Adapter) (w : World)
    → (ret : ℤ) (a' : Adapter) (w' : World)
    → fee_create_outgoing env cid sid buf a w ≡ done ret a' w'
    → Kept a w a' w'
unfolding fee_create_outgoing
fee_create_outgoing-Kept env cid sid buf a w ret a' w' e =
    elim (Option-cases (refuse_outgoing cid sid (length buf) a)) [
      | inr (n, refused) ↦ record { adapter_kept = ground arith; cores_kept = ground arith }
      | inl accepted ↦
          elim (Option-cases
            (await_my_slot env a.my_slot (hw_timeout_of env) (wait_fuel env) 0 1 0 w.mem)) [
              | inl never ↦ absurd (ground arith)
              | inr ((t, m), over) ↦
                  let k =
                    post_outgoing-Kept buf (peer_of cid sid) a
                      (record w {
                        mem = m;
                        longest = raise_longest (hw_timeout_of env) t w.longest;
                      })
                      ret a' w' (ground arith) in
                  record { adapter_kept = k.adapter_kept; cores_kept = k.cores_kept }
            ]
    ]
