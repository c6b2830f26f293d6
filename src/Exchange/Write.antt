-- ===== src/Exchange/Write.antt =====
-- `gf_bridge_write` on the sender: the text goes from the user's buffer into the own slot.
use emer_gen_z.Base.{
  ℕ, suc, ◌+◌, ◌^◌, ◌<◌, ◌≡◌, refl, ◌⊎◌, inl, inr, false, Option, some, List, ◌∷◌, ◌++◌, arith,
  length, length-append, ℤ, pos, error, etimedout, ◌∙◌, ap,
}
use emer_gen_z.Fee.{BridgeBuffers, Adapter, World, Run, done, and_then}
use emer_gen_z.Outgoing.{peer_of}
use emer_gen_z.Outgoing.Wait.{Ticks}
use emer_gen_z.Outgoing.Deliver.{Acceptable}
use emer_gen_z.Bridge.Write.{WriteEnv, to, destination, send_to, chop, gf_bridge_write}
use emer_gen_z.Bridge.Write.Laws.{IsPlain, written, writing, settle, gf_bridge_write-routes}
use emer_gen_z.Exchange.Send.{Spares, Posted, ringing, SendEnd, send_restarting-SendEnd}

destination-writing :
    (env : WriteEnv) (a : Adapter) (b : BridgeBuffers) (user head : List ℕ)
    → destination env (writing a b user) head ≡ destination env a head
unfolding destination
destination-writing env a b user head = refl

-- the device's buffer and mutex after a write
abbrev pub chopped : BridgeBuffers → List ℕ → Option BridgeBuffers
chopped b user = some (record { wbuf = chop (written user b); wbuf_locked = false })

-- how a write of `user` ends
pub record WriteEnd (peer : ℕ) (body user : List ℕ) (a : Adapter) (b : BridgeBuffers) (w : World)
    (ret : ℤ) (a' : Adapter) (w' : World) : Type 0 where
  pub adapter_kept : a' ≡ record a { doorbell = a'.doorbell; outgoing = chopped b user }
  pub outcome :
      ((ret ≡ error etimedout) × (a'.doorbell ≡ a.doorbell) × (0 < (w'.mem a.my_slot).buflen))
      ⊎ ((ret ≡ pos (length user))
          × (a'.doorbell ≡ ringing a peer)
          × Posted w'.mem a.my_slot peer body
          × ((w'.mem a.my_slot).peer_id ≡ (w.mem a.my_slot).peer_id))

settled :
    (peer : ℕ) (body user : List ℕ) (a : Adapter) (b : BridgeBuffers) (w : World) (r : Run ℤ)
    (ret : ℤ) (a' : Adapter) (w' : World)
    → r ≡ done ret a' w'
    → SendEnd peer body (length user) (writing a b user) w ret a' w'
    → (a'' : Adapter) × (and_then r (settle b user) ≡ done ret a'' w')
      × WriteEnd peer body user a b w ret a'' w'
settled peer body user a b w r ret a' w' run end = (
  record a' { outgoing = chopped b user },
  rw run refl,
  elim end [
    | inl (timeout, same, busy) ↦ record {
      adapter_kept = rw same refl;
      outcome = inl (timeout, ap (λ (x : Adapter). x.doorbell) same, busy);
    }
    | inr (sent, same, posted, owner) ↦ record {
      adapter_kept = rw same refl;
      outcome = inr (sent, ap (λ (x : Adapter). x.doorbell) same, posted, owner);
    }
  ],
)

-- A write to a device that is open, on clocks that tick and where the other clients only free the own
-- slot, of a text that goes to an acceptable destination: it ends with the buffer and the mutex given
-- back, and either reports a timeout with the own slot busy and the doorbell silent, or returns the
-- length of the text with the bytes behind the first colon, NUL-terminated and addressed to the peer,
-- in the own slot, and the peer's doorbell rung once.
pub gf_bridge_write-WriteEnd :
    (env : WriteEnv) (a : Adapter) (w : World) (b : BridgeBuffers) (head body : List ℕ)
    (cid sid : ℤ)
    → ((k : ℕ) → Ticks (env.try_env k))
    → ((k : ℕ) → Spares (env.try_env k) a.my_slot)
    → a.outgoing ≡ some b
    → length b.wbuf ≡ a.max_buflen
    → length (w.mem a.my_slot).buf ≡ a.max_buflen
    → a.max_buflen < 2 ^ 31
    → env.copy_from_user ≡ pos 0
    → IsPlain head
    → length head + length body + 2 < a.max_buflen
    → destination env a head ≡ to cid sid
    → Acceptable cid sid body a
    → (ret : ℤ) × (a' : Adapter) × (w' : World) × (gf_bridge_write env (head ++ b':' ∷ body) a w
        ≡ done ret a' w')
      × WriteEnd (peer_of cid sid) body (head ++ b':' ∷ body) a b w ret a' w'
unfolding send_to
gf_bridge_write-WriteEnd env a w b head body cid sid ticks spares opened sized slot_sized narrow
      copied plain fits goes ok =
    let user = head ++ b':' ∷ body in
    let n : length user ≡ length head + suc (length body) = length-append head (b':' ∷ body) in
    let (ret, a', w', run, end) =
      send_restarting-SendEnd env a.my_slot ticks spares 2 0 cid sid body (length user)
        (writing a b user) w refl ok' slot_sized (omega arith) (omega (arith, n)) in
    let (a'', done', end') =
      settled (peer_of cid sid) body user a b w
        (send_to env (destination env (writing a b user) head) body (length user) (writing a b user)
          w)
        ret a' w'
        (ap (λ d. send_to env d body (length user) (writing a b user) w)
            (destination-writing env a b user head ∙ goes)
          ∙ run)
        end in
    (
      ret,
      a'',
      w',
      gf_bridge_write-routes env a w b opened sized (omega arith) copied head body plain fits
          ∙ done',
      end',
    )
  where
    ok' : Acceptable cid sid body (writing a b (head ++ b':' ∷ body))
    ok' = record {
      routed = ok.routed;
      lowest = ok.lowest;
      highest = ok.highest;
      fits = ok.fits;
      nonempty = ok.nonempty;
    }
