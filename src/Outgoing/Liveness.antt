-- ===== src/Outgoing/Liveness.antt =====
-- A message gets out if the receiver of the one before it answers in time.
use emer_gen_z.Base.{
  ℕ, zero, suc, ◌+◌, ◌*◌, ◌%◌, ◌^◌, ◌<◌, ◌≡◌, refl, inl, inr, true, false, ◌&&◌, some, List, arith,
  ltb, length, ℤ, pos, int_of_bits, int_of_bits-small, lt→ltb, Bool-cases, ◌∙◌, ap, sym,
}
use mathlib.Core.Path.{subst}
use emer_gen_z.Fee.{Adapter, Mem, World, done}
use emer_gen_z.Outgoing.{
  Env, time_before, peer_of, await_my_slot, post_outgoing, hw_timeout_of, wait_fuel, raise_longest,
  fee_create_outgoing,
}
use emer_gen_z.Outgoing.Wait.{Ticks, Waited, awake, await_my_slot-Waited}
use emer_gen_z.Outgoing.Deliver.{
  Acceptable, Sent, after_wait, post_outgoing-total, post_outgoing-Sent,
}
use emer_gen_z.Outgoing.Clock.{time_before-wraps}

-- the memory after `n` sleeps from the `k`-th on
abbrev pub after_sleeps : Env → (k n : ℕ) → Mem → Mem
after_sleeps env k zero mem = mem
after_sleeps env k (suc n) mem = after_sleeps env (k + 1) n (env.peers k mem)

-- The first `n` sleeps end before the timeout.
pub record IsPrompt (env : Env) (n : ℕ) : Type 0 where
  pub running : 0 < env.hz
  pub in_time : (k d : ℕ) → k < n → env.nap k env.in_interrupt d < env.jiffies + 5 * env.hz

module _ (env : Env) (my_slot : ℕ) (ticks : Ticks env) where
  still_time :
      (now : ℕ) → now < env.jiffies + 5 * env.hz → time_before now (hw_timeout_of env) ≡ true
  still_time now early =
      let below : now % 2 ^ 64 ≡ now = omega (arith, ticks.timeout_below) in
      ap (λ n. time_before n (hw_timeout_of env)) (sym below)
      ∙ (time_before-wraps now (env.jiffies + 5 * env.hz) (omega (arith, ticks.timeout_below))
            (omega (arith, ticks.timeout_below))
          ∙ lt→ltb now (env.jiffies + 5 * env.hz) early)

  await_my_slot-free :
      (n fuel k d now : ℕ) (mem : Mem)
      → IsPrompt env (k + n)
      → now < env.jiffies + 5 * env.hz
      → n < fuel
      → (after_sleeps env k n mem my_slot).buflen ≡ 0
      → (t : ℕ) × (m : Mem) × (await_my_slot env my_slot (hw_timeout_of env) fuel k d now mem
          ≡ some (t, m))
        × ((m my_slot).buflen ≡ 0)
  unfolding await_my_slot
  await_my_slot-free n zero k d now mem prompt early room free = absurd (omega arith)
  await_my_slot-free zero (suc fuel) k d now mem prompt early room free =
      let stop : (ltb 0 (mem my_slot).buflen && time_before now (hw_timeout_of env)) ≡ false =
        ground arith in
      (now, mem, rw stop refl, free)
  await_my_slot-free (suc n) (suc fuel) k d now mem prompt early room free =
      elim (Bool-cases (ltb 0 (mem my_slot).buflen)) [
        | inl busy ↦ rw busy (
            rw (still_time now early) (
              await_my_slot-free n fuel (k + 1) _ (env.nap k env.in_interrupt d) (env.peers k mem)
                (subst (IsPrompt env) (omega arith) prompt) (prompt.in_time k d (omega arith))
                (omega arith) free))
        | inr idle ↦
            let stop : (ltb 0 (mem my_slot).buflen && time_before now (hw_timeout_of env)) ≡ false =
              ground arith in
            (now, mem, rw stop refl, ground arith)
      ]

-- A free slot is filled.
free_run :
    (env : Env) (buf : List ℕ) (peer : ℕ) (a : Adapter) (w : World) (m : Mem) (longest : ℕ)
    → length buf < 2 ^ 31
    → length buf < length (m a.my_slot).buf
    → Waited env w.mem m
    → (m a.my_slot).buflen ≡ 0
    → (ret : ℤ) × (a' : Adapter) × (w' : World) × (post_outgoing buf peer a
          (record w { mem = m; longest = longest })
        ≡ done ret a' w')
      × Sent env peer buf a w ret a' w'
unfolding post_outgoing
free_run env buf peer a w m longest small fits waited free =
    let n : int_of_bits (length buf) ≡ pos (length buf) = int_of_bits-small (length buf) small in
    let (ret, a', w', run) =
      post_outgoing-total buf peer a (record w { mem = m; longest = longest }) in
    (
      ret,
      a',
      w',
      run,
      elim (post_outgoing-Sent env buf peer a w m longest fits waited ret a' w' run) [
        | inl (again, same, busy, still) ↦ absurd (ground arith)
        | inr sent ↦ sent
      ],
    )

-- An acceptable message of less than 2^31 bytes, on a clock that ticks and with a slot as large as announced: if the receiver of
-- the message before it frees the slot within `n` sleeps that end before the timeout, the call returns
-- the length, and the message has gone out.
pub fee_create_outgoing-gets_out :
    (env : Env) (cid sid : ℤ) (buf : List ℕ) (a : Adapter) (w : World) (n : ℕ)
    → Ticks env
    → IsPrompt env n
    → n < wait_fuel env
    → length buf < 2 ^ 31
    → Acceptable cid sid buf a
    → ((m : Mem) → Waited env w.mem m → length (m a.my_slot).buf ≡ a.max_buflen)
    → (after_sleeps env 0 n w.mem a.my_slot).buflen ≡ 0
    → (ret : ℤ) × (a' : Adapter) × (w' : World) × (fee_create_outgoing env cid sid buf a w
        ≡ done ret a' w')
      × Sent env (peer_of cid sid) buf a w ret a' w'
fee_create_outgoing-gets_out env cid sid buf a w n ticks prompt room small ok sized free =
    let (t, m, e, now_free) =
      await_my_slot-free env a.my_slot ticks n (wait_fuel env) 0 1 0 w.mem
        (subst (IsPrompt env) (omega arith) prompt) (omega (arith, prompt.running)) room free in
    let waited : Waited env w.mem m =
      await_my_slot-Waited env a.my_slot (hw_timeout_of env) (wait_fuel env) 0 1 0 w.mem w.mem awake
        e in
    let (ret, a', w', run, sent) =
      free_run env buf (peer_of cid sid) a w m (raise_longest (hw_timeout_of env) t w.longest) small
        (omega (arith, sized m waited, ok.fits)) waited now_free in
    (ret, a', w', after_wait env cid sid buf a w t m ok e ∙ run, sent)
