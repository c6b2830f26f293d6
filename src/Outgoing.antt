-- ===== src/Outgoing.antt =====
-- `FEE_create_outgoing` of shim_bridge/fee_IVSHMSG.c: check the destination and the length, wait
-- for the own mailslot to be free, fill it and ring the peer's doorbell.
pub mod Wait
pub mod Deliver
pub mod Frame
pub mod Clock
pub mod Liveness
pub mod Amid
use emer_gen_z.Base.{
  ℕ, zero, suc, ◌+◌, ◌-◌, ◌*◌, ◌%◌, ◌^◌, ◌<◌, ◌==◌, Bool, true, false, not, ◌&&◌, ◌||◌, Option,
  none, some, List, ◌∷◌, ltb, leb, if◌then◌else◌, length, set, overwrite, ℤ, pos, negsuc, eq_ℤ,
  to_u16, to_u32, int_of_bits, div_trunc, error, enetunreach, ebadslt, e2big, enodata, erestartsys,
}
use emer_gen_z.Fee.{
  Mailslot, Adapter, Mem, World, update, Run, done, out_of_fuel, Cmd, store_slot, ◌>>◌,
}

abbrev pub genz_fee_sid_default : ℤ
genz_fee_sid_default = pos 27

-- -42
abbrev pub genz_fee_sid_cid_is_peer_id : ℤ
genz_fee_sid_cid_is_peer_id = negsuc 41

abbrev pub delay_ms_loop_max : ℕ
delay_ms_loop_max = 10

-- What a call meets while it runs. `nap k irq d` is the jiffies count after sleep `k`, of `d`
-- milliseconds (`mdelay` in an interrupt, `msleep` otherwise), and `peers k` is what the other
-- clients do to the shared mailslots meanwhile.
pub record Env : Type 0 where
  pub hz : ℕ
  pub in_interrupt : Bool
  pub jiffies : ℕ
  pub nap : ℕ → Bool → ℕ → ℕ
  pub peers : ℕ → Mem → Mem

abbrev pub prior_resp_wait : Env → ℕ
prior_resp_wait env = 5 * env.hz

-- `time_before`: the sign of the difference of two 64-bit counts
unfoldable pub time_before : ℕ → ℕ → Bool
time_before a b = leb (2 ^ 63) ((a + 2 ^ 64 - b) % 2 ^ 64)

unfoldable pub peer_of : (cid sid : ℤ) → ℕ
peer_of cid sid = to_u32 (if eq_ℤ sid genz_fee_sid_cid_is_peer_id then cid else div_trunc cid 100)

-- the guards in front of the wait, in order
unfoldable pub refuse_outgoing : (cid sid : ℤ) → (buflen : ℕ) → Adapter → Option ℕ
refuse_outgoing cid sid buflen a =
    if not (eq_ℤ sid (pos 27)) && not (eq_ℤ sid genz_fee_sid_cid_is_peer_id)
    then some enetunreach
    else if ltb (peer_of cid sid) 1 || ltb a.globals.server_id (peer_of cid sid)
    then some ebadslt
    else if leb a.max_buflen buflen
    then some e2big
    else if buflen == 0
    then some enodata
    else none

-- The loop on `my_slot->buflen`. Round `k` has `this_delay` and the time of the round before.
-- The result is the time and the memory at the exit, `none` where the fuel ran out.
unfoldable pub await_my_slot :
    Env → (my_slot hw_timeout : ℕ) → (fuel k this_delay now : ℕ) → Mem → Option (ℕ × Mem)
await_my_slot env my_slot hw_timeout zero k this_delay now mem = none
await_my_slot env my_slot hw_timeout (suc fuel) k this_delay now mem =
    let again =
      await_my_slot env my_slot hw_timeout fuel (k + 1)
        (if ltb this_delay delay_ms_loop_max then this_delay + 2 else this_delay)
        (env.nap k env.in_interrupt this_delay) (env.peers k mem) in
    if ltb 0 (mem my_slot).buflen && time_before now hw_timeout then again else some (now, mem)

-- the message, its NUL and its length in the own slot
unfoldable pub fill_slot : List ℕ → (peer_id : ℕ) → Mailslot → Mailslot
fill_slot buf peer_id s = record s {
  buflen = length buf;
  last_responder = peer_id;
  buf = overwrite buf (set s.buf (length buf) 0);
}

-- `ringer`: the peer in the upper half, the vector in the lower half
unfoldable pub ringer : (peer vector : ℕ) → ℕ
ringer peer vector = to_u16 peer * 2 ^ 16 + to_u16 vector

-- behind the wait: either the slot is still busy, or the message goes out
abbrev pub fill_and_ring : List ℕ → (peer_id : ℕ) → Cmd ℤ
fill_and_ring buf peer_id a w =
    done (int_of_bits (length buf)) (record a { doorbell = ringer peer_id a.my_id ∷ a.doorbell })
      (record w { mem = update w.mem a.my_slot (fill_slot buf peer_id (w.mem a.my_slot)) })

-- No lock is held between the test of the slot and its filling: `meanwhile` is what an interrupt of this
-- client does there.
unfoldable pub post_outgoing_amid : (meanwhile : Cmd ℤ) → List ℕ → (peer_id : ℕ) → Cmd ℤ
post_outgoing_amid meanwhile buf peer_id a w =
    if ltb 0 (w.mem a.my_slot).buflen
    then done (error erestartsys) a w
    else (meanwhile >> fill_and_ring buf peer_id) a w

-- without an interrupt there
unfoldable pub post_outgoing : List ℕ → (peer_id : ℕ) → Cmd ℤ
post_outgoing buf peer_id a w =
    if ltb 0 (w.mem a.my_slot).buflen
    then done (error erestartsys) a w
    else fill_and_ring buf peer_id a w

-- `if ((hw_timeout -= now) > longest) longest = hw_timeout;`
abbrev pub raise_longest : (hw_timeout now longest : ℕ) → ℕ
raise_longest hw_timeout now longest =
    let left = (hw_timeout + 2 ^ 64 - now) % 2 ^ 64 in if ltb longest left then left else longest

abbrev pub hw_timeout_of : Env → ℕ
hw_timeout_of env = (env.jiffies + prior_resp_wait env) % 2 ^ 64

-- Each sleep takes a jiffy or more, so that the wait is over after as many rounds as it has jiffies.
abbrev pub wait_fuel : Env → ℕ
wait_fuel env = prior_resp_wait env + 2

unfoldable pub fee_create_outgoing : Env → (cid sid : ℤ) → List ℕ → Cmd ℤ
fee_create_outgoing env cid sid buf a w = elim (refuse_outgoing cid sid (length buf) a) [
  | some e ↦ done (error e) a w
  | none ↦ elim (await_my_slot env a.my_slot (hw_timeout_of env) (wait_fuel env) 0 1 0 w.mem) [
    | none ↦ out_of_fuel
    | some (now, mem) ↦
        post_outgoing buf (peer_of cid sid) a
          (record w { mem = mem; longest = raise_longest (hw_timeout_of env) now w.longest })
  ]
]
