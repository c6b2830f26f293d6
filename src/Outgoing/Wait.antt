-- ===== src/Outgoing/Wait.antt =====
-- The wait of `FEE_create_outgoing` ends, whatever the other clients do.
use emer_gen_z.Base.{
  ℕ, zero, suc, ◌+◌, ◌-◌, ◌*◌, ◌%◌, ◌^◌, ◌≤◌, ◌<◌, ◌≡◌, refl, ◌⊎◌, inl, inr, Bool, true, ◌&&◌,
  Option, some, arith, ltb, Bool-cases,
}
use mathlib.Core.Path.{subst}
use emer_gen_z.Fee.{Mem}
use emer_gen_z.Outgoing.{Env, time_before, await_my_slot, hw_timeout_of, wait_fuel}

-- What the kernel promises of its clock: a sleep of a millisecond or more ends in a later jiffy, and
-- the 64-bit count has not used its top bit, for the sleeps that fit into five seconds. `jiffies` may jump: another task can run meanwhile.
pub record Ticks (env : Env) : Type 0 where
  pub advances : (k d : ℕ) → k ≤ 5 * env.hz → env.jiffies + k < env.nap k env.in_interrupt d
  pub below : (k d : ℕ) → k ≤ 5 * env.hz → env.nap k env.in_interrupt d < 2 ^ 63
  pub timeout_below : env.jiffies + 5 * env.hz < 2 ^ 63

time_before-lt : (a b : ℕ) → a < 2 ^ 63 → b < 2 ^ 63 → time_before a b ≡ true → a < b
unfolding time_before
time_before-lt a b ha hb h =
    let p : 2 ^ 63 ≤ (a + 2 ^ 64 - b) % 2 ^ 64 = ground arith in omega arith

and_right : (a b : Bool) → (a && b) ≡ true → b ≡ true
and_right a b h = ground arith

module _ (env : Env) (ticks : Ticks env) (my_slot : ℕ) where
  before_timeout :
      (now : ℕ)
      → now < 2 ^ 63
      → time_before now (hw_timeout_of env) ≡ true
      → now < env.jiffies + 5 * env.hz
  before_timeout now small h =
      let e : hw_timeout_of env ≡ env.jiffies + 5 * env.hz = omega (arith, ticks.timeout_below) in
      time_before-lt now (env.jiffies + 5 * env.hz) small ticks.timeout_below (rw e at h)

  await_my_slot-ends :
      (fuel k this_delay now : ℕ) (mem : Mem)
      → (k ≡ 0) ⊎ (env.jiffies + k ≤ now)
      → now < 2 ^ 63
      → 5 * env.hz + 2 ≤ k + fuel
      → 0 < fuel
      → (t : ℕ) × (m : Mem) × (await_my_slot env my_slot
            (hw_timeout_of env)
            fuel
            k
            this_delay
            now
            mem
          ≡ some (t, m))
  unfolding await_my_slot
  await_my_slot-ends zero k d now mem late small enough p = absurd (omega arith)
  await_my_slot-ends (suc fuel) k d now mem late small enough p =
      elim (Bool-cases (ltb 0 (mem my_slot).buflen && time_before now (hw_timeout_of env))) [
        | inl again ↦
            let before : now < env.jiffies + 5 * env.hz = before_timeout now small (
              and_right (ltb 0 (mem my_slot).buflen) (time_before now (hw_timeout_of env)) again) in
            let soon : k ≤ 5 * env.hz = omega arith in
            rw again (
              await_my_slot-ends fuel (k + 1) _ (env.nap k env.in_interrupt d) (env.peers k mem)
                (inr (omega (arith, ticks.advances k d soon))) (ticks.below k d soon) (omega arith)
                (omega arith))
        | inr exit ↦ rw exit (now, mem, refl)
      ]

  -- The loop is over within its fuel.
  pub await_my_slot-total :
      (mem : Mem)
      → (t : ℕ) × (m : Mem) × (await_my_slot env my_slot
            (hw_timeout_of env)
            (wait_fuel env)
            0
            1
            0
            mem
          ≡ some (t, m))
  await_my_slot-total mem =
      await_my_slot-ends (wait_fuel env) 0 1 0 mem (inl refl) (omega arith) (omega arith)
        (omega arith)

-- the memory after some sleeps, in which only the other clients wrote
pub data Waited (env : Env) (mem : Mem) : Mem → Type 0 where
  awake : Waited env mem mem
  slept : {m : Mem} (k : ℕ) → Waited env mem m → Waited env mem (env.peers k m)

pub await_my_slot-Waited :
    (env : Env) (my_slot hw_timeout fuel k this_delay now : ℕ) (mem0 mem : Mem) {t : ℕ} {m : Mem}
    → Waited env mem0 mem
    → await_my_slot env my_slot hw_timeout fuel k this_delay now mem ≡ some (t, m)
    → Waited env mem0 m
unfolding await_my_slot
await_my_slot-Waited env my_slot hw zero k d now mem0 mem w e = cc
await_my_slot-Waited env my_slot hw (suc fuel) k d now mem0 mem {t} {m} w e =
    elim (Bool-cases (ltb 0 (mem my_slot).buflen && time_before now hw)) [
      | inl again ↦
          await_my_slot-Waited env my_slot hw fuel (k + 1) _ (env.nap k env.in_interrupt d) mem0
            (env.peers k mem) (slept k w) (rw again at e)
      | inr exit ↦
          let same : mem ≡ m = cc (
            let e' : ◌≡◌ {A = Option (ℕ × Mem)} (some (now, mem)) (some (t, m)) = (rw exit at e) in
            e') in
          subst (Waited env mem0) same w
    ]
