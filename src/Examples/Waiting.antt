-- ===== src/Examples/Waiting.antt =====
-- The theorems on the clock, and on a slot that is freed while its owner waits.
use emer_gen_z.Base.{◌≡◌, refl, inl, [], arith, length, ℤ, pos}
use emer_gen_z.Text.{codes}
use emer_gen_z.Fee.{Adapter, Mem, World, done, update}
use emer_gen_z.Outgoing.{Env, peer_of, fee_create_outgoing}
use emer_gen_z.Outgoing.Wait.{Ticks, Waited, awake, slept}
use emer_gen_z.Outgoing.Deliver.{Acceptable, Sent}
use emer_gen_z.Outgoing.Liveness.{IsPrompt, fee_create_outgoing-gets_out}
use emer_gen_z.Examples.{adapter, world_with, env}

-- the own slot still has a message of five bytes
abbrev busy : World
busy = record (world_with [] 0) {
  mem = update (world_with [] 0).mem 4608 (record ((world_with [] 0).mem 4608) { buflen = 5 });
}

-- in the first sleep its receiver takes it
abbrev answering : Env
answering = record env { peers = λ k m. update m 4608 (record (m 4608) { buflen = 0 }) }

answering-Ticks : Ticks answering
answering-Ticks = record {
  advances = λ k d h. omega arith;
  below = λ k d h. omega (arith, h);
  timeout_below = omega arith;
}

answering-IsPrompt : IsPrompt answering 1
answering-IsPrompt = record { running = omega arith; in_time = λ k d h. omega (arith, h) }

answering-sized : (m : Mem) → Waited answering busy.mem m → length (m 4608).buf ≡ 128
answering-sized m awake = refl
answering-sized m (slept {m = n} k w) = answering-sized n w

hello-Acceptable : Acceptable (pos 300) (pos 27) (codes "hello") adapter
unfolding peer_of
hello-Acceptable = record {
  routed = inl refl;
  lowest = omega arith;
  highest = omega arith;
  fits = omega arith;
  nonempty = omega arith;
}

gets_out_example :
    (ret : ℤ) × (a' : Adapter) × (w' : World) × (fee_create_outgoing answering
        (pos 300)
        (pos 27)
        (codes "hello")
        adapter
        busy
      ≡ done ret a' w')
    × Sent answering (peer_of (pos 300) (pos 27)) (codes "hello") adapter busy ret a' w'
gets_out_example =
    fee_create_outgoing-gets_out answering (pos 300) (pos 27) (codes "hello") adapter busy 1
      answering-Ticks answering-IsPrompt (omega arith) (omega arith) hello-Acceptable
      answering-sized refl
