-- ===== src/Fabric/Effects.antt =====
-- What each step of a fabric changes.
pub mod Sending
pub mod Interrupts
pub mod Steps
use emer_gen_z.Base.{
  ℕ, suc, ◌+◌, ◌-◌, ◌*◌, ◌/◌, ◌%◌, ◌^◌, ◌≤◌, ◌<◌, ◌≡◌, refl, ◌⊎◌, inl, inr, none, some, List, [],
  ◌∷◌, ◌++◌, arith, length, take, ltb, ◌==◌, ==→eq, overwrite, set, take-overwrite,
  length-overwrite, length-set, map, Bool, false, Bool-cases, ℤ, ◌∙◌, ap, sym, true,
}
use mathlib.Core.Path.{subst, fun_ext}
use emer_gen_z.Fee.{Globals, Mailslot, Adapter, Mem, World, Run, done, update, update_self}
use emer_gen_z.Outgoing.{Env, peer_of, refuse_outgoing, post_outgoing, fill_slot, ringer}
use emer_gen_z.Outgoing.Deliver.{Acceptable, refuse_outgoing-none}
use emer_gen_z.Mailbox.{calculate_mailslot}
use emer_gen_z.Link.{stamp_peer, receive}
use emer_gen_z.Msix.Handler.{all_msix}
use emer_gen_z.Msix.Deliver.{IsOrdinary, all_msix-delivers}
use emer_gen_z.Bridge.Read.{ReadEnv, ReadResult, copy_out, gf_bridge_read}
use emer_gen_z.Bridge.Read.Laws.{gf_bridge_read-releases}
use emer_gen_z.Exchange.Receive.{Hears, Hears-match}
use emer_gen_z.Fabric.{
  Fabric, world_of, after, split_ringer, rung, IsClient, Step, posts, hears, serves, reads, Event,
  sends, empties, idles,
}
use emer_gen_z.Fabric.Sound.{IsSound, Effect}

-- a slot whose message is as before
pub record Keeps (old new : Mailslot) : Type 0 where
  pub buflen_kept : new.buflen ≡ old.buflen
  pub responder_kept : new.last_responder ≡ old.last_responder
  pub buf_kept : new.buf ≡ old.buf

-- a free slot that has got a message
pub record Fills (old new : Mailslot) (peer : ℕ) (text : List ℕ) : Type 0 where
  pub was_free : old.buflen ≡ 0
  pub nonempty : 0 < length text
  pub buflen_set : new.buflen ≡ length text
  pub responder_set : new.last_responder ≡ peer
  pub payload : take (length text) new.buf ≡ text

-- the interrupt from `k` to `j` is no longer due
pub record Answers (s t : Fabric) (j k : ℕ) : Type 0 where
  pub before : List (ℕ × ℕ)
  pub behind : List (ℕ × ℕ)
  pub was_due : s.bells ≡ before ++ (j, k) ∷ behind
  pub is_done : t.bells ≡ before ++ behind

-- Why the slot of client `k` changes, with the event that it is: `k` posts, or finds its slot busy; its
-- interrupt reaches `j`, who is a reader or has a link layer that frees the slot; or `j` reads it.
pub data Change (s t : Fabric) (j k : ℕ) (old new : Mailslot) : Event → Type 0 where
  stays : Keeps old new → t.node ≡ s.node → t.bells ≡ s.bells → Change s t j k old new idles
  fills :
      (peer : ℕ) (text : List ℕ)
      → Fills old new peer text
      → t.bells ≡ (peer % 2 ^ 16, k) ∷ s.bells
      → Change s t j k old new (sends k peer text)
  stamps :
      Keeps old new
      → Answers s t j k
      → (t.node j).incoming_slot ≡ some (s.node k).my_slot
      → Change s t j k old new idles
  serves_link :
      new.buflen ≡ 0 → Answers s t j k → Change s t j k old new (empties (s.node k).my_slot)
  reads_slot :
      new.buflen ≡ 0
      → (s.node j).incoming_slot ≡ some (s.node k).my_slot
      → t.bells ≡ s.bells
      → Change s t j k old new (empties (s.node k).my_slot)

pub record Changes (n : ℕ) (s t : Fabric) (e : Event) : Type 0 where
  pub actor : ℕ
  pub owner : ℕ
  pub slot : Mailslot
  pub effect : Effect n s t actor owner slot
  pub change : Change s t actor owner (s.mem (s.node owner).my_slot) slot e
