-- ===== src/Fabric.antt =====
-- All clients of one server as a system of steps: what a client writes into the shared region in one
-- piece, and the interrupts on their way. The waits of shim_bridge/fee_IVSHMSG.c only read the region,
-- so that a call to send is its guards and, later, its last step. That step, the test of the own slot
-- and its filling, counts as one piece, and so does a read from its wait to its release: no interrupt of
-- the same client comes into them, though the code takes no lock. No step makes a client anew. All
-- clients count as mapping the region at one address.
pub mod Sound
pub mod Effects
pub mod Refine
pub mod Stranded
pub mod Start
use emer_gen_z.Base.{
  ℕ, ◌+◌, ◌-◌, ◌/◌, ◌%◌, ◌^◌, ◌≤◌, ◌≡◌, none, some, List, [], ◌∷◌, ◌++◌, length, take, map, Bool,
  true, false, ltb, ℤ,
}
use emer_gen_z.Fee.{Adapter, Mem, World, done, update}
use emer_gen_z.Outgoing.{Env, peer_of, refuse_outgoing, post_outgoing}
use emer_gen_z.Link.{stamp_peer, receive}
use emer_gen_z.Msix.Handler.{all_msix}
use emer_gen_z.Msix.Deliver.{IsOrdinary}
use emer_gen_z.Bridge.Read.{ReadEnv, ReadResult, gf_bridge_read}
use emer_gen_z.Exchange.Receive.{Hears}

-- the region, the clients by number, and the interrupts that are due, as receiver and sender
pub record Fabric : Type 0 where
  pub mem : Mem
  pub node : ℕ → Adapter
  pub bells : List (ℕ × ℕ)

-- what a client's commands work on; none of the steps reads the core structures
abbrev pub world_of : Fabric → World
world_of s = record { mem = s.mem; cores = λ _. none; longest = 0 }

-- behind a step of client `j`
abbrev pub after : Fabric → (j : ℕ) → Adapter → World → List (ℕ × ℕ) → Fabric
after s j a w bells = record { mem = w.mem; node = update s.node j a; bells = bells }

-- The device raises an interrupt for each write to the doorbell: the peer is in the upper half.
abbrev pub split_ringer : ℕ → ℕ × ℕ
split_ringer x = (x / 2 ^ 16, x % 2 ^ 16)

abbrev pub rung : (old new : List ℕ) → List (ℕ × ℕ)
rung old new = map split_ringer (take (length new - length old) new)

abbrev pub IsClient : (n : ℕ) → ℕ → Type 0
IsClient n i = (1 ≤ i) × (i ≤ n)

-- `posts` is the end of sending, `hears` the interrupt for a message of a user, `serves` what the
-- interrupt does first with one of the link layer, whose answer is a further `posts`.
pub data Step (n : ℕ) (s t : Fabric) : Type 0 where
  posts :
      (i : ℕ) (cid sid : ℤ) (buf : List ℕ) (ret : ℤ) (a : Adapter) (w : World)
      → IsClient n i
      → refuse_outgoing cid sid (length buf) (s.node i) ≡ none
      → post_outgoing buf (peer_of cid sid) (s.node i) (world_of s) ≡ done ret a w
      → t ≡ after s i a w (rung (s.node i).doorbell a.doorbell ++ s.bells)
      → Step n s t
  hears :
      (j i : ℕ) (before behind : List (ℕ × ℕ)) (env : Env) (vector : ℕ) (h : Bool) (a : Adapter)
      (w : World)
      → IsClient n j
      → IsClient n i
      → s.bells ≡ before ++ (j, i) ∷ behind
      → Hears (s.node j) i vector
      → IsOrdinary (stamp_peer (s.mem (s.node i).my_slot))
      → all_msix env vector (s.node j) (world_of s) ≡ done h a w
      → t ≡ after s j a w (before ++ behind)
      → Step n s t
  serves :
      (j i : ℕ) (before behind : List (ℕ × ℕ)) (x : Unit {0}) (a : Adapter) (w : World)
      → IsClient n j
      → IsClient n i
      → s.bells ≡ before ++ (j, i) ∷ behind
      → receive (s.node i).my_slot (stamp_peer (s.mem (s.node i).my_slot)) (s.node j) (world_of s)
        ≡ done x a w
      → t ≡ after s j a w (before ++ behind)
      → Step n s t
  reads :
      (j p : ℕ) (env : ReadEnv) (buflen : ℕ) (r : ReadResult) (a : Adapter) (w : World)
      → IsClient n j
      → (s.node j).incoming_slot ≡ some p
      → gf_bridge_read env buflen (s.node j) (world_of s) ≡ done r a w
      → t ≡ after s j a w s.bells
      → Step n s t

-- What a step means to the mailboxes: the message of a client is sent to a peer, the slot at an address
-- is emptied, or neither.
pub data Event : Type 0 where
  sends : (client peer : ℕ) (text : List ℕ) → Event
  empties : (slot : ℕ) → Event
  idles : Event

-- the end of sending, where the client's slot is free or busy
abbrev pub post_event : (client peer : ℕ) (text : List ℕ) → (busy : Bool) → Event
post_event i peer text true = idles
post_event i peer text false = sends i peer text

unfoldable pub event_of : {n : ℕ} {s t : Fabric} → Step n s t → Event
event_of {s = s} (posts i cid sid buf ret a w c accepted run is) =
    post_event i (peer_of cid sid) buf (ltb 0 (s.mem (s.node i).my_slot).buflen)
event_of (hears j i before behind env vector h a w cj ci due hearing ordinary run is) = idles
event_of {s = s} (serves j i before behind x a w cj ci due run is) = empties (s.node i).my_slot
event_of (reads j p env buflen r a w c waits run is) = empties p

pub data Reach (n : ℕ) (s : Fabric) : Fabric → Type 0 where
  here : Reach n s s
  next : {t u : Fabric} → Reach n s t → Step n t u → Reach n s u

-- the events of a run, in their order
unfoldable pub events_of : {n : ℕ} {s t : Fabric} → Reach n s t → List Event
events_of here = []
events_of (next run step) = events_of run ++ event_of step ∷ []
