-- ===== src/Fabric/Effects/Interrupts.antt =====
-- What an interrupt changes.
use emer_gen_z.Base.{
  ℕ, ◌≡◌, refl, inl, inr, some, List, ◌∷◌, ◌++◌, length, Bool, false, ◌∙◌, ap, sym,
}
use emer_gen_z.Fee.{Globals, Mailslot, Adapter, World, done, update, update_self}
use emer_gen_z.Outgoing.{Env}
use emer_gen_z.Mailbox.{calculate_mailslot}
use emer_gen_z.Link.{stamp_peer, receive}
use emer_gen_z.Msix.Handler.{all_msix}
use emer_gen_z.Msix.Deliver.{IsOrdinary, all_msix-delivers}
use emer_gen_z.Exchange.Receive.{Hears, Hears-match}
use emer_gen_z.Fabric.{Fabric, world_of, after, IsClient, empties, idles}
use emer_gen_z.Fabric.Sound.{IsSound, Effect}
use emer_gen_z.Fabric.Effects.{Keeps, stamps, serves_link, Changes}

stamp_peer-Keeps : (s : Mailslot) → Keeps s (stamp_peer s)
unfolding stamp_peer
stamp_peer-Keeps s = record { buflen_kept = refl; responder_kept = refl; buf_kept = refl }

-- an interrupt for a message of a user
pub interrupt_run :
    {n : ℕ} {g : Globals} (s : Fabric) (j i : ℕ) (env : Env) (vector : ℕ) (h : Bool) (a : Adapter)
    (w : World)
    → IsSound n g s
    → IsClient n j
    → IsClient n i
    → Hears (s.node j) i vector
    → IsOrdinary (stamp_peer (s.mem (s.node i).my_slot))
    → all_msix env vector (s.node j) (world_of s) ≡ done h a w
    → (a ≡ record (s.node j) {
      incoming_slot = some (s.node i).my_slot;
      incoming_slot_locked = false;
    })
      × (w ≡ record (world_of s) {
        mem = update s.mem (s.node i).my_slot (stamp_peer (s.mem (s.node i).my_slot));
      })
interrupt_run s j i env vector h a w ok cj ci hearing ordinary run =
    let p = (s.node i).my_slot in
    let place : calculate_mailslot (s.node j).globals hearing.event.entry ≡ some p =
      ap (λ e. calculate_mailslot (s.node j).globals e) hearing.entry_of
      ∙ (ap (λ l. calculate_mailslot l i) (ok.layout_of j cj) ∙ ok.slot_of i ci) in
    let told =
      sym run
      ∙ all_msix-delivers env vector (s.node j) (world_of s) hearing.table hearing.event p
          hearing.pointer (Hears-match hearing) place ordinary in
    (cc (told), cc (told))

pub interrupt-Effect :
    {n : ℕ} {g : Globals} (s t : Fabric) (j i : ℕ) (before behind : List (ℕ × ℕ)) (env : Env)
    (vector : ℕ) (h : Bool) (a : Adapter) (w : World)
    → IsSound n g s
    → IsClient n j
    → IsClient n i
    → s.bells ≡ before ++ (j, i) ∷ behind
    → Hears (s.node j) i vector
    → IsOrdinary (stamp_peer (s.mem (s.node i).my_slot))
    → all_msix env vector (s.node j) (world_of s) ≡ done h a w
    → t ≡ after s j a w (before ++ behind)
    → Effect n s t j i (stamp_peer (s.mem (s.node i).my_slot))
interrupt-Effect s t j i before behind env vector h a w ok cj ci due hearing ordinary run is =
    let p = (s.node i).my_slot in
    let (same, same') = interrupt_run s j i env vector h a w ok cj ci hearing ordinary run in
    record {
      adapter = a;
      actor = cj;
      owner = ci;
      node_is = ap (λ (f : Fabric). f.node) is;
      mem_is = ap (λ (f : Fabric). f.mem) is ∙ ap (λ (v : World). v.mem) same';
      size_kept = ap length (stamp_peer-Keeps (s.mem p)).buf_kept;
      layout_kept = ap (λ (x : Adapter). x.globals) same;
      id_kept = ap (λ (x : Adapter). x.my_id) same;
      slot_kept = ap (λ (x : Adapter). x.my_slot) same;
      room_kept = ap (λ (x : Adapter). x.max_buflen) same;
      incoming = inr (inr (ap (λ (x : Adapter). x.incoming_slot) same));
    }

pub announces-Changes :
    {n : ℕ} {g : Globals} (s t : Fabric) (j i : ℕ) (before behind : List (ℕ × ℕ)) (env : Env)
    (vector : ℕ) (h : Bool) (a : Adapter) (w : World)
    → IsSound n g s
    → IsClient n j
    → IsClient n i
    → s.bells ≡ before ++ (j, i) ∷ behind
    → Hears (s.node j) i vector
    → IsOrdinary (stamp_peer (s.mem (s.node i).my_slot))
    → all_msix env vector (s.node j) (world_of s) ≡ done h a w
    → t ≡ after s j a w (before ++ behind)
    → Changes n s t idles
announces-Changes s t j i before behind env vector h a w ok cj ci due hearing ordinary run is =
    let p = (s.node i).my_slot in
    let (same, _) = interrupt_run s j i env vector h a w ok cj ci hearing ordinary run in
    record {
      actor = j;
      owner = i;
      slot = stamp_peer (s.mem p);
      effect =
          interrupt-Effect s t j i before behind env vector h a w ok cj ci due hearing ordinary run
            is;
      change =
          stamps (stamp_peer-Keeps (s.mem p))
            (record {
              before = before;
              behind = behind;
              was_due = due;
              is_done = ap (λ (f : Fabric). f.bells) is;
            })
            (ap (λ (f : Fabric). (f.node j).incoming_slot) is
              ∙ (ap (λ (x : Adapter). x.incoming_slot) (update_self s.node j a)
                  ∙ ap (λ (x : Adapter). x.incoming_slot) same));
    }

pub serves-Changes :
    {n : ℕ} {g : Globals} (s t : Fabric) (j i : ℕ) (before behind : List (ℕ × ℕ)) (x : Unit {0})
    (a : Adapter) (w : World)
    → IsSound n g s
    → IsClient n j
    → IsClient n i
    → s.bells ≡ before ++ (j, i) ∷ behind
    → receive (s.node i).my_slot (stamp_peer (s.mem (s.node i).my_slot)) (s.node j) (world_of s)
      ≡ done x a w
    → t ≡ after s j a w (before ++ behind)
    → Changes n s t (empties (s.node i).my_slot)
serves-Changes s t j i before behind x a w ok cj ci due run is =
    let p = (s.node i).my_slot in
    let same : record (s.node j) { incoming_slot_locked = false } ≡ a = cc (run) in
    let same' : record (world_of s) {
      mem = update s.mem p (record (stamp_peer (s.mem p)) { buflen = 0 });
    }
        ≡ w =
      cc (run) in
    record {
      actor = j;
      owner = i;
      slot = record (stamp_peer (s.mem p)) { buflen = 0 };
      effect = record {
        adapter = a;
        actor = cj;
        owner = ci;
        node_is = ap (λ (f : Fabric). f.node) is;
        mem_is = ap (λ (f : Fabric). f.mem) is ∙ ap (λ (v : World). v.mem) (sym same');
        size_kept = ap length (stamp_peer-Keeps (s.mem p)).buf_kept;
        layout_kept = ap (λ (y : Adapter). y.globals) (sym same);
        id_kept = ap (λ (y : Adapter). y.my_id) (sym same);
        slot_kept = ap (λ (y : Adapter). y.my_slot) (sym same);
        room_kept = ap (λ (y : Adapter). y.max_buflen) (sym same);
        incoming = inl (ap (λ (y : Adapter). y.incoming_slot) (sym same));
      };
      change = serves_link refl (record {
        before = before;
        behind = behind;
        was_due = due;
        is_done = ap (λ (f : Fabric). f.bells) is;
      });
    }
