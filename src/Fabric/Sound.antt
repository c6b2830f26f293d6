-- ===== src/Fabric/Sound.antt =====
-- The layout of a fabric, and that a change of one slot and one client keeps it.
use emer_gen_z.Base.{
  ℕ, ◌+◌, ◌*◌, ◌^◌, ◌≤◌, ◌<◌, ◌≡◌, refl, ◌≢◌, ◌⊎◌, inl, inr, none, some, arith, length, ◌==◌,
  Bool-cases, ==→eq, ◌∙◌, ap, sym,
}
use emer_gen_z.Fee.{Globals, Mailslot, Adapter, update, update_self, update_other}
use emer_gen_z.Mailbox.{calculate_mailslot}
use emer_gen_z.Mailbox.Geometry.{IsLaidOut, exact_address, row_below}
use emer_gen_z.Fabric.{Fabric, IsClient}

-- Every client has the server's layout, its own number and slot, a slot as large as announced, and
-- waits for nobody or for a client.
pub record IsSound (n : ℕ) (g : Globals) (s : Fabric) : Type 0 where
  pub laid_out : IsLaidOut g
  pub few : n ≤ g.n_clients
  pub narrow : n < 2 ^ 16
  pub layout_of : (i : ℕ) → IsClient n i → (s.node i).globals ≡ g
  pub id_of : (i : ℕ) → IsClient n i → (s.node i).my_id ≡ i
  pub slot_of : (i : ℕ) → IsClient n i → calculate_mailslot g i ≡ some (s.node i).my_slot
  pub sized : (i : ℕ) → IsClient n i → length (s.mem (s.node i).my_slot).buf ≡ (s.node i).max_buflen
  pub waits_for :
      (j p : ℕ)
      → IsClient n j
      → (s.node j).incoming_slot ≡ some p
      → (i : ℕ) × IsClient n i × ((s.node i).my_slot ≡ p)

-- The slots of two clients are two.
pub slots_differ :
    {n : ℕ} {g : Globals} {s : Fabric}
    → IsSound n g s
    → (i k : ℕ) → IsClient n i
    → IsClient n k
    → i ≢ k
    → (s.node i).my_slot ≢ (s.node k).my_slot
slots_differ {n} {g} {s} ok i k ci ck ne same =
    let pi : (s.node i).my_slot ≡ g.base + i * g.slotsize =
      (exact_address g ok.laid_out i (s.node i).my_slot (ok.slot_of i ci)).1 in
    let pk : (s.node k).my_slot ≡ g.base + k * g.slotsize =
      (exact_address g ok.laid_out k (s.node k).my_slot (ok.slot_of k ck)).1 in
    let z : 0 < g.slotsize = ok.laid_out.sized in
    elim (le_or_lt i k) [
      | inl below ↦ absurd (omega (arith, row_below i k g.slotsize (below ne)))
      | inr above ↦ absurd (omega (arith, row_below k i g.slotsize above))
    ]
  where
    le_or_lt : (i k : ℕ) → (i ≢ k → i < k) ⊎ (k < i)
    le_or_lt i k = elim (Bool-cases (i == k)) [
      | inl same ↦ inl (λ ne. absurd (ne (==→eq i k same)))
      | inr other ↦ ground arith
    ]

-- What one step changes: client `j`, whose place and layout stay, and the slot of client `k`.
pub record Effect (n : ℕ) (s t : Fabric) (j k : ℕ) (x : Mailslot) : Type 0 where
  pub adapter : Adapter
  pub actor : IsClient n j
  pub owner : IsClient n k
  pub node_is : t.node ≡ update s.node j adapter
  pub mem_is : t.mem ≡ update s.mem (s.node k).my_slot x
  pub size_kept : length x.buf ≡ length (s.mem (s.node k).my_slot).buf
  pub layout_kept : adapter.globals ≡ (s.node j).globals
  pub id_kept : adapter.my_id ≡ (s.node j).my_id
  pub slot_kept : adapter.my_slot ≡ (s.node j).my_slot
  pub room_kept : adapter.max_buflen ≡ (s.node j).max_buflen
  pub incoming :
      (adapter.incoming_slot ≡ (s.node j).incoming_slot)
      ⊎ (adapter.incoming_slot ≡ none)
      ⊎ (adapter.incoming_slot ≡ some (s.node k).my_slot)

module _ {n : ℕ} {s t : Fabric} {j k : ℕ} {x : Mailslot} (e : Effect n s t j k x) where
  -- a field that the step's client keeps is kept by all
  pub field_kept :
      {B : Type 0} (f : Adapter → B)
      → f e.adapter ≡ f (s.node j)
      → (i : ℕ) → f (t.node i) ≡ f (s.node i)
  field_kept f same i =
      ap (λ (node : ℕ → Adapter). f (node i)) e.node_is ∙ elim (Bool-cases (i == j)) [
        | inl here ↦ rw here (same ∙ ap (λ q. f (s.node q)) (sym (==→eq i j here)))
        | inr other ↦ rw other refl
      ]

  pub slot_field : (i : ℕ) → (t.node i).my_slot ≡ (s.node i).my_slot
  slot_field i = field_kept (λ a. a.my_slot) e.slot_kept i

  -- the changed slot, and the others
  pub slot_written : t.mem (t.node k).my_slot ≡ x
  slot_written =
      ap t.mem (slot_field k)
      ∙ (ap (λ m. m (s.node k).my_slot) e.mem_is ∙ update_self s.mem (s.node k).my_slot x)

  pub slot_elsewhere :
      (i : ℕ)
      → (s.node i).my_slot ≢ (s.node k).my_slot
      → t.mem (t.node i).my_slot ≡ s.mem (s.node i).my_slot
  slot_elsewhere i other =
      ap t.mem (slot_field i)
      ∙ (ap (λ m. m (s.node i).my_slot) e.mem_is
          ∙ update_other s.mem (s.node k).my_slot (s.node i).my_slot x other)

  -- who waits afterwards waited before, or waits for the slot that was written
  pub waiting_before :
      (i p : ℕ)
      → (t.node i).incoming_slot ≡ some p
      → ((s.node i).incoming_slot ≡ some p) ⊎ (p ≡ (s.node k).my_slot)
  waiting_before i p waits =
      let w : (update s.node j e.adapter i).incoming_slot ≡ some p =
        ap (λ (node : ℕ → Adapter). (node i).incoming_slot) (sym e.node_is) ∙ waits in
      elim (Bool-cases (i == j)) [
        | inl here ↦ elim e.incoming [
          | inl same ↦
              inl
                (ap (λ q. (s.node q).incoming_slot) (==→eq i j here) ∙ (sym same ∙ (rw here at w)))
          | inr (inl gone) ↦ absurd (let w' = (rw here at w) in cc (gone, w'))
          | inr (inr new) ↦ inr (let w' = (rw here at w) in cc (new, w'))
        ]
        | inr other ↦ inl (rw other at w)
      ]

  pub Effect-IsSound : {g : Globals} → IsSound n g s → IsSound n g t
  Effect-IsSound {g} ok = record {
    laid_out = ok.laid_out;
    few = ok.few;
    narrow = ok.narrow;
    layout_of = λ i c. field_kept (λ a. a.globals) e.layout_kept i ∙ ok.layout_of i c;
    id_of = λ i c. field_kept (λ a. a.my_id) e.id_kept i ∙ ok.id_of i c;
    slot_of = λ i c. ok.slot_of i c ∙ ap some (sym (slot_field i));
    sized = λ i c. elim (Bool-cases (i == k)) [
      | inl same ↦
          ap (λ q. length (t.mem (t.node q).my_slot).buf) (==→eq i k same)
          ∙ (ap (λ (y : Mailslot). length y.buf) slot_written
              ∙ (e.size_kept
                  ∙ (ap (λ q. length (s.mem (s.node q).my_slot).buf) (sym (==→eq i k same))
                      ∙ (ok.sized i c ∙ sym (field_kept (λ a. a.max_buflen) e.room_kept i)))))
      | inr other ↦
          ap (λ (y : Mailslot). length y.buf)
            (slot_elsewhere i (slots_differ ok i k c e.owner (λ h. ground arith)))
          ∙ (ok.sized i c ∙ sym (field_kept (λ a. a.max_buflen) e.room_kept i))
    ];
    waits_for = λ i p c waits. elim (waiting_before i p waits) [
      | inl before ↦ let (o, co, at) = ok.waits_for i p c before in (o, co, slot_field o ∙ at)
      | inr new ↦ (k, e.owner, slot_field k ∙ sym new)
    ];
  }
