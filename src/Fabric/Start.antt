-- ===== src/Fabric/Start.antt =====
-- A fabric whose clients `FEE_adapter_create` has made, one after the other, while those before them
-- run.
use emer_gen_z.Base.{
  ℕ, suc, ◌+◌, ◌*◌, ◌^◌, ◌≤◌, ◌<◌, ◌≡◌, ◌≢◌, ◌⊎◌, inl, inr, some, arith, length, ◌==◌, Bool-cases,
  ==→eq, ◌∙◌, ap, sym,
}
use mathlib.Core.Path.{subst}
use emer_gen_z.Fee.{Globals, Mailslot, Adapter, World, update, update_self, update_other}
use emer_gen_z.Mailbox.{calculate_mailslot}
use emer_gen_z.Mailbox.Geometry.{IsLaidOut, exact_address, row_below}
use emer_gen_z.Adapters.{PciDev, CreateEnv, created, fee_adapter_create}
use emer_gen_z.Adapters.Laws.{IsBare, IsReady, IsCreation, fee_adapter_create-IsCreation}
use emer_gen_z.Fabric.{Fabric, IsClient, world_of, after, Step}
use emer_gen_z.Fabric.Sound.{IsSound}
use emer_gen_z.Fabric.Refine.{Step-refines}

-- Clients 1 to `k` have joined, in the order of their numbers, and have made steps meanwhile.
pub data Joined (g : Globals) : ℕ → Fabric → Type 0 where
  nobody : (s : Fabric) → Joined g 0 s
  joins :
      {k : ℕ} {s : Fabric} (env : CreateEnv) (a : Adapter) (w : World) (p p' : PciDev)
      → Joined g k s
      → IsBare p
      → env.globals ≡ g
      → a.my_id ≡ suc k
      → fee_adapter_create env (world_of s) p ≡ created a w p'
      → Joined g (suc k) (after s (suc k) a w s.bells)
  runs : {k : ℕ} {s t : Fabric} → Joined g k s → Step k s t → Joined g k t

IsClient-cases : (k i : ℕ) → IsClient (suc k) i → (i ≡ suc k) ⊎ (IsClient k i × (i ≢ suc k))
IsClient-cases k i c = elim (Bool-cases (i == suc k)) [
  | inl same ↦ inl (==→eq i (suc k) same)
  | inr other ↦
      inr ((ground (arith, c, other), ground (arith, c, other)), λ e. ground (arith, e, other))
]

module _ (g : Globals) (k : ℕ) (s : Fabric) (env : CreateEnv) (a : Adapter) (w : World)
    (ok : IsSound k g s) (ready : IsReady env (world_of s) a w) (same : env.globals ≡ g)
    (number : a.my_id ≡ suc k) (few : suc k ≤ g.n_clients) (narrow : suc k < 2 ^ 16) where
  abbrev behind : Fabric
  behind = after s (suc k) a w s.bells

  node_new : (i : ℕ) → i ≡ suc k → behind.node i ≡ a
  node_new i e = ap (update s.node (suc k) a) e ∙ update_self s.node (suc k) a

  node_old : (i : ℕ) → i ≢ suc k → behind.node i ≡ s.node i
  node_old i ne = update_other s.node (suc k) i a ne

  placed : calculate_mailslot g (suc k) ≡ some a.my_slot
  placed =
      ap (λ (x : Globals). calculate_mailslot x (suc k)) (sym same)
      ∙ (ap (calculate_mailslot env.globals) (sym number) ∙ ready.placed)

  slot_is_new : (i : ℕ) → IsClient k i → (s.node i).my_slot ≢ a.my_slot
  slot_is_new i c e =
      let pi : (s.node i).my_slot ≡ g.base + i * g.slotsize =
        (exact_address g ok.laid_out i (s.node i).my_slot (ok.slot_of i c)).1 in
      let pk : a.my_slot ≡ g.base + suc k * g.slotsize =
        (exact_address g ok.laid_out (suc k) a.my_slot placed).1 in
      omega (arith, row_below i (suc k) g.slotsize (omega arith), ok.laid_out.sized)

  -- what holds of the new client and of those before
  everyone :
      (P : ℕ → Adapter → Type 0)
      → P (suc k) a
      → ((i : ℕ) → IsClient k i → P i (s.node i))
      → (i : ℕ) → IsClient (suc k) i
      → P i (behind.node i)
  everyone P new old i c = elim (IsClient-cases k i c) [
    | inl e ↦ subst (P i) (sym (node_new i e)) (subst (λ x. P x a) (sym e) new)
    | inr (ci, ne) ↦ subst (P i) (sym (node_old i ne)) (old i ci)
  ]

  joins-IsSound : IsSound (suc k) g behind
  joins-IsSound = record {
    laid_out = ok.laid_out;
    few = few;
    narrow = narrow;
    layout_of = everyone (λ i x. x.globals ≡ g) (ready.announced ∙ same) ok.layout_of;
    id_of = everyone (λ i x. x.my_id ≡ i) number ok.id_of;
    slot_of = everyone (λ i x. calculate_mailslot g i ≡ some x.my_slot) placed ok.slot_of;
    sized =
        everyone (λ i x. length (w.mem x.my_slot).buf ≡ x.max_buflen) ready.sized
          (λ i c.
            ap (λ (y : Mailslot). length y.buf)
              (ready.others_kept (s.node i).my_slot (slot_is_new i c))
            ∙ ok.sized i c);
    waits_for = λ j p c.
        everyone
          (λ _ x.
            x.incoming_slot ≡ some p → (i : ℕ) × IsClient (suc k) i × ((behind.node i).my_slot ≡ p))
          (λ waits. absurd (ground (arith, ready.nothing_waits, waits)))
          (λ i ci waits.
            let (o, co, at) = ok.waits_for i p ci waits in
            (
              o,
              (co.0, omega (arith, co.1)),
              ap (λ (x : Adapter). x.my_slot) (node_old o (λ e. omega (arith, co.1, e))) ∙ at,
            ))
          j c;
  }

-- In a layout that the server may announce, with a number for every client that a doorbell can carry:
-- where the clients have joined in the order of their numbers and run, the fabric has the server's layout, each client its own
-- number and slot, as large as announced, and whoever is told of a message is told of a client's slot.
pub Joined-IsSound :
    (g : Globals) (n : ℕ) (s : Fabric)
    → IsLaidOut g
    → n ≤ g.n_clients
    → n < 2 ^ 16
    → Joined g n s
    → IsSound n g s
Joined-IsSound g n s laid few narrow (nobody s0) = record {
  laid_out = laid;
  few = few;
  narrow = narrow;
  layout_of = λ i c. absurd (omega (arith, c.0, c.1));
  id_of = λ i c. absurd (omega (arith, c.0, c.1));
  slot_of = λ i c. absurd (omega (arith, c.0, c.1));
  sized = λ i c. absurd (omega (arith, c.0, c.1));
  waits_for = λ j p c. absurd (omega (arith, c.0, c.1));
}
Joined-IsSound g n s laid few narrow (joins {k} {s = s0} env a w p p' before bare same number run) =
    let ready =
      (subst (IsCreation env (world_of s0) p) run
        (fee_adapter_create-IsCreation env (world_of s0) p bare)).0 in
    joins-IsSound g k s0 env a w
      (Joined-IsSound g k s0 laid (omega (arith, few)) (omega (arith, narrow)) before) ready same
      number few narrow
Joined-IsSound g n s laid few narrow (runs {s = s0} before step) =
    (Step-refines s0 s (Joined-IsSound g n s0 laid few narrow before) step).1
