-- ===== src/Fabric/Stranded.antt =====
-- What becomes of a message whose reader was called away before it read.
use emer_gen_z.Base.{
  ℕ, ◌<◌, ◌≡◌, refl, ◌≢◌, inl, inr, some, Option, Bool, List, [], ◌∷◌, ◌++◌, arith, lt→ltb, error,
  erestartsys, All, ◌∙◌, ap, sym, ◌==◌, ==→eq, Bool-cases,
}
use mathlib.Core.Path.{subst}
use emer_gen_z.Fee.{Globals, Mailslot, Adapter, World, done, update_self}
use emer_gen_z.Outgoing.{Env, post_outgoing}
use emer_gen_z.Link.{stamp_peer}
use emer_gen_z.Msix.Handler.{all_msix}
use emer_gen_z.Msix.Deliver.{IsOrdinary}
use emer_gen_z.Exchange.Receive.{Hears}
use emer_gen_z.Fabric.{Fabric, Event, world_of, after, IsClient, Reach, here, next}
use emer_gen_z.Fabric.Sound.{
  IsSound, slots_differ, slot_field, slot_elsewhere, waiting_before, slot_written, Effect-IsSound,
}
use emer_gen_z.Fabric.Effects.Steps.{Step-Changes}
use emer_gen_z.Fabric.Effects.Interrupts.{interrupt_run, interrupt-Effect}
use emer_gen_z.Fabric.Effects.{
  Keeps, Answers, Change, stays, fills, stamps, serves_link, reads_slot, Changes,
}
use emer_gen_z.Fabric.Refine.{boxes, mail_of, mail_of-Keeps}

-- no interrupt of client `i` is due
abbrev pub IsSilent : ℕ → List (ℕ × ℕ) → Type 0
IsSilent i bells = All (λ (b : ℕ × ℕ). b.1 ≢ i) bells

-- a message that no interrupt announces and no reader waits for
pub record IsStranded (n i : ℕ) (s : Fabric) : Type 0 where
  pub busy : 0 < (s.mem (s.node i).my_slot).buflen
  pub silent : IsSilent i s.bells
  pub unread : (j : ℕ) → IsClient n j → (s.node j).incoming_slot ≢ some (s.node i).my_slot

All-without :
    (i : ℕ) (b : ℕ × ℕ) (before behind : List (ℕ × ℕ))
    → IsSilent i (before ++ b ∷ behind)
    → (b.1 ≢ i) × IsSilent i (before ++ behind)
All-without i b [] behind h = (h.0, h.1)
All-without i b (x ∷ before) behind h =
    let (ne, rest) = All-without i b before behind h.1 in (ne, (h.0, rest))

module _ {n : ℕ} {g : Globals} (i : ℕ) (s t : Fabric) {e : Event} (ok : IsSound n g s)
    (c : IsClient n i) (lost : IsStranded n i s) (ch : Changes n s t e) where
  abbrev old_slot : Mailslot
  old_slot = s.mem (s.node ch.owner).my_slot

  -- a change of another client's slot
  elsewhere : ch.owner ≢ i → IsSilent i t.bells → IsStranded n i t × (boxes t i ≡ boxes s i)
  elsewhere ne silent =
      let apart : (s.node i).my_slot ≢ (s.node ch.owner).my_slot =
        slots_differ ok i ch.owner c ch.effect.owner (λ e. ne (sym e)) in
      let at = slot_elsewhere ch.effect i apart in
      (
        record {
          busy = subst (λ (m : Mailslot). 0 < m.buflen) (sym at) lost.busy;
          silent = silent;
          unread = λ j cj waits.
              elim (waiting_before ch.effect j (s.node i).my_slot
                (waits ∙ ap some (slot_field ch.effect i))) [
                  | inl before ↦ lost.unread j cj before
                  | inr new ↦ apart new
                ];
        },
        ap mail_of at,
      )

  -- the stranded client tried to send once more
  tried :
      ch.owner ≡ i
      → Keeps old_slot ch.slot
      → t.node ≡ s.node
      → t.bells ≡ s.bells
      → IsStranded n i t × (boxes t i ≡ boxes s i)
  tried same k nodes bells =
      let at : t.mem (t.node i).my_slot ≡ ch.slot =
        ap (λ q. t.mem (t.node q).my_slot) (sym same) ∙ slot_written ch.effect in
      let old : old_slot ≡ s.mem (s.node i).my_slot = ap (λ q. s.mem (s.node q).my_slot) same in
      let len : (t.mem (t.node i).my_slot).buflen ≡ (s.mem (s.node i).my_slot).buflen =
        ap (λ (m : Mailslot). m.buflen) at
        ∙ (k.buflen_kept ∙ ap (λ (m : Mailslot). m.buflen) old) in
      (
        record {
          busy = omega (arith, len, lost.busy);
          silent = subst (IsSilent i) (sym bells) lost.silent;
          unread = λ j cj waits. lost.unread j cj (
              ap (λ node. (node j).incoming_slot) (sym nodes)
              ∙ (waits ∙ ap some (slot_field ch.effect i)));
        },
        ap mail_of at ∙ (mail_of-Keeps old_slot ch.slot k ∙ ap mail_of old),
      )

  not_me : {j k : ℕ} → k ≡ ch.owner → Answers s t j k → (ch.owner ≢ i) × IsSilent i t.bells
  not_me {j} {k} same a =
      let (ne, rest) =
        All-without i (j, k) a.before a.behind (subst (IsSilent i) a.was_due lost.silent) in
      (subst (λ o. o ≢ i) same ne, subst (IsSilent i) (sym a.is_done) rest)

  Change-IsStranded :
      {e' : Event}
      → Change s t ch.actor ch.owner old_slot ch.slot e'
      → IsStranded n i t × (boxes t i ≡ boxes s i)
  Change-IsStranded (stays k nodes bells) = elim (Bool-cases (ch.owner == i)) [
    | inl same ↦ tried (==→eq ch.owner i same) k nodes bells
    | inr other ↦ elsewhere (λ e. ground arith) (subst (IsSilent i) (sym bells) lost.silent)
  ]
  Change-IsStranded (fills peer text f bells) =
      let ne : ch.owner ≢ i = λ e.
        let z : (s.mem (s.node i).my_slot).buflen ≡ 0 =
          ap (λ q. (s.mem (s.node q).my_slot).buflen) (sym e) ∙ f.was_free in
        absurd (omega (arith, z, lost.busy)) in
      elsewhere ne (subst (IsSilent i) (sym bells) (ne, lost.silent))
  Change-IsStranded (stamps k a _) = let (ne, silent) = not_me refl a in elsewhere ne silent
  Change-IsStranded (serves_link free a) = let (ne, silent) = not_me refl a in elsewhere ne silent
  Change-IsStranded (reads_slot free waits bells) =
      elsewhere
        (λ e. lost.unread ch.actor ch.effect.actor (waits ∙ ap (λ q. some (s.node q).my_slot) e))
        (subst (IsSilent i) (sym bells) lost.silent)

Reach-IsStranded :
    {n : ℕ} {g : Globals} (i : ℕ) (s t : Fabric)
    → IsSound n g s
    → IsClient n i
    → IsStranded n i s
    → Reach n s t
    → IsSound n g t × IsStranded n i t × (boxes t i ≡ boxes s i)
Reach-IsStranded i s t ok c lost here = (ok, lost, refl)
Reach-IsStranded i s t ok c lost (next {t = u} r step) =
    let (ok', lost', same) = Reach-IsStranded i s u ok c lost r in
    let ch = Step-Changes ok' step in
    let (lost'', same') = Change-IsStranded i u t ok' c lost' ch ch.change in
    (Effect-IsSound ch.effect ok', lost'', same' ∙ same)

some_injective : {p q : ℕ} → ◌≡◌ {A = Option ℕ} (some p) (some q) → p ≡ q
some_injective e = cc

-- a sender whose slot is busy
busy_run :
    (buf : List ℕ) (peer : ℕ) (a : Adapter) (w : World)
    → 0 < (w.mem a.my_slot).buflen
    → post_outgoing buf peer a w ≡ done (error erestartsys) a w
unfolding post_outgoing
busy_run buf peer a w busy = rw (lt→ltb 0 (w.mem a.my_slot).buflen busy) refl

-- Client `j` has been told of a message of `i`, which nobody else waits for and no interrupt will
-- announce again. If the interrupt of another client `k` reaches `j` before it reads, then, whatever
-- any client does afterwards, none being created anew, the message of `i` stays unread in its slot, and
-- no further message of `i` gets out: the last step of sending it returns -ERESTARTSYS and changes
-- nothing.
pub stomped-IsStranded :
    {n : ℕ} {g : Globals} (i j k : ℕ) (s u : Fabric) (before behind : List (ℕ × ℕ)) (env : Env)
    (vector : ℕ) (h : Bool) (a : Adapter) (w : World) (buf : List ℕ) (peer : ℕ)
    → IsSound n g s
    → IsClient n i
    → IsClient n j
    → IsClient n k
    → k ≢ i
    → 0 < (s.mem (s.node i).my_slot).buflen
    → IsSilent i s.bells
    → ((l : ℕ) → IsClient n l → l ≢ j → (s.node l).incoming_slot ≢ some (s.node i).my_slot)
    → s.bells ≡ before ++ (j, k) ∷ behind
    → Hears (s.node j) k vector
    → IsOrdinary (stamp_peer (s.mem (s.node k).my_slot))
    → all_msix env vector (s.node j) (world_of s) ≡ done h a w
    → Reach n (after s j a w (before ++ behind)) u
    → (boxes u i ≡ boxes s i)
      × (post_outgoing buf peer (u.node i) (world_of u)
          ≡ done (error erestartsys) (u.node i) (world_of u))
stomped-IsStranded {n} {g} i j k s u before behind env vector h a w buf peer ok ci cj ck ne busy
      silent alone due hearing ordinary run reach =
    let t = after s j a w (before ++ behind) in
    let effect =
      interrupt-Effect s t j k before behind env vector h a w ok cj ck due hearing ordinary run
        refl in
    let told = (interrupt_run s j k env vector h a w ok cj ck hearing ordinary run).0 in
    let apart : (s.node i).my_slot ≢ (s.node k).my_slot =
      slots_differ ok i k ci ck (λ e. ne (sym e)) in
    let at = slot_elsewhere effect i apart in
    let own = slot_field effect i in
    let lost : IsStranded n i t = record {
      busy = subst (λ (m : Mailslot). 0 < m.buflen) (sym at) busy;
      silent = (All-without i (j, k) before behind (subst (IsSilent i) due silent)).1;
      unread = λ l cl waits. elim (Bool-cases (l == j)) [
        | inl this ↦ apart (
            some_injective (
              sym (waits ∙ ap some own)
              ∙ (ap (λ q. (t.node q).incoming_slot) (==→eq l j this)
                  ∙ (ap (λ (x : Adapter). x.incoming_slot) (update_self s.node j a)
                      ∙ ap (λ (x : Adapter). x.incoming_slot) told))))
        | inr other ↦ elim (waiting_before effect l (s.node i).my_slot (waits ∙ ap some own)) [
          | inl earlier ↦ alone l cl (λ e. ground arith) earlier
          | inr new ↦ apart new
        ]
      ];
    } in
    let (ok', lost', same) = Reach-IsStranded i t u (Effect-IsSound effect ok) ci lost reach in
    (same ∙ ap mail_of at, busy_run buf peer (u.node i) (world_of u) lost'.busy)
