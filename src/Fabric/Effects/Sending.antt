-- ===== src/Fabric/Effects/Sending.antt =====
-- What the last step of sending changes.
use emer_gen_z.Base.{
  ℕ, suc, ◌+◌, ◌-◌, ◌*◌, ◌/◌, ◌%◌, ◌^◌, ◌≤◌, ◌<◌, ◌≡◌, refl, ◌⊎◌, inl, inr, none, List, [], ◌∷◌,
  ◌++◌, arith, length, ltb, ◌==◌, ==→eq, set, take-overwrite, length-overwrite, length-set,
  Bool-cases, true, false, ℤ, ◌∙◌, ap, sym,
}
use mathlib.Core.Path.{subst, fun_ext}
use emer_gen_z.Fee.{Globals, Mailslot, Adapter, World, done, update}
use emer_gen_z.Outgoing.{peer_of, refuse_outgoing, post_outgoing, fill_slot, ringer}
use emer_gen_z.Outgoing.Deliver.{Acceptable, refuse_outgoing-none}
use emer_gen_z.Fabric.{Fabric, world_of, after, split_ringer, rung, IsClient, post_event}
use emer_gen_z.Fabric.Sound.{IsSound}
use emer_gen_z.Fabric.Effects.{Fills, stays, fills, Changes}

rung_self : (d : List ℕ) → rung d d ≡ []
rung_self d = let z : length d - length d ≡ 0 = omega arith in rw z refl

rung-cons : (x : ℕ) (d : List ℕ) → rung d (x ∷ d) ≡ split_ringer x ∷ []
rung-cons x d = let o : suc (length d) - length d ≡ 1 = omega arith in rw o refl

split_ringer-ringer : (peer i : ℕ) → i < 2 ^ 16 → split_ringer (ringer peer i) ≡ (peer % 2 ^ 16, i)
unfolding ringer
split_ringer-ringer peer i small =
    let hi : (peer % 2 ^ 16 * 2 ^ 16 + i % 2 ^ 16) / 2 ^ 16 ≡ peer % 2 ^ 16 = omega arith in
    let lo : (peer % 2 ^ 16 * 2 ^ 16 + i % 2 ^ 16) % 2 ^ 16 ≡ i = omega arith in λ k. (hi k, lo k)

update_same : {A : Type 0} (f : ℕ → A) (p : ℕ) → f ≡ update f p (f p)
update_same f p = fun_ext (λ q. elim (Bool-cases (q == p)) [
  | inl here ↦ rw here (ap f (==→eq q p here))
  | inr other ↦ rw other refl
])

fill_slot-size :
    (buf : List ℕ) (peer : ℕ) (s : Mailslot) → length (fill_slot buf peer s).buf ≡ length s.buf
unfolding fill_slot
fill_slot-size buf peer s =
    length-overwrite buf (set s.buf (length buf) 0) ∙ length-set s.buf (length buf) 0

fill_slot-Fills :
    (buf : List ℕ) (peer : ℕ) (s : Mailslot)
    → s.buflen ≡ 0
    → 0 < length buf
    → length buf ≤ length s.buf
    → Fills s (fill_slot buf peer s) peer buf
unfolding fill_slot
fill_slot-Fills buf peer s free some_text fits = record {
  was_free = free;
  nonempty = some_text;
  buflen_set = refl;
  responder_set = refl;
  payload =
      take-overwrite buf (set s.buf (length buf) 0)
        (omega (arith, length-set s.buf (length buf) 0));
}

-- the last step of sending
post_cases :
    (buf : List ℕ) (peer : ℕ) (a : Adapter) (w : World) (ret : ℤ) (a' : Adapter) (w' : World)
    → post_outgoing buf peer a w ≡ done ret a' w'
    → ((ltb 0 (w.mem a.my_slot).buflen ≡ true) × (a' ≡ a) × (w' ≡ w))
      ⊎ ((ltb 0 (w.mem a.my_slot).buflen ≡ false)
          × ((w.mem a.my_slot).buflen ≡ 0)
          × (a' ≡ record a { doorbell = ringer peer a.my_id ∷ a.doorbell })
          × (w'.mem ≡ update w.mem a.my_slot (fill_slot buf peer (w.mem a.my_slot))))
unfolding post_outgoing
post_cases buf peer a w ret a' w' e = elim (Bool-cases (ltb 0 (w.mem a.my_slot).buflen)) [
  | inl busy ↦ inl (ground (arith, busy))
  | inr free ↦ inr (ground (arith, free))
]

pub posts-Changes :
    {n : ℕ} {g : Globals} (s t : Fabric) (i : ℕ) (cid sid : ℤ) (buf : List ℕ) (ret : ℤ)
    (a : Adapter) (w : World)
    → IsSound n g s
    → IsClient n i
    → refuse_outgoing cid sid (length buf) (s.node i) ≡ none
    → post_outgoing buf (peer_of cid sid) (s.node i) (world_of s) ≡ done ret a w
    → t ≡ after s i a w (rung (s.node i).doorbell a.doorbell ++ s.bells)
    → Changes n s t (post_event i (peer_of cid sid) buf (ltb 0 (s.mem (s.node i).my_slot).buflen))
posts-Changes {n} s t i cid sid buf ret a w ok c accepted run is =
    let fine : Acceptable cid sid buf (s.node i) =
      refuse_outgoing-none cid sid buf (s.node i) accepted in
    let peer = peer_of cid sid in
    let old = s.mem (s.node i).my_slot in
    elim (post_cases buf peer (s.node i) (world_of s) ret a w run) [
      | inl (busy, same, same') ↦
          subst (λ b. Changes n s t (post_event i peer buf b)) (sym busy)
            (record {
              actor = i;
              owner = i;
              slot = old;
              effect = record {
                adapter = a;
                actor = c;
                owner = c;
                node_is = ap (λ (f : Fabric). f.node) is;
                mem_is =
                    ap (λ (f : Fabric). f.mem) is
                    ∙ (ap (λ (v : World). v.mem) same' ∙ update_same s.mem (s.node i).my_slot);
                size_kept = refl;
                layout_kept = ap (λ (x : Adapter). x.globals) same;
                id_kept = ap (λ (x : Adapter). x.my_id) same;
                slot_kept = ap (λ (x : Adapter). x.my_slot) same;
                room_kept = ap (λ (x : Adapter). x.max_buflen) same;
                incoming = inl (ap (λ (x : Adapter). x.incoming_slot) same);
              };
              change =
                  stays (record { buflen_kept = refl; responder_kept = refl; buf_kept = refl })
                    (ap (λ (f : Fabric). f.node) is
                      ∙ (ap (update s.node i) same ∙ sym (update_same s.node i)))
                    (ap (λ (f : Fabric). f.bells) is
                      ∙ ap (λ d. d ++ s.bells)
                          (ap (λ (x : Adapter). rung (s.node i).doorbell x.doorbell) same
                            ∙ rung_self (s.node i).doorbell));
            })
      | inr (vacant, free, same, mem_same) ↦
          subst (λ b. Changes n s t (post_event i peer buf b)) (sym vacant)
            (record {
              actor = i;
              owner = i;
              slot = fill_slot buf peer old;
              effect = record {
                adapter = a;
                actor = c;
                owner = c;
                node_is = ap (λ (f : Fabric). f.node) is;
                mem_is = ap (λ (f : Fabric). f.mem) is ∙ mem_same;
                size_kept = fill_slot-size buf peer old;
                layout_kept = ap (λ (x : Adapter). x.globals) same;
                id_kept = ap (λ (x : Adapter). x.my_id) same;
                slot_kept = ap (λ (x : Adapter). x.my_slot) same;
                room_kept = ap (λ (x : Adapter). x.max_buflen) same;
                incoming = inl (ap (λ (x : Adapter). x.incoming_slot) same);
              };
              change =
                  fills peer buf
                    (fill_slot-Fills buf peer old free fine.nonempty
                      (omega (arith, ok.sized i c, fine.fits)))
                    (ap (λ (f : Fabric). f.bells) is
                      ∙ ap (λ d. d ++ s.bells)
                          (ap (λ (x : Adapter). rung (s.node i).doorbell x.doorbell) same
                            ∙ (rung-cons (ringer peer (s.node i).my_id) (s.node i).doorbell
                                ∙ ap (λ (b : ℕ × ℕ). b ∷ [])
                                    (ap (λ k. split_ringer (ringer peer k)) (ok.id_of i c)
                                      ∙ split_ringer-ringer peer i
                                          (omega (arith, c.1, ok.narrow))))));
            })
    ]
