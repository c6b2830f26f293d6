-- ===== src/Msix/Deliver.antt =====
-- What an interrupt does: the sender is found by its vector, link messages stay in the handler, all
-- others reach the reader, and the lock is free again.
use emer_gen_z.Base.{
  ℕ, zero, suc, ◌+◌, ◌-◌, ◌≤◌, ◌<◌, ◌≡◌, refl, ◌≢◌, inl, inr, ◌==◌, Bool, true, false, Option, none,
  some, List, [], ◌∷◌, arith, if◌then◌else◌, length, get_elem?, Bool-cases, ◌∙◌, ap, ==-refl, ne→==,
}
use emer_gen_z.Fee.{MsixEntry, Mailslot, Adapter, World, done, update, and_then-done}
use emer_gen_z.Mailbox.{calculate_mailslot}
use emer_gen_z.Outgoing.{Env}
use emer_gen_z.Link.{
  fee_link_request, dispatch_link, stamp_peer, is_ping, is_peer_attribute, ctl_write_of,
}
use emer_gen_z.Link.Frame.{LinkKept, fee_link_request-LinkKept}
use emer_gen_z.Msix.Handler.{
  Search, hit, miss, overrun, match_vector, hand_over, serve_sender, serve_vector, search_table,
  all_msix,
}

-- one round of the search
match_step :
    (es : List MsixEntry) (v n i : ℕ) (d : MsixEntry)
    → get_elem? es i ≡ some d
    → match_vector es v (suc n) i ≡ (if d.vector == v then hit d else match_vector es v n (i + 1))
unfolding match_vector
match_step es v n i d at = rw (at, match_vector)

match_out :
    (es : List MsixEntry) (v n i : ℕ)
    → get_elem? es i ≡ none
    → match_vector es v (suc n) i ≡ overrun
unfolding match_vector
match_out es v n i out = rw (out, match_vector)

get_elem?-inside :
    (es : List MsixEntry) (i : ℕ) → i < length es → (d : MsixEntry) × (get_elem? es i ≡ some d)
get_elem?-inside [] i h = absurd (omega arith)
get_elem?-inside (d ∷ es) zero h = (d, refl)
get_elem?-inside (d ∷ es) (suc i) h = get_elem?-inside es i (omega arith)

-- In a table that is long enough the first entry with the vector is found.
pub match_vector-finds :
    (es : List MsixEntry) (v rounds i j : ℕ) (e : MsixEntry)
    → i ≤ j
    → j < i + rounds
    → get_elem? es j ≡ some e
    → e.vector ≡ v
    → i + rounds ≤ length es
    → ((l : ℕ) (d : MsixEntry) → i ≤ l → l < j → get_elem? es l ≡ some d → d.vector ≢ v)
    → match_vector es v rounds i ≡ hit e
match_vector-finds es v zero i j e lo hi at here room first = absurd (omega arith)
match_vector-finds es v (suc n) i j e lo hi at here room first = elim (Bool-cases (i == j)) [
  | inl same ↦
      let ij : j ≡ i = ground arith in match_step es v n i e (rw ij at at) ∙ (rw (here, ==-refl v))
  | inr later ↦
      let (d, at') = get_elem?-inside es i (omega arith) in
      match_step es v n i d at'
      ∙ rw (ne→== d.vector v (first i d (omega arith) (ground arith) at')) (
          match_vector-finds es v n (i + 1) j e (ground arith) (omega arith) at here (omega arith)
            (λ l c lo' hi' at''. first l c (omega arith) hi' at''))
]

-- Without an entry that has the vector the search fails.
pub match_vector-misses :
    (es : List MsixEntry) (v rounds i : ℕ)
    → i + rounds ≤ length es
    → ((l : ℕ) (d : MsixEntry) → i ≤ l → l < i + rounds → get_elem? es l ≡ some d → d.vector ≢ v)
    → match_vector es v rounds i ≡ miss
match_vector-misses es v zero i room none_has = unfold match_vector in refl
match_vector-misses es v (suc n) i room none_has =
    let (d, at) = get_elem?-inside es i (omega arith) in
    match_step es v n i d at
    ∙ rw (ne→== d.vector v (none_has i d (omega arith) (omega arith) at)) (
        match_vector-misses es v n (i + 1) (omega arith)
          (λ l c lo hi at'. none_has l c (omega arith) (omega arith) at'))

hand_over-unlocked :
    (p : ℕ) (handled : Bool) (a b : Adapter) (w : World) (h : Bool) (a' : Adapter) (w' : World)
    → LinkKept a handled b
    → hand_over p handled b w ≡ done h a' w'
    → a'.incoming_slot_locked ≡ false
unfolding hand_over
hand_over-unlocked p true a b w h a' w' k e =
    let same : a' ≡ b = ground arith in rw same (ap (λ (c : Adapter). c.incoming_slot_locked) k)
hand_over-unlocked p false a b w h a' w' k e = ground arith

serve_sender-unlocked :
    (env : Env) (o : Option ℕ) (a : Adapter) (w : World) (h : Bool) (a' : Adapter) (w' : World)
    → serve_sender env o a w ≡ done h a' w'
    → a'.incoming_slot_locked ≡ false
unfolding serve_sender
serve_sender-unlocked env none a w h a' w' e = ground arith
serve_sender-unlocked env (some p) a w h a' w' e =
    let (handled, b, v, run, rest) = and_then-done (fee_link_request env p a w) (hand_over p) e in
    hand_over-unlocked p handled a b v h a' w' (fee_link_request-LinkKept env p a w handled b v run)
      rest

serve_vector-unlocked :
    (env : Env) (r : Search) (a : Adapter) (w : World) (h : Bool) (a' : Adapter) (w' : World)
    → serve_vector env r a w ≡ done h a' w'
    → a'.incoming_slot_locked ≡ false
unfolding serve_vector
serve_vector-unlocked env miss a w h a' w' e = ground arith
serve_vector-unlocked env overrun a w h a' w' e = cc
serve_vector-unlocked env (hit d) a w h a' w' e =
    serve_sender-unlocked env (calculate_mailslot a.globals d.entry) a w h a' w' e

-- neither "ping", nor a request for the attributes, nor a CTL-Write
pub record IsOrdinary (s : Mailslot) : Type 0 where
  pub no_ping : is_ping s ≡ false
  pub no_attribute : is_peer_attribute s ≡ false
  pub no_write : ctl_write_of s ≡ none

ordinary_run :
    (env : Env) (p : ℕ) (a : Adapter) (w : World)
    → IsOrdinary (stamp_peer (w.mem p))
    → fee_link_request env p a w
      ≡ done false a (record w { mem = update w.mem p (stamp_peer (w.mem p)) })
unfolding fee_link_request dispatch_link
ordinary_run env p a w o = rw (o.no_ping, o.no_attribute, o.no_write) refl

module _ (env : Env) (v : ℕ) (a : Adapter) (w : World) where
  -- the adapter with the lock taken
  abbrev locked : Adapter
  locked = record a { incoming_slot_locked = true }

  all_msix-run :
      {es : List MsixEntry}
      → a.irq_private ≡ some es
      → all_msix env v a w
        ≡ serve_vector env (match_vector es v (a.globals.n_events - 1) 1) locked w
  unfolding all_msix search_table
  all_msix-run e = ap (λ (o : Option (List MsixEntry)). search_table env v o locked w) e

  -- A handler that returns has released the lock, on every path.
  pub all_msix-unlocked :
      (h : Bool) (a' : Adapter) (w' : World)
      → all_msix env v a w ≡ done h a' w'
      → a'.incoming_slot_locked ≡ false
  unfolding all_msix search_table
  all_msix-unlocked h a' w' e = go a.irq_private e
    where
      go :
          (o : Option (List MsixEntry))
          → search_table env v o locked w ≡ done h a' w'
          → a'.incoming_slot_locked ≡ false
      go none e = cc
      go (some es) e = serve_vector-unlocked env _ locked w h a' w' e

  -- Where no event has the vector, the interrupt is not ours and nothing changes.
  pub all_msix-unmatched :
      (es : List MsixEntry)
      → a.irq_private ≡ some es
      → 1 ≤ a.globals.n_events
      → a.globals.n_events ≤ length es
      → ((l : ℕ) (d : MsixEntry)
          → 1 ≤ l
          → l < a.globals.n_events
          → get_elem? es l ≡ some d
          → d.vector ≢ v)
      → all_msix env v a w ≡ done false (record a { incoming_slot_locked = false }) w
  all_msix-unmatched es table some_event room none_has =
      all_msix-run table
      ∙ (rw
          (match_vector-misses es v (a.globals.n_events - 1) 1 (omega arith)
            (λ l d lo hi. none_has l d lo (omega arith)))
          (unfold serve_vector in refl))

  -- A message that is none of the link layer's reaches the reader: its slot is where the reader
  -- waits, its text is untouched, and only the ids are added to it.
  pub all_msix-delivers :
      (es : List MsixEntry) (e : MsixEntry) (p : ℕ)
      → a.irq_private ≡ some es
      → match_vector es v (a.globals.n_events - 1) 1 ≡ hit e
      → calculate_mailslot a.globals e.entry ≡ some p
      → IsOrdinary (stamp_peer (w.mem p))
      → all_msix env v a w
        ≡ done true
            (record a { incoming_slot = some p; incoming_slot_locked = false })
            (record w { mem = update w.mem p (stamp_peer (w.mem p)) })
  all_msix-delivers es e p table found slot ordinary =
      all_msix-run table
      ∙ rw (found, slot_served)
          (unfold serve_sender in
            rw (ordinary_run env p locked w ordinary) (unfold hand_over in refl))
    where
      slot_served : serve_vector env (hit e) locked w ≡ serve_sender env (some p) locked w
      slot_served = unfold serve_vector in ap (λ (o : Option ℕ). serve_sender env o locked w) slot
